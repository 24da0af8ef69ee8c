-- ===== src/Packets/ValuesRead.antt =====
-- src/v5/property/values.rs: the values of properties are read from their bytes.
use rust_mqtt.Prelude.{ℕ, ◌<◌, refl, List, [], ◌∷◌, arith, ==_ne}
use rust_mqtt.Types.Qos.{Qos, level, try_from_bits}
use rust_mqtt.Wire.Transport.{Reader}
use rust_mqtt.Wire.Feed.{IsFed, Takes}
use rust_mqtt.Wire.Compose.{Takes-end}
use rust_mqtt.Wire.Ints.{
  to_be_bytes, from-to_u32, read_int-feed, read_u8, read_u8-feed, read_u16, read_u16-feed, read_u32,
}
use rust_mqtt.Packets.Disconnect.{
  SessionExpiryInterval, end_on_disconnect, never_end, seconds, interval_value,
}
use rust_mqtt.Packets.Values.{
  KeepAlive, infinite, every, limit, as_u16, read_server_keep_alive, read_session_expiry,
  read_maximum_qos, read_maximum_packet_size, read_receive_maximum,
}

-- The numbers that the code keeps as nonzero ones of so many bits.
abbrev pub IsKeepAlive : KeepAlive → Type 0
IsKeepAlive infinite = Unit {0}
IsKeepAlive (every s) = (0 < s) × (s < 65536)

abbrev pub IsInterval : SessionExpiryInterval → Type 0
IsInterval end_on_disconnect = Unit {0}
IsInterval never_end = Unit {0}
IsInterval (seconds s) = (0 < s) × (s < 4294967295)

module _ (r : Reader) (holds : r.Stream → List ℕ → Type 0) (fed : IsFed r holds) where
  read_u32-Takes : (v : ℕ) → v < 4294967296 → Takes holds (read_u32 r) (to_be_bytes 4 v) v
  unfolding read_u32
  read_u32-Takes v h = read_int-feed r holds fed 4 v (from-to_u32 v h)

  pub read_server_keep_alive-feed :
      (k : KeepAlive)
      → IsKeepAlive k
      → Takes holds (read_server_keep_alive r) (to_be_bytes 2 (as_u16 k)) k
  unfolding read_server_keep_alive as_u16
  read_server_keep_alive-feed infinite h =
      Takes-end holds (read_u16 r) _ (to_be_bytes 2 0) 0 infinite
        (read_u16-feed r holds fed 0 (omega arith)) (λ s. refl)
  read_server_keep_alive-feed (every v) (lo, hi) =
      Takes-end holds (read_u16 r) _ (to_be_bytes 2 v) v (every v) (read_u16-feed r holds fed v hi)
        (λ s. rw (==_ne v 0 (omega arith)) refl)

  pub read_session_expiry-feed :
      (i : SessionExpiryInterval)
      → IsInterval i
      → Takes holds (read_session_expiry r) (to_be_bytes 4 (interval_value i)) i
  unfolding read_session_expiry interval_value
  read_session_expiry-feed end_on_disconnect h =
      Takes-end holds (read_u32 r) _ (to_be_bytes 4 0) 0 end_on_disconnect
        (read_u32-Takes 0 (omega arith)) (λ s. refl)
  read_session_expiry-feed never_end h =
      Takes-end holds (read_u32 r) _ (to_be_bytes 4 4294967295) 4294967295 never_end
        (read_u32-Takes 4294967295 (omega arith)) (λ s. refl)
  read_session_expiry-feed (seconds v) (lo, hi) =
      Takes-end holds (read_u32 r) _ (to_be_bytes 4 v) v (seconds v)
        (read_u32-Takes v (omega arith))
        (λ s. rw (==_ne v 0 (omega arith), ==_ne v 4294967295 (omega arith)) refl)

  pub read_maximum_qos-feed : (q : Qos) → Takes holds (read_maximum_qos r) (level q ∷ []) q
  unfolding read_maximum_qos level try_from_bits
  read_maximum_qos-feed Qos.at_most_once =
      Takes-end holds (read_u8 r) _ (0 ∷ []) 0 Qos.at_most_once
        (read_u8-feed r holds fed 0 (omega arith)) (λ s. refl)
  read_maximum_qos-feed Qos.at_least_once =
      Takes-end holds (read_u8 r) _ (1 ∷ []) 1 Qos.at_least_once
        (read_u8-feed r holds fed 1 (omega arith)) (λ s. refl)
  read_maximum_qos-feed Qos.exactly_once =
      Takes-end holds (read_u8 r) _ (2 ∷ []) 2 Qos.exactly_once
        (read_u8-feed r holds fed 2 (omega arith)) (λ s. refl)

  pub read_maximum_packet_size-feed :
      (v : ℕ)
      → 0 < v
      → v < 4294967296
      → Takes holds (read_maximum_packet_size r) (to_be_bytes 4 v) (limit v)
  unfolding read_maximum_packet_size
  read_maximum_packet_size-feed v lo hi =
      Takes-end holds (read_u32 r) _ (to_be_bytes 4 v) v (limit v) (read_u32-Takes v hi)
        (λ s. rw (==_ne v 0 (omega arith)) refl)

  pub read_receive_maximum-feed :
      (v : ℕ) → 0 < v → v < 65536 → Takes holds (read_receive_maximum r) (to_be_bytes 2 v) v
  unfolding read_receive_maximum
  read_receive_maximum-feed v lo hi =
      Takes-end holds (read_u16 r) _ (to_be_bytes 2 v) v v (read_u16-feed r holds fed v hi)
        (λ s. rw (==_ne v 0 (omega arith)) refl)
