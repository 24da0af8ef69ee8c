-- ===== src/Packets/Values.antt =====
-- src/v5/property/values.rs and src/config/mod.rs: the values of properties that have readers of their
-- own.
use rust_mqtt.Prelude.{ℕ, ◌==◌, if◌then◌else◌, none, some, Outcome, returned}
use rust_mqtt.Types.Qos.{Qos, try_from_bits}
use rust_mqtt.Wire.Transport.{Reader, ReadError, malformed_packet, protocol_error, Reply, ok, err}
use rust_mqtt.Wire.Feed.{and_then}
use rust_mqtt.Wire.Ints.{read_u8, read_u16, read_u32}
use rust_mqtt.Packets.Disconnect.{SessionExpiryInterval, end_on_disconnect, never_end, seconds}

-- The seconds are a nonzero u16, the limit a nonzero u32.
pub data KeepAlive : Type 0 where
  infinite : KeepAlive
  every : ℕ → KeepAlive

pub data MaximumPacketSize : Type 0 where
  unlimited : MaximumPacketSize
  limit : ℕ → MaximumPacketSize

-- `KeepAlive::as_u16`
unfoldable pub as_u16 : KeepAlive → ℕ
as_u16 infinite = 0
as_u16 (every s) = s

module _ (r : Reader) where
  abbrev Read : Type 0 → Type 0
  Read A = Outcome (Reply r.Stream (ReadError r.Error) A)

  unfoldable pub read_server_keep_alive : r.Stream → Read KeepAlive
  unfolding read_u16
  read_server_keep_alive s =
      and_then (read_u16 r s)
        (λ s' v. if v == 0 then returned (ok s' infinite) else returned (ok s' (every v)))

  unfoldable pub read_session_expiry : r.Stream → Read SessionExpiryInterval
  unfolding read_u32
  read_session_expiry s = and_then (read_u32 r s) (λ s' v.
      if v == 0
      then returned (ok s' end_on_disconnect)
      else if v == 4294967295
      then returned (ok s' never_end)
      else returned (ok s' (seconds v)))

  unfoldable pub read_maximum_qos : r.Stream → Read Qos
  unfolding read_u8 try_from_bits
  read_maximum_qos s = and_then (read_u8 r s) (λ s' v. elim (try_from_bits v) [
    | none ↦ returned (err s' malformed_packet)
    | some q ↦ returned (ok s' q)
  ])

  unfoldable pub read_maximum_packet_size : r.Stream → Read MaximumPacketSize
  unfolding read_u32
  read_maximum_packet_size s =
      and_then (read_u32 r s)
        (λ s' v. if v == 0 then returned (err s' protocol_error) else returned (ok s' (limit v)))

  unfoldable pub read_receive_maximum : r.Stream → Read ℕ
  unfolding read_u16
  read_receive_maximum s =
      and_then (read_u16 r s)
        (λ s' v. if v == 0 then returned (err s' protocol_error) else returned (ok s' v))
