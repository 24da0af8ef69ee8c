-- ===== src/Packets/FieldsRead.antt =====
-- src/types/pid.rs, src/types/reason_code.rs and src/v5/property/types.rs: how the fields that packets
-- share are read.
use rust_mqtt.Prelude.{ℕ, ◌≤◌, ◌<◌, refl, Bool, List, [], ◌∷◌, arith, ==_ne}
use rust_mqtt.Types.Pid.{PacketIdentifier, IsPid}
use rust_mqtt.Types.ReasonCode.{ReasonCode, value}
use rust_mqtt.Types.RoundTrip.{from_byte-value}
use rust_mqtt.Wire.Transport.{Reader}
use rust_mqtt.Wire.VarByteInt
use rust_mqtt.Wire.Encoding.{encoding}
use rust_mqtt.Wire.Feed.{IsFed, Takes, feed-Delivers}
use rust_mqtt.Wire.ReadVar.{read-encoding}
use rust_mqtt.Wire.Ints.{
  to_be_bytes, from-to_u16, read_int, read_int-feed, read_nonzero, read_u8, read_u8-feed,
}
use rust_mqtt.Wire.Body.{BufferProvider, Body, body_reader}
use rust_mqtt.Wire.BodyFeed.{HoldsBody, HasRoom, body-IsFed}
use rust_mqtt.Wire.Compose.{Takes-end}
use rust_mqtt.Packets.PropertyType.{
  PropertyType, identifier, identifier_small, from_identifier_iff, read_property_type,
}
use rust_mqtt.Packets.Puback.{read_packet_identifier, read_reason_code}

module _ (net : Reader) (provider : BufferProvider) (holds : net.Stream → List ℕ → Type 0)
    (after : List ℕ) (fed : IsFed net holds) (room : HasRoom net provider holds after)
    (utf8 : List ℕ → Bool) where
  -- The body, and what it holds.
  abbrev body : Reader
  body = body_reader net provider

  abbrev Holds : Body net provider → List ℕ → Type 0
  Holds = HoldsBody net provider holds after

  abbrev body_fed : IsFed body Holds
  body_fed = body-IsFed net provider holds after fed

  pub read_packet_identifier-feed :
      (pid : PacketIdentifier)
      → IsPid pid
      → Takes Holds (read_packet_identifier body) (to_be_bytes 2 pid) pid
  unfolding read_packet_identifier read_nonzero
  read_packet_identifier-feed pid (lo, hi) =
      Takes-end Holds (read_int body 2) _ (to_be_bytes 2 pid) pid pid
        (read_int-feed body Holds body_fed 2 pid (from-to_u16 pid hi))
        (λ s. rw (==_ne pid 0 (omega arith)) refl)

  pub read_reason_code-feed :
      (c : ReasonCode) → value c < 256 → Takes Holds (read_reason_code body) (value c ∷ []) c
  unfolding read_reason_code
  read_reason_code-feed c h =
      Takes-end Holds (read_u8 body) _ (value c ∷ []) (value c) c
        (read_u8-feed body Holds body_fed (value c) h) (λ s. rw (from_byte-value c) refl)

  pub read_property_type-feed :
      (t : PropertyType) → Takes Holds (read_property_type body) (identifier t ∷ []) t
  unfolding read_property_type
  read_property_type-feed t =
      let small = identifier_small t in
      Takes-end Holds (read_u8 body) _ (identifier t ∷ []) (identifier t) t
        (read_u8-feed body Holds body_fed (identifier t) (omega arith))
        (λ s. rw ((from_identifier_iff t (identifier t)).1 refl) refl)

  pub read_var-feed :
      (x : ℕ) → x ≤ VarByteInt.max_encodable → Takes Holds (VarByteInt.read body) (encoding x) x
  read_var-feed x h b rest held =
      let (t, d, h') = feed-Delivers body Holds body_fed (encoding x) rest b held in
      (t, read-encoding body b t x h d, h')
