-- ===== src/Packets/PubackErrors.antt =====
-- src/v5/packet/pubacks/mod.rs and src/v5/property: packets of a server that breaks the protocol.
use rust_mqtt.Prelude.{
  ℕ, ◌≤◌, ◌<◌, ◌≡◌, ◌≢◌, refl, Bool, true, false, List, [], ◌∷◌, ◌++◌, length, arith, returned,
  panicked, ◌==◌, ==_self, ==_ne, ltb,
}
use rust_mqtt.Types.Pid.{PacketIdentifier, IsPid}
use rust_mqtt.Types.ReasonCode.{ReasonCode, value}
use rust_mqtt.Wire.Transport.{Reader, err}
use rust_mqtt.Wire.Header.{FixedHeader, flags}
use rust_mqtt.Wire.Feed.{IsFed}
use rust_mqtt.Wire.Ints.{to_be_bytes, read_u16-feed}
use rust_mqtt.Wire.Body.{BufferProvider, Body, body_reader}
use rust_mqtt.Wire.BodyFeed.{HoldsBody, HasRoom, body-IsFed, skip-underflow}
use rust_mqtt.Wire.Compose.{Takes-map_err}
use rust_mqtt.Packets.RxError.{from_read, protocol_error}
use rust_mqtt.Packets.PropertyType.{user_property}
use rust_mqtt.Packets.AckType.{AckType, ack_flags, reason_code_allowed}
use rust_mqtt.Packets.Property.{skip_user_property}
use rust_mqtt.Packets.Puback.{
  Properties, read_packet_identifier, read_reason_code, receive_reason_code, read_property, receive,
}
use rust_mqtt.Packets.PubackWrite.{value_small}
use rust_mqtt.Packets.FieldsRead.{read_packet_identifier-feed, read_reason_code-feed}

module _ (net : Reader) (provider : BufferProvider) (holds : net.Stream → List ℕ → Type 0)
    (after : List ℕ) (fed : IsFed net holds) (room : HasRoom net provider holds after)
    (utf8 : List ℕ → Bool) (max_user_properties : ℕ) where
  abbrev Holds : Body net provider → List ℕ → Type 0
  Holds = HoldsBody net provider holds after

  -- A PUBACK, PUBREC, PUBREL or PUBCOMP packet with the right flags, a remaining length other than
  -- 2 and a nonzero identifier, whose reason code is not one of its type, is rejected with a
  -- protocol error after the reason code, with a transport that delivers its bytes in any parts.
  pub receive-refused_code :
      (t : AckType) (header : FixedHeader) (pid : PacketIdentifier) (c : ReasonCode) (rest : List ℕ)
      (b : Body net provider)
      → flags header ≡ ack_flags t
      → header.remaining_len ≢ 2
      → IsPid pid
      → reason_code_allowed t c ≡ false
      → Holds b (to_be_bytes 2 pid ++ ((value c ∷ []) ++ rest))
      → (b' : Body net provider) × (receive utf8 net provider max_user_properties t header b
          ≡ returned (err b' protocol_error))
        × Holds b' rest
  unfolding receive receive_reason_code
  receive-refused_code t header pid c rest b same long is_pid refused held =
      let (b1, e1, h1) =
        Takes-map_err Holds from_read (read_packet_identifier (body_reader net provider))
          (to_be_bytes 2 pid) pid
          (read_packet_identifier-feed net provider holds after fed room utf8 pid is_pid) b
          ((value c ∷ []) ++ rest) held in
      let (b2, e2, h2) =
        Takes-map_err Holds from_read (read_reason_code (body_reader net provider)) (value c ∷ []) c
          (read_reason_code-feed net provider holds after fed room utf8 c (value_small c)) b1 rest
          h1 in
      let flagged : (flags header == ack_flags t) ≡ true = rw (same) (==_self (ack_flags t)) in
      (b2, rw (flagged, e1, ==_ne header.remaining_len 2 long, e2, refused) refl, h2)

  -- When the client keeps no more user properties, a user property whose name is longer, by its
  -- length field, than what is left of the body makes the reader of the properties panic, by a
  -- subtraction below zero.
  pub read_property-panics :
      (ps : Properties) (n : ℕ) (rest : List ℕ) (b : Body net provider)
      → max_user_properties ≤ length ps.user
      → n < 65536
      → length rest < n
      → Holds b (to_be_bytes 2 n ++ rest)
      → read_property utf8 net provider max_user_properties user_property b ps ≡ panicked
  unfolding read_property skip_user_property
  read_property-panics ps n rest b full small long held =
      let (b1, e, h1) =
        read_u16-feed (body_reader net provider) Holds (body-IsFed net provider holds after fed) n
          small b rest held in
      let no_space : ltb (length ps.user) max_user_properties ≡ false = ground (arith) in
      let l = h1.1 in rw (no_space, e, skip-underflow net provider b1 n (omega arith)) refl
