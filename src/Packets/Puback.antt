-- ===== src/Packets/Puback.antt =====
-- src/v5/packet/pubacks/mod.rs: receiving a PUBACK, PUBREC, PUBREL or PUBCOMP packet; and the readers
-- of its fields in src/types/pid.rs, src/types/reason_code.rs and src/v5/property.
use rust_mqtt.Prelude.{
  ℕ, Bool, ◌==◌, ltb, not, if◌then◌else◌, Option, none, some, List, [], Outcome, returned,
}
use rust_mqtt.Types.Pid.{PacketIdentifier}
use rust_mqtt.Types.ReasonCode.{ReasonCode, success, from_byte}
use rust_mqtt.Wire.Transport.{Reader, ReadError, Reply, ok, err}
use rust_mqtt.Wire.Transport
use rust_mqtt.Wire.Feed.{and_then, map_err}
use rust_mqtt.Wire.Ints.{read_nonzero, read_u8}
use rust_mqtt.Wire.VarByteInt
use rust_mqtt.Wire.Header.{FixedHeader, flags}
use rust_mqtt.Wire.Body.{BufferProvider, Body, body_reader}
use rust_mqtt.Wire.Strings.{StringPair, read_string}
use rust_mqtt.Packets.RxError.{malformed_packet, protocol_error, from_read}
use rust_mqtt.Packets.PropertyType.{PropertyType, reason_string, user_property}
use rust_mqtt.Packets.Property.{RxReply}
use rust_mqtt.Packets.Whole.{set_value, push_pair, whole_loop}
use rust_mqtt.Packets.AckType.{AckType, ack_flags, reason_code_allowed}

-- `GenericPubackPacket`; the type parameter is an argument of the operations.
pub record PubackPacket : Type 0 where
  pub packet_identifier : PacketIdentifier
  pub reason_code : ReasonCode
  pub reason_string : Option (List ℕ)
  pub user_properties : List StringPair

-- The properties read so far.
pub record Properties : Type 0 where
  pub reason : Option (List ℕ)
  pub user : List StringPair

-- `PacketIdentifier::read`
unfoldable pub read_packet_identifier :
    (r : Reader) → r.Stream → Outcome (Reply r.Stream (ReadError r.Error) PacketIdentifier)
unfolding read_nonzero
read_packet_identifier r s = read_nonzero r 2 s

-- `ReasonCode::read`
unfoldable pub read_reason_code :
    (r : Reader) → r.Stream → Outcome (Reply r.Stream (ReadError r.Error) ReasonCode)
unfolding read_u8 from_byte
read_reason_code r s = and_then (read_u8 r s) (λ s' b. elim (from_byte b) [
  | some c ↦ returned (ok s' c)
  | none ↦ returned (err s' Transport.protocol_error)
])

module _ (utf8 : List ℕ → Bool) (net : Reader) (provider : BufferProvider) where
  module _ (max_user_properties : ℕ) where
    -- The arms of the match on the property type.
    unfoldable pub read_property :
        PropertyType → Body net provider → Properties → RxReply net provider Properties
    unfolding set_value push_pair read_string
    read_property t b ps = elim t [
      | reason_string ↦
          set_value net provider (read_string utf8 net provider)
            (λ o. record { reason = o; user = ps.user }) ps.reason b
      | user_property ↦
          push_pair net provider utf8 max_user_properties
            (λ us. record { reason = ps.reason; user = us }) ps.user b
      | _ ↦ returned (err b malformed_packet)
    ]

    module _ (t : AckType) where
      -- The reason code, left out when the remaining length is 2.
      unfoldable pub receive_reason_code :
          FixedHeader → Body net provider → RxReply net provider ReasonCode
      unfolding read_reason_code from_read reason_code_allowed
      receive_reason_code header b =
          let rest =
            and_then (map_err from_read (read_reason_code (body_reader net provider) b)) (λ b' c.
              if not (reason_code_allowed t c)
              then returned (err b' protocol_error)
              else returned (ok b' c)) in
          if header.remaining_len == 2 then returned (ok b success) else rest

      -- The property length, left out when the remaining length is less than 4.
      unfoldable pub receive_properties_length :
          FixedHeader → Body net provider → RxReply net provider ℕ
      unfolding from_read
      receive_properties_length header b =
          let rest = map_err from_read (VarByteInt.read (body_reader net provider) b) in
          if ltb header.remaining_len 4 then returned (ok b 0) else rest

      -- `receive`
      unfoldable pub receive : FixedHeader → Body net provider → RxReply net provider PubackPacket
      unfolding flags ack_flags read_packet_identifier receive_reason_code receive_properties_length
          whole_loop read_property from_read
      receive header b =
          if not (flags header == ack_flags t)
          then returned (err b malformed_packet)
          else and_then (map_err from_read (read_packet_identifier (body_reader net provider) b))
              (λ b1 pid. and_then (receive_reason_code header b1) (λ b2 code.
                and_then (receive_properties_length header b2) (λ b3 properties_length.
                  if not (b3.remaining_len == properties_length)
                  then returned (err b3 malformed_packet)
                  else and_then
                      (whole_loop net provider read_property b3.remaining_len b3
                        (record { reason = none; user = [] }))
                      (λ b4 ps. returned (
                        ok b4 (record {
                          packet_identifier = pid;
                          reason_code = code;
                          reason_string = ps.reason;
                          user_properties = ps.user;
                        }))))))
