-- ===== src/Packets/AckType.antt =====
-- src/v5/packet/pubacks/types.rs: what PUBACK, PUBREC, PUBREL and PUBCOMP differ in.
use rust_mqtt.Prelude.{ℕ, Bool, true, false, ◌*◌, ◌^◌, ◌%◌}
use Prim.Native.Nat.{bit_or}
use rust_mqtt.Types.ReasonCode.{
  ReasonCode, success, no_matching_subscribers, unspecified_error, implementation_specific_error,
  not_authorized, topic_name_invalid, packet_identifier_in_use, quota_exceeded,
  payload_format_invalid, packet_identifier_not_found,
}
use rust_mqtt.Wire.Header.{PacketType, FixedHeader}
use rust_mqtt.Wire.Header
use rust_mqtt.Wire.VarByteInt.{VarByteInt}

pub data AckType : Type 0 where
  ack rec rel comp : AckType

-- `PACKET_TYPE`
unfoldable pub ack_packet_type : AckType → PacketType
ack_packet_type ack = Header.puback
ack_packet_type rec = Header.pubrec
ack_packet_type rel = Header.pubrel
ack_packet_type comp = Header.pubcomp

-- `FLAGS`
unfoldable pub ack_flags : AckType → ℕ
ack_flags ack = 0x00
ack_flags rec = 0x00
ack_flags rel = 0x02
ack_flags comp = 0x00

unfoldable pub is_ack_rec_reason_code : ReasonCode → Bool
is_ack_rec_reason_code c = elim c [
  | success ↦ true
  | no_matching_subscribers ↦ true
  | unspecified_error ↦ true
  | implementation_specific_error ↦ true
  | not_authorized ↦ true
  | topic_name_invalid ↦ true
  | packet_identifier_in_use ↦ true
  | quota_exceeded ↦ true
  | payload_format_invalid ↦ true
  | _ ↦ false
]

unfoldable pub is_rel_comp_reason_code : ReasonCode → Bool
is_rel_comp_reason_code c = elim c [
  | success ↦ true
  | packet_identifier_not_found ↦ true
  | _ ↦ false
]

unfoldable pub reason_code_allowed : AckType → ReasonCode → Bool
unfolding is_ack_rec_reason_code is_rel_comp_reason_code
reason_code_allowed ack c = is_ack_rec_reason_code c
reason_code_allowed rec c = is_ack_rec_reason_code c
reason_code_allowed rel c = is_rel_comp_reason_code c
reason_code_allowed comp c = is_rel_comp_reason_code c

-- `packet_type as u8`
unfoldable pub type_bits : PacketType → ℕ
type_bits Header.connect = 1
type_bits Header.connack = 2
type_bits Header.publish = 3
type_bits Header.puback = 4
type_bits Header.pubrec = 5
type_bits Header.pubrel = 6
type_bits Header.pubcomp = 7
type_bits Header.subscribe = 8
type_bits Header.suback = 9
type_bits Header.unsubscribe = 10
type_bits Header.unsuback = 11
type_bits Header.pingreq = 12
type_bits Header.pingresp = 13
type_bits Header.disconnect = 14
type_bits Header.auth = 15

-- `FixedHeader::new`
unfoldable pub new_header : PacketType → (flags : ℕ) → VarByteInt → FixedHeader
unfolding type_bits
new_header p flags remaining_len = record {
  type_and_flags = bit_or (type_bits p * 2 ^ 4 % 2 ^ 8) flags;
  remaining_len = remaining_len;
}
