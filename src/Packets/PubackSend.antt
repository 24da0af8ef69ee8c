-- ===== src/Packets/PubackSend.antt =====
-- src/v5/packet/pubacks/mod.rs and src/packet/tx.rs: the lengths and the sending of a PUBACK, PUBREC,
-- PUBREL or PUBCOMP packet.
use rust_mqtt.Prelude.{
  ℕ, ◌+◌, ◌%◌, ◌^◌, Option, none, some, List, [], ◌∷◌, Outcome, returned, panicked, ◌>>=◌,
}
use rust_mqtt.Types.Pid.{PacketIdentifier}
use rust_mqtt.Types.ReasonCode.{ReasonCode}
use rust_mqtt.Types.ReasonCode
use rust_mqtt.Wire.Transport.{Writer, WriteError, Reply, ok}
use rust_mqtt.Wire.Feed.{and_then, map_err}
use rust_mqtt.Wire.Ints.{write_int, u8_len, u16_len}
use rust_mqtt.Wire.VarByteInt.{VarByteInt, new_unchecked}
use rust_mqtt.Wire.VarByteInt
use rust_mqtt.Wire.Header.{write}
use rust_mqtt.Wire.Strings.{StringPair, binary_len, pair_len, write_binary, write_pair}
use rust_mqtt.Packets.RxError.{TxError, from_write}
use rust_mqtt.Packets.PropertyType.{reason_string, user_property, type_len, write_property_type}
use rust_mqtt.Packets.AckType.{AckType, ack_flags, ack_packet_type, new_header}
use rust_mqtt.Packets.Puback.{PubackPacket}

-- `new` and `minimal`
abbrev pub new : PacketIdentifier → ReasonCode → Option (List ℕ) → List StringPair → PubackPacket
new pid code reason user = record {
  packet_identifier = pid;
  reason_code = code;
  reason_string = reason;
  user_properties = user;
}

abbrev pub minimal : PacketIdentifier → ReasonCode → PubackPacket
minimal pid code = new pid code none []

-- `written_len` of `Option<ReasonString>` and of `UserProperty`
unfoldable pub reason_string_len : Option (List ℕ) → ℕ
reason_string_len none = 0
reason_string_len (some s) = type_len + binary_len s

unfoldable pub user_property_len : StringPair → ℕ
user_property_len p = type_len + pair_len p

unfoldable pub user_properties_len : List StringPair → ℕ
unfolding user_property_len
user_properties_len [] = 0
user_properties_len (p ∷ ps) = user_property_len p + user_properties_len ps

-- `written_len` of a number that `new_unchecked` made.
unfoldable pub var_len : VarByteInt → Outcome ℕ
unfolding VarByteInt.written_len
var_len v = elim (VarByteInt.written_len v) [ some n ↦ returned n | none ↦ panicked ]

-- `properties_length`
unfoldable pub properties_length : PubackPacket → Outcome VarByteInt
unfolding new_unchecked reason_string_len user_properties_len
properties_length p =
    new_unchecked
      ((reason_string_len p.reason_string + user_properties_len p.user_properties) % 2 ^ 32)

-- `remaining_len`
unfoldable pub remaining_len : PubackPacket → Outcome VarByteInt
unfolding properties_length var_len new_unchecked
remaining_len p = do
  l ← properties_length p
  n ← var_len l
  new_unchecked ((u16_len + u8_len + (l + n)) % 2 ^ 32)

-- `TxPacket::encoded_len`
unfoldable pub encoded_len : PubackPacket → Outcome ℕ
unfolding remaining_len var_len
encoded_len p = do l ← remaining_len p; n ← var_len l; returned (u8_len + n + l)

module _ (w : Writer) where
  abbrev pub WriteReply : Type 0
  WriteReply = Outcome (Reply w.Sink (WriteError w.Error) Unit)

  -- `PacketIdentifier::write` and `ReasonCode::write`
  unfoldable pub write_packet_identifier : w.Sink → PacketIdentifier → WriteReply
  unfolding write_int
  write_packet_identifier s pid = write_int w 2 s pid

  unfoldable pub write_reason_code : w.Sink → ReasonCode → WriteReply
  unfolding write_int ReasonCode.value
  write_reason_code s c = write_int w 1 s (ReasonCode.value c)

  -- The writers that `property!` makes, and that of an `Option`.
  unfoldable pub write_reason_string : w.Sink → Option (List ℕ) → WriteReply
  unfolding write_property_type write_binary
  write_reason_string s none = returned (ok s tt)
  write_reason_string s (some v) =
      and_then (write_property_type w s reason_string) (λ s' _. write_binary w s' v)

  unfoldable pub write_user_property : w.Sink → StringPair → WriteReply
  unfolding write_property_type write_pair
  write_user_property s p =
      and_then (write_property_type w s user_property) (λ s' _. write_pair w s' p)

  unfoldable pub write_user_properties : w.Sink → List StringPair → WriteReply
  unfolding write_user_property
  write_user_properties s [] = returned (ok s tt)
  write_user_properties s (p ∷ ps) =
      and_then (write_user_property s p) (λ s' _. write_user_properties s' ps)

  -- The fields after the fixed header, the property length being `l`.
  unfoldable pub write_fields : w.Sink → VarByteInt → PubackPacket → WriteReply
  unfolding write_packet_identifier write_reason_code write_reason_string write_user_properties
  write_fields s l p = and_then (write_packet_identifier s p.packet_identifier) (λ s1 _.
      and_then (write_reason_code s1 p.reason_code) (λ s2 _.
        and_then (VarByteInt.write w s2 l) (λ s3 _.
          and_then (write_reason_string s3 p.reason_string)
            (λ s4 _. write_user_properties s4 p.user_properties))))

  -- `send`
  unfoldable pub send :
      AckType → w.Sink → PubackPacket → Outcome (Reply w.Sink (TxError w.Error) Unit)
  unfolding ack_packet_type ack_flags new_header write remaining_len properties_length write_fields
      from_write
  send t s p = do
    total ← remaining_len p
    l ← properties_length p
    map_err from_write (
        and_then (write w s (new_header (ack_packet_type t) (ack_flags t) total))
          (λ s' _. write_fields s' l p))
