-- ===== src/Packets/PubackWrite.antt =====
-- src/v5/packet/pubacks/mod.rs: what `send` writes.
use rust_mqtt.Prelude.{
  ℕ, ◌%◌, ◌/◌, ◌<◌, ◌≡◌, refl, Bool, Option, none, some, List, [], ◌∷◌, ◌++◌, length, All, arith,
  returned,
}
use rust_mqtt.Types.ReasonCode.{ReasonCode, value}
use rust_mqtt.Wire.Transport.{Writer, IsOpen, ok}
use rust_mqtt.Wire.VarByteInt
use rust_mqtt.Wire.Encoding.{encoding}
use rust_mqtt.Wire.Ints.{to_be_bytes, write_int}
use rust_mqtt.Wire.Header.{write}
use rust_mqtt.Wire.Strings.{StringPair}
use rust_mqtt.Wire.WriteVar.{Appends, write-takes}
use rust_mqtt.Wire.RoundTrip.{write_header-takes}
use rust_mqtt.Wire.Compose.{Appends-then, Appends-nothing, Appends-bytes}
use rust_mqtt.Wire.StringRound.{
  binary_bytes, pair_bytes, IsPair, IsString, write_binary-takes, write_pair-takes,
}
use rust_mqtt.Packets.PropertyType.{
  PropertyType, identifier, identifier_small, reason_string, user_property, write_property_type,
}
use rust_mqtt.Packets.AckType.{AckType, ack_flags, ack_packet_type, new_header}
use rust_mqtt.Packets.Puback.{PubackPacket}
use rust_mqtt.Packets.PubackSend.{
  write_packet_identifier, write_reason_code, write_reason_string, write_user_property,
  write_user_properties, write_fields, send,
}
use rust_mqtt.Packets.PropertyBytes.{optional_bytes, Sometimes, user_bytes}
use rust_mqtt.Packets.PubackBytes.{
  reason_bytes, properties_bytes, fields_bytes, IsPuback, properties_bound, fields_bound,
  properties_length-bytes, remaining_len-bytes,
}

pub value_small : (c : ReasonCode) → value c < 256
unfolding value
value_small c = ground (arith)

module _ (w : Writer) (contents : w.Sink → List ℕ) (open_sink : IsOpen w contents) where
  pub write_byte-takes :
      (s : w.Sink) (b : ℕ) → b < 256 → Appends w contents open_sink s (write_int w 1 s b) (b ∷ [])
  unfolding write_int to_be_bytes
  write_byte-takes s b h =
      let same : b / 1 % 256 ≡ b = omega arith in
      rw (same) (Appends-bytes w contents open_sink s (b ∷ []))

  pub write_type-takes :
      (s : w.Sink) (t : PropertyType)
      → Appends w contents open_sink s (write_property_type w s t) (identifier t ∷ [])
  unfolding write_property_type
  write_type-takes s t =
      let small = identifier_small t in write_byte-takes s (identifier t) (omega arith)

  write_reason-takes :
      (utf8 : List ℕ → Bool) (s : w.Sink) (r : Option (List ℕ))
      → Sometimes (IsString utf8) r
      → Appends w contents open_sink s (write_reason_string w s r) (reason_bytes r)
  unfolding write_reason_string optional_bytes
  write_reason-takes utf8 s none h = Appends-nothing w contents open_sink s
  write_reason-takes utf8 s (some v) h =
      Appends-then w contents open_sink s (write_property_type w s reason_string) _
        (identifier reason_string ∷ []) (binary_bytes v) (write_type-takes s reason_string)
        (λ t. write_binary-takes w contents open_sink t v h.short)

  write_user-takes :
      (utf8 : List ℕ → Bool) (s : w.Sink) (p : StringPair)
      → IsPair utf8 p
      → Appends w contents open_sink s
          (write_user_property w s p)
          ((identifier user_property ∷ []) ++ pair_bytes p)
  unfolding write_user_property
  write_user-takes utf8 s p (name, value) =
      Appends-then w contents open_sink s (write_property_type w s user_property) _
        (identifier user_property ∷ []) (pair_bytes p) (write_type-takes s user_property)
        (λ t. write_pair-takes w contents open_sink t p name.short value.short)

  pub write_users-takes :
      (utf8 : List ℕ → Bool) (s : w.Sink) (ps : List StringPair)
      → All (IsPair utf8) ps
      → Appends w contents open_sink s (write_user_properties w s ps) (user_bytes ps)
  unfolding write_user_properties user_bytes
  write_users-takes utf8 s [] h = Appends-nothing w contents open_sink s
  write_users-takes utf8 s (p ∷ ps) (first, rest) =
      Appends-then w contents open_sink s (write_user_property w s p) _
        ((identifier user_property ∷ []) ++ pair_bytes p) (user_bytes ps)
        (write_user-takes utf8 s p first) (λ t. write_users-takes utf8 t ps rest)

  module _ (utf8 : List ℕ → Bool) (max_user_properties : ℕ) (t : AckType) (p : PubackPacket)
      (valid : IsPuback utf8 max_user_properties t p) where
    fields_takes :
        (s : w.Sink)
        → Appends w contents open_sink s
            (write_fields w s (length (properties_bytes p)) p)
            (fields_bytes p)
    unfolding write_fields write_packet_identifier write_reason_code write_int
    fields_takes s =
        let bound = properties_bound utf8 max_user_properties t p valid in
        Appends-then w contents open_sink s (write_packet_identifier w s p.packet_identifier) _ _ _
          (Appends-bytes w contents open_sink s (to_be_bytes 2 p.packet_identifier))
          (λ s1.
            Appends-then w contents open_sink s1 (write_reason_code w s1 p.reason_code) _
              (value p.reason_code ∷ []) _
              (write_byte-takes s1 (value p.reason_code) (value_small p.reason_code))
              (λ s2.
                Appends-then w contents open_sink s2
                  (VarByteInt.write w s2 (length (properties_bytes p))) _ _ _
                  (write-takes w contents open_sink s2 (length (properties_bytes p)) (omega arith))
                  (λ s3.
                    Appends-then w contents open_sink s3 (write_reason_string w s3 p.reason_string)
                      _ _ _ (write_reason-takes utf8 s3 p.reason_string valid.reason)
                      (λ s4. write_users-takes utf8 s4 p.user_properties valid.user))))

    pub send-takes :
        (s : w.Sink)
        → (s' : w.Sink) × (send w t s p ≡ returned (ok s' tt))
          × (contents s'
              ≡ contents s
                ++ (((new_header
                        (ack_packet_type t)
                        (ack_flags t)
                        (length (fields_bytes p))).type_and_flags
                      ∷ encoding (length (fields_bytes p)))
                    ++ fields_bytes p))
    unfolding send new_header
    send-takes s =
        let header = new_header (ack_packet_type t) (ack_flags t) (length (fields_bytes p)) in
        let (s', e, c) =
          Appends-then w contents open_sink s (write w s header)
            (λ s1 _. write_fields w s1 (length (properties_bytes p)) p) _ _
            (write_header-takes w contents open_sink s header
              (fields_bound utf8 max_user_properties t p valid))
            fields_takes in
        (
          s',
          rw
              (
                remaining_len-bytes utf8 max_user_properties t p valid,
                properties_length-bytes utf8 max_user_properties t p valid,
                e,
              )
              refl,
          c,
        )
