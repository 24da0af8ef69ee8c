-- ===== src/Packets/PublishWrite.antt =====
-- src/v5/packet/publish.rs: what `send` writes.
use rust_mqtt.Prelude.{
  ℕ, ◌≤◌, ◌<◌, ◌≡◌, refl, Bool, Option, none, some, List, ◌∷◌, ◌++◌, length, arith, returned,
}
use rust_mqtt.Types.Pid.{PacketIdentifier, IsPid}
use rust_mqtt.Types.Qos.{packet_identifier}
use rust_mqtt.Wire.Transport.{Writer, IsOpen, ok}
use rust_mqtt.Wire.VarByteInt.{max_encodable}
use rust_mqtt.Wire.VarByteInt
use rust_mqtt.Wire.Encoding.{encoding}
use rust_mqtt.Wire.Ints.{to_be_bytes, write_int, write_bool}
use rust_mqtt.Wire.Header.{FixedHeader, publish, write}
use rust_mqtt.Wire.Strings.{max_length, write_binary}
use rust_mqtt.Wire.WriteVar.{Appends, write-takes}
use rust_mqtt.Wire.RoundTrip.{write_header-takes}
use rust_mqtt.Wire.Compose.{Appends-then, Appends-bytes}
use rust_mqtt.Wire.StringRound.{binary_bytes, write_binary-takes, IsString}
use rust_mqtt.Packets.PropertyType.{
  payload_format_indicator, message_expiry_interval, topic_alias, response_topic, correlation_data,
  content_type,
}
use rust_mqtt.Packets.Property.{write_optional}
use rust_mqtt.Packets.PropertyWrite.{
  write_bool-takes, write_optional-takes, optional_property-takes,
}
use rust_mqtt.Packets.PropertyBytes.{Sometimes}
use rust_mqtt.Packets.AckType.{new_header}
use rust_mqtt.Packets.PubackSend.{write_packet_identifier}
use rust_mqtt.Packets.PubackWrite.{write_users-takes}
use rust_mqtt.Packets.Publish.{
  TopicReference, named, aliased, mapped, alias_of, name_of, PublishPacket,
}
use rust_mqtt.Packets.PublishSend.{
  name_or_empty, properties_length, publish_flags, write_properties, write_fields, send,
}
use rust_mqtt.Packets.PublishBytes.{
  bool_bytes, properties_bytes, fields_bytes, IsTopic, IsPublish, length-fields_bytes,
}
use rust_mqtt.Packets.PublishLimits.{properties_length-bytes, remaining_len-bytes}

-- The fixed header of a packet.
abbrev pub publish_header : PublishPacket → FixedHeader
publish_header p = new_header publish (publish_flags p) (length (fields_bytes p))

-- All bytes of a packet.
abbrev pub packet_bytes : PublishPacket → List ℕ
packet_bytes p =
    ((publish_header p).type_and_flags ∷ encoding (length (fields_bytes p))) ++ fields_bytes p

pub name_or_empty-short :
    (utf8 : List ℕ → Bool) (t : TopicReference)
    → Sometimes (IsTopic utf8) (name_of t)
    → length (name_or_empty t) ≤ max_length
unfolding name_or_empty name_of
name_or_empty-short utf8 (named n) h = h.string.short
name_or_empty-short utf8 (aliased a) h = omega arith
name_or_empty-short utf8 (mapped n a) h = h.string.short

-- A property that any value may be written for.
pub any_value : {A : Type 0} (o : Option A) → Sometimes (λ v. Unit {0}) o
any_value none = tt
any_value (some v) = tt

module _ (w : Writer) (contents : w.Sink → List ℕ) (open_sink : IsOpen w contents)
    (utf8 : List ℕ → Bool) (max_user_properties : ℕ) (p : PublishPacket)
    (valid : IsPublish utf8 max_user_properties p) where
  int_takes :
      (size : ℕ) (s : w.Sink) (v : ℕ)
      → Appends w contents open_sink s (write_int w size s v) (to_be_bytes size v)
  unfolding write_int
  int_takes size s v = Appends-bytes w contents open_sink s (to_be_bytes size v)

  identifier_takes :
      (s : w.Sink) (pid : PacketIdentifier)
      → Appends w contents open_sink s (write_packet_identifier w s pid) (to_be_bytes 2 pid)
  unfolding write_packet_identifier
  identifier_takes s pid = int_takes 2 s pid

  properties_takes :
      (s : w.Sink) → Appends w contents open_sink s (write_properties w s p) (properties_bytes p)
  unfolding write_properties
  properties_takes s =
      Appends-then w contents open_sink s _ _ _ _
        (optional_property-takes w contents open_sink (write_bool w) bool_bytes (λ v. Unit {0})
          (λ s v _. write_bool-takes w contents open_sink s v) payload_format_indicator s
          p.payload_format_indicator (any_value p.payload_format_indicator))
        (λ s1.
          Appends-then w contents open_sink s1 _ _ _ _
            (optional_property-takes w contents open_sink (write_int w 4) (to_be_bytes 4)
              (λ v. v < 4294967296) (λ s v _. int_takes 4 s v) message_expiry_interval s1
              p.message_expiry_interval valid.expiry)
            (λ s2.
              Appends-then w contents open_sink s2 _ _ _ _
                (optional_property-takes w contents open_sink (write_int w 2) (to_be_bytes 2)
                  (λ a. (0 < a) × (a < 65536)) (λ s v _. int_takes 2 s v) topic_alias s2
                  (alias_of p.topic) valid.alias)
                (λ s3.
                  Appends-then w contents open_sink s3 _ _ _ _
                    (optional_property-takes w contents open_sink (write_binary w) binary_bytes
                      (IsTopic utf8)
                      (λ s v h. write_binary-takes w contents open_sink s v h.string.short)
                      response_topic s3 p.response_topic valid.response)
                    (λ s4.
                      Appends-then w contents open_sink s4 _ _ _ _
                        (optional_property-takes w contents open_sink (write_binary w) binary_bytes
                          (λ s. length s ≤ max_length) (write_binary-takes w contents open_sink)
                          correlation_data s4 p.correlation_data valid.correlation)
                        (λ s5.
                          Appends-then w contents open_sink s5 _ _ _ _
                            (write_users-takes w contents open_sink utf8 s5 p.user_properties
                              valid.user)
                            (λ s6.
                              optional_property-takes w contents open_sink (write_binary w)
                                binary_bytes (IsString utf8)
                                (λ s v h. write_binary-takes w contents open_sink s v h.short)
                                content_type s6 p.content_type valid.content))))))

  fields_takes : (s : w.Sink) → Appends w contents open_sink s (write_fields w s p) (fields_bytes p)
  unfolding write_fields write_optional
  fields_takes s =
      let fits = valid.fits in
      let small : length (properties_bytes p) ≤ max_encodable =
        omega (arith, length-fields_bytes p) in
      Appends-then w contents open_sink s _ _ _ _
        (write_binary-takes w contents open_sink s (name_or_empty p.topic)
          (name_or_empty-short utf8 p.topic valid.name))
        (λ s1.
          Appends-then w contents open_sink s1 _ _ _ _
            (write_optional-takes w contents open_sink (write_packet_identifier w) (to_be_bytes 2)
              IsPid (λ s v _. identifier_takes s v) s1 (packet_identifier p.identified_qos)
              valid.identified)
            (λ s2.
              Appends-then w contents open_sink s2
                (write_optional w (VarByteInt.write w) s2 (properties_length p)) _
                (encoding (length (properties_bytes p))) _
                (rw (properties_length-bytes p small)
                  (write-takes w contents open_sink s2 (length (properties_bytes p)) small))
                (λ s3.
                  Appends-then w contents open_sink s3 _ _ _ _ (properties_takes s3)
                    (λ s4. Appends-bytes w contents open_sink s4 p.message))))

  pub send-takes :
      (s : w.Sink)
      → (s' : w.Sink) × (send w s p ≡ returned (ok s' tt))
        × (contents s' ≡ contents s ++ packet_bytes p)
  unfolding send new_header
  send-takes s =
      let (s', e, c) =
        Appends-then w contents open_sink s (write w s (publish_header p))
          (λ s1 _. write_fields w s1 p) _ _
          (write_header-takes w contents open_sink s (publish_header p) valid.fits) fields_takes in
      (s', rw (remaining_len-bytes p valid.fits, e) refl, c)
