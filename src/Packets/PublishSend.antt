-- ===== src/Packets/PublishSend.antt =====
-- src/v5/packet/publish.rs: the lengths, the creation and the sending of a PUBLISH packet.
use rust_mqtt.Prelude.{
  ℕ, ◌+◌, ◌*◌, ◌%◌, ◌^◌, Bool, if◌then◌else◌, Option, none, some, List, [], length, Outcome,
  returned, panicked, ◌>>=◌,
}
use Prim.Native.Nat.{bit_or}
use rust_mqtt.Types.Qos.{IdentifiedQos, packet_identifier, qos_of, into_bits}
use rust_mqtt.Wire.Transport.{Writer, Reply}
use rust_mqtt.Wire.Feed.{and_then, map_err}
use rust_mqtt.Wire.Ints.{write_int, write_bool, u8_len, u16_len, u32_len}
use rust_mqtt.Wire.Transport.{write_bytes}
use rust_mqtt.Wire.VarByteInt.{VarByteInt}
use rust_mqtt.Wire.VarByteInt
use rust_mqtt.Wire.Header.{publish, write}
use rust_mqtt.Wire.Strings.{StringPair, binary_len, write_binary}
use rust_mqtt.Packets.RxError.{TxError, from_write}
use rust_mqtt.Packets.PropertyType.{
  payload_format_indicator, message_expiry_interval, topic_alias, response_topic, correlation_data,
  content_type,
}
use rust_mqtt.Packets.Property.{optional_len, property_len, Write, write_property, write_optional}
use rust_mqtt.Packets.AckType.{new_header}
use rust_mqtt.Packets.PubackSend.{
  user_properties_len, var_len, write_packet_identifier, write_user_properties,
}
use rust_mqtt.Packets.Publish.{TopicReference, alias_of, name_of, PublishPacket}

-- The topic name, or `EMPTY_TOPIC`.
unfoldable pub name_or_empty : TopicReference → List ℕ
unfolding name_of
name_or_empty t = elim (name_of t) [ some n ↦ n | none ↦ [] ]

-- The sum in `properties_length`.
unfoldable pub properties_sum : PublishPacket → ℕ
unfolding optional_len alias_of user_properties_len
properties_sum p =
    optional_len (property_len (λ v. u8_len)) p.payload_format_indicator
    + optional_len (property_len (λ v. u32_len)) p.message_expiry_interval
    + optional_len (property_len (λ v. u16_len)) (alias_of p.topic)
    + optional_len (property_len binary_len) p.response_topic
    + optional_len (property_len binary_len) p.correlation_data
    + user_properties_len p.user_properties
    + optional_len (property_len binary_len) p.content_type

-- `properties_length`
unfoldable pub properties_length : PublishPacket → Option VarByteInt
unfolding properties_sum VarByteInt.new
properties_length p = VarByteInt.new (properties_sum p % 2 ^ 32)

-- `remaining_len_raw`; `none` is `TooLargeToEncode`.
unfoldable pub remaining_len_raw : PublishPacket → Outcome (Option VarByteInt)
unfolding name_or_empty packet_identifier optional_len properties_length var_len VarByteInt.new
remaining_len_raw p = elim (properties_length p) [
  | none ↦ returned none
  | some l ↦ var_len l >>= λ n. returned (
      VarByteInt.new (
        (binary_len (name_or_empty p.topic)
          + optional_len (λ pid. u16_len) (packet_identifier p.identified_qos)
          + (l + n)
          + length p.message)
        % 2 ^ 32))
]

-- The packet that `new` makes of its arguments.
abbrev pub created :
    (dup : Bool)
    → IdentifiedQos
    → (retain : Bool) → TopicReference
    → Option Bool
    → Option ℕ
    → (response correlation : Option (List ℕ)) → List StringPair
    → (content : Option (List ℕ)) → (message : List ℕ) → PublishPacket
created dup qos retain topic payload_format expiry response correlation user content message =
    record {
      dup = dup;
      identified_qos = qos;
      retain = retain;
      topic = topic;
      payload_format_indicator = payload_format;
      message_expiry_interval = expiry;
      response_topic = response;
      correlation_data = correlation;
      user_properties = user;
      subscription_identifiers = [];
      content_type = content;
      message = message;
    }

-- `new`, on the packet that is made.
unfoldable pub new : PublishPacket → Outcome (Option PublishPacket)
unfolding remaining_len_raw
new p = remaining_len_raw p >>= λ r. returned (elim r [ none ↦ none | some l ↦ some p ])

-- `remaining_len`; its `unwrap_unchecked` is checked.
unfoldable pub remaining_len : PublishPacket → Outcome VarByteInt
unfolding remaining_len_raw
remaining_len p = remaining_len_raw p >>= λ r. elim r [ none ↦ panicked | some l ↦ returned l ]

-- `u8::from(self.dup) << 3 | qos.into_bits(1) | u8::from(self.retain)`
unfoldable pub publish_flags : PublishPacket → ℕ
unfolding qos_of into_bits
publish_flags p =
    bit_or
      (bit_or ((if p.dup then 1 else 0) * 2 ^ 3 % 2 ^ 8) (into_bits (qos_of p.identified_qos) 1))
      (if p.retain then 1 else 0)

module _ (w : Writer) where
  -- The properties and the message.
  unfoldable pub write_properties : w.Sink → PublishPacket → Write w
  unfolding write_optional write_property write_bool write_int write_binary write_user_properties
      alias_of
  write_properties s p =
      and_then
        (write_optional w (write_property w payload_format_indicator (write_bool w)) s
          p.payload_format_indicator)
        (λ s1 _.
          and_then
            (write_optional w (write_property w message_expiry_interval (write_int w 4)) s1
              p.message_expiry_interval)
            (λ s2 _.
              and_then
                (write_optional w (write_property w topic_alias (write_int w 2)) s2
                  (alias_of p.topic))
                (λ s3 _.
                  and_then
                    (write_optional w (write_property w response_topic (write_binary w)) s3
                      p.response_topic)
                    (λ s4 _.
                      and_then
                        (write_optional w (write_property w correlation_data (write_binary w)) s4
                          p.correlation_data)
                        (λ s5 _. and_then (write_user_properties w s5 p.user_properties) (λ s6 _.
                          write_optional w (write_property w content_type (write_binary w)) s6
                            p.content_type))))))

  -- The fields after the fixed header.
  unfoldable pub write_fields : w.Sink → PublishPacket → Write w
  unfolding write_binary name_or_empty write_optional write_packet_identifier packet_identifier
      properties_length write_properties write_bytes
  write_fields s p = and_then (write_binary w s (name_or_empty p.topic)) (λ s1 _.
      and_then
        (write_optional w (write_packet_identifier w) s1 (packet_identifier p.identified_qos))
        (λ s2 _.
          and_then (write_optional w (VarByteInt.write w) s2 (properties_length p))
            (λ s3 _. and_then (write_properties s3 p) (λ s4 _. write_bytes w s4 p.message))))

  -- `send`
  unfoldable pub send : w.Sink → PublishPacket → Outcome (Reply w.Sink (TxError w.Error) Unit)
  unfolding publish_flags new_header write remaining_len write_fields from_write
  send s p = remaining_len p >>= λ total. map_err from_write (
      and_then (write w s (new_header publish (publish_flags p) total)) (λ s' _. write_fields s' p))
