-- ===== src/Packets/PublishBytes.antt =====
-- src/v5/packet/publish.rs: the bytes of a PUBLISH packet, and their number.
use rust_mqtt.Prelude.{
  ℕ, ◌+◌, ◌≤◌, ◌<◌, ◌≡◌, refl, Bool, true, if◌then◌else◌, Option, none, some, List, [], ◌∷◌, ◌++◌,
  length, All, arith, length-append,
}
use rust_mqtt.Types.Pid.{IsPid}
use rust_mqtt.Types.Qos.{packet_identifier}
use rust_mqtt.Wire.VarByteInt.{max_encodable}
use rust_mqtt.Wire.Encoding.{encoding}
use rust_mqtt.Wire.Ints.{to_be_bytes, length-to_be_bytes, u8_len, u16_len, u32_len}
use rust_mqtt.Wire.Strings.{binary_len, max_length}
use rust_mqtt.Wire.StringRound.{binary_bytes, length-binary_bytes, IsString, IsPair}
use rust_mqtt.Topics.Name.{topic_name}
use rust_mqtt.Packets.PropertyType.{
  PropertyType, payload_format_indicator, message_expiry_interval, topic_alias, response_topic,
  correlation_data, content_type,
}
use rust_mqtt.Packets.Property.{optional_len, property_len}
use rust_mqtt.Packets.PropertyBytes.{property_bytes, optional_bytes, Sometimes}
use rust_mqtt.Packets.PropertyBytes.{user_bytes}
use rust_mqtt.Packets.PubackBytes.{length-user_bytes}
use rust_mqtt.Packets.Publish.{alias_of, name_of, PublishPacket}
use rust_mqtt.Packets.PublishSend.{name_or_empty, properties_sum}

abbrev pub bool_bytes : Bool → List ℕ
bool_bytes v = (if v then 1 else 0) ∷ []

abbrev pub properties_bytes : PublishPacket → List ℕ
properties_bytes p =
    optional_bytes (property_bytes payload_format_indicator bool_bytes) p.payload_format_indicator
    ++ (optional_bytes (property_bytes message_expiry_interval (to_be_bytes 4))
          p.message_expiry_interval
        ++ (optional_bytes (property_bytes topic_alias (to_be_bytes 2)) (alias_of p.topic)
            ++ (optional_bytes (property_bytes response_topic binary_bytes) p.response_topic
                ++ (optional_bytes (property_bytes correlation_data binary_bytes) p.correlation_data
                    ++ (user_bytes p.user_properties
                        ++ optional_bytes (property_bytes content_type binary_bytes)
                            p.content_type)))))

abbrev pub identifier_bytes : PublishPacket → List ℕ
identifier_bytes p = optional_bytes (to_be_bytes 2) (packet_identifier p.identified_qos)

-- What comes after the fixed header.
abbrev pub fields_bytes : PublishPacket → List ℕ
fields_bytes p =
    binary_bytes (name_or_empty p.topic)
    ++ (identifier_bytes p
        ++ (encoding (length (properties_bytes p)) ++ (properties_bytes p ++ p.message)))

pub record IsTopic (utf8 : List ℕ → Bool) (name : List ℕ) : Type 0 where
  pub string : IsString utf8 name
  pub accepted : topic_name name ≡ some name

-- A packet that a client with room for so many user properties sends.
pub record IsPublish (utf8 : List ℕ → Bool) (max_user_properties : ℕ) (p : PublishPacket)
    : Type 0 where
  pub empty : utf8 [] ≡ true
  pub identified : Sometimes IsPid (packet_identifier p.identified_qos)
  pub name : Sometimes (IsTopic utf8) (name_of p.topic)
  pub alias : Sometimes (λ a. (0 < a) × (a < 65536)) (alias_of p.topic)
  pub expiry : Sometimes (λ v. v < 4294967296) p.message_expiry_interval
  pub response : Sometimes (IsTopic utf8) p.response_topic
  pub correlation : Sometimes (λ s. length s ≤ max_length) p.correlation_data
  pub user : All (IsPair utf8) p.user_properties
  pub few : length p.user_properties ≤ max_user_properties
  pub content : Sometimes (IsString utf8) p.content_type
  pub subscriptions : p.subscription_identifiers ≡ []
  pub fits : length (fields_bytes p) ≤ max_encodable

pub length-optional_bytes :
    {A : Type 0} (enc : A → List ℕ) (len : A → ℕ)
    → ((v : A) → length (enc v) ≡ len v)
    → (o : Option A) → length (optional_bytes enc o) ≡ optional_len len o
unfolding optional_bytes optional_len
length-optional_bytes enc len same none = refl
length-optional_bytes enc len same (some v) = same v

pub length-property_bytes :
    {A : Type 0} (t : PropertyType) (enc : A → List ℕ) (len : A → ℕ)
    → ((v : A) → length (enc v) ≡ len v)
    → (o : Option A)
    → length (optional_bytes (property_bytes t enc) o) ≡ optional_len (property_len len) o
length-property_bytes t enc len same o =
    length-optional_bytes (property_bytes t enc) (property_len len) (λ v. omega (arith, same v)) o

module _ (p : PublishPacket) where
  abbrev bytes1 : List ℕ
  bytes1 =
      optional_bytes (property_bytes payload_format_indicator bool_bytes) p.payload_format_indicator

  abbrev bytes2 : List ℕ
  bytes2 =
      optional_bytes (property_bytes message_expiry_interval (to_be_bytes 4))
        p.message_expiry_interval

  abbrev bytes3 : List ℕ
  bytes3 = optional_bytes (property_bytes topic_alias (to_be_bytes 2)) (alias_of p.topic)

  abbrev bytes4 : List ℕ
  bytes4 = optional_bytes (property_bytes response_topic binary_bytes) p.response_topic

  abbrev bytes5 : List ℕ
  bytes5 = optional_bytes (property_bytes correlation_data binary_bytes) p.correlation_data

  abbrev bytes7 : List ℕ
  bytes7 = optional_bytes (property_bytes content_type binary_bytes) p.content_type

  pub length-properties_bytes : length (properties_bytes p) ≡ properties_sum p
  unfolding properties_sum
  length-properties_bytes =
      let users = user_bytes p.user_properties in
      omega (
        arith,
        length-append bytes1 (bytes2 ++ (bytes3 ++ (bytes4 ++ (bytes5 ++ (users ++ bytes7))))),
        length-append bytes2 (bytes3 ++ (bytes4 ++ (bytes5 ++ (users ++ bytes7)))),
        length-append bytes3 (bytes4 ++ (bytes5 ++ (users ++ bytes7))),
        length-append bytes4 (bytes5 ++ (users ++ bytes7)),
        length-append bytes5 (users ++ bytes7),
        length-append users bytes7,
        length-property_bytes payload_format_indicator bool_bytes (λ v. u8_len) (λ v. refl)
            p.payload_format_indicator,
        length-property_bytes message_expiry_interval (to_be_bytes 4) (λ v. u32_len)
            (length-to_be_bytes 4) p.message_expiry_interval,
        length-property_bytes topic_alias (to_be_bytes 2) (λ v. u16_len) (length-to_be_bytes 2)
            (alias_of p.topic),
        length-property_bytes response_topic binary_bytes binary_len length-binary_bytes
            p.response_topic,
        length-property_bytes correlation_data binary_bytes binary_len length-binary_bytes
            p.correlation_data,
        length-user_bytes p.user_properties,
        length-property_bytes content_type binary_bytes binary_len length-binary_bytes
            p.content_type,
      )

  pub length-fields_bytes :
      length (fields_bytes p)
      ≡ binary_len (name_or_empty p.topic)
        + optional_len (λ pid. u16_len) (packet_identifier p.identified_qos)
        + (length (properties_bytes p) + length (encoding (length (properties_bytes p))))
        + length p.message
  length-fields_bytes =
      let number = encoding (length (properties_bytes p)) in
      omega (
        arith,
        length-append (binary_bytes (name_or_empty p.topic))
            (identifier_bytes p ++ (number ++ (properties_bytes p ++ p.message))),
        length-append (identifier_bytes p) (number ++ (properties_bytes p ++ p.message)),
        length-append number (properties_bytes p ++ p.message),
        length-append (properties_bytes p) p.message,
        length-binary_bytes (name_or_empty p.topic),
        length-optional_bytes (to_be_bytes 2) (λ pid. u16_len) (length-to_be_bytes 2)
            (packet_identifier p.identified_qos),
      )
