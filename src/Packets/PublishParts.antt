-- ===== src/Packets/PublishParts.antt =====
-- src/v5/packet/publish.rs: the loop over the properties reads what a packet has, part by part.
use rust_mqtt.Prelude.{ℕ, ◌<◌, Bool, List, [], length, arith, ◌≤◌}
use rust_mqtt.Wire.Transport.{Reader}
use rust_mqtt.Wire.Feed.{IsFed}
use rust_mqtt.Wire.Ints.{to_be_bytes}
use rust_mqtt.Wire.Body.{BufferProvider, Body}
use rust_mqtt.Wire.BodyFeed.{HoldsBody, HasRoom}
use rust_mqtt.Wire.Strings.{max_length}
use rust_mqtt.Wire.StringRound.{binary_bytes, IsString, IsPair}
use rust_mqtt.Packets.PropertyType.{
  PropertyType, payload_format_indicator, message_expiry_interval, topic_alias, response_topic,
  correlation_data, content_type,
}
use rust_mqtt.Packets.Property.{RxReply}
use rust_mqtt.Packets.CountedRead.{CountedReads, then_part, optional_part, users_part}
use rust_mqtt.Packets.Publish.{
  alias_of, PublishProperties, no_properties, PublishPacket, read_publish_property,
}
use rust_mqtt.Packets.PublishBytes.{bool_bytes, properties_bytes, IsTopic, IsPublish}
use rust_mqtt.Packets.PublishWrite.{any_value}
use rust_mqtt.Packets.PublishRead.{
  user-Step, payload_format-Step, expiry-Step, alias-Step, response-Step, correlation-Step,
  content-Step,
}

-- What the loop has read at its end.
abbrev pub properties_of : PublishPacket → PublishProperties
properties_of p = record {
  payload_format = p.payload_format_indicator;
  expiry = p.message_expiry_interval;
  alias = alias_of p.topic;
  response = p.response_topic;
  correlation = p.correlation_data;
  user = p.user_properties;
  subscriptions = [];
  content = p.content_type;
}

module _ (net : Reader) (provider : BufferProvider) (holds : net.Stream → List ℕ → Type 0)
    (after : List ℕ) (fed : IsFed net holds) (room : HasRoom net provider holds after)
    (utf8 : List ℕ → Bool) (max_subscription_identifiers max_user_properties : ℕ)
    (p : PublishPacket) (valid : IsPublish utf8 max_user_properties p) where
  abbrev Holds : Body net provider → List ℕ → Type 0
  Holds = HoldsBody net provider holds after

  abbrev read :
      PropertyType
      → Body net provider
      → PublishProperties
      → RxReply net provider (PublishProperties × ℕ)
  read = read_publish_property utf8 net provider max_subscription_identifiers max_user_properties

  abbrev pub Part : PublishProperties → List ℕ → PublishProperties → Type 0
  Part = CountedReads net provider holds after fed room utf8 read

  -- What has been read after each property.
  abbrev stage1 : PublishProperties
  stage1 = record no_properties { payload_format = p.payload_format_indicator }

  abbrev stage2 : PublishProperties
  stage2 = record stage1 { expiry = p.message_expiry_interval }

  abbrev stage3 : PublishProperties
  stage3 = record stage2 { alias = alias_of p.topic }

  abbrev stage4 : PublishProperties
  stage4 = record stage3 { response = p.response_topic }

  abbrev stage5 : PublishProperties
  stage5 = record stage4 { correlation = p.correlation_data }

  abbrev stage6 : PublishProperties
  stage6 = record stage5 { user = p.user_properties }

  pub properties-Part : Part no_properties (properties_bytes p) (properties_of p)
  properties-Part =
      then_part net provider holds after fed room utf8 read no_properties stage1 (properties_of p) _
        _
        (optional_part net provider holds after fed room utf8 read payload_format_indicator
          (λ o. record no_properties { payload_format = o }) bool_bytes (λ v. Unit {0})
          (λ v _.
            payload_format-Step net provider holds after fed room utf8 max_subscription_identifiers
              max_user_properties no_properties v)
          p.payload_format_indicator (any_value p.payload_format_indicator))
        (then_part net provider holds after fed room utf8 read stage1 stage2 (properties_of p) _ _
          (optional_part net provider holds after fed room utf8 read message_expiry_interval
            (λ o. record stage1 { expiry = o }) (to_be_bytes 4) (λ v. v < 4294967296)
            (expiry-Step net provider holds after fed room utf8 max_subscription_identifiers
              max_user_properties stage1)
            p.message_expiry_interval valid.expiry)
          (then_part net provider holds after fed room utf8 read stage2 stage3 (properties_of p) _ _
            (optional_part net provider holds after fed room utf8 read topic_alias
              (λ o. record stage2 { alias = o }) (to_be_bytes 2) (λ a. (0 < a) × (a < 65536))
              (alias-Step net provider holds after fed room utf8 max_subscription_identifiers
                max_user_properties stage2)
              (alias_of p.topic) valid.alias)
            (then_part net provider holds after fed room utf8 read stage3 stage4 (properties_of p) _
              _
              (optional_part net provider holds after fed room utf8 read response_topic
                (λ o. record stage3 { response = o }) binary_bytes (IsTopic utf8)
                (response-Step net provider holds after fed room utf8 max_subscription_identifiers
                  max_user_properties stage3)
                p.response_topic valid.response)
              (then_part net provider holds after fed room utf8 read stage4 stage5 (properties_of p)
                _ _
                (optional_part net provider holds after fed room utf8 read correlation_data
                  (λ o. record stage4 { correlation = o }) binary_bytes (λ s. length s ≤ max_length)
                  (correlation-Step net provider holds after fed room utf8
                    max_subscription_identifiers max_user_properties stage4)
                  p.correlation_data valid.correlation)
                (then_part net provider holds after fed room utf8 read stage5 stage6
                  (properties_of p) _ _
                  (users_part net provider holds after fed room utf8 read
                    (λ us. record stage5 { user = us }) (IsPair utf8) max_user_properties
                    (λ us u h space.
                      user-Step net provider holds after fed room utf8 max_subscription_identifiers
                        max_user_properties (record stage5 { user = us }) u h space)
                    [] p.user_properties valid.user (let few = valid.few in omega arith))
                  (optional_part net provider holds after fed room utf8 read content_type
                    (λ o. record stage6 { content = o }) binary_bytes (IsString utf8)
                    (content-Step net provider holds after fed room utf8
                      max_subscription_identifiers max_user_properties stage6)
                    p.content_type valid.content))))))
