-- ===== src/Packets/PublishRead.antt =====
-- src/v5/packet/publish.rs: how the properties of a PUBLISH packet are read.
use rust_mqtt.Prelude.{
  ℕ, ◌≤◌, ◌<◌, refl, Bool, true, false, none, some, List, [], ◌∷◌, ◌++◌, length, arith, ==_ne,
}
use rust_mqtt.Wire.Transport.{Reader}
use rust_mqtt.Wire.Feed.{IsFed, Takes}
use rust_mqtt.Wire.Ints.{
  to_be_bytes, length-to_be_bytes, from-to_u16, from-to_u32, read_int, read_int-feed, read_u8,
  read_u8-feed, read_u32, read_bool, read_nonzero, u8_len, u16_len, u32_len,
}
use rust_mqtt.Wire.Body.{BufferProvider, Body, body_reader}
use rust_mqtt.Wire.BodyFeed.{HoldsBody, HasRoom, body-IsFed}
use rust_mqtt.Wire.Compose.{Takes-end}
use rust_mqtt.Wire.Strings.{
  StringPair, binary_len, max_length, read_string, read_binary, read_topic_name,
}
use rust_mqtt.Wire.StringRound.{
  binary_bytes, pair_bytes, length-binary_bytes, IsString, IsPair, read_binary-feed,
  read_string-feed,
}
use rust_mqtt.Packets.PropertyType.{
  PropertyType, payload_format_indicator, message_expiry_interval, topic_alias, response_topic,
  correlation_data, user_property, content_type,
}
use rust_mqtt.Packets.CountedRead.{set_property-feed, push_user-feed, One}
use rust_mqtt.Packets.Publish.{PublishProperties, read_publish_property}
use rust_mqtt.Packets.PublishBytes.{bool_bytes, IsTopic}

module _ (net : Reader) (provider : BufferProvider) (holds : net.Stream → List ℕ → Type 0)
    (after : List ℕ) (fed : IsFed net holds) (room : HasRoom net provider holds after)
    (utf8 : List ℕ → Bool) where
  abbrev Holds : Body net provider → List ℕ → Type 0
  Holds = HoldsBody net provider holds after

  abbrev body : Reader
  body = body_reader net provider

  abbrev body_fed : IsFed body Holds
  body_fed = body-IsFed net provider holds after fed

  pub read_bool-feed : (v : Bool) → Takes Holds (read_bool body) (bool_bytes v) v
  unfolding read_bool
  read_bool-feed true =
      Takes-end Holds (read_u8 body) _ (1 ∷ []) 1 true
        (read_u8-feed body Holds body_fed 1 (omega arith)) (λ s. refl)
  read_bool-feed false =
      Takes-end Holds (read_u8 body) _ (0 ∷ []) 0 false
        (read_u8-feed body Holds body_fed 0 (omega arith)) (λ s. refl)

  pub read_u32-feed : (v : ℕ) → v < 4294967296 → Takes Holds (read_u32 body) (to_be_bytes 4 v) v
  unfolding read_u32
  read_u32-feed v h = read_int-feed body Holds body_fed 4 v (from-to_u32 v h)

  pub read_nonzero-feed :
      (v : ℕ) → 0 < v → v < 65536 → Takes Holds (read_nonzero body 2) (to_be_bytes 2 v) v
  unfolding read_nonzero
  read_nonzero-feed v lo hi =
      Takes-end Holds (read_int body 2) _ (to_be_bytes 2 v) v v
        (read_int-feed body Holds body_fed 2 v (from-to_u16 v hi))
        (λ s. rw (==_ne v 0 (omega arith)) refl)

  pub read_topic_name-feed :
      (n : List ℕ)
      → IsTopic utf8 n
      → Takes Holds (read_topic_name utf8 net provider) (binary_bytes n) n
  unfolding read_topic_name
  read_topic_name-feed n h =
      Takes-end Holds (read_string utf8 net provider) _ (binary_bytes n) n n
        (read_string-feed net provider holds after fed room utf8 n h.string)
        (λ s. rw (h.accepted) refl)

  module _ (max_subscription_identifiers max_user_properties : ℕ) where
    abbrev pub Step : PropertyType → PublishProperties → List ℕ → PublishProperties → Type 0
    Step =
        One net provider holds after fed room utf8
          (read_publish_property utf8 net provider max_subscription_identifiers max_user_properties)

    pub user-Step :
        (ps : PublishProperties) (u : StringPair)
        → IsPair utf8 u
        → length ps.user < max_user_properties
        → Step user_property ps (pair_bytes u) (record ps { user = ps.user ++ (u ∷ []) })
    unfolding read_publish_property
    user-Step ps u valid space =
        push_user-feed net provider holds after fed room utf8 max_user_properties
          (λ us. record ps { user = us }) ps.user u valid space

    module _ (ps : PublishProperties) where
      pub payload_format-Step :
          (v : Bool)
          → Step payload_format_indicator
              (record ps { payload_format = none })
              (bool_bytes v)
              (record ps { payload_format = some v })
      unfolding read_publish_property
      payload_format-Step v =
          set_property-feed net provider holds after fed room utf8 (read_bool body) (λ v. u8_len)
            (λ o. record ps { payload_format = o }) (bool_bytes v) v (read_bool-feed v) refl

      pub expiry-Step :
          (v : ℕ)
          → v < 4294967296
          → Step message_expiry_interval
              (record ps { expiry = none })
              (to_be_bytes 4 v)
              (record ps { expiry = some v })
      unfolding read_publish_property
      expiry-Step v h =
          set_property-feed net provider holds after fed room utf8 (read_u32 body) (λ v. u32_len)
            (λ o. record ps { expiry = o }) (to_be_bytes 4 v) v (read_u32-feed v h)
            (length-to_be_bytes 4 v)

      pub alias-Step :
          (v : ℕ)
          → (0 < v) × (v < 65536)
          → Step topic_alias
              (record ps { alias = none })
              (to_be_bytes 2 v)
              (record ps { alias = some v })
      unfolding read_publish_property
      alias-Step v (lo, hi) =
          set_property-feed net provider holds after fed room utf8 (read_nonzero body 2)
            (λ v. u16_len) (λ o. record ps { alias = o }) (to_be_bytes 2 v) v
            (read_nonzero-feed v lo hi) (length-to_be_bytes 2 v)

      pub response-Step :
          (v : List ℕ)
          → IsTopic utf8 v
          → Step response_topic
              (record ps { response = none })
              (binary_bytes v)
              (record ps { response = some v })
      unfolding read_publish_property
      response-Step v h =
          set_property-feed net provider holds after fed room utf8
            (read_topic_name utf8 net provider) binary_len (λ o. record ps { response = o })
            (binary_bytes v) v (read_topic_name-feed v h) (length-binary_bytes v)

      pub correlation-Step :
          (v : List ℕ)
          → length v ≤ max_length
          → Step correlation_data
              (record ps { correlation = none })
              (binary_bytes v)
              (record ps { correlation = some v })
      unfolding read_publish_property
      correlation-Step v h =
          set_property-feed net provider holds after fed room utf8 (read_binary utf8 net provider)
            binary_len (λ o. record ps { correlation = o }) (binary_bytes v) v
            (read_binary-feed net provider holds after fed room utf8 v h) (length-binary_bytes v)

      pub content-Step :
          (v : List ℕ)
          → IsString utf8 v
          → Step content_type
              (record ps { content = none })
              (binary_bytes v)
              (record ps { content = some v })
      unfolding read_publish_property
      content-Step v h =
          set_property-feed net provider holds after fed room utf8 (read_string utf8 net provider)
            binary_len (λ o. record ps { content = o }) (binary_bytes v) v
            (read_string-feed net provider holds after fed room utf8 v h) (length-binary_bytes v)
