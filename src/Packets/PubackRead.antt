-- ===== src/Packets/PubackRead.antt =====
-- src/v5/packet/pubacks/mod.rs: how the properties of a packet are read.
use rust_mqtt.Prelude.{
  ℕ, ◌≤◌, ◌≡◌, Bool, Option, none, List, [], ◌++◌, length, All, arith, returned,
}
use rust_mqtt.Wire.Transport.{Reader, ok}
use rust_mqtt.Wire.Feed.{IsFed}
use rust_mqtt.Wire.Body.{BufferProvider, Body}
use rust_mqtt.Wire.BodyFeed.{HoldsBody, HasRoom}
use rust_mqtt.Wire.Strings.{StringPair, read_string}
use rust_mqtt.Wire.StringRound.{binary_bytes, IsPair, IsString, read_string-feed}
use rust_mqtt.Packets.PropertyType.{reason_string}
use rust_mqtt.Packets.Puback.{read_property}
use rust_mqtt.Packets.PropertyBytes.{user_bytes}
use rust_mqtt.Packets.PropertyBytes.{Sometimes, property_bytes, optional_bytes}
use rust_mqtt.Packets.Whole.{whole_loop}
use rust_mqtt.Packets.WholeRead.{
  set_value-feed, push_pair-feed, WholeReads, whole_then, whole_optional, whole_users,
  whole_loop-feed,
}

module _ (net : Reader) (provider : BufferProvider) (holds : net.Stream → List ℕ → Type 0)
    (after : List ℕ) (fed : IsFed net holds) (room : HasRoom net provider holds after)
    (utf8 : List ℕ → Bool) (max_user_properties : ℕ) (reason : Option (List ℕ))
    (users : List StringPair) (valid : Sometimes (IsString utf8) reason)
    (valid_users : All (IsPair utf8) users) (few : length users ≤ max_user_properties) where
  properties-Reads :
      WholeReads net provider holds after fed room utf8
        (read_property utf8 net provider max_user_properties)
        (record { reason = none; user = [] })
        (optional_bytes (property_bytes reason_string binary_bytes) reason ++ user_bytes users)
        (record { reason = reason; user = users })
  unfolding read_property
  properties-Reads =
      let read = read_property utf8 net provider max_user_properties in
      whole_then net provider holds after fed room utf8 read (record { reason = none; user = [] })
        (record { reason = reason; user = [] }) (record { reason = reason; user = users })
        (optional_bytes (property_bytes reason_string binary_bytes) reason) (user_bytes users)
        (whole_optional net provider holds after fed room utf8 read reason_string
          (λ o. record { reason = o; user = [] }) binary_bytes (IsString utf8)
          (λ v h.
            set_value-feed net provider holds after fed room utf8 (read_string utf8 net provider)
              (λ o. record { reason = o; user = [] }) (binary_bytes v) v
              (read_string-feed net provider holds after fed room utf8 v h))
          reason valid)
        (whole_users net provider holds after fed room utf8 read
          (λ us. record { reason = reason; user = us }) (IsPair utf8) max_user_properties
          (λ us u h space.
            push_pair-feed net provider holds after fed room utf8 max_user_properties
              (λ us. record { reason = reason; user = us }) us u h space)
          [] users valid_users (omega arith))

  pub properties_loop-feed :
      (b : Body net provider)
      → HoldsBody net provider holds after b
          (optional_bytes (property_bytes reason_string binary_bytes) reason ++ user_bytes users)
      → (t : Body net provider) × (whole_loop net provider
            (read_property utf8 net provider max_user_properties)
            b.remaining_len
            b
            (record { reason = none; user = [] })
          ≡ returned (ok t (record { reason = reason; user = users })))
        × HoldsBody net provider holds after t []
  properties_loop-feed b held =
      whole_loop-feed net provider holds after fed room utf8
        (read_property utf8 net provider max_user_properties) (record { reason = none; user = [] })
        (record { reason = reason; user = users })
        (optional_bytes (property_bytes reason_string binary_bytes) reason ++ user_bytes users) b
        properties-Reads held
