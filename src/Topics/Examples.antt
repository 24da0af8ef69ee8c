-- ===== src/Topics/Examples.antt =====
-- Topic names and filters written out.
use rust_mqtt.Prelude.{ℕ, ◌≡◌, refl, true, false, not, ◌&&◌, some, List, [], ◌∷◌, ◌++◌, arith}
use rust_mqtt.Types.Qos.{Qos}
use rust_mqtt.Topics.Name.{slash_byte, is_empty, is_valid_name}
use rust_mqtt.Topics.Filter.{is_valid_filter, starts_with_share, has_wildcard}
use rust_mqtt.Topics.Levels.{levels, are_valid_levels, is_plain}
use rust_mqtt.Topics.Shared.{
  share_prefix, is_valid_shared, is_valid_filter-levels, is_valid_filter-shared,
  is_valid_filter-unfinished, is_valid_name-filter,
}
use rust_mqtt.Topics.Subscription.{SubscriptionOptions, never_send, new}

-- `a/+/#`
abbrev nested : List ℕ
nested = 0x61 ∷ 0x2F ∷ 0x2B ∷ 0x2F ∷ 0x23 ∷ []

-- `a#/b`
abbrev mixed : List ℕ
mixed = 0x61 ∷ 0x23 ∷ 0x2F ∷ 0x62 ∷ []

nested_accepted : is_valid_filter nested ≡ true
unfolding is_valid_filter
nested_accepted = refl

mixed_refused : is_valid_filter mixed ≡ false
unfolding is_valid_filter
mixed_refused = refl

is_valid_filter-levels_example :
    is_valid_filter nested ≡ not (is_empty nested) && are_valid_levels (levels nested)
unfolding starts_with_share
is_valid_filter-levels_example = is_valid_filter-levels nested refl

-- `$share/ab/a/+/#`
is_valid_filter-shared_example :
    is_valid_filter (share_prefix ++ ((0x61 ∷ 0x62 ∷ []) ++ (slash_byte ∷ nested)))
    ≡ is_valid_shared (0x61 ∷ 0x62 ∷ []) nested
is_valid_filter-shared_example = is_valid_filter-shared (0x61 ∷ 0x62 ∷ []) nested (refl, (refl, tt))

-- `$share/abc`
is_valid_filter-unfinished_example :
    is_valid_filter (share_prefix ++ (0x61 ∷ 0x62 ∷ 0x63 ∷ [])) ≡ true
unfolding is_plain
is_valid_filter-unfinished_example =
    is_valid_filter-unfinished (0x61 ∷ 0x62 ∷ 0x63 ∷ []) (refl, (refl, (refl, tt))) refl
      (omega arith)

is_valid_name-filter_example :
    is_valid_name nested ≡ is_valid_filter nested && not (has_wildcard nested)
unfolding starts_with_share
is_valid_name-filter_example = is_valid_name-filter nested refl

abbrev options : SubscriptionOptions
options = record {
  retain_handling = never_send;
  retain_as_published = true;
  no_local = true;
  qos = Qos.exactly_once;
}

options_byte : new nested options ≡ some (record { topic = nested; subscription_options = 0x2E })
unfolding new
options_byte = refl
