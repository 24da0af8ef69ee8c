-- ===== src/Packets/PropertyBytes.antt =====
-- src/v5/property/values.rs: the bytes of properties.
use rust_mqtt.Prelude.{ℕ, Option, none, some, List, [], ◌∷◌, ◌++◌}
use rust_mqtt.Wire.Strings.{StringPair}
use rust_mqtt.Wire.StringRound.{pair_bytes}
use rust_mqtt.Packets.PropertyType.{PropertyType, user_property, identifier}

-- A property on the wire, and one that may be left out.
abbrev pub property_bytes : {A : Type 0} → PropertyType → (A → List ℕ) → A → List ℕ
property_bytes t enc v = (identifier t ∷ []) ++ enc v

unfoldable pub optional_bytes : {A : Type 0} → (A → List ℕ) → Option A → List ℕ
optional_bytes enc none = []
optional_bytes enc (some v) = enc v

abbrev pub Sometimes : {A : Type 0} → (A → Type 0) → Option A → Type 0
Sometimes P none = Unit
Sometimes P (some v) = P v

unfoldable pub user_bytes : List StringPair → List ℕ
unfolding identifier
user_bytes [] = []
user_bytes (p ∷ ps) = ((identifier user_property ∷ []) ++ pair_bytes p) ++ user_bytes ps
