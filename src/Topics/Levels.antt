-- ===== src/Topics/Levels.antt =====
-- Topic filters as MQTT describes them: levels between slashes, and which levels a filter may have.
-- This is what the filters of src/types/topic.rs are compared with.
use rust_mqtt.Prelude.{
  ℕ, Bool, true, false, not, ◌&&◌, ◌||◌, ◌==◌, if◌then◌else◌, List, [], ◌∷◌, ◌++◌,
}
use rust_mqtt.Topics.Name.{hash_byte, slash_byte, is_wildcard}

-- The byte joins the first level.
abbrev pub extend : List ℕ → List (List ℕ) → List (List ℕ)
extend p [] = p ∷ []
extend p (l ∷ ls) = (p ++ l) ∷ ls

-- The parts between the slashes, at least one.
unfoldable pub levels : List ℕ → List (List ℕ)
levels [] = [] ∷ []
levels (b ∷ s) = let rest = levels s in if b == slash_byte then [] ∷ rest else extend (b ∷ []) rest

-- No wildcard character.
unfoldable pub is_plain : List ℕ → Bool
is_plain [] = true
is_plain (b ∷ s) = let rest = is_plain s in not (is_wildcard b) && rest

-- A wildcard stands alone in its level, and `#` in the last one.
unfoldable pub is_valid_level : (last : Bool) → List ℕ → Bool
unfolding is_plain
is_valid_level last [] = true
is_valid_level last (b ∷ []) = last || not (b == hash_byte)
is_valid_level last (b ∷ c ∷ s) = is_plain (b ∷ c ∷ s)

unfoldable pub are_valid_levels : List (List ℕ) → Bool
unfolding is_valid_level
are_valid_levels [] = true
are_valid_levels (l ∷ []) = is_valid_level true l
are_valid_levels (l ∷ m ∷ ls) =
    let rest = are_valid_levels (m ∷ ls) in is_valid_level false l && rest
