-- ===== src/Topics/Name.antt =====
-- src/types/topic.rs: topic names. A string is the list of its bytes.
use rust_mqtt.Prelude.{
  ℕ, Bool, true, false, ◌||◌, ◌==◌, if◌then◌else◌, Option, none, some, List, [], ◌∷◌,
}

-- `b'+'`, `b'#'`, `b'/'`
abbrev pub plus_byte : ℕ
plus_byte = 0x2B

abbrev pub hash_byte : ℕ
hash_byte = 0x23

abbrev pub slash_byte : ℕ
slash_byte = 0x2F

-- `b == b'+' || b == b'#'`
abbrev pub is_wildcard : ℕ → Bool
is_wildcard b = (b == plus_byte) || (b == hash_byte)

abbrev pub is_empty : List ℕ → Bool
is_empty [] = true
is_empty (b ∷ s) = false

-- The loop of `TopicName::is_valid`, on the bytes from `i`.
unfoldable pub name_loop : List ℕ → Bool
name_loop [] = true
name_loop (b ∷ s) = let rest = name_loop s in if is_wildcard b then false else rest

-- `TopicName::is_valid`
unfoldable pub is_valid_name : List ℕ → Bool
unfolding name_loop
is_valid_name s = if is_empty s then false else name_loop s

-- `TopicName::new`
unfoldable pub topic_name : List ℕ → Option (List ℕ)
unfolding is_valid_name
topic_name s = if is_valid_name s then some s else none
