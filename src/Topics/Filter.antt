-- ===== src/Topics/Filter.antt =====
-- src/types/topic.rs: topic filters. A string is the list of its bytes.
use rust_mqtt.Prelude.{
  ℕ, suc, Bool, true, false, not, ◌&&◌, ◌||◌, ◌==◌, ltb, leb, if◌then◌else◌, Option, none, some,
  List, [], ◌∷◌, length, drop,
}
use rust_mqtt.Topics.Name.{plus_byte, hash_byte, slash_byte, is_wildcard, is_empty}

-- The loop of `TopicFilter::is_valid`, on the bytes from `i`: `i == s.len() - 1` is that no byte
-- follows, and so is `i + 1 == s.len()`.
unfoldable pub filter_loop :
    List ℕ → (level_len : ℕ) (level_contains_wildcard checking_share_name : Bool) → Bool
filter_loop [] level_len level_contains_wildcard checking_share_name = true
filter_loop (b ∷ s) level_len level_contains_wildcard checking_share_name =
    let wildcard = (b == plus_byte) || (b == hash_byte) || level_contains_wildcard in
    let slash = b == slash_byte in
    let rest =
      filter_loop s (if slash then 0 else suc level_len) (if slash then false else wildcard)
        (if slash then false else checking_share_name) in
    if (b == hash_byte) && not (is_empty s)
    then false
    else if slash
    then if checking_share_name && ((level_len == 0) || wildcard || is_empty s) then false else rest
    else if ltb 1 (suc level_len) && wildcard
    then false
    else rest

-- The six comparisons with the bytes of `$share`.
unfoldable pub starts_with_share : List ℕ → Bool
starts_with_share [] = false
starts_with_share (a ∷ []) = false
starts_with_share (a ∷ b ∷ []) = false
starts_with_share (a ∷ b ∷ c ∷ []) = false
starts_with_share (a ∷ b ∷ c ∷ d ∷ []) = false
starts_with_share (a ∷ b ∷ c ∷ d ∷ e ∷ []) = false
starts_with_share (a ∷ b ∷ c ∷ d ∷ e ∷ f ∷ s) =
    (a == 0x24) && (b == 0x73) && (c == 0x68) && (d == 0x61) && (e == 0x72) && (f == 0x65)

-- `s[6] == b'/'`; a string without this byte has fewer than ten and never comes so far.
unfoldable pub slash_follows : List ℕ → Bool
slash_follows [] = false
slash_follows (b ∷ s) = b == slash_byte

-- `TopicFilter::is_valid`
unfoldable pub is_valid_filter : List ℕ → Bool
unfolding filter_loop starts_with_share slash_follows
is_valid_filter s =
    if is_empty s
    then false
    else if starts_with_share s
    then if ltb (length s) 10
      then false
      else if not (slash_follows (drop 6 s))
      then false
      else filter_loop (drop 7 s) 0 false true
    else filter_loop s 0 false false

-- `TopicFilter::is_shared`
unfoldable pub is_shared : List ℕ → Bool
unfolding starts_with_share
is_shared s = leb 10 (length s) && starts_with_share s

-- `TopicFilter::has_wildcard`
unfoldable pub has_wildcard : List ℕ → Bool
has_wildcard [] = false
has_wildcard (b ∷ s) = let rest = has_wildcard s in if is_wildcard b then true else rest

-- `TopicFilter::new`
unfoldable pub topic_filter : List ℕ → Option (List ℕ)
unfolding is_valid_filter
topic_filter s = if is_valid_filter s then some s else none
