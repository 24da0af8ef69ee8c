-- ===== src/Topics/Shared.antt =====
-- src/types/topic.rs: which filters `TopicFilter::is_valid` accepts, shared or not.
use rust_mqtt.Prelude.{
  ℕ, suc, ◌≤◌, Bool, true, false, not, ◌&&◌, ◌==◌, ltb, List, [], ◌∷◌, ◌++◌, length, ◌≡◌, refl, sym,
  ap, ◌∙◌, inl, inr, Bool-cases, arith, length-append, All, ==_iff,
}
use mathlib.Core.List.{append-nil, append_assoc}
use rust_mqtt.Topics.Name.{
  plus_byte, hash_byte, slash_byte, is_wildcard, is_empty, is_valid_name, name_loop,
}
use rust_mqtt.Topics.Filter.{filter_loop, is_valid_filter, starts_with_share, has_wildcard}
use rust_mqtt.Topics.Levels.{levels, is_plain, is_valid_level, are_valid_levels}
use rust_mqtt.Topics.Parts.{extend-nil, is_plain-append}
use rust_mqtt.Topics.Scan.{filter_loop-byte, filter_loop-levels, invalid_level-mixed}

-- `$share/`
abbrev pub share_prefix : List ℕ
share_prefix = 0x24 ∷ 0x73 ∷ 0x68 ∷ 0x61 ∷ 0x72 ∷ 0x65 ∷ 0x2F ∷ []

-- Bytes of one level.
abbrev pub IsOneLevel : List ℕ → Type 0
IsOneLevel s = All (λ b. (b == slash_byte) ≡ false) s

-- A topic filter that does not start with $share is accepted exactly if it is not empty and each of
-- its levels, the parts between slashes, is valid: a level of one byte is anything, but # only as
-- the last level, and a longer level has no wildcard.
pub is_valid_filter-levels :
    (s : List ℕ)
    → starts_with_share s ≡ false
    → is_valid_filter s ≡ not (is_empty s) && are_valid_levels (levels s)
unfolding is_valid_filter is_plain is_valid_level
is_valid_filter-levels [] h = refl
is_valid_filter-levels (b ∷ s) h =
    rw (h) (filter_loop-levels (b ∷ s) [] refl ∙ ap are_valid_levels (extend-nil (b ∷ s)))

-- What the share name and the filter after it have to be.
abbrev pub is_valid_shared : (name filter : List ℕ) → Bool
is_valid_shared name filter =
    not (is_empty name)
    && (is_plain name && (not (is_empty filter) && are_valid_levels (levels filter)))

mixed_name : (p s filter : List ℕ) → is_plain p ≡ false → is_valid_shared (p ++ s) filter ≡ false
mixed_name p s filter mixed = rw (is_plain-append p s, mixed) (ground (arith))

name_end :
    (p filter : List ℕ)
    → filter_loop (slash_byte ∷ filter) (length p) (not (is_plain p)) true
      ≡ is_valid_shared p filter
unfolding filter_loop is_plain is_valid_level
name_end [] filter = refl
name_end (a ∷ p) filter =
    rw (filter_loop-levels filter [] refl ∙ ap are_valid_levels (extend-nil filter))
      (ground (arith))

name_hash :
    (p name filter : List ℕ)
    → filter_loop (hash_byte ∷ (name ++ (slash_byte ∷ filter))) (length p) (not (is_plain p)) true
      ≡ is_valid_shared ((p ++ (hash_byte ∷ [])) ++ name) filter
unfolding filter_loop is_plain
name_hash p name filter =
    let mixed : is_plain (p ++ (hash_byte ∷ [])) ≡ false =
      is_plain-append p (hash_byte ∷ []) ∙ (ground arith) in
    elim name
      as (λ n.
        filter_loop (hash_byte ∷ (n ++ (slash_byte ∷ filter))) (length p) (not (is_plain p)) true
        ≡ is_valid_shared ((p ++ (hash_byte ∷ [])) ++ n) filter) [
          | [] ↦ sym (mixed_name (p ++ (hash_byte ∷ [])) [] filter mixed)
          | c ∷ n ↦ sym (mixed_name (p ++ (hash_byte ∷ [])) (c ∷ n) filter mixed)
        ]

pub filter_loop-shared :
    (name filter p : List ℕ)
    → IsOneLevel name
    → is_valid_level false p ≡ true
    → filter_loop (name ++ (slash_byte ∷ filter)) (length p) (not (is_plain p)) true
      ≡ is_valid_shared (p ++ name) filter
unfolding is_plain is_valid_level
filter_loop-shared [] filter p one valid = rw (append-nil p) (name_end p filter)
filter_loop-shared (b ∷ name) filter p (h, one) valid =
    let e : p ++ (b ∷ name) ≡ (p ++ (b ∷ [])) ++ name = sym (append_assoc p (b ∷ []) name) in
    rw (e) (elim (Bool-cases (b == hash_byte)) [
      | inl hash ↦ rw ((==_iff b hash_byte).0 hash) (name_hash p name filter)
      | inr other ↦
          filter_loop-byte b (name ++ (slash_byte ∷ filter)) p true other h
          ∙ elim (Bool-cases (is_valid_level false (p ++ (b ∷ [])))) [
            | inl good ↦ rw (good) (filter_loop-shared name filter (p ++ (b ∷ [])) one good)
            | inr bad ↦
                rw (bad) (
                  sym
                    (mixed_name (p ++ (b ∷ [])) name filter (invalid_level-mixed p b other bad).1))
          ]
    ])

-- A shared filter of less than ten bytes has no name or nothing after it.
too_short :
    (name filter : List ℕ)
    → ltb (length (share_prefix ++ (name ++ (slash_byte ∷ filter)))) 10 ≡ true
    → is_valid_shared name filter ≡ false
unfolding is_plain
too_short [] filter h = refl
too_short (a ∷ name) [] h = ground arith
too_short (a ∷ name) (b ∷ filter) h =
    absurd (ground (arith, length-append name (slash_byte ∷ b ∷ filter)))

-- A filter of $share, a share name without a slash and a filter, with slashes between them, is
-- accepted exactly if the name is not empty and has no wildcard, and the filter after it is not
-- empty and has valid levels.
pub is_valid_filter-shared :
    (name filter : List ℕ)
    → IsOneLevel name
    → is_valid_filter (share_prefix ++ (name ++ (slash_byte ∷ filter)))
      ≡ is_valid_shared name filter
unfolding is_valid_filter is_plain is_valid_level
is_valid_filter-shared name filter one =
    elim (Bool-cases (ltb (length (share_prefix ++ (name ++ (slash_byte ∷ filter)))) 10)) [
      | inl h ↦ rw (h) (sym (too_short name filter h))
      | inr h ↦ rw (h) (filter_loop-shared name filter [] one refl)
    ]

and_false : (x : Bool) → x && false ≡ false
and_false true = refl
and_false false = refl

-- A byte that is no wildcard and no slash, in a level without wildcards.
plain_byte :
    (b : ℕ) (s : List ℕ) (n : ℕ) (checking : Bool)
    → is_wildcard b ≡ false
    → (b == slash_byte) ≡ false
    → filter_loop (b ∷ s) n false checking ≡ filter_loop s (suc n) false checking
unfolding filter_loop
plain_byte b s n checking h1 h2 =
    let no_plus : (b == plus_byte) ≡ false = ground (arith) in
    let no_hash : (b == hash_byte) ≡ false = ground (arith) in
    rw (no_plus, no_hash, h2, and_false (ltb 1 (suc n))) refl

pub loop_plain_name :
    (s : List ℕ) (n : ℕ) → IsOneLevel s → is_plain s ≡ true → filter_loop s n false true ≡ true
unfolding filter_loop is_plain
loop_plain_name [] n one plain = refl
loop_plain_name (b ∷ s) n (h, one) plain =
    plain_byte b s n true (ground arith) h ∙ loop_plain_name s (suc n) one (ground arith)

pub loop_plain_filter :
    (s : List ℕ) (n : ℕ) → is_plain s ≡ true → filter_loop s n false false ≡ true
unfolding filter_loop is_plain
loop_plain_filter [] n plain = refl
loop_plain_filter (b ∷ s) n plain = elim (Bool-cases (b == slash_byte)) [
  | inl h ↦ rw ((==_iff b slash_byte).0 h) (loop_plain_filter s 0 (ground arith))
  | inr h ↦ plain_byte b s n false (ground arith) h ∙ loop_plain_filter s (suc n) (ground arith)
]

-- Every filter of $share, a slash and at least three bytes without a slash or a wildcard is
-- accepted, although no filter follows the share name.
pub is_valid_filter-unfinished :
    (name : List ℕ)
    → IsOneLevel name
    → is_plain name ≡ true
    → 3 ≤ length name
    → is_valid_filter (share_prefix ++ name) ≡ true
unfolding is_valid_filter is_plain is_valid_level
is_valid_filter-unfinished name one plain long =
    let e : ltb (length (share_prefix ++ name)) 10 ≡ false = ground (arith) in
    rw (e) (loop_plain_name name 0 one plain)

name_loop-plain : (s : List ℕ) → name_loop s ≡ is_plain s
unfolding name_loop is_plain
name_loop-plain [] = refl
name_loop-plain (b ∷ s) = ground (arith, name_loop-plain s)

has_wildcard-plain : (s : List ℕ) → has_wildcard s ≡ not (is_plain s)
unfolding has_wildcard is_plain
has_wildcard-plain [] = refl
has_wildcard-plain (b ∷ s) = ground (arith, has_wildcard-plain s)

-- A string that does not start with $share is accepted as a topic name exactly if it is accepted as
-- a topic filter and has no wildcard.
pub is_valid_name-filter :
    (s : List ℕ)
    → starts_with_share s ≡ false
    → is_valid_name s ≡ is_valid_filter s && not (has_wildcard s)
unfolding is_valid_name is_valid_filter
is_valid_name-filter [] h = refl
is_valid_name-filter (b ∷ s) h =
    rw (h, name_loop-plain (b ∷ s), has_wildcard-plain (b ∷ s))
      (elim (Bool-cases (is_plain (b ∷ s))) [
        | inl plain ↦ rw (plain, loop_plain_filter (b ∷ s) 0 plain) refl
        | inr mixed ↦ rw (mixed) (sym (and_false (filter_loop (b ∷ s) 0 false false)))
      ])
