-- ===== src/Topics/Scan.antt =====
-- src/types/topic.rs: the loop over the bytes of a filter and the levels of the filter.
use rust_mqtt.Prelude.{
  ℕ, suc, ◌≤◌, Bool, true, false, not, ◌&&◌, ◌==◌, if◌then◌else◌, List, [], ◌∷◌, ◌++◌, length, ◌≡◌,
  refl, sym, ap, ◌∙◌, ◌+◌, lt→ltb, inl, inr, ==_iff, Bool-cases, arith, length-append,
}
use mathlib.Core.List.{append-nil}
use rust_mqtt.Topics.Name.{plus_byte, hash_byte, slash_byte, is_wildcard}
use rust_mqtt.Topics.Filter.{filter_loop}
use rust_mqtt.Topics.Levels.{extend, levels, is_plain, is_valid_level, are_valid_levels}
use rust_mqtt.Topics.Parts.{
  extend-extend, is_valid_level-long, are_valid_levels-mixed, is_plain-snoc, extend-nil,
  levels-slash, hash_followed,
}

suc_plus : (n : ℕ) → n + 1 ≡ suc n
suc_plus n = omega arith

wildcard_flag :
    (x y : Bool) (g : Bool → Bool)
    → false ≡ (if x && (y && false) then g (not (x && (y && false))) else false)
wildcard_flag true true g = refl
wildcard_flag true false g = refl
wildcard_flag false y g = refl

plain_flag :
    (x y : Bool) (g : Bool → Bool)
    → (if not (x && y) then false else g (not (x && y)))
      ≡ (if x && (y && true) then g (not (x && (y && true))) else false)
plain_flag true true g = refl
plain_flag true false g = refl
plain_flag false y g = refl

-- The same of a level whose length and whose wildcards are known.
filter_loop-flags :
    (b : ℕ) (s : List ℕ) (n : ℕ) (checking first others : Bool)
    → (b == hash_byte) ≡ false
    → (b == slash_byte) ≡ false
    → filter_loop (b ∷ s) (suc n) (not (not first && others)) checking ≡ (
        if not first && (others && not (is_wildcard b))
        then filter_loop s
            (suc (n + 1))
            (not (not first && (others && not (is_wildcard b))))
            checking
        else false)
unfolding filter_loop
filter_loop-flags b s n checking first others h1 h2 =
    rw (lt→ltb 1 (suc (suc n)) (omega arith), h1, h2, suc_plus n)
      (elim (Bool-cases (b == plus_byte)) [
        | inl h ↦
            rw (h) (wildcard_flag (not first) others (λ w. filter_loop s (suc (suc n)) w checking))
        | inr h ↦
            rw (h) (plain_flag (not first) others (λ w. filter_loop s (suc (suc n)) w checking))
      ])

-- What the loop does with a byte that is neither `#` nor a slash.
pub filter_loop-byte :
    (b : ℕ) (s p : List ℕ) (checking : Bool)
    → (b == hash_byte) ≡ false
    → (b == slash_byte) ≡ false
    → filter_loop (b ∷ s) (length p) (not (is_plain p)) checking ≡ (
        if is_valid_level false (p ++ (b ∷ []))
        then filter_loop s (length (p ++ (b ∷ []))) (not (is_plain (p ++ (b ∷ [])))) checking
        else false)
unfolding filter_loop is_valid_level is_plain
filter_loop-byte b s [] checking h1 h2 = elim (Bool-cases (b == plus_byte)) [
  | inl h ↦ rw (h1, h2, h) refl
  | inr h ↦ rw (h1, h2, h) refl
]
filter_loop-byte b s (a ∷ p) checking h1 h2 =
    rw
      (
        is_valid_level-long false (a ∷ (p ++ (b ∷ []))) (omega (arith, length-append p (b ∷ []))),
        is_plain-snoc p b,
        length-append p (b ∷ []),
      )
      (filter_loop-flags b s (length p) checking (is_wildcard a) (is_plain p) h1 h2)

-- A `#` at the end.
hash_last :
    (p : List ℕ)
    → filter_loop (hash_byte ∷ []) (length p) (not (is_plain p)) false
      ≡ are_valid_levels (extend p (levels (hash_byte ∷ [])))
unfolding filter_loop are_valid_levels levels is_valid_level
hash_last [] = refl
hash_last (a ∷ p) =
    rw
      (
        is_valid_level-long true (a ∷ (p ++ (hash_byte ∷ [])))
            (omega (arith, length-append p (hash_byte ∷ []))),
        is_plain-snoc (a ∷ p) hash_byte,
      )
      (ground arith)

valid_last : (p : List ℕ) → is_valid_level false p ≡ true → is_valid_level true p ≡ true
unfolding is_valid_level
valid_last [] valid = refl
valid_last (a ∷ []) valid = refl
valid_last (a ∷ b ∷ p) valid = valid

-- A level of two bytes with a wildcard has one however it goes on.
pub invalid_level-mixed :
    (p : List ℕ) (b : ℕ)
    → (b == hash_byte) ≡ false
    → is_valid_level false (p ++ (b ∷ [])) ≡ false
    → (2 ≤ length (p ++ (b ∷ []))) × (is_plain (p ++ (b ∷ [])) ≡ false)
unfolding is_valid_level is_plain
invalid_level-mixed [] b other invalid = absurd (ground (arith))
invalid_level-mixed (a ∷ p) b other invalid =
    let le : 2 ≤ length ((a ∷ p) ++ (b ∷ [])) = omega (arith, length-append p (b ∷ [])) in
    (le, sym (is_valid_level-long false ((a ∷ p) ++ (b ∷ [])) le) ∙ invalid)

filter_loop-hash :
    (s p : List ℕ)
    → filter_loop (hash_byte ∷ s) (length p) (not (is_plain p)) false
      ≡ are_valid_levels (extend p (levels (hash_byte ∷ s)))
unfolding filter_loop
filter_loop-hash [] p = hash_last p
filter_loop-hash (c ∷ s) p = sym (hash_followed p c s)

filter_loop-slash :
    (s p : List ℕ)
    → is_valid_level false p ≡ true
    → filter_loop s 0 false false ≡ are_valid_levels (extend [] (levels s))
    → filter_loop (slash_byte ∷ s) (length p) (not (is_plain p)) false
      ≡ are_valid_levels (extend p (levels (slash_byte ∷ s)))
unfolding filter_loop levels
filter_loop-slash s p valid rest =
    rw (levels-slash p s, valid) (rest ∙ ap are_valid_levels (extend-nil s))

-- The loop over a filter that is not shared, from the middle of a level.
pub filter_loop-levels :
    (s p : List ℕ)
    → is_valid_level false p ≡ true
    → filter_loop s (length p) (not (is_plain p)) false ≡ are_valid_levels (extend p (levels s))
unfolding filter_loop levels are_valid_levels is_plain is_valid_level
filter_loop-levels [] p valid = rw (append-nil p) (sym (valid_last p valid))
filter_loop-levels (b ∷ s) p valid = elim (Bool-cases (b == slash_byte)) [
  | inl h ↦
      rw ((==_iff b slash_byte).0 h) (filter_loop-slash s p valid (filter_loop-levels s [] refl))
  | inr h ↦ elim (Bool-cases (b == hash_byte)) [
    | inl hash ↦ rw ((==_iff b hash_byte).0 hash) (filter_loop-hash s p)
    | inr other ↦
        filter_loop-byte b s p false other h
        ∙ rw (h, extend-extend p (b ∷ []) (levels s))
            (elim (Bool-cases (is_valid_level false (p ++ (b ∷ [])))) [
              | inl good ↦ rw (good) (filter_loop-levels s (p ++ (b ∷ [])) good)
              | inr bad ↦ rw (bad) (
                  let (le, mixed) = invalid_level-mixed p b other bad in
                  sym (are_valid_levels-mixed (p ++ (b ∷ [])) (levels s) le mixed))
            ])
  ]
]
