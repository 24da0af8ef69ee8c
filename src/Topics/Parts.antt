-- ===== src/Topics/Parts.antt =====
-- The levels of a topic filter: how a filter is put together from them, and what spoils one.
use rust_mqtt.Prelude.{
  ℕ, ◌≤◌, Bool, true, false, not, ◌&&◌, ◌==◌, List, [], ◌∷◌, ◌++◌, length, ◌≡◌, refl, sym, ap, ◌∙◌,
  inl, inr, Bool-cases, arith, length-append,
}
use mathlib.Core.List.{append-nil, append_assoc}
use rust_mqtt.Topics.Name.{hash_byte, slash_byte, is_wildcard}
use rust_mqtt.Topics.Levels.{extend, levels, is_plain, is_valid_level, are_valid_levels}

pub extend-extend :
    (p q : List ℕ) (ls : List (List ℕ)) → extend p (extend q ls) ≡ extend (p ++ q) ls
extend-extend p q [] = refl
extend-extend p q (l ∷ ls) = ap (λ m. m ∷ ls) (sym (append_assoc p q l))

-- There is a level, and one that starts with `p` is still the first.
pub levels-cons : (s : List ℕ) → (l : List ℕ) × (ls : List (List ℕ)) × (levels s ≡ l ∷ ls)
unfolding levels
levels-cons [] = ([], [], refl)
levels-cons (b ∷ s) =
    let (l, ls, e) = levels-cons s in
    elim (Bool-cases (b == slash_byte)) [
      | inl h ↦ ([], levels s, rw (h) refl)
      | inr h ↦ (b ∷ l, ls, rw (h, e) refl)
    ]

pub is_plain-append : (p q : List ℕ) → is_plain (p ++ q) ≡ is_plain p && is_plain q
unfolding is_plain
is_plain-append [] q = refl
is_plain-append (b ∷ p) q = ground (arith, is_plain-append p q)

pub is_valid_level-long :
    (last : Bool) (p : List ℕ) → 2 ≤ length p → is_valid_level last p ≡ is_plain p
unfolding is_valid_level is_plain
is_valid_level-long last [] le = absurd (omega arith)
is_valid_level-long last (a ∷ []) le = absurd (omega arith)
is_valid_level-long last (a ∷ b ∷ p) le = refl

-- A level of two bytes that has a wildcard spoils the filter.
pub are_valid_levels-mixed :
    (p : List ℕ) (ls : List (List ℕ))
    → 2 ≤ length p
    → is_plain p ≡ false
    → are_valid_levels (extend p ls) ≡ false
unfolding are_valid_levels
are_valid_levels-mixed p [] le mixed = is_valid_level-long true p le ∙ mixed
are_valid_levels-mixed p (l ∷ []) le mixed =
    rw
      (
        is_valid_level-long true (p ++ l) (omega (arith, length-append p l)),
        is_plain-append p l,
        mixed,
      )
      refl
are_valid_levels-mixed p (l ∷ m ∷ ls) le mixed =
    rw
      (
        is_valid_level-long false (p ++ l) (omega (arith, length-append p l)),
        is_plain-append p l,
        mixed,
      )
      refl

pub is_plain-snoc :
    (p : List ℕ) (b : ℕ) → is_plain (p ++ (b ∷ [])) ≡ is_plain p && not (is_wildcard b)
unfolding is_plain
is_plain-snoc p b = ground (arith, is_plain-append p (b ∷ []))

pub extend-nil : (s : List ℕ) → extend [] (levels s) ≡ levels s
extend-nil s = let (l, ls, e) = levels-cons s in rw (e) refl

pub levels-slash :
    (p s : List ℕ)
    → are_valid_levels (extend p ([] ∷ levels s))
      ≡ is_valid_level false p && are_valid_levels (levels s)
unfolding are_valid_levels
levels-slash p s = let (l, ls, e) = levels-cons s in rw (e, append-nil p) refl

pub hash_level : (p : List ℕ) → is_valid_level false (p ++ (hash_byte ∷ [])) ≡ false
unfolding is_valid_level is_plain
hash_level [] = refl
hash_level (a ∷ p) =
    rw
      (
        is_valid_level-long false (a ∷ (p ++ (hash_byte ∷ [])))
            (omega (arith, length-append p (hash_byte ∷ []))),
        is_plain-snoc p hash_byte,
      )
      (ground arith)

-- A `#` that bytes follow.
pub hash_followed :
    (p : List ℕ) (c : ℕ) (s : List ℕ)
    → are_valid_levels (extend p (levels (hash_byte ∷ c ∷ s))) ≡ false
unfolding levels is_plain
hash_followed p c s = elim (Bool-cases (c == slash_byte)) [
  | inl h ↦
      rw
        (
          h,
          extend-extend p (hash_byte ∷ []) ([] ∷ levels s),
          levels-slash (p ++ (hash_byte ∷ [])) s,
          hash_level p,
        )
        refl
  | inr h ↦
      rw
        (
          h,
          extend-extend (hash_byte ∷ []) (c ∷ []) (levels s),
          extend-extend p (hash_byte ∷ c ∷ []) (levels s),
        )
        (are_valid_levels-mixed (p ++ (hash_byte ∷ c ∷ [])) (levels s)
          (omega (arith, length-append p (hash_byte ∷ c ∷ [])))
          (is_plain-append p (hash_byte ∷ c ∷ []) ∙ ground arith))
]
