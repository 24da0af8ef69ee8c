-- ===== src/Vec/OnLists.antt =====
-- A vector on plain lists that does what `heapless::Vec` documents, for runs on concrete sessions.
use rust_mqtt.Prelude.{
  ℕ, zero, suc, ◌≤◌, ◌≡◌, refl, ap, Option, none, some, List, [], ◌∷◌, ◌++◌, length, ltb,
  if◌then◌else◌, arith,
}
use rust_mqtt.Vec.{HeaplessVec, IsHeaplessVec}
use mathlib.Core.Option

module _ {A : Type 0} where
  -- The list without its last element, and that element.
  unfoldable split_last : List A → Option (List A × A)
  split_last [] = none
  split_last (a ∷ xs) = elim (split_last xs) [
    | none ↦ some ([], a)
    | some r ↦ some ((a ∷ r.0, r.1))
  ]

  unfoldable last_first : List A → List A
  unfolding split_last
  last_first xs = elim (split_last xs) [ none ↦ [] | some r ↦ r.1 ∷ r.0 ]

  unfoldable pub swap_remove : List A → ℕ → Option (List A)
  unfolding last_first
  swap_remove [] i = none
  swap_remove (a ∷ xs) zero = some (last_first xs)
  swap_remove (a ∷ xs) (suc i) = Option.map (λ ys. a ∷ ys) (swap_remove xs i)

  unfoldable pub push : ℕ → List A → A → Option (List A)
  push capacity xs a = if ltb (length xs) capacity then some (xs ++ a ∷ []) else none

  split_last-append : (ys : List A) (b : A) → split_last (ys ++ b ∷ []) ≡ some (ys, b)
  unfolding split_last
  split_last-append [] b = refl
  split_last-append (a ∷ ys) b = rw (split_last-append ys b) refl

  remove_last : (xs : List A) (a : A) → swap_remove (xs ++ a ∷ []) (length xs) ≡ some xs
  unfolding swap_remove
  remove_last [] a = refl
  remove_last (x ∷ xs) a = rw (remove_last xs a) refl

  last_first-append : (ys : List A) (b : A) → last_first (ys ++ b ∷ []) ≡ b ∷ ys
  unfolding last_first
  last_first-append ys b = rw (split_last-append ys b, last_first) refl

  remove_inner :
      (xs : List A) (a : A) (ys : List A) (b : A)
      → swap_remove (xs ++ a ∷ (ys ++ b ∷ [])) (length xs) ≡ some (xs ++ b ∷ ys)
  unfolding swap_remove
  remove_inner [] a ys b = ap some (last_first-append (ys) b)
  remove_inner (x ∷ xs) a ys b = rw (remove_inner xs a ys b) refl

  remove_out : (xs : List A) (i : ℕ) → length xs ≤ i → swap_remove xs i ≡ none
  unfolding swap_remove
  remove_out [] i h = refl
  remove_out (x ∷ xs) zero h = absurd (omega arith)
  remove_out (x ∷ xs) (suc i) h = rw (remove_out xs i (omega arith)) refl

abbrev pub list_vec : HeaplessVec
list_vec = record { push = push; swap_remove = swap_remove }

pub list_vec-IsHeaplessVec : IsHeaplessVec list_vec
unfolding push
list_vec-IsHeaplessVec = record {
  push_some = λ n xs a h. ground arith;
  push_full = λ n xs a h. ground arith;
  swap_remove_last = remove_last;
  swap_remove_inner = remove_inner;
  swap_remove_out = remove_out;
}
