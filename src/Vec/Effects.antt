-- ===== src/Vec/Effects.antt =====
-- What a write, a `push` and a `swap_remove` at a found element do to a vector with unique keys.
use rust_mqtt.Prelude.{
  ℕ, ◌+◌, ◌<◌, ◌≡◌, some, none, List, [], ◌∷◌, ◌++◌, length, length-append, inl, inr, arith,
}
use rust_mqtt.Keyed.{modify, lookup, Unique}
use rust_mqtt.Keyed.Find.{Found, modify-middle}
use rust_mqtt.Keyed.Remove.{
  Updated, Snoc-cases, push-Updated, write-Updated, remove_last-Updated, remove_inner-Updated,
}
use rust_mqtt.Vec.{HeaplessVec, IsHeaplessVec}

module _ {A : Type 0} (key : A → ℕ) where
  pub modify-Updated :
      (f : A → A) (k i : ℕ) (x : A) (xs : List A)
      → key (f x) ≡ k
      → Unique key xs
      → Found key k i x xs
      → (ys : List A) × (modify f i xs ≡ some ys)
        × (length ys ≡ length xs)
        × Updated key k (some (f x)) xs ys
  modify-Updated f k i x xs e u found = (
    front ++ f x ∷ back,
    rw (found.whole, ← found.at_index) (modify-middle f front x back),
    rw found.whole
        (omega (arith, length-append front (f x ∷ back), length-append front (x ∷ back))),
    rw found.whole
        (write-Updated key k front back x (f x) (rw found.whole at u) found.absent found.has_key e),
  )
    where
      open found use {front, back}

module _ (vec : HeaplessVec) (laws : IsHeaplessVec vec) {A : Type 0} (key : A → ℕ) where
  pub push-some :
      (n : ℕ) (xs : List A) (a : A)
      → length xs < n
      → lookup key (key a) xs ≡ none
      → Unique key xs
      → (ys : List A) × (vec.push n xs a ≡ some ys)
        × (length ys ≡ length xs + 1)
        × Updated key (key a) (some a) xs ys
  push-some n xs a room new u = (
    xs ++ a ∷ [],
    laws.push_some n xs a room,
    omega (arith, length-append xs (a ∷ [])),
    push-Updated key xs a u new,
  )

  swap_remove-at :
      (k : ℕ) (front : List A) (x : A) (back : List A)
      → Unique key (front ++ x ∷ back)
      → lookup key k front ≡ none
      → key x ≡ k
      → (ys : List A) × (vec.swap_remove (front ++ x ∷ back) (length front) ≡ some ys)
        × (length ys < length (front ++ x ∷ back))
        × Updated key k none (front ++ x ∷ back) ys
  swap_remove-at k front x back u absent e = elim (Snoc-cases back) [
    | inl last ↦ rw last (
      front,
      laws.swap_remove_last front x,
      omega (arith, length-append front (x ∷ [])),
      remove_last-Updated key k front x (rw last at u) absent e,
    )
    | inr (ys, b, inner) ↦ rw inner (
      front ++ b ∷ ys,
      laws.swap_remove_inner front x ys b,
      omega (
        arith,
        length-append front (b ∷ ys),
        length-append front (x ∷ (ys ++ b ∷ [])),
        length-append ys (b ∷ []),
      ),
      remove_inner-Updated key k front x ys b (rw inner at u) absent e,
    )
  ]

  pub swap_remove-Updated :
      (k i : ℕ) (x : A) (xs : List A)
      → Unique key xs
      → Found key k i x xs
      → (ys : List A) × (vec.swap_remove xs i ≡ some ys)
        × (length ys < length xs)
        × Updated key k none xs ys
  swap_remove-Updated k i x xs u found =
      rw (found.whole, ← found.at_index)
        (swap_remove-at k found.front x found.back (rw found.whole at u) found.absent found.has_key)
