-- ===== src/Vec.antt =====
-- `heapless::Vec`, a vector of fixed capacity, as the session and the packets use it. The crate is
-- not part of the repository, so its two operations with a failure case are parameters; a vector is
-- seen through its contents, and `None` stands for `Err` of `push` and for the panic of
-- `swap_remove`.
pub mod Effects
pub mod OnLists
use rust_mqtt.Prelude.{ℕ, ◌≤◌, ◌<◌, ◌≡◌, Option, none, some, List, [], ◌∷◌, ◌++◌, length}

pub record HeaplessVec : Type 1 where
  pub push : {A : Type 0} → (capacity : ℕ) → List A → A → Option (List A)
  pub swap_remove : {A : Type 0} → List A → (index : ℕ) → Option (List A)

-- What the crate documents: `push` appends unless the vector is full; `swap_remove` puts the last
-- element in the place of the removed one, and panics out of bounds.
pub record IsHeaplessVec (vec : HeaplessVec) : Type 1 where
  pub push_some :
      {A : Type 0}
      → (n : ℕ) (xs : List A) (a : A) → length xs < n
      → vec.push n xs a ≡ some (xs ++ a ∷ [])
  pub push_full :
      {A : Type 0} → (n : ℕ) (xs : List A) (a : A) → n ≤ length xs → vec.push n xs a ≡ none
  pub swap_remove_last :
      {A : Type 0} → (xs : List A) (a : A) → vec.swap_remove (xs ++ a ∷ []) (length xs) ≡ some xs
  pub swap_remove_inner :
      {A : Type 0}
      → (xs : List A) (a : A) (ys : List A) (b : A)
      → vec.swap_remove (xs ++ a ∷ (ys ++ b ∷ [])) (length xs) ≡ some (xs ++ b ∷ ys)
  pub swap_remove_out :
      {A : Type 0} → (xs : List A) (i : ℕ) → length xs ≤ i → vec.swap_remove xs i ≡ none
