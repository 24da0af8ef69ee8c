-- ===== src/Keyed.antt =====
-- Search in a slice by a numeric key: `iter().position(..)` and `iter().enumerate().find(..)` of the
-- session's vectors, the write through `get_mut(i)`, and the lookup that they amount to.
pub mod Find
pub mod Remove
pub mod Map
use rust_mqtt.Prelude.{ℕ, zero, suc, ◌≡◌, ◌==◌, if◌then◌else◌, Option, none, some, List, [], ◌∷◌}
use mathlib.Core.Option

module _ {A : Type 0} (key : A → ℕ) where
  -- The first element with the key, behind its index.
  unfoldable pub position : ℕ → List A → Option (ℕ × A)
  position k [] = none
  position k (x ∷ xs) =
      if key x == k then some (0, x) else Option.map (λ r. (suc r.0, r.1)) (position k xs)

  unfoldable pub lookup : ℕ → List A → Option A
  lookup k [] = none
  lookup k (x ∷ xs) = if key x == k then some x else lookup k xs

  -- No key occurs twice.
  abbrev pub Unique : List A → Type 0
  Unique [] = Unit
  Unique (x ∷ xs) = (lookup (key x) xs ≡ none) × Unique xs

-- `slice.get_mut(i)` with a write through the reference; `none` out of bounds.
unfoldable pub modify : {A : Type 0} → (A → A) → ℕ → List A → Option (List A)
modify f i [] = none
modify f zero (x ∷ xs) = some (f x ∷ xs)
modify f (suc i) (x ∷ xs) = Option.map (◌∷◌ x) (modify f i xs)
