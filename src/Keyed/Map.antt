-- ===== src/Keyed/Map.antt =====
-- A map over the elements that keeps their keys.
use rust_mqtt.Prelude.{ℕ, ◌≡◌, refl, List, [], ◌∷◌, map, arith}
use rust_mqtt.Keyed.{lookup, Unique}
use mathlib.Core.Option

module _ {A : Type 0} (key : A → ℕ) (f : A → A) (keeps : (x : A) → key (f x) ≡ key x) where
  pub lookup-map : (k : ℕ) (xs : List A) → lookup key k (map f xs) ≡ Option.map f (lookup key k xs)
  unfolding lookup
  lookup-map k [] = refl
  lookup-map k (x ∷ xs) = ground (arith, keeps x, lookup-map k xs)

  pub map-Unique : (xs : List A) → Unique key xs → Unique key (map f xs)
  map-Unique [] u = tt
  map-Unique (x ∷ xs) u = (ground (arith, keeps x, lookup-map (key x) xs, u.0), map-Unique xs u.1)
