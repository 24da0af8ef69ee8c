-- ===== src/Keyed/Find.antt =====
-- What a search by key finds, and where.
use rust_mqtt.Prelude.{
  ℕ, suc, ◌≡◌, refl, ◌==◌, if◌then◌else◌, ◌↔◌, Bool, true, false, Option, none, some, List, [], ◌∷◌,
  ◌++◌, length, arith,
}
use rust_mqtt.Keyed.{position, lookup, modify}
use mathlib.Core.Option

abbrev pub or_else : {A : Type 0} → Option A → Option A → Option A
or_else none o = o
or_else (some a) o = some a

module _ {A : Type 0} (key : A → ℕ) where
  pub map-position :
      (k : ℕ) (xs : List A) → Option.map (λ r. r.1) (position key k xs) ≡ lookup key k xs
  unfolding position lookup
  map-position k [] = refl
  map-position k (x ∷ xs) = ground (arith, map-position k xs)

  pub lookup-of_position :
      (k : ℕ) (xs : List A) (i : ℕ) (x : A)
      → position key k xs ≡ some (i, x)
      → lookup key k xs ≡ some x
  lookup-of_position k xs i x e = ground (arith, map-position k xs)

  pub lookup-of_position-none :
      (k : ℕ) (xs : List A) → position key k xs ≡ none → lookup key k xs ≡ none
  lookup-of_position-none k xs e = ground (arith, map-position k xs)

  pub key-lookup : (k : ℕ) (xs : List A) (x : A) → lookup key k xs ≡ some x → key x ≡ k
  unfolding lookup
  key-lookup k [] x e = cc
  key-lookup k (y ∷ ys) x e = ground (arith, key-lookup k ys x)

  pub lookup-append :
      (k : ℕ) (xs ys : List A)
      → lookup key k (xs ++ ys) ≡ or_else (lookup key k xs) (lookup key k ys)
  unfolding lookup
  lookup-append k [] ys = refl
  lookup-append k (x ∷ xs) ys = ground (arith, lookup-append k xs ys)

  -- The slice around the element found.
  pub record Found (k i : ℕ) (x : A) (xs : List A) : Type 0 where
    pub front : List A
    pub back : List A
    pub whole : xs ≡ front ++ x ∷ back
    pub at_index : length front ≡ i
    pub has_key : key x ≡ k
    pub absent : lookup key k front ≡ none

  Found-step :
      (k i : ℕ) (x y : A) (ys : List A) (b : Bool) (r : Option (ℕ × A))
      → (key y == k) ≡ b
      → ((j : ℕ) (z : A) → r ≡ some (j, z) → Found k j z ys)
      → if◌then◌else◌ {A = Option (ℕ × A)} b (some (0, y)) (Option.map (λ p. (suc p.0, p.1)) r)
        ≡ some (i, x)
      → Found k i x (y ∷ ys)
  unfolding lookup
  Found-step k i x y ys true r test ih e = record {
    front = [];
    back = ys;
    whole = ground arith;
    at_index = ground arith;
    has_key = ground arith;
    absent = refl;
  }
  Found-step k i x y ys false none test ih e = cc
  Found-step k i x y ys false (some (j, z)) test ih e = record {
    front = y ∷ f.front;
    back = f.back;
    whole = ground (arith, f.whole);
    at_index = ground (arith, f.at_index);
    has_key = ground (arith, f.has_key);
    absent = rw test f.absent;
  }
    where
      f : Found k j z ys
      f = ih j z refl

  pub position-Found :
      (k : ℕ) (xs : List A) (i : ℕ) (x : A) → position key k xs ≡ some (i, x) → Found k i x xs
  unfolding position
  position-Found k [] i x e = cc
  position-Found k (y ∷ ys) i x e =
      Found-step k i x y ys (key y == k) (position key k ys) refl (position-Found k ys) e

  -- A search fails exactly if the lookup does.
  pub position-none_iff :
      (k : ℕ) (xs : List A) → (position key k xs ≡ none) ↔ (lookup key k xs ≡ none)
  position-none_iff k xs =
      (λ e. ground (arith, map-position k xs), λ e. ground (arith, map-position k xs))

-- A write through `get_mut` at the place of an element.
pub modify-middle :
    {A : Type 0} (f : A → A) (front : List A) (x : A) (back : List A)
    → modify f (length front) (front ++ x ∷ back) ≡ some (front ++ f x ∷ back)
unfolding modify
modify-middle f [] x back = refl
modify-middle f (y ∷ front) x back = rw (modify-middle f front x back)
