-- ===== src/Keyed/Remove.antt =====
-- How appending, writing and `swap_remove` change a slice with unique keys, and its lookups.
use rust_mqtt.Prelude.{
  ℕ, ◌≡◌, refl, ap, ◌==◌, if◌then◌else◌, ◌⊎◌, inl, inr, Option, none, some, List, [], ◌∷◌, ◌++◌,
  arith,
}
use rust_mqtt.Keyed.{lookup, Unique}
use rust_mqtt.Keyed.Find.{lookup-append}

module _ {A : Type 0} (key : A → ℕ) where
  pub Unique-front : (xs ys : List A) → Unique key (xs ++ ys) → Unique key xs × Unique key ys
  Unique-front [] ys u = (tt, u)
  Unique-front (x ∷ xs) ys u =
      let (a, b) = Unique-front xs ys u.1 in
      ((ground (arith, lookup-append key (key x) xs ys, u.0), a), b)

  -- A new part without new keys keeps a slice unique.
  pub Unique-replace :
      (xs ys zs : List A)
      → ((k : ℕ) → lookup key k ys ≡ none → lookup key k zs ≡ none)
      → Unique key zs
      → Unique key (xs ++ ys)
      → Unique key (xs ++ zs)
  Unique-replace [] ys zs sub uz u = uz
  Unique-replace (x ∷ xs) ys zs sub uz u = (
    ground
        (arith, lookup-append key (key x) xs ys, lookup-append key (key x) xs zs, sub (key x), u.0),
    Unique-replace xs ys zs sub uz u.1,
  )

  pub Unique-snoc : (xs : List A) (a : A) → Unique key (xs ++ a ∷ []) → Unique key (a ∷ xs)
  unfolding lookup
  Unique-snoc [] a u = (refl, tt)
  Unique-snoc (x ∷ xs) a u =
      let (na, ua) = Unique-snoc xs a u.1 in
      let fresh = lookup-append key (key x) xs (a ∷ []) in
      (ground (arith, fresh, u.0, na), (ground (arith, fresh, u.0), ua))

  pub Unique-append_one :
      (xs : List A) (a : A)
      → lookup key (key a) xs ≡ none
      → Unique key xs
      → Unique key (xs ++ a ∷ [])
  unfolding lookup
  Unique-append_one [] a n u = (refl, tt)
  Unique-append_one (x ∷ xs) a n u = (
    ground (arith, lookup-append key (key x) xs (a ∷ []), u.0),
    Unique-append_one xs a (ground arith) u.1,
  )

  -- The last element may be looked up first.
  pub lookup-rotate :
      (k : ℕ) (xs : List A) (a : A)
      → Unique key (xs ++ a ∷ [])
      → lookup key k (xs ++ a ∷ []) ≡ lookup key k (a ∷ xs)
  unfolding lookup
  lookup-rotate k xs a u =
      let (na, ua) = Unique-snoc xs a u in ground (arith, lookup-append key k xs (a ∷ []), na)

pub Snoc-cases :
    {A : Type 0} (xs : List A) → (xs ≡ []) ⊎ ((ys : List A) × (b : A) × (xs ≡ ys ++ b ∷ []))
Snoc-cases [] = inl refl
Snoc-cases (x ∷ xs) = elim (Snoc-cases xs) [
  | inl e ↦ inr ([], x, ap (◌∷◌ x) e)
  | inr (ys, b, e) ↦ inr (x ∷ ys, b, ap (◌∷◌ x) e)
]

-- `ys` is `xs` with the entry of `k` set to `o`, and all others kept.
pub record Updated {A : Type 0} (key : A → ℕ) (k : ℕ) (o : Option A) (xs ys : List A) : Type 0 where
  pub unique_keys : Unique key ys
  pub lookups : (q : ℕ) → lookup key q ys ≡ (if k == q then o else lookup key q xs)

module _ {A : Type 0} (key : A → ℕ) where
  pub push-Updated :
      (xs : List A) (a : A)
      → Unique key xs
      → lookup key (key a) xs ≡ none
      → Updated key (key a) (some a) xs (xs ++ a ∷ [])
  unfolding lookup
  push-Updated xs a u n = record {
    unique_keys = Unique-append_one key xs a n u;
    lookups = λ q. ground (arith, lookup-append key q xs (a ∷ []), n);
  }

  pub write-Updated :
      (k : ℕ) (xs ys : List A) (x y : A)
      → Unique key (xs ++ x ∷ ys)
      → lookup key k xs ≡ none
      → key x ≡ k
      → key y ≡ k
      → Updated key k (some y) (xs ++ x ∷ ys) (xs ++ y ∷ ys)
  unfolding lookup
  write-Updated k xs ys x y u n ex ey = record {
    unique_keys =
        Unique-replace key xs (x ∷ ys) (y ∷ ys) (λ q e. ground arith)
          (ground (arith, (Unique-front key xs (x ∷ ys) u).1)) u;
    lookups =
        λ q. ground (arith, lookup-append key q xs (x ∷ ys), lookup-append key q xs (y ∷ ys), n);
  }

  pub remove_last-Updated :
      (k : ℕ) (xs : List A) (x : A)
      → Unique key (xs ++ x ∷ [])
      → lookup key k xs ≡ none
      → key x ≡ k
      → Updated key k none (xs ++ x ∷ []) xs
  unfolding lookup
  remove_last-Updated k xs x u n ex = record {
    unique_keys = (Unique-front key xs (x ∷ []) u).0;
    lookups = λ q. ground (arith, lookup-append key q xs (x ∷ []), n);
  }

  -- The last entry `b` moves to the place of `x`.
  pub remove_inner-Updated :
      (k : ℕ) (xs : List A) (x : A) (ys : List A) (b : A)
      → Unique key (xs ++ x ∷ (ys ++ b ∷ []))
      → lookup key k xs ≡ none
      → key x ≡ k
      → Updated key k none (xs ++ x ∷ (ys ++ b ∷ [])) (xs ++ b ∷ ys)
  unfolding lookup
  remove_inner-Updated k xs x ys b u n ex = record {
    unique_keys =
        Unique-replace key xs (x ∷ (ys ++ b ∷ [])) (b ∷ ys)
          (λ q e. ground (arith, lookup-rotate key q ys b tail.1)) (Unique-snoc key ys b tail.1) u;
    lookups = λ q. ground (
      arith,
      lookup-append key q xs (x ∷ (ys ++ b ∷ [])),
      lookup-append key q xs (b ∷ ys),
      lookup-rotate key q ys b tail.1,
      n,
      tail.0,
    );
  }
    where
      tail : Unique key (x ∷ (ys ++ b ∷ []))
      tail = (Unique-front key xs (x ∷ (ys ++ b ∷ [])) u).1
