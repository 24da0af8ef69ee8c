-- ===== src/Wire/Feed.antt =====
-- src/io/read.rs: transports that deliver given bytes in order, in parts of their own choice, and the
-- loops that fill a slice from them.
use rust_mqtt.Prelude.{
  ℕ, zero, suc, ◌-◌, ◌≤◌, ◌≡◌, refl, ap, subst, ◌∙◌, List, [], ◌∷◌, ◌++◌, length, take, drop, leb,
  if◌then◌else◌, Outcome, returned, panicked, arith, length-take, length-drop, take-append-drop,
  le→leb,
}
use mathlib.Core.List.{append-nil, append_assoc}
use rust_mqtt.Wire.Transport.{
  Reader, done, failed, Delivers, ReadError, read_error, unexpected_eof, Reply, ok, err,
}

-- `?` on a `Result`, the stream being passed on.
abbrev pub and_then :
    {S E A B : Type 0}
    → Outcome (Reply S E A)
    → (S → A → Outcome (Reply S E B))
    → Outcome (Reply S E B)
and_then (returned (ok s a)) f = f s a
and_then (returned (err s e)) f = returned (err s e)
and_then panicked f = panicked

-- `map_err`, or the conversion that `?` makes
abbrev pub map_err : {S E F A : Type 0} → (E → F) → Outcome (Reply S E A) → Outcome (Reply S F A)
map_err f (returned (ok s a)) = returned (ok s a)
map_err f (returned (err s e)) = returned (err s (f e))
map_err f panicked = panicked

-- A stream that `holds` bytes gives a front part of them in every call.
pub record IsFed (r : Reader) (holds : r.Stream → List ℕ → Type 0) : Type 0 where
  pub gives :
      (s : r.Stream) (len b : ℕ) (bytes : List ℕ)
      → holds s (b ∷ bytes)
      → (t : r.Stream) × (n : ℕ) × (n ≤ len)
        × (n ≤ length bytes)
        × (r.read s (suc len) ≡ (t, done (b ∷ take n bytes)))
        × holds t (drop n bytes)

-- The reading function `f` takes these bytes off the stream and makes `a` of them.
abbrev pub Takes :
    {S E A : Type 0} → (S → List ℕ → Type 0) → (S → Outcome (Reply S E A)) → List ℕ → A → Type 0
Takes {S} holds f bytes a =
    (s : S) (rest : List ℕ)
    → holds s (bytes ++ rest)
    → (t : S) × (f s ≡ returned (ok t a)) × holds t rest

pub take-append : (n : ℕ) (xs ys : List ℕ) → n ≤ length xs → take n (xs ++ ys) ≡ take n xs
take-append zero xs ys le = refl
take-append (suc n) [] ys le = absurd (omega arith)
take-append (suc n) (x ∷ xs) ys le = ap (λ z. x ∷ z) (take-append n xs ys (omega arith))

pub drop-append : (n : ℕ) (xs ys : List ℕ) → n ≤ length xs → drop n (xs ++ ys) ≡ drop n xs ++ ys
drop-append zero xs ys le = refl
drop-append (suc n) [] ys le = absurd (omega arith)
drop-append (suc n) (x ∷ xs) ys le = drop-append n xs ys (omega arith)

module _ (r : Reader) where
  -- The loop of the array reader, with fuel for one byte in each round: `missing` is the length of
  -- the rest of the slice, `wrap` the conversion of a transport's error.
  unfoldable pub fill_loop :
      (wrap : r.Error → ReadError r.Error) (fuel : ℕ)
      → r.Stream
      → (missing : ℕ) (filled : List ℕ) → Outcome (Reply r.Stream (ReadError r.Error) (List ℕ))
  fill_loop wrap fuel s zero filled = returned (ok s filled)
  fill_loop wrap zero s (suc m) filled = panicked
  fill_loop wrap (suc fuel) s (suc m) filled =
      let (s', x) = r.read s (suc m) in
      elim x [
        | failed e ↦ returned (err s' (wrap e))
        | done [] ↦ returned (err s' unexpected_eof)
        | done (b ∷ bytes) ↦
            (let rest = fill_loop wrap fuel s' (m - length bytes) (filled ++ (b ∷ bytes)) in
              if leb (length bytes) m then rest else panicked)
      ]

  -- `<[u8; N]>::read`
  unfoldable pub read_array :
      (len : ℕ) → r.Stream → Outcome (Reply r.Stream (ReadError r.Error) (List ℕ))
  unfolding fill_loop
  read_array len s = fill_loop read_error len s len []

  fill_loop-round :
      (wrap : r.Error → ReadError r.Error) (fuel : ℕ) (s t : r.Stream) (m b : ℕ)
      (bytes filled : List ℕ)
      → r.read s (suc m) ≡ (t, done (b ∷ bytes))
      → length bytes ≤ m
      → fill_loop wrap (suc fuel) s (suc m) filled
        ≡ fill_loop wrap fuel t (m - length bytes) (filled ++ (b ∷ bytes))
  unfolding fill_loop
  fill_loop-round wrap fuel s t m b bytes filled e le =
      rw (e, fill_loop, le→leb (length bytes) m le)
        (ap (λ x. fill_loop wrap fuel (x.0) (m - length bytes) (filled ++ (b ∷ bytes))) e)

  module _ (holds : r.Stream → List ℕ → Type 0) (fed : IsFed r holds) where
    pub fill_loop-feed :
        (wrap : r.Error → ReadError r.Error) (fuel : ℕ) (s : r.Stream) (bytes rest filled : List ℕ)
        → length bytes ≤ fuel
        → holds s (bytes ++ rest)
        → (t : r.Stream) × (fill_loop wrap fuel s (length bytes) filled
            ≡ returned (ok t (filled ++ bytes)))
          × holds t rest
    unfolding fill_loop
    fill_loop-feed wrap fuel s [] rest filled le h = (s, rw (append-nil filled) refl, h)
    fill_loop-feed wrap zero s (b ∷ bytes) rest filled le h = absurd (omega arith)
    fill_loop-feed wrap (suc fuel) s (b ∷ bytes) rest filled le h =
        let (t, n, small, fits, e, h') = fed.gives s (length bytes) b (bytes ++ rest) h in
        let left : length (drop n bytes) ≡ length bytes - n = length-drop n bytes in
        let part : length (take n bytes) ≡ n = omega (arith, length-take n bytes) in
        let h2 : holds t (drop n bytes ++ rest) =
          subst (holds t) (drop-append n bytes rest small) h' in
        let (u, e', h3) =
          fill_loop-feed wrap fuel t (drop n bytes) rest (filled ++ (b ∷ take n bytes))
            (omega (arith, left)) h2 in
        let e2 : r.read s (suc (length bytes)) ≡ (t, done (b ∷ take n bytes)) =
          e ∙ ap (λ z. (t, done (b ∷ z))) (take-append n bytes rest small) in
        let next = λ (k : ℕ). fill_loop wrap fuel t k (filled ++ (b ∷ take n bytes)) in
        let missing : length bytes - length (take n bytes) ≡ length (drop n bytes) =
          omega (arith, left, part) in
        let joined : (filled ++ (b ∷ take n bytes)) ++ drop n bytes ≡ filled ++ (b ∷ bytes) =
          append_assoc filled (b ∷ take n bytes) (drop n bytes)
          ∙ ap (λ z. filled ++ (b ∷ z)) (take-append-drop n bytes) in
        (
          u,
          fill_loop-round wrap fuel s t (length bytes) b (take n bytes) filled e2
                (omega (arith, part))
              ∙ ap next missing
              ∙ e'
              ∙ ap (λ z. returned (ok u z)) joined,
          h3,
        )

    -- An array is filled with the bytes that come.
    pub read_array-feed : (bytes : List ℕ) → Takes holds (read_array (length bytes)) bytes bytes
    unfolding read_array
    read_array-feed bytes s rest h =
        fill_loop-feed read_error (length bytes) s bytes rest [] (omega arith) h

    -- Byte by byte, the stream delivers what it holds.
    pub feed-Delivers :
        (bytes rest : List ℕ) (s : r.Stream)
        → holds s (bytes ++ rest)
        → (t : r.Stream) × Delivers r s bytes t × holds t rest
    feed-Delivers [] rest s h = (s, refl, h)
    feed-Delivers (b ∷ bytes) rest s h =
        let (t, n, small, fits, e, h') = fed.gives s 0 b (bytes ++ rest) h in
        let none_more : n ≡ 0 = omega arith in
        let (u, d, h2) =
          feed-Delivers bytes rest t (subst (λ k. holds t (drop k (bytes ++ rest))) none_more h') in
        (u, (t, e ∙ ap (λ k. (t, done (b ∷ take k (bytes ++ rest)))) none_more, d), h2)
