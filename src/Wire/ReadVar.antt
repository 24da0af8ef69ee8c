-- ===== src/Wire/ReadVar.antt =====
-- The reader of variable byte integers in src/io/read.rs.
use rust_mqtt.Prelude.{
  ℕ, suc, ◌+◌, ◌*◌, ◌≤◌, ◌<◌, ◌≡◌, ◌≢◌, refl, ap, subst, ◌∙◌, false, le→leb, ==_ne, List, [], ◌∷◌,
  ◌++◌, length, leb, returned, arith,
}
use rust_mqtt.Wire.Transport.{Reader, Delivers, done, ok, err, malformed_packet}
use rust_mqtt.Wire.VarByteInt.{VarByteInt, max_encodable, read_loop, read, from_slice_unchecked}
use rust_mqtt.Wire.Encoding.{
  encoding, one_byte, two_bytes, three_bytes, four_bytes, Digits-of, one, two, three, four,
}

module _ (r : Reader) where
  more_bytes :
      (fuel : ℕ) (s t : r.Stream) (buffer : List ℕ) (b : ℕ)
      → r.read s 1 ≡ (t, done (b ∷ []))
      → 128 ≤ b
      → length buffer ≢ 3
      → read_loop r (suc fuel) s buffer ≡ read_loop r fuel t (buffer ++ b ∷ [])
  unfolding read_loop
  more_bytes fuel s t buffer b e h n =
      rw (e, read_loop, le→leb 128 b h, ==_ne (length buffer) 3 n)
        (ap (λ x. read_loop r fuel (x.0) (buffer ++ b ∷ [])) e)

  last_byte :
      (fuel : ℕ) (s t : r.Stream) (buffer : List ℕ) (b v : ℕ)
      → r.read s 1 ≡ (t, done (b ∷ []))
      → b < 128
      → from_slice_unchecked (buffer ++ b ∷ []) ≡ returned v
      → read_loop r (suc fuel) s buffer ≡ returned (ok t v)
  unfolding read_loop
  last_byte fuel s t buffer b v e h d =
      let small : leb 128 b ≡ false = ground arith in
      rw (e, read_loop, small, d) (ap (λ x. returned (ok (x.0) v)) e)

  read_one :
      (s u : r.Stream) (a : ℕ) → a < 128 → Delivers r s (a ∷ []) u → read r s ≡ returned (ok u a)
  unfolding read
  read_one s u a h (t, e, z) = last_byte 3 s t [] a a e h (one_byte a h) ∙ rw z refl

  read_two :
      (s u : r.Stream) (a b : ℕ)
      → a < 128
      → b < 128
      → Delivers r s ((a + 128) ∷ b ∷ []) u
      → read r s ≡ returned (ok u (a + 128 * b))
  unfolding read
  read_two s u a b h k (t, e, (t', e', z)) =
      more_bytes 3 s t [] (a + 128) e (omega arith) (omega arith)
      ∙ last_byte 2 t t' _ b _ e' k (two_bytes a b h k)
      ∙ rw z refl

  read_three :
      (s u : r.Stream) (a b c : ℕ)
      → a < 128
      → b < 128
      → c < 128
      → Delivers r s ((a + 128) ∷ (b + 128) ∷ c ∷ []) u
      → read r s ≡ returned (ok u (a + 128 * b + 16384 * c))
  unfolding read
  read_three s u a b c h k l (t, e, (t', e', (t2, e2, z))) =
      more_bytes 3 s t [] (a + 128) e (omega arith) (omega arith)
      ∙ more_bytes 2 t t' _ (b + 128) e' (omega arith) (omega arith)
      ∙ last_byte 1 t' t2 _ c _ e2 l (three_bytes a b c h k l)
      ∙ rw z refl

  read_four :
      (s u : r.Stream) (a b c d : ℕ)
      → a < 128
      → b < 128
      → c < 128
      → d < 128
      → Delivers r s ((a + 128) ∷ (b + 128) ∷ (c + 128) ∷ d ∷ []) u
      → read r s ≡ returned (ok u (a + 128 * b + 16384 * c + 2097152 * d))
  unfolding read
  read_four s u a b c d h k l m (t, e, (t', e', (t2, e2, (t3, e3, z)))) =
      more_bytes 3 s t [] (a + 128) e (omega arith) (omega arith)
      ∙ more_bytes 2 t t' _ (b + 128) e' (omega arith) (omega arith)
      ∙ more_bytes 1 t' t2 _ (c + 128) e2 (omega arith) (omega arith)
      ∙ last_byte 0 t2 t3 _ d _ e3 m (four_bytes a b c d h k l m)
      ∙ rw z refl

  pub read-encoding :
      (s u : r.Stream) (x : VarByteInt)
      → x ≤ max_encodable
      → Delivers r s (encoding x) u
      → read r s ≡ returned (ok u x)
  read-encoding s u x h d = elim (Digits-of x h) [
    | one a ha e v ↦ rw v (read_one s u a ha (subst (λ l. Delivers r s l u) e d))
    | two a b ha hb e v ↦ rw v (read_two s u a b ha hb (subst (λ l. Delivers r s l u) e d))
    | three a b c ha hb hc e v ↦
        rw v (read_three s u a b c ha hb hc (subst (λ l. Delivers r s l u) e d))
    | four a b c k ha hb hc hk e v ↦
        rw v (read_four s u a b c k ha hb hc hk (subst (λ l. Delivers r s l u) e d))
  ]

  -- A fourth byte with the top bit set is no encoding.
  too_long :
      (s t : r.Stream) (buffer : List ℕ) (b : ℕ)
      → r.read s 1 ≡ (t, done (b ∷ []))
      → 128 ≤ b
      → length buffer ≡ 3
      → read_loop r 1 s buffer ≡ returned (err t malformed_packet)
  unfolding read_loop
  too_long s t buffer b e h n =
      rw (e, read_loop, le→leb 128 b h, n) (ap (λ x. returned (err (x.0) malformed_packet)) e)

  -- Four bytes in a row with the top bit set are rejected as a malformed packet by the reader of
  -- variable byte integers, which takes no fifth byte.
  pub read-malformed :
      (s u : r.Stream) (a b c d : ℕ)
      → 128 ≤ a
      → 128 ≤ b
      → 128 ≤ c
      → 128 ≤ d
      → Delivers r s (a ∷ b ∷ c ∷ d ∷ []) u
      → read r s ≡ returned (err u malformed_packet)
  unfolding read
  read-malformed s u a b c d h k l m (t, e, (t', e', (t2, e2, (t3, e3, z)))) =
      more_bytes 3 s t [] a e h (omega arith)
      ∙ more_bytes 2 t t' _ b e' k (omega arith)
      ∙ more_bytes 1 t' t2 _ c e2 l (omega arith)
      ∙ too_long t2 t3 _ d e3 m (omega arith)
      ∙ rw z refl
