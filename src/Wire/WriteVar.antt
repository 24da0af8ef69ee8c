-- ===== src/Wire/WriteVar.antt =====
-- The writer of variable byte integers in src/io/write.rs.
use rust_mqtt.Prelude.{
  ℕ, suc, ◌+◌, ◌*◌, ◌/◌, ◌%◌, ◌≤◌, ◌<◌, ◌≡◌, refl, ap, sym, ◌∙◌, inl, inr, true, false, Bool-cases,
  ltb→lt, lt→ltb, ==_ne, List, [], ◌∷◌, ◌++◌, ltb, ◌==◌, Outcome, returned, arith,
}
use mathlib.Core.List.{append_assoc}
use rust_mqtt.Wire.Transport.{Writer, IsOpen, Reply, ok, WriteError, write_bytes-takes}
use rust_mqtt.Wire.VarByteInt.{VarByteInt, max_encodable, write_loop, write}
use rust_mqtt.Wire.Encoding.{encoding, encoding-last, encoding-more}

module _ (w : Writer) (contents : w.Sink → List ℕ) (open_sink : IsOpen w contents) where
  abbrev pub Appends : w.Sink → Outcome (Reply w.Sink (WriteError w.Error) Unit) → List ℕ → Type 0
  Appends s m bytes =
      (s' : w.Sink) × (m ≡ returned (ok s' tt)) × (contents s' ≡ contents s ++ bytes)

  last_round :
      (fuel : ℕ) (s : w.Sink) (x : ℕ)
      → x < 128
      → Appends s (write_loop w (suc fuel) s x) (encoding x)
  unfolding write_loop
  last_round fuel s x h =
      let (s', e, c) = write_bytes-takes w contents open_sink s (x ∷ []) in
      let zero_left : x / 128 ≡ 0 = omega arith in
      let same : x % 128 ≡ x = omega arith in
      (
        s',
        rw zero_left (rw same (rw e (rw zero_left refl))),
        c ∙ ap (λ bytes. contents s ++ bytes) (sym (encoding-last x h)),
      )

  more_round :
      (fuel : ℕ) (s : w.Sink) (x : ℕ)
      → 128 ≤ x
      → x ≤ max_encodable
      → ((t : w.Sink) → Appends t (write_loop w fuel t (x / 128)) (encoding (x / 128)))
      → Appends s (write_loop w (suc fuel) s x) (encoding x)
  unfolding write_loop
  more_round fuel s x lo hi rest =
      let (t, e, c) = write_bytes-takes w contents open_sink s ((x % 128 + 128) ∷ []) in
      let (u, e', c') = rest t in
      let positive : ltb 0 (x / 128) ≡ true = lt→ltb _ _ (omega arith) in
      let going : (x / 128 == 0) ≡ false = ==_ne _ _ (omega arith) in
      (
        u,
        rw positive (rw e (rw going e')),
        c'
            ∙ rw
                (
                  c,
                  append_assoc (contents s) ((x % 128 + 128) ∷ []) (encoding (x / 128)),
                  encoding-more x lo hi,
                )
                refl,
      )

  -- One more round encodes numbers 128 times as large.
  more_rounds :
      (fuel bound : ℕ)
      → ((s : w.Sink) (x : ℕ) → x < bound → Appends s (write_loop w fuel s x) (encoding x))
      → (s : w.Sink) (x : ℕ) → x < 128 * bound
      → x ≤ max_encodable
      → Appends s (write_loop w (suc fuel) s x) (encoding x)
  more_rounds fuel bound shorter s x lt hi = elim (Bool-cases (ltb x 128)) [
    | inl small ↦ last_round fuel s x (ltb→lt _ _ small)
    | inr large ↦ more_round fuel s x (ground arith) hi (λ t. shorter t (x / 128) (omega arith))
  ]

  pub write-takes :
      (s : w.Sink) (x : VarByteInt) → x ≤ max_encodable → Appends s (write w s x) (encoding x)
  unfolding write
  write-takes s x hi =
      let two = more_rounds 2 128 (λ t y h. last_round 1 t y h) in
      let three = more_rounds 3 16384 (λ t y h. two t y h (omega arith)) in
      let four = more_rounds 4 2097152 (λ t y h. three t y h (omega arith)) in
      four s x (omega arith) hi
