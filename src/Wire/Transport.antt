-- ===== src/Wire/Transport.antt =====
-- src/io/read.rs, src/io/write.rs and src/io/err.rs: the byte streams under every reader and writer.
-- The traits `Read` and `Write` of embedded-io are not part of the repository, so a transport is a
-- parameter.
use rust_mqtt.Prelude.{
  ℕ, zero, suc, ◌≤◌, ◌≡◌, refl, ap, List, [], ◌∷◌, ◌++◌, length, take, drop, leb, if◌then◌else◌,
  Outcome, sym, returned, panicked, arith, ◌∙◌, length-drop, take-append-drop, le→leb,
}
use mathlib.Core.List.{append-nil, append_assoc}

-- `Result` of a call of the transport.
pub data Io (E A : Type 0) : Type 0 where
  done : A → Io E A
  failed : E → Io E A

-- `embedded_io_async::Read`: a call offers a slice of `len` bytes and tells the bytes it put there.
pub record Reader : Type 1 where
  pub Stream : Type 0
  pub Error : Type 0
  pub read : Stream → (len : ℕ) → Stream × Io Error (List ℕ)

-- Documented: no more bytes than the slice has room for.
pub record IsReader (r : Reader) : Type 0 where
  pub fits :
      (s : r.Stream) (len : ℕ) (bytes : List ℕ) → (r.read s len).1 ≡ done bytes → length bytes ≤ len

-- One-byte reads of the stream give these bytes and leave `u`.
abbrev pub Delivers : (r : Reader) → r.Stream → List ℕ → r.Stream → Type 0
Delivers r s [] u = s ≡ u
Delivers r s (b ∷ bytes) u =
    (t : r.Stream) × (r.read s 1 ≡ (t, done (b ∷ []))) × Delivers r t bytes u

-- `embedded_io_async::Write`: a call takes a front part of the bytes and tells its length.
pub record Writer : Type 1 where
  pub Sink : Type 0
  pub Error : Type 0
  pub write : Sink → List ℕ → Sink × Io Error ℕ

-- The sink takes bytes in order and never fails; `contents` is what it has taken.
pub record IsOpen (w : Writer) (contents : w.Sink → List ℕ) : Type 0 where
  pub takes :
      (s : w.Sink) (b : ℕ) (bytes : List ℕ)
      → (t : w.Sink) × (n : ℕ) × (n ≤ length bytes)
        × (w.write s (b ∷ bytes) ≡ (t, done (suc n)))
        × (contents t ≡ contents s ++ (b ∷ take n bytes))

-- `WriteError`
pub data WriteError (E : Type 0) : Type 0 where
  write_zero : WriteError E
  write_error : E → WriteError E

-- `ReadError`
pub data ReadError (E : Type 0) : Type 0 where
  read_error : E → ReadError E
  unexpected_eof malformed_packet protocol_error invalid_topic_name : ReadError E

-- What a reader or writer of the source leaves: the stream, and its `Result`.
pub data Reply (S E A : Type 0) : Type 0 where
  ok : S → A → Reply S E A
  err : S → E → Reply S E A

module _ (w : Writer) where
  -- The loop of `write` on `[u8]`, with fuel for one byte in each round; the slice starts at the
  -- first byte that is not written.
  unfoldable pub write_loop : ℕ → w.Sink → List ℕ → Outcome (Reply w.Sink (WriteError w.Error) Unit)
  write_loop fuel s [] = returned (ok s tt)
  write_loop zero s (b ∷ bytes) = panicked
  write_loop (suc fuel) s (b ∷ bytes) =
      let (s', r) = w.write s (b ∷ bytes) in
      elim r [
        | failed e ↦ returned (err s' (write_error e))
        | done zero ↦ returned (err s' write_zero)
        | done (suc n) ↦
            (let rest = write_loop fuel s' (drop (suc n) (b ∷ bytes)) in
              if leb (suc n) (length (b ∷ bytes)) then rest else panicked)
      ]

  unfoldable pub write_bytes : w.Sink → List ℕ → Outcome (Reply w.Sink (WriteError w.Error) Unit)
  write_bytes s bytes = write_loop (length bytes) s bytes

  pub write_loop-round :
      (fuel : ℕ) (s t : w.Sink) (b : ℕ) (bytes : List ℕ) (n : ℕ)
      → w.write s (b ∷ bytes) ≡ (t, done (suc n))
      → n ≤ length bytes
      → write_loop (suc fuel) s (b ∷ bytes) ≡ write_loop fuel t (drop n bytes)
  unfolding write_loop
  write_loop-round fuel s t b bytes n written fits =
      rw (written, write_loop, le→leb (suc n) (suc (length bytes)) (omega arith))
        (ap (λ x. write_loop fuel (x.0) (drop n bytes)) written)

  pub write_loop-takes :
      (contents : w.Sink → List ℕ)
      → IsOpen w contents
      → (fuel : ℕ) (s : w.Sink) (bytes : List ℕ) → length bytes ≤ fuel
      → (s' : w.Sink) × (write_loop fuel s bytes ≡ returned (ok s' tt))
        × (contents s' ≡ contents s ++ bytes)
  unfolding write_loop
  write_loop-takes contents h fuel s [] le = (s, refl, sym (append-nil (contents s)))
  write_loop-takes contents h zero s (b ∷ bytes) le = absurd (omega arith)
  write_loop-takes contents h (suc fuel) s (b ∷ bytes) le =
      let (t, n, fits, written, added) = h.takes s b bytes in
      let (s', e, c) =
        write_loop-takes contents h fuel t (drop n bytes) (omega (arith, length-drop n bytes)) in
      (
        s',
        write_loop-round fuel s t b bytes n written fits ∙ e,
        c
            ∙ rw
                (
                  added,
                  append_assoc (contents s) (b ∷ take n bytes) (drop n bytes),
                  take-append-drop n bytes,
                )
                refl,
      )

  -- Whatever parts the transport takes, the loop hands over all bytes in order.
  pub write_bytes-takes :
      (contents : w.Sink → List ℕ)
      → IsOpen w contents
      → (s : w.Sink) (bytes : List ℕ)
      → (s' : w.Sink) × (write_bytes s bytes ≡ returned (ok s' tt))
        × (contents s' ≡ contents s ++ bytes)
  unfolding write_bytes
  write_bytes-takes contents h s bytes =
      write_loop-takes contents h (length bytes) s bytes (omega arith)
