-- ===== src/Wire/Ints.antt =====
-- src/io/read.rs and src/io/write.rs: integers of one, two and four bytes, the first byte the highest,
-- and flags.
use rust_mqtt.Prelude.{
  ℕ, zero, suc, ◌+◌, ◌*◌, ◌/◌, ◌%◌, ◌^◌, ◌<◌, ◌≡◌, refl, sym, ap, subst, ◌∙◌, List, [], ◌∷◌, length,
  ◌==◌, Bool, true, false, if◌then◌else◌, Outcome, returned, arith,
}
use rust_mqtt.Wire.Transport.{
  Reader, Writer, ReadError, malformed_packet, protocol_error, WriteError, Reply, ok, err,
  write_bytes,
}
use rust_mqtt.Wire.Feed.{and_then, IsFed, Takes, read_array, read_array-feed}

-- `to_be_bytes` of an integer of `size` bytes.
unfoldable pub to_be_bytes : (size : ℕ) → ℕ → List ℕ
to_be_bytes zero v = []
to_be_bytes (suc n) v = (v / 256 ^ n % 256) ∷ to_be_bytes n v

-- `from_be_bytes`, after the higher bytes `v`.
unfoldable pub from_be_bytes : ℕ → List ℕ → ℕ
from_be_bytes v [] = v
from_be_bytes v (b ∷ bytes) = from_be_bytes (v * 256 + b) bytes

-- `written_len` of an integer
abbrev pub u8_len : ℕ
u8_len = 1

abbrev pub u16_len : ℕ
u16_len = 2

abbrev pub u32_len : ℕ
u32_len = 4

module _ (r : Reader) where
  -- The reader of `int_read_impl!`, by `size_of`.
  unfoldable pub read_int : (size : ℕ) → r.Stream → Outcome (Reply r.Stream (ReadError r.Error) ℕ)
  unfolding read_array from_be_bytes
  read_int size s =
      and_then (read_array r size s) (λ s' bytes. returned (ok s' (from_be_bytes 0 bytes)))

  unfoldable pub read_u8 : r.Stream → Outcome (Reply r.Stream (ReadError r.Error) ℕ)
  unfolding read_int
  read_u8 s = read_int 1 s

  unfoldable pub read_u16 : r.Stream → Outcome (Reply r.Stream (ReadError r.Error) ℕ)
  unfolding read_int
  read_u16 s = read_int 2 s

  unfoldable pub read_u32 : r.Stream → Outcome (Reply r.Stream (ReadError r.Error) ℕ)
  unfolding read_int
  read_u32 s = read_int 4 s

  -- The reader of `NonZero`.
  unfoldable pub read_nonzero :
      (size : ℕ) → r.Stream → Outcome (Reply r.Stream (ReadError r.Error) ℕ)
  unfolding read_int
  read_nonzero size s =
      and_then (read_int size s)
        (λ s' v. if v == 0 then returned (err s' protocol_error) else returned (ok s' v))

  unfoldable pub read_bool : r.Stream → Outcome (Reply r.Stream (ReadError r.Error) Bool)
  unfolding read_u8
  read_bool s = and_then (read_u8 s) (λ s' v.
      if v == 0
      then returned (ok s' false)
      else if v == 1
      then returned (ok s' true)
      else returned (err s' malformed_packet))

module _ (w : Writer) where
  -- The writer of `int_write_impl!`.
  unfoldable pub write_int :
      (size : ℕ) → w.Sink → ℕ → Outcome (Reply w.Sink (WriteError w.Error) Unit)
  unfolding to_be_bytes
  write_int size s v = write_bytes w s (to_be_bytes size v)

  unfoldable pub write_bool : w.Sink → Bool → Outcome (Reply w.Sink (WriteError w.Error) Unit)
  unfolding write_int
  write_bool s v = write_int 1 s (if v then 1 else 0)

pub length-to_be_bytes : (size v : ℕ) → length (to_be_bytes size v) ≡ size
unfolding to_be_bytes
length-to_be_bytes zero v = refl
length-to_be_bytes (suc n) v = ap suc (length-to_be_bytes n v)

-- The bytes of an integer give it back.
pub from-to_u8 : (v : ℕ) → v < 256 → from_be_bytes 0 (to_be_bytes 1 v) ≡ v
unfolding from_be_bytes to_be_bytes
from-to_u8 v h = omega arith

pub from-to_u16 : (v : ℕ) → v < 65536 → from_be_bytes 0 (to_be_bytes 2 v) ≡ v
unfolding from_be_bytes to_be_bytes
from-to_u16 v h = omega arith

pub from-to_u32 : (v : ℕ) → v < 4294967296 → from_be_bytes 0 (to_be_bytes 4 v) ≡ v
unfolding from_be_bytes to_be_bytes
from-to_u32 v h = omega arith

module _ (r : Reader) (holds : r.Stream → List ℕ → Type 0) (fed : IsFed r holds) where
  pub read_int-feed :
      (size v : ℕ)
      → from_be_bytes 0 (to_be_bytes size v) ≡ v
      → Takes holds (read_int r size) (to_be_bytes size v) v
  unfolding read_int
  read_int-feed size v back s rest h =
      let (t, e, h') = read_array-feed r holds fed (to_be_bytes size v) s rest h in
      let sized : read_array r size s ≡ returned (ok t (to_be_bytes size v)) =
        ap (λ k. read_array r k s) (sym (length-to_be_bytes size v)) ∙ e in
      (t, rw (sized, back) refl, h')

  pub read_u8-feed : (v : ℕ) → v < 256 → Takes holds (read_u8 r) (v ∷ []) v
  unfolding read_u8 to_be_bytes
  read_u8-feed v h =
      let digit : v / 1 % 256 ≡ v = omega arith in
      subst (λ b. Takes holds (read_int r 1) (b ∷ []) v) digit (read_int-feed 1 v (from-to_u8 v h))

  pub read_u16-feed : (v : ℕ) → v < 65536 → Takes holds (read_u16 r) (to_be_bytes 2 v) v
  unfolding read_u16
  read_u16-feed v h = read_int-feed 2 v (from-to_u16 v h)
