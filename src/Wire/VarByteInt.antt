-- ===== src/Wire/VarByteInt.antt =====
-- src/types/int.rs with its reader in src/io/read.rs and its writer in src/io/write.rs: numbers in
-- one to four bytes, seven bits in each, the lowest first.
use rust_mqtt.Prelude.{
  ℕ, zero, suc, ◌+◌, ◌*◌, ◌/◌, ◌%◌, ◌^◌, ◌&&◌, Option, none, some, List, [], ◌∷◌, ◌++◌, length, ltb,
  leb, ◌==◌, if◌then◌else◌, Outcome, returned, panicked, ◌>>=◌,
}
use rust_mqtt.Wire.Transport.{
  Reader, Writer, done, failed, Reply, ok, err, ReadError, read_error, unexpected_eof,
  malformed_packet, WriteError, write_bytes,
}

-- A `VarByteInt` is kept as its value.
abbrev pub VarByteInt : Type 0
VarByteInt = ℕ

abbrev pub max_encodable : ℕ
max_encodable = 268435455

unfoldable pub new : ℕ → Option VarByteInt
new value = if ltb max_encodable value then none else some value

-- Its debug assertion is on.
unfoldable pub new_unchecked : ℕ → Outcome VarByteInt
new_unchecked value = if leb value max_encodable then returned value else panicked

-- The loop of `from_slice_unchecked` on u32.
unfoldable pub decode_loop : (multiplier value : ℕ) → List ℕ → ℕ
decode_loop multiplier value [] = value
decode_loop multiplier value (b ∷ bytes) =
    let value' : ℕ = (value + b % 128 * multiplier) % 2 ^ 32 in
    let rest = decode_loop (multiplier * 128 % 2 ^ 32) value' bytes in
    if ltb (b % 256) 128 then value' else rest

-- `slice.last()`
unfoldable pub last : List ℕ → Option ℕ
last [] = none
last (b ∷ bytes) = elim (last bytes) [ none ↦ some b | some c ↦ some c ]

unfoldable pub from_slice_unchecked : List ℕ → Outcome VarByteInt
unfolding last
from_slice_unchecked slice = elim (last slice) [
  | none ↦ panicked
  | some b ↦
      (let fits = leb (length slice) 4 && ltb (b % 256) 128 in
        if fits then new_unchecked (decode_loop 1 0 slice) else panicked)
]

-- `none` is the branch marked unreachable.
unfoldable pub written_len : VarByteInt → Option ℕ
written_len value =
    if leb value 127
    then some 1
    else if leb value 16383
    then some 2
    else if leb value 2097151
    then some 3
    else if leb value max_encodable
    then some 4
    else none

module _ (w : Writer) where
  -- The loop of `write` with fuel; a u32 is 0 after five rounds.
  unfoldable pub write_loop : ℕ → w.Sink → ℕ → Outcome (Reply w.Sink (WriteError w.Error) Unit)
  write_loop zero s x = panicked
  write_loop (suc fuel) s x = do
    let rest_x : ℕ = x / 128
    let encoded_byte : ℕ = if ltb 0 rest_x then x % 128 + 128 else x % 128
    r ← write_bytes w s (encoded_byte ∷ [])
    elim r [
      | err s' e ↦ returned (err s' e)
      | ok s' _ ↦
          (let rest = write_loop fuel s' rest_x in
            if rest_x == 0 then returned (ok s' tt) else rest)
    ]

  unfoldable pub write : w.Sink → VarByteInt → Outcome (Reply w.Sink (WriteError w.Error) Unit)
  write s value = write_loop 5 s value

module _ (r : Reader) where
  -- The loop of `read` with fuel, once the bytes `buffer[0..i]` are read.
  unfoldable pub read_loop :
      ℕ → r.Stream → List ℕ → Outcome (Reply r.Stream (ReadError r.Error) VarByteInt)
  read_loop zero s buffer = panicked
  read_loop (suc fuel) s buffer =
      let (s', x) = r.read s 1 in
      elim x [
        | failed e ↦ returned (err s' (read_error e))
        | done [] ↦ returned (err s' unexpected_eof)
        | done (b ∷ (_ ∷ _)) ↦ panicked
        | done (b ∷ []) ↦
            (let more = read_loop fuel s' (buffer ++ b ∷ []) in
              let value = from_slice_unchecked (buffer ++ b ∷ []) in
              if leb 128 b
              then (if length buffer == 3 then returned (err s' malformed_packet) else more)
              else value >>= λ v. returned (ok s' v))
      ]

  -- The buffer has four bytes.
  unfoldable pub read : r.Stream → Outcome (Reply r.Stream (ReadError r.Error) VarByteInt)
  read s = read_loop 4 s []
