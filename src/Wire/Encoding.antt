-- ===== src/Wire/Encoding.antt =====
-- The variable byte integer encoding of MQTT: what src/io writes and reads.
use rust_mqtt.Prelude.{
  ℕ, ◌+◌, ◌*◌, ◌/◌, ◌%◌, ◌≤◌, ◌<◌, ◌≡◌, refl, some, List, [], ◌∷◌, length, ltb, if◌then◌else◌,
  returned, arith, Bool-cases, inl, inr, ltb→lt,
}
use rust_mqtt.Wire.VarByteInt.{
  max_encodable, written_len, from_slice_unchecked, decode_loop, last, new_unchecked,
}

-- Seven bits in each byte, the lowest first, and the top bit in all but the last.
unfoldable pub encoding : ℕ → List ℕ
encoding x =
    if ltb x 128
    then x ∷ []
    else if ltb x 16384
    then (x % 128 + 128) ∷ (x / 128) ∷ []
    else if ltb x 2097152
    then (x % 128 + 128) ∷ (x / 128 % 128 + 128) ∷ (x / 16384) ∷ []
    else (x % 128 + 128) ∷ (x / 128 % 128 + 128) ∷ (x / 16384 % 128 + 128) ∷ (x / 2097152) ∷ []

pub encoding-last : (x : ℕ) → x < 128 → encoding x ≡ x ∷ []
unfolding encoding
encoding-last x h = ground arith

pub encoding-more :
    (x : ℕ) → 128 ≤ x → x ≤ max_encodable → encoding x ≡ (x % 128 + 128) ∷ encoding (x / 128)
unfolding encoding
encoding-more x lo hi = ground arith

pub encoding_positive : (x : ℕ) → 1 ≤ length (encoding x)
unfolding encoding
encoding_positive x = ground (arith)

pub written_len-encoding : (x : ℕ) → x ≤ max_encodable → written_len x ≡ some (length (encoding x))
unfolding encoding written_len
written_len-encoding x h = ground arith

pub one_byte : (a : ℕ) → a < 128 → from_slice_unchecked (a ∷ []) ≡ returned a
unfolding from_slice_unchecked last decode_loop new_unchecked
one_byte a h = ground arith

pub two_bytes :
    (a b : ℕ)
    → a < 128
    → b < 128
    → from_slice_unchecked ((a + 128) ∷ b ∷ []) ≡ returned (a + 128 * b)
unfolding from_slice_unchecked last decode_loop new_unchecked
two_bytes a b h k = ground arith

pub three_bytes :
    (a b c : ℕ)
    → a < 128
    → b < 128
    → c < 128
    → from_slice_unchecked ((a + 128) ∷ (b + 128) ∷ c ∷ []) ≡ returned (a + 128 * b + 16384 * c)
unfolding from_slice_unchecked last decode_loop new_unchecked
three_bytes a b c h k l = ground arith

pub four_bytes :
    (a b c d : ℕ)
    → a < 128
    → b < 128
    → c < 128
    → d < 128
    → from_slice_unchecked ((a + 128) ∷ (b + 128) ∷ (c + 128) ∷ d ∷ [])
      ≡ returned (a + 128 * b + 16384 * c + 2097152 * d)
unfolding from_slice_unchecked last decode_loop new_unchecked
four_bytes a b c d h k l m = ground arith

-- The digits of a number to the base 128, as the encoding has them.
pub data Digits (x : ℕ) : Type 0 where
  one : (a : ℕ) → a < 128 → encoding x ≡ a ∷ [] → x ≡ a → Digits x
  two : (a b : ℕ) → a < 128 → b < 128 → encoding x ≡ (a + 128) ∷ b ∷ [] → x ≡ a + 128 * b → Digits x
  three :
      (a b c : ℕ)
      → a < 128
      → b < 128
      → c < 128
      → encoding x ≡ (a + 128) ∷ (b + 128) ∷ c ∷ []
      → x ≡ a + 128 * b + 16384 * c
      → Digits x
  four :
      (a b c d : ℕ)
      → a < 128
      → b < 128
      → c < 128
      → d < 128
      → encoding x ≡ (a + 128) ∷ (b + 128) ∷ (c + 128) ∷ d ∷ []
      → x ≡ a + 128 * b + 16384 * c + 2097152 * d
      → Digits x

pub Digits-of : (x : ℕ) → x ≤ max_encodable → Digits x
unfolding encoding
Digits-of x h = elim (Bool-cases (ltb x 128)) [
  | inl one_digit ↦ one x (ltb→lt _ _ one_digit) (ground arith) refl
  | inr above_one ↦ elim (Bool-cases (ltb x 16384)) [
    | inl two_digits ↦
        two (x % 128) (x / 128) (omega arith) (ground arith) (ground arith) (omega arith)
    | inr above_two ↦ elim (Bool-cases (ltb x 2097152)) [
      | inl three_digits ↦
          three (x % 128) (x / 128 % 128) (x / 16384) (omega arith) (omega arith) (ground arith)
            (ground arith) (omega arith)
      | inr four_digits ↦
          four (x % 128) (x / 128 % 128) (x / 16384 % 128) (x / 2097152) (omega arith) (omega arith)
            (omega arith) (omega arith) (ground arith) (omega arith)
    ]
  ]
]
