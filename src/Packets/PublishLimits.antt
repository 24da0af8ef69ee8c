-- ===== src/Packets/PublishLimits.antt =====
-- src/v5/packet/publish.rs: which packets `new` refuses as too large.
use rust_mqtt.Prelude.{
  ℕ, ◌%◌, ◌^◌, ◌≤◌, ◌<◌, ◌≡◌, refl, sym, ap, ◌∙◌, leb, if◌then◌else◌, Bool-cases, inl, inr, none,
  some, length, returned, arith, leb→le,
}
use rust_mqtt.Wire.VarByteInt.{VarByteInt, max_encodable}
use rust_mqtt.Wire.VarByteInt
use rust_mqtt.Packets.PubackBytes.{var_len-encoding}
use rust_mqtt.Packets.Publish.{PublishPacket}
use rust_mqtt.Packets.PublishSend.{properties_length, remaining_len_raw, new, remaining_len}
use rust_mqtt.Packets.PublishBytes.{
  properties_bytes, fields_bytes, length-properties_bytes, length-fields_bytes,
}

pub new-some : (x : ℕ) → x ≤ max_encodable → VarByteInt.new x ≡ some x
unfolding VarByteInt.new
new-some x h = ground arith

new-none : (x : ℕ) → max_encodable < x → VarByteInt.new x ≡ none
unfolding VarByteInt.new
new-none x h = ground arith

module _ (p : PublishPacket) where
  pub properties_length-bytes :
      length (properties_bytes p) ≤ max_encodable
      → properties_length p ≡ some (length (properties_bytes p))
  unfolding properties_length
  properties_length-bytes h =
      rw
        (
          sym (length-properties_bytes p),
          let fits : length (properties_bytes p) % 2 ^ 32 ≡ length (properties_bytes p) =
                omega arith in
              fits,
        )
        (new-some (length (properties_bytes p)) h)

  properties_length-none :
      max_encodable < length (properties_bytes p)
      → length (properties_bytes p) < 4294967296
      → properties_length p ≡ none
  unfolding properties_length
  properties_length-none over h =
      let fits : length (properties_bytes p) % 2 ^ 32 ≡ length (properties_bytes p) = omega arith in
      rw (sym (length-properties_bytes p), fits) (new-none (length (properties_bytes p)) over)

  -- Whatever the message, the total is taken to 32 bits.
  remaining_len_raw-bytes :
      length (properties_bytes p) ≤ max_encodable
      → remaining_len_raw p ≡ returned (VarByteInt.new (length (fields_bytes p) % 2 ^ 32))
  unfolding remaining_len_raw
  remaining_len_raw-bytes h =
      rw
        (
          properties_length-bytes h,
          remaining_len_raw,
          var_len-encoding (length (properties_bytes p)) h,
          sym (length-fields_bytes p),
        )
        refl

  remaining_len_raw-none :
      max_encodable < length (properties_bytes p)
      → length (properties_bytes p) < 4294967296
      → remaining_len_raw p ≡ returned none
  unfolding remaining_len_raw
  remaining_len_raw-none over h = rw (properties_length-none over h, remaining_len_raw) refl

  pub remaining_len-bytes :
      length (fields_bytes p) ≤ max_encodable → remaining_len p ≡ returned (length (fields_bytes p))
  unfolding remaining_len
  remaining_len-bytes fits =
      let small : length (properties_bytes p) ≤ max_encodable =
        omega (arith, length-fields_bytes p) in
      let same : length (fields_bytes p) % 2 ^ 32 ≡ length (fields_bytes p) = omega arith in
      rw (remaining_len_raw-bytes small, same, new-some (length (fields_bytes p)) fits) refl

  -- A PUBLISH packet whose bytes after the fixed header number less than 2^32 is accepted by new
  -- exactly if they number at most 268435455, the largest remaining length that can be encoded.
  pub new-accepts :
      length (fields_bytes p) < 4294967296
      → new p ≡ returned (if leb (length (fields_bytes p)) max_encodable then some p else none)
  unfolding new
  new-accepts h =
      let same : length (fields_bytes p) % 2 ^ 32 ≡ length (fields_bytes p) = omega arith in
      elim (Bool-cases (leb (length (fields_bytes p)) max_encodable)) [
        | inl fits ↦
            let le = leb→le (length (fields_bytes p)) max_encodable fits in
            let small : length (properties_bytes p) ≤ max_encodable =
              omega (arith, length-fields_bytes p) in
            rw (fits, remaining_len_raw-bytes small, same, new-some (length (fields_bytes p)) le)
              refl
        | inr over ↦
            let lt : max_encodable < length (fields_bytes p) = ground arith in
            elim (Bool-cases (leb (length (properties_bytes p)) max_encodable)) [
              | inl small ↦
                  rw
                    (
                      over,
                      remaining_len_raw-bytes
                          (leb→le (length (properties_bytes p)) max_encodable small),
                      same,
                      new-none (length (fields_bytes p)) lt,
                    )
                    refl
              | inr large ↦
                  let gt : max_encodable < length (properties_bytes p) = ground arith in
                  rw (over, remaining_len_raw-none gt (omega (arith, length-fields_bytes p))) refl
            ]
      ]

  -- A PUBLISH packet whose properties can be encoded is accepted by new whatever its length, if the
  -- number of its bytes after the fixed header, taken to 32 bits, is at most 268435455, and that is
  -- the remaining length that is sent.
  pub new-wraps :
      length (properties_bytes p) ≤ max_encodable
      → length (fields_bytes p) % 2 ^ 32 ≤ max_encodable
      → (new p ≡ returned (some p))
        × (remaining_len p ≡ returned (length (fields_bytes p) % 2 ^ 32))
  unfolding new remaining_len
  new-wraps small wrapped =
      let total : remaining_len_raw p ≡ returned (some (length (fields_bytes p) % 2 ^ 32)) =
        remaining_len_raw-bytes small
        ∙ ap (λ r. returned r) (new-some (length (fields_bytes p) % 2 ^ 32) wrapped) in
      (rw (total) refl, rw (total) refl)
