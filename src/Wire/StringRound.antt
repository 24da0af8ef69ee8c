-- ===== src/Wire/StringRound.antt =====
-- src/io: strings are read back as they were written.
use rust_mqtt.Prelude.{
  ℕ, ◌%◌, ◌^◌, ◌≤◌, ◌≡◌, refl, Bool, some, List, ◌++◌, length, arith, length-append,
}
use rust_mqtt.Wire.Transport.{Reader, Writer, IsOpen}
use rust_mqtt.Wire.Feed.{IsFed, Takes}
use rust_mqtt.Wire.Ints.{to_be_bytes, length-to_be_bytes, read_u16, read_u16-feed, write_int}
use rust_mqtt.Wire.Body.{BufferProvider, body_reader, read_and_store}
use rust_mqtt.Wire.BodyFeed.{HoldsBody, HasRoom, body-IsFed, read_and_store-feed}
use rust_mqtt.Wire.Compose.{Takes-then, Takes-end, Appends-then, Appends-bytes}
use rust_mqtt.Wire.WriteVar.{Appends}
use rust_mqtt.Wire.Strings.{
  max_length, StringPair, from_utf8_binary, read_binary, read_string, read_pair, write_binary,
  write_pair, len_u16, binary_len, pair_len,
}

-- Binary data on the wire.
abbrev pub binary_bytes : List ℕ → List ℕ
binary_bytes bytes = to_be_bytes 2 (length bytes) ++ bytes

abbrev pub pair_bytes : StringPair → List ℕ
pair_bytes p = binary_bytes p.name ++ binary_bytes p.value

pub length-binary_bytes : (bytes : List ℕ) → length (binary_bytes bytes) ≡ binary_len bytes
length-binary_bytes bytes =
    omega (
      arith,
      length-append (to_be_bytes 2 (length bytes)) bytes,
      length-to_be_bytes 2 (length bytes),
    )

pub length-pair_bytes : (p : StringPair) → length (pair_bytes p) ≡ pair_len p
length-pair_bytes p = omega (
  arith,
  length-append (binary_bytes p.name) (binary_bytes p.value),
  length-binary_bytes p.name,
  length-binary_bytes p.value,
)

-- A string that can be sent.
pub record IsString (utf8 : List ℕ → Bool) (s : List ℕ) : Type 0 where
  pub short : length s ≤ max_length
  pub accepted : from_utf8_binary utf8 s ≡ some s

abbrev pub IsPair : (utf8 : List ℕ → Bool) → StringPair → Type 0
IsPair utf8 p = IsString utf8 p.name × IsString utf8 p.value

module _ (net : Reader) (provider : BufferProvider) (holds : net.Stream → List ℕ → Type 0)
    (after : List ℕ) (fed : IsFed net holds) (room : HasRoom net provider holds after)
    (utf8 : List ℕ → Bool) where
  pub read_binary-feed :
      (bytes : List ℕ)
      → length bytes ≤ max_length
      → Takes
          (HoldsBody net provider holds after)
          (read_binary utf8 net provider)
          (binary_bytes bytes)
          bytes
  unfolding read_binary
  read_binary-feed bytes short =
      Takes-then (HoldsBody net provider holds after) (read_u16 (body_reader net provider))
        (λ b len. read_and_store net provider len b) (to_be_bytes 2 (length bytes)) bytes
        (length bytes) bytes
        (read_u16-feed (body_reader net provider) (HoldsBody net provider holds after)
          (body-IsFed net provider holds after fed) (length bytes) (omega arith))
        (read_and_store-feed net provider holds after fed room bytes)

  pub read_string-feed :
      (s : List ℕ)
      → IsString utf8 s
      → Takes
          (HoldsBody net provider holds after)
          (read_string utf8 net provider)
          (binary_bytes s)
          s
  unfolding read_string
  read_string-feed s valid =
      Takes-end (HoldsBody net provider holds after) (read_binary utf8 net provider) _
        (binary_bytes s) s s (read_binary-feed s valid.short) (λ b. rw (valid.accepted) refl)

  pub read_pair-feed :
      (p : StringPair)
      → IsPair utf8 p
      → Takes (HoldsBody net provider holds after) (read_pair utf8 net provider) (pair_bytes p) p
  unfolding read_pair
  read_pair-feed p (name, value) =
      Takes-then (HoldsBody net provider holds after) (read_string utf8 net provider) _
        (binary_bytes p.name) (binary_bytes p.value) p.name p (read_string-feed p.name name)
        (Takes-end (HoldsBody net provider holds after) (read_string utf8 net provider) _
          (binary_bytes p.value) p.value p (read_string-feed p.value value) (λ b. refl))

module _ (w : Writer) (contents : w.Sink → List ℕ) (open_sink : IsOpen w contents) where
  pub write_binary-takes :
      (s : w.Sink) (bytes : List ℕ)
      → length bytes ≤ max_length
      → Appends w contents open_sink s (write_binary w s bytes) (binary_bytes bytes)
  unfolding write_binary write_int len_u16
  write_binary-takes s bytes short =
      let fits : length bytes % 2 ^ 16 ≡ length bytes = omega arith in
      Appends-then w contents open_sink s (write_int w 2 s (len_u16 bytes)) _
        (to_be_bytes 2 (length bytes)) bytes
        (rw (fits) (Appends-bytes w contents open_sink s (to_be_bytes 2 (length bytes))))
        (λ t. Appends-bytes w contents open_sink t bytes)

  pub write_pair-takes :
      (s : w.Sink) (p : StringPair)
      → length p.name ≤ max_length
      → length p.value ≤ max_length
      → Appends w contents open_sink s (write_pair w s p) (pair_bytes p)
  unfolding write_pair
  write_pair-takes s p name value =
      Appends-then w contents open_sink s _ _ (binary_bytes p.name) (binary_bytes p.value)
        (write_binary-takes s p.name name) (λ t. write_binary-takes t p.value value)
