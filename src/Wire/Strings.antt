-- ===== src/Wire/Strings.antt =====
-- src/types/binary.rs, src/types/string.rs and the readers and writers of these in src/io: binary data
-- and strings with a length of two bytes before them. Both are kept as their bytes. Whether bytes are
-- UTF-8 is decided by `core::str::from_utf8`, a parameter.
use rust_mqtt.Prelude.{
  ℕ, ◌+◌, ◌%◌, ◌^◌, leb, ◌==◌, Bool, true, false, if◌then◌else◌, Option, some, none, List, [], ◌∷◌,
  length, Outcome, returned,
}
use rust_mqtt.Wire.Transport.{
  Reader, Writer, ReadError, malformed_packet, invalid_topic_name, WriteError, Reply, ok, err,
  write_bytes,
}
use rust_mqtt.Wire.Feed.{and_then}
use rust_mqtt.Wire.Ints.{u16_len, read_u16, write_int}
use rust_mqtt.Wire.Body.{BufferProvider, Body, BodyError, body_reader, read_and_store}
use rust_mqtt.Topics.Name.{topic_name}

abbrev pub max_length : ℕ
max_length = 65535

-- `MqttBinary::from_slice` and `from_bytes`; `none` is `TooLargeToEncode`.
unfoldable pub from_slice : List ℕ → Option (List ℕ)
from_slice bytes = if leb (length bytes) max_length then some bytes else none

-- The loop that looks for the null character.
unfoldable pub has_null : List ℕ → Bool
has_null [] = false
has_null (b ∷ bytes) = let rest = has_null bytes in if b == 0 then true else rest

-- `self.0.len() as u16`
unfoldable pub len_u16 : List ℕ → ℕ
len_u16 bytes = length bytes % 2 ^ 16

-- `written_len` of `MqttBinary`, and of the strings on it
abbrev pub binary_len : List ℕ → ℕ
binary_len bytes = length bytes + u16_len

-- `MqttStringPair`
pub record StringPair : Type 0 where
  pub name : List ℕ
  pub value : List ℕ

abbrev pub pair_len : StringPair → ℕ
pair_len p = binary_len p.name + binary_len p.value

module _ (utf8 : List ℕ → Bool) where
  -- `MqttString::from_utf8_binary`; `none` is its error.
  unfoldable pub from_utf8_binary : List ℕ → Option (List ℕ)
  unfolding has_null
  from_utf8_binary bytes = if has_null bytes then none else if utf8 bytes then some bytes else none

  module _ (net : Reader) (provider : BufferProvider) where
    -- The result of a reader on a body.
    abbrev pub BodyReply : Type 0 → Type 0
    BodyReply A = Outcome (Reply (Body net provider) (ReadError (BodyError net provider)) A)

    unfoldable pub read_binary : Body net provider → BodyReply (List ℕ)
    unfolding read_u16 read_and_store
    read_binary b =
        and_then (read_u16 (body_reader net provider) b)
          (λ b' len. read_and_store net provider len b')

    unfoldable pub read_string : Body net provider → BodyReply (List ℕ)
    unfolding read_binary from_utf8_binary
    read_string b = and_then (read_binary b) (λ b' bytes. elim (from_utf8_binary bytes) [
      | some s ↦ returned (ok b' s)
      | none ↦ returned (err b' malformed_packet)
    ])

    unfoldable pub read_pair : Body net provider → BodyReply StringPair
    unfolding read_string
    read_pair b = and_then (read_string b) (λ b' name.
        and_then (read_string b')
          (λ b2 value. returned (ok b2 (record { name = name; value = value }))))

    unfoldable pub read_topic_name : Body net provider → BodyReply (List ℕ)
    unfolding read_string topic_name
    read_topic_name b = and_then (read_string b) (λ b' s. elim (topic_name s) [
      | some t ↦ returned (ok b' t)
      | none ↦ returned (err b' invalid_topic_name)
    ])

module _ (w : Writer) where
  unfoldable pub write_binary : w.Sink → List ℕ → Outcome (Reply w.Sink (WriteError w.Error) Unit)
  unfolding write_int len_u16
  write_binary s bytes = and_then (write_int w 2 s (len_u16 bytes)) (λ s' _. write_bytes w s' bytes)

  unfoldable pub write_pair : w.Sink → StringPair → Outcome (Reply w.Sink (WriteError w.Error) Unit)
  unfolding write_binary
  write_pair s p = and_then (write_binary s p.name) (λ s' _. write_binary s' p.value)
