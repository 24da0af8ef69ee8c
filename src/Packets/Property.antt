-- ===== src/Packets/Property.antt =====
-- src/v5/property/mod.rs and src/v5/property/values.rs: how a property is read at most once, skipped
-- and written. A property is kept as the value that it wraps.
use rust_mqtt.Prelude.{ℕ, ◌+◌, Option, none, some, Outcome, returned}
use rust_mqtt.Wire.Transport.{Writer, Reader, ReadError, WriteError, Reply, ok, err}
use rust_mqtt.Wire.Feed.{and_then, map_err}
use rust_mqtt.Wire.Ints.{read_u16, u16_len}
use rust_mqtt.Wire.Body.{BufferProvider, Body, BodyError, body_reader, skip}
use rust_mqtt.Packets.RxError.{RxError, from_read, from_body, AtMostOnceError, already_set}
use rust_mqtt.Packets.PropertyType.{PropertyType, type_len, write_property_type}

module _ (net : Reader) (provider : BufferProvider) where
  abbrev pub RxReply : Type 0 → Type 0
  RxReply A = Outcome (Reply (Body net provider) (RxError net.Error provider.ProvisionError) A)

  -- A reader of a value from the body.
  abbrev pub ReadsValue : Type 0 → Type 0
  ReadsValue A =
      Body net provider → Outcome (Reply (Body net provider) (ReadError (BodyError net provider)) A)

  -- `Option::try_set`, by the reader of the property
  unfoldable pub try_set :
      {A : Type 0}
      → ReadsValue A
      → Option A
      → Body net provider
      → Outcome (
          Reply
            (Body net provider)
            (AtMostOnceError (ReadError (BodyError net provider)))
            (Option A))
  try_set read (some v) b = returned (err b already_set)
  try_set read none b =
      map_err AtMostOnceError.read (and_then (read b) (λ b' v. returned (ok b' (some v))))

  -- `UserProperty::skip`
  unfoldable pub skip_user_property : Body net provider → RxReply ℕ
  unfolding read_u16 skip from_read from_body
  skip_user_property b =
      and_then (map_err from_read (read_u16 (body_reader net provider) b)) (λ b1 name_len.
        and_then (map_err from_body (skip net provider name_len b1)) (λ b2 _.
          and_then (map_err from_read (read_u16 (body_reader net provider) b2)) (λ b3 value_len.
            and_then (map_err from_body (skip net provider value_len b3))
              (λ b4 _. returned (ok b4 (u16_len + name_len + u16_len + value_len))))))

-- `written_len` of an `Option`, and of a property by that of its value
unfoldable pub optional_len : {A : Type 0} → (A → ℕ) → Option A → ℕ
optional_len len none = 0
optional_len len (some v) = len v

abbrev pub property_len : {A : Type 0} → (A → ℕ) → A → ℕ
property_len len v = type_len + len v

module _ (w : Writer) where
  abbrev pub Write : Type 0
  Write = Outcome (Reply w.Sink (WriteError w.Error) Unit)

  -- The writer that `property!` makes, by that of the value, and that of an `Option`.
  unfoldable pub write_property :
      {A : Type 0} → PropertyType → (w.Sink → A → Write) → w.Sink → A → Write
  unfolding write_property_type
  write_property t write s v = and_then (write_property_type w s t) (λ s' _. write s' v)

  unfoldable pub write_optional : {A : Type 0} → (w.Sink → A → Write) → w.Sink → Option A → Write
  write_optional write s none = returned (ok s tt)
  write_optional write s (some v) = write s v
