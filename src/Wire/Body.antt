-- ===== src/Wire/Body.antt =====
-- src/io/read.rs and src/io/err.rs: the reader of a packet's body, which stops at the remaining
-- length, and the buffers it stores strings in.
use rust_mqtt.Prelude.{
  ℕ, zero, suc, ◌-◌, List, [], ◌∷◌, length, leb, ltb, ◌==◌, ◌&&◌, not, min, if◌then◌else◌, Outcome,
  returned, panicked,
}
use rust_mqtt.Wire.Transport.{Reader, Io, done, failed, ReadError, Reply, ok, err}
use rust_mqtt.Wire.Transport
use rust_mqtt.Wire.Feed.{fill_loop}

-- `BufferProvider`: a call says whether there is room for `len` bytes. What is written to the memory
-- it returns is the result of the reader that called it.
pub record BufferProvider : Type 1 where
  pub State : Type 0
  pub ProvisionError : Type 0
  pub provide_buffer : State → (len : ℕ) → State × Io ProvisionError Unit

-- `BodyReadError`
pub data BodyReadError (E B : Type 0) : Type 0 where
  read : E → BodyReadError E B
  buffer : B → BodyReadError E B
  unexpected_eof insufficient_remaining_len malformed_packet protocol_error : BodyReadError E B
  invalid_topic_name : BodyReadError E B

-- `impl From<BodyReadError> for ReadError<BodyReadError>`
abbrev pub from_body_error : {E B : Type 0} → BodyReadError E B → ReadError (BodyReadError E B)
from_body_error unexpected_eof = Transport.unexpected_eof
from_body_error malformed_packet = Transport.malformed_packet
from_body_error protocol_error = Transport.protocol_error
from_body_error invalid_topic_name = Transport.invalid_topic_name
from_body_error (read e) = Transport.read_error (read e)
from_body_error (buffer b) = Transport.read_error (buffer b)
from_body_error insufficient_remaining_len = Transport.read_error insufficient_remaining_len

-- `BodyReader`
pub record BodyReader (S B : Type 0) : Type 0 where
  pub r : S
  pub buffer : B
  pub remaining_len : ℕ

module _ (net : Reader) (provider : BufferProvider) where
  abbrev pub Body : Type 0
  Body = BodyReader net.Stream provider.State

  abbrev pub BodyError : Type 0
  BodyError = BodyReadError net.Error provider.ProvisionError

  -- `BodyReader::new`
  abbrev pub new : net.Stream → provider.State → ℕ → Body
  new s b remaining_len = record { r = s; buffer = b; remaining_len = remaining_len }

  -- `impl Read for BodyReader`; `remaining_len` does not go below 0 while the transport gives no
  -- more bytes than it was asked for.
  unfoldable pub read_body : Body → (len : ℕ) → Body × Io BodyError (List ℕ)
  read_body b len =
      if not (len == 0) && (b.remaining_len == 0)
      then (b, failed insufficient_remaining_len)
      else (let (s, x) = net.read b.r (min len b.remaining_len) in
          elim x [
            | failed e ↦ (
              record { r = s; buffer = b.buffer; remaining_len = b.remaining_len },
              failed (read e),
            )
            | done bytes ↦ (
              record { r = s; buffer = b.buffer; remaining_len = b.remaining_len - length bytes },
              done bytes,
            )
          ])

  -- The body as a `Read` of its own.
  abbrev pub body_reader : Reader
  body_reader = record { Stream = Body; Error = BodyError; read = read_body }

  -- `read_and_store`
  unfoldable pub read_and_store :
      (len : ℕ) → Body → Outcome (Reply Body (ReadError BodyError) (List ℕ))
  unfolding read_body fill_loop
  read_and_store len b =
      if ltb b.remaining_len len
      then returned (err b (Transport.read_error insufficient_remaining_len))
      else (let (state, x) = provider.provide_buffer b.buffer len in
          let b' : Body = record { r = b.r; buffer = state; remaining_len = b.remaining_len } in
          elim x [
            | failed e ↦ returned (err b' (from_body_error (buffer e)))
            | done _ ↦ fill_loop body_reader from_body_error len b' len []
          ])

  -- The loop of `skip`, with fuel for one byte in each round.
  unfoldable pub skip_loop : (fuel : ℕ) → Body → (missing : ℕ) → Outcome (Reply Body BodyError Unit)
  skip_loop fuel b zero = returned (ok b tt)
  skip_loop zero b (suc m) = panicked
  skip_loop (suc fuel) b (suc m) =
      let (s, x) = net.read b.r (min 64 (suc m)) in
      let b' : Body = record { r = s; buffer = b.buffer; remaining_len = b.remaining_len } in
      elim x [
        | failed e ↦ returned (err b' (read e))
        | done [] ↦ returned (err b' unexpected_eof)
        | done (c ∷ bytes) ↦
            (let rest = skip_loop fuel b' (m - length bytes) in
              if leb (length bytes) m then rest else panicked)
      ]

  -- `skip`: `self.remaining_len -= len` is checked in a debug build only.
  unfoldable pub skip : (len : ℕ) → Body → Outcome (Reply Body BodyError Unit)
  unfolding skip_loop
  skip len b =
      let rest =
        skip_loop len (record { r = b.r; buffer = b.buffer; remaining_len = b.remaining_len - len })
          len in
      if ltb b.remaining_len len then panicked else rest
