-- ===== src/Buffer/Bump.antt =====
-- src/buffer.rs: `BumpBuffer`. The backing slice is its length, and a slice of it the index of its
-- first byte with its length.
use rust_mqtt.Prelude.{ℕ, ◌+◌, ◌-◌, ltb, if◌then◌else◌, List, [], ◌∷◌}
use rust_mqtt.Wire.Transport.{Io, done, failed}
use rust_mqtt.Wire.Body.{BufferProvider}

pub record BumpBuffer : Type 0 where
  pub len : ℕ
  pub index : ℕ

pub record Slice : Type 0 where
  pub start : ℕ
  pub size : ℕ

pub data InsufficientSpace : Type 0 where
  insufficient_space : InsufficientSpace

unfoldable pub new : ℕ → BumpBuffer
new len = record { len = len; index = 0 }

unfoldable pub remaining_len : BumpBuffer → ℕ
remaining_len b = b.len - b.index

-- `provide_buffer`, with the slice that it returns
unfoldable pub provide_slice : BumpBuffer → ℕ → BumpBuffer × Io InsufficientSpace Slice
unfolding remaining_len
provide_slice b len = if ltb (remaining_len b) len then (b, failed insufficient_space) else (
  record { len = b.len; index = b.index + len },
  done (record { start = b.index; size = len }),
)

unfoldable pub reset : BumpBuffer → BumpBuffer
reset b = record { len = b.len; index = 0 }

-- The provider that the client reads packets with.
unfoldable pub provide_room : BumpBuffer → ℕ → BumpBuffer × Io InsufficientSpace Unit
unfolding provide_slice
provide_room b len =
    let (b', r) = provide_slice b len in
    elim r [ done s ↦ (b', done tt) | failed e ↦ (b', failed e) ]

abbrev pub bump_provider : BufferProvider
bump_provider = record {
  State = BumpBuffer;
  ProvisionError = InsufficientSpace;
  provide_buffer = provide_room;
}

-- The slices of a sequence of calls, as long as the buffer is not reset.
unfoldable pub provide_all : BumpBuffer → List ℕ → BumpBuffer × List Slice
unfolding provide_slice
provide_all b [] = (b, [])
provide_all b (len ∷ lens) =
    let (b', r) = provide_slice b len in
    let (b2, slices) = provide_all b' lens in
    elim r [ done s ↦ (b2, s ∷ slices) | failed e ↦ (b2, slices) ]
