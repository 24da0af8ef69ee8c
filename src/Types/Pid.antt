-- ===== src/Types/Pid.antt =====
-- src/types/pid.rs: packet identifiers, the nonzero 16-bit numbers.
use rust_mqtt.Prelude.{ℕ, ◌+◌, ◌%◌, ◌^◌, ◌≤◌, ◌<◌, ◌==◌, if◌then◌else◌}

-- A `PacketIdentifier` is kept as its number, and `IsPid` is the range of `NonZero<u16>`.
abbrev pub PacketIdentifier : Type 0
PacketIdentifier = ℕ

abbrev pub IsPid : PacketIdentifier → Type 0
IsPid p = (1 ≤ p) × (p < 2 ^ 16)

abbrev pub one : PacketIdentifier
one = 1

-- `NonZero::new(self.0.get().wrapping_add(1)).map_or(Self::ONE, Self)`
unfoldable pub next : PacketIdentifier → PacketIdentifier
next p = let q : ℕ = (p + 1) % 2 ^ 16 in if q == 0 then one else q
