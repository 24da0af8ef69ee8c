-- ===== src/Types/Qos.antt =====
-- src/types/qos.rs: the quality of service levels.
use rust_mqtt.Prelude.{ℕ, ◌*◌, ◌%◌, ◌^◌, ◌==◌, if◌then◌else◌, ltb, Bool, Option, none, some}
use rust_mqtt.Types.Pid.{PacketIdentifier}

pub data Qos : Type 0 where
  at_most_once at_least_once exactly_once : Qos

pub data IdentifiedQos : Type 0 where
  at_most_once : IdentifiedQos
  at_least_once exactly_once : PacketIdentifier → IdentifiedQos

-- The discriminant, by which the derived order compares.
unfoldable pub level : Qos → ℕ
level Qos.at_most_once = 0
level Qos.at_least_once = 1
level Qos.exactly_once = 2

-- `a > b`
unfoldable pub exceeds : Qos → Qos → Bool
unfolding level
exceeds a b = ltb (level b) (level a)

-- `bits << left_shift` on u8
unfoldable pub into_bits : Qos → ℕ → ℕ
into_bits Qos.at_most_once left_shift = 0x00 * 2 ^ left_shift % 2 ^ 8
into_bits Qos.at_least_once left_shift = 0x01 * 2 ^ left_shift % 2 ^ 8
into_bits Qos.exactly_once left_shift = 0x02 * 2 ^ left_shift % 2 ^ 8

unfoldable pub try_from_bits : ℕ → Option Qos
try_from_bits bits =
    if bits == 0x00
    then some Qos.at_most_once
    else if bits == 0x01
    then some Qos.at_least_once
    else if bits == 0x02
    then some Qos.exactly_once
    else none

-- `impl From<IdentifiedQoS> for QoS`
unfoldable pub qos_of : IdentifiedQos → Qos
qos_of IdentifiedQos.at_most_once = Qos.at_most_once
qos_of (IdentifiedQos.at_least_once p) = Qos.at_least_once
qos_of (IdentifiedQos.exactly_once p) = Qos.exactly_once

unfoldable pub packet_identifier : IdentifiedQos → Option PacketIdentifier
packet_identifier IdentifiedQos.at_most_once = none
packet_identifier (IdentifiedQos.at_least_once p) = some p
packet_identifier (IdentifiedQos.exactly_once p) = some p
