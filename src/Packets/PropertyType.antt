-- ===== src/Packets/PropertyType.antt =====
-- src/v5/property/types.rs: the properties' identifiers.
use rust_mqtt.Prelude.{
  ℕ, ◌<◌, ◌≡◌, ◌↔◌, arith, ◌==◌, if◌then◌else◌, Option, none, some, Outcome, returned,
}
use rust_mqtt.Wire.Transport.{
  Reader, Writer, ReadError, malformed_packet, WriteError, Reply, ok, err,
}
use rust_mqtt.Wire.Feed.{and_then}
use rust_mqtt.Wire.Ints.{read_u8, write_int}

pub data PropertyType : Type 0 where
  payload_format_indicator message_expiry_interval content_type : PropertyType
  response_topic correlation_data subscription_identifier : PropertyType
  session_expiry_interval assigned_client_identifier server_keep_alive : PropertyType
  authentication_method authentication_data request_problem_information : PropertyType
  will_delay_interval request_response_information response_information : PropertyType
  server_reference reason_string receive_maximum topic_alias_maximum : PropertyType
  topic_alias maximum_qos retain_available user_property maximum_packet_size : PropertyType
  wildcard_subscription_available subscription_identifier_available : PropertyType
  shared_subscription_available : PropertyType

-- `self as u8`
unfoldable pub identifier : PropertyType → ℕ
identifier payload_format_indicator = 0x01
identifier message_expiry_interval = 0x02
identifier content_type = 0x03
identifier response_topic = 0x08
identifier correlation_data = 0x09
identifier subscription_identifier = 0x0B
identifier session_expiry_interval = 0x11
identifier assigned_client_identifier = 0x12
identifier server_keep_alive = 0x13
identifier authentication_method = 0x15
identifier authentication_data = 0x16
identifier request_problem_information = 0x17
identifier will_delay_interval = 0x18
identifier request_response_information = 0x19
identifier response_information = 0x1A
identifier server_reference = 0x1C
identifier reason_string = 0x1F
identifier receive_maximum = 0x21
identifier topic_alias_maximum = 0x22
identifier topic_alias = 0x23
identifier maximum_qos = 0x24
identifier retain_available = 0x25
identifier user_property = 0x26
identifier maximum_packet_size = 0x27
identifier wildcard_subscription_available = 0x28
identifier subscription_identifier_available = 0x29
identifier shared_subscription_available = 0x2A

unfoldable pub from_identifier : ℕ → Option PropertyType
from_identifier b =
    if b == 0x01
    then some payload_format_indicator
    else if b == 0x02
    then some message_expiry_interval
    else if b == 0x03
    then some content_type
    else if b == 0x08
    then some response_topic
    else if b == 0x09
    then some correlation_data
    else if b == 0x0B
    then some subscription_identifier
    else if b == 0x11
    then some session_expiry_interval
    else if b == 0x12
    then some assigned_client_identifier
    else if b == 0x13
    then some server_keep_alive
    else if b == 0x15
    then some authentication_method
    else if b == 0x16
    then some authentication_data
    else if b == 0x17
    then some request_problem_information
    else if b == 0x18
    then some will_delay_interval
    else if b == 0x19
    then some request_response_information
    else if b == 0x1A
    then some response_information
    else if b == 0x1C
    then some server_reference
    else if b == 0x1F
    then some reason_string
    else if b == 0x21
    then some receive_maximum
    else if b == 0x22
    then some topic_alias_maximum
    else if b == 0x23
    then some topic_alias
    else if b == 0x24
    then some maximum_qos
    else if b == 0x25
    then some retain_available
    else if b == 0x26
    then some user_property
    else if b == 0x27
    then some maximum_packet_size
    else if b == 0x28
    then some wildcard_subscription_available
    else if b == 0x29
    then some subscription_identifier_available
    else if b == 0x2A
    then some shared_subscription_available
    else none

-- `PropertyType::read`
unfoldable pub read_property_type :
    (r : Reader) → r.Stream → Outcome (Reply r.Stream (ReadError r.Error) PropertyType)
unfolding read_u8 from_identifier
read_property_type r s = and_then (read_u8 r s) (λ s' b. elim (from_identifier b) [
  | some t ↦ returned (ok s' t)
  | none ↦ returned (err s' malformed_packet)
])

-- `PropertyType::written_len`
abbrev pub type_len : ℕ
type_len = 1

unfoldable pub write_property_type :
    (w : Writer) → w.Sink → PropertyType → Outcome (Reply w.Sink (WriteError w.Error) Unit)
unfolding write_int identifier
write_property_type w s t = write_int w 1 s (identifier t)

-- The identifiers are the bytes that are read as the properties.
pub from_identifier_iff :
    (t : PropertyType) (b : ℕ) → (from_identifier b ≡ some t) ↔ (b ≡ identifier t)
unfolding from_identifier identifier
from_identifier_iff t b = ground (arith)

pub identifier_small : (t : PropertyType) → identifier t < 128
unfolding identifier
identifier_small payload_format_indicator = omega arith
identifier_small message_expiry_interval = omega arith
identifier_small content_type = omega arith
identifier_small response_topic = omega arith
identifier_small correlation_data = omega arith
identifier_small subscription_identifier = omega arith
identifier_small session_expiry_interval = omega arith
identifier_small assigned_client_identifier = omega arith
identifier_small server_keep_alive = omega arith
identifier_small authentication_method = omega arith
identifier_small authentication_data = omega arith
identifier_small request_problem_information = omega arith
identifier_small will_delay_interval = omega arith
identifier_small request_response_information = omega arith
identifier_small response_information = omega arith
identifier_small server_reference = omega arith
identifier_small reason_string = omega arith
identifier_small receive_maximum = omega arith
identifier_small topic_alias_maximum = omega arith
identifier_small topic_alias = omega arith
identifier_small maximum_qos = omega arith
identifier_small retain_available = omega arith
identifier_small user_property = omega arith
identifier_small maximum_packet_size = omega arith
identifier_small wildcard_subscription_available = omega arith
identifier_small subscription_identifier_available = omega arith
identifier_small shared_subscription_available = omega arith
