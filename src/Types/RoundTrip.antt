-- ===== src/Types/RoundTrip.antt =====
-- What src/types writes on the wire is read back as it was.
use rust_mqtt.Prelude.{ℕ, ◌^◌, ◌/◌, ◌≤◌, ◌≡◌, ◌≢◌, refl, sym, zero, suc, ◌↔◌, some, arith}
use rust_mqtt.Types.Pid.{PacketIdentifier, IsPid, next}
use rust_mqtt.Types.Qos.{Qos, into_bits, try_from_bits}
use rust_mqtt.Types.ReasonCode.{
  ReasonCode, success, granted_qos1, granted_qos2, disconnect_with_will_message,
  no_matching_subscribers, no_subscription_existed, continue_authentication, re_authenticate,
  unspecified_error, malformed_packet, protocol_error, implementation_specific_error,
  unsupported_protocol_version, client_identifier_not_valid, bad_user_name_or_password,
  not_authorized, server_unavailable, server_busy, banned, server_shutting_down,
  bad_authentication_method, keep_alive_timeout, session_taken_over, topic_filter_invalid,
  topic_name_invalid, packet_identifier_in_use, packet_identifier_not_found,
  receive_maximum_exceeded, topic_alias_invalid, packet_too_large, message_rate_too_high,
  quota_exceeded, administrative_action, payload_format_invalid, retain_not_supported,
  qos_not_supported, use_another_server, server_moved, shared_subscriptions_not_supported,
  connection_rate_exceeded, maximum_connect_time, subscription_identifiers_not_supported,
  wildcard_subscriptions_not_supported, value, from_byte,
}

pub from_byte-value : (c : ReasonCode) → from_byte (value c) ≡ some c
unfolding from_byte value
from_byte-value success = refl
from_byte-value granted_qos1 = refl
from_byte-value granted_qos2 = refl
from_byte-value disconnect_with_will_message = refl
from_byte-value no_matching_subscribers = refl
from_byte-value no_subscription_existed = refl
from_byte-value continue_authentication = refl
from_byte-value re_authenticate = refl
from_byte-value unspecified_error = refl
from_byte-value malformed_packet = refl
from_byte-value protocol_error = refl
from_byte-value implementation_specific_error = refl
from_byte-value unsupported_protocol_version = refl
from_byte-value client_identifier_not_valid = refl
from_byte-value bad_user_name_or_password = refl
from_byte-value not_authorized = refl
from_byte-value server_unavailable = refl
from_byte-value server_busy = refl
from_byte-value banned = refl
from_byte-value server_shutting_down = refl
from_byte-value bad_authentication_method = refl
from_byte-value keep_alive_timeout = refl
from_byte-value session_taken_over = refl
from_byte-value topic_filter_invalid = refl
from_byte-value topic_name_invalid = refl
from_byte-value packet_identifier_in_use = refl
from_byte-value packet_identifier_not_found = refl
from_byte-value receive_maximum_exceeded = refl
from_byte-value topic_alias_invalid = refl
from_byte-value packet_too_large = refl
from_byte-value message_rate_too_high = refl
from_byte-value quota_exceeded = refl
from_byte-value administrative_action = refl
from_byte-value payload_format_invalid = refl
from_byte-value retain_not_supported = refl
from_byte-value qos_not_supported = refl
from_byte-value use_another_server = refl
from_byte-value server_moved = refl
from_byte-value shared_subscriptions_not_supported = refl
from_byte-value connection_rate_exceeded = refl
from_byte-value maximum_connect_time = refl
from_byte-value subscription_identifiers_not_supported = refl
from_byte-value wildcard_subscriptions_not_supported = refl

value-from_byte : (b : ℕ) (c : ReasonCode) → from_byte b ≡ some c → value c ≡ b
unfolding from_byte value
value-from_byte b c e = ground arith

-- A quality of service level that is shifted into a byte by at most six places, as the packets'
-- flags do, is read back from its bits.
pub try_from_bits-into_bits :
    (qos : Qos) (left_shift : ℕ)
    → left_shift ≤ 6
    → try_from_bits (into_bits qos left_shift / 2 ^ left_shift) ≡ some qos
unfolding try_from_bits into_bits
try_from_bits-into_bits qos zero h = ground arith
try_from_bits-into_bits qos (suc zero) h = ground arith
try_from_bits-into_bits qos (suc (suc zero)) h = ground arith
try_from_bits-into_bits qos (suc (suc (suc zero))) h = ground arith
try_from_bits-into_bits qos (suc (suc (suc (suc zero)))) h = ground arith
try_from_bits-into_bits qos (suc (suc (suc (suc (suc zero))))) h = ground arith
try_from_bits-into_bits qos (suc (suc (suc (suc (suc (suc zero)))))) h = ground arith
try_from_bits-into_bits qos (suc (suc (suc (suc (suc (suc (suc n))))))) h = absurd (omega arith)

-- A byte is read as a reason code exactly if it is the byte that the reason code is written as:
-- both directions are lossless, and a byte of no reason code is refused.
pub from_byte_iff : (b : ℕ) (c : ReasonCode) → (from_byte b ≡ some c) ↔ (value c ≡ b)
from_byte_iff b c = (value-from_byte b c, λ e. rw (sym e) (from_byte-value c))

-- The successor of a packet identifier, a nonzero 16-bit number, is another packet identifier: the
-- largest is followed by 1, never by 0.
pub next-IsPid : (p : PacketIdentifier) → IsPid p → IsPid (next p) × (next p ≢ p)
unfolding next
next-IsPid p h = ground arith
