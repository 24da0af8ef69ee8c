-- ===== src/Types/ReasonCode.antt =====
-- src/types/reason_code.rs: the reason codes, their bytes, and the decoding of a byte.
use rust_mqtt.Prelude.{ℕ, ◌==◌, if◌then◌else◌, ltb, leb, Bool, Option, none, some}

pub data ReasonCode : Type 0 where
  success granted_qos1 granted_qos2 disconnect_with_will_message no_matching_subscribers :
      ReasonCode
  no_subscription_existed continue_authentication re_authenticate unspecified_error : ReasonCode
  malformed_packet protocol_error implementation_specific_error : ReasonCode
  unsupported_protocol_version client_identifier_not_valid bad_user_name_or_password : ReasonCode
  not_authorized server_unavailable server_busy banned server_shutting_down : ReasonCode
  bad_authentication_method keep_alive_timeout session_taken_over topic_filter_invalid : ReasonCode
  topic_name_invalid packet_identifier_in_use packet_identifier_not_found : ReasonCode
  receive_maximum_exceeded topic_alias_invalid packet_too_large message_rate_too_high : ReasonCode
  quota_exceeded administrative_action payload_format_invalid retain_not_supported : ReasonCode
  qos_not_supported use_another_server server_moved shared_subscriptions_not_supported : ReasonCode
  connection_rate_exceeded maximum_connect_time subscription_identifiers_not_supported : ReasonCode
  wildcard_subscriptions_not_supported : ReasonCode

-- `self as u8`
unfoldable pub value : ReasonCode → ℕ
value success = 0x00
value granted_qos1 = 0x01
value granted_qos2 = 0x02
value disconnect_with_will_message = 0x04
value no_matching_subscribers = 0x10
value no_subscription_existed = 0x11
value continue_authentication = 0x18
value re_authenticate = 0x19
value unspecified_error = 0x80
value malformed_packet = 0x81
value protocol_error = 0x82
value implementation_specific_error = 0x83
value unsupported_protocol_version = 0x84
value client_identifier_not_valid = 0x85
value bad_user_name_or_password = 0x86
value not_authorized = 0x87
value server_unavailable = 0x88
value server_busy = 0x89
value banned = 0x8a
value server_shutting_down = 0x8b
value bad_authentication_method = 0x8c
value keep_alive_timeout = 0x8d
value session_taken_over = 0x8e
value topic_filter_invalid = 0x8f
value topic_name_invalid = 0x90
value packet_identifier_in_use = 0x91
value packet_identifier_not_found = 0x92
value receive_maximum_exceeded = 0x93
value topic_alias_invalid = 0x94
value packet_too_large = 0x95
value message_rate_too_high = 0x96
value quota_exceeded = 0x97
value administrative_action = 0x98
value payload_format_invalid = 0x99
value retain_not_supported = 0x9a
value qos_not_supported = 0x9b
value use_another_server = 0x9c
value server_moved = 0x9d
value shared_subscriptions_not_supported = 0x9e
value connection_rate_exceeded = 0x9f
value maximum_connect_time = 0xa0
value subscription_identifiers_not_supported = 0xa1
value wildcard_subscriptions_not_supported = 0xa2

unfoldable pub is_success : ReasonCode → Bool
unfolding value
is_success c = ltb (value c) 0x80

unfoldable pub is_erroneous : ReasonCode → Bool
unfolding value
is_erroneous c = leb 0x80 (value c)

-- The match of `ReasonCode::read` on the byte; `none` is its protocol error.
unfoldable pub from_byte : ℕ → Option ReasonCode
from_byte b =
    if b == 0x00
    then some success
    else if b == 0x01
    then some granted_qos1
    else if b == 0x02
    then some granted_qos2
    else if b == 0x04
    then some disconnect_with_will_message
    else if b == 0x10
    then some no_matching_subscribers
    else if b == 0x11
    then some no_subscription_existed
    else if b == 0x18
    then some continue_authentication
    else if b == 0x19
    then some re_authenticate
    else if b == 0x80
    then some unspecified_error
    else if b == 0x81
    then some malformed_packet
    else if b == 0x82
    then some protocol_error
    else if b == 0x83
    then some implementation_specific_error
    else if b == 0x84
    then some unsupported_protocol_version
    else if b == 0x85
    then some client_identifier_not_valid
    else if b == 0x86
    then some bad_user_name_or_password
    else if b == 0x87
    then some not_authorized
    else if b == 0x88
    then some server_unavailable
    else if b == 0x89
    then some server_busy
    else if b == 0x8a
    then some banned
    else if b == 0x8b
    then some server_shutting_down
    else if b == 0x8c
    then some bad_authentication_method
    else if b == 0x8d
    then some keep_alive_timeout
    else if b == 0x8e
    then some session_taken_over
    else if b == 0x8f
    then some topic_filter_invalid
    else if b == 0x90
    then some topic_name_invalid
    else if b == 0x91
    then some packet_identifier_in_use
    else if b == 0x92
    then some packet_identifier_not_found
    else if b == 0x93
    then some receive_maximum_exceeded
    else if b == 0x94
    then some topic_alias_invalid
    else if b == 0x95
    then some packet_too_large
    else if b == 0x96
    then some message_rate_too_high
    else if b == 0x97
    then some quota_exceeded
    else if b == 0x98
    then some administrative_action
    else if b == 0x99
    then some payload_format_invalid
    else if b == 0x9a
    then some retain_not_supported
    else if b == 0x9b
    then some qos_not_supported
    else if b == 0x9c
    then some use_another_server
    else if b == 0x9d
    then some server_moved
    else if b == 0x9e
    then some shared_subscriptions_not_supported
    else if b == 0x9f
    then some connection_rate_exceeded
    else if b == 0xa0
    then some maximum_connect_time
    else if b == 0xa1
    then some subscription_identifiers_not_supported
    else if b == 0xa2
    then some wildcard_subscriptions_not_supported
    else none
