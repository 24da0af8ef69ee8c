-- ===== src/Packets/DisconnectReceive.antt =====
-- src/v5/packet/disconnect.rs: receiving a DISCONNECT packet.
use rust_mqtt.Prelude.{
  ℕ, Bool, true, false, ◌==◌, ltb, not, if◌then◌else◌, Option, none, List, [], returned,
}
use rust_mqtt.Types.ReasonCode.{ReasonCode}
use rust_mqtt.Wire.Transport.{Reader, ok, err}
use rust_mqtt.Wire.Feed.{and_then, map_err}
use rust_mqtt.Wire.VarByteInt
use rust_mqtt.Wire.Header.{FixedHeader, flags}
use rust_mqtt.Wire.Body.{BufferProvider, Body, body_reader}
use rust_mqtt.Wire.Strings.{StringPair, read_string}
use rust_mqtt.Packets.RxError.{malformed_packet, protocol_error, from_read}
use rust_mqtt.Packets.PropertyType.{
  PropertyType, session_expiry_interval, reason_string, user_property, server_reference,
}
use rust_mqtt.Packets.Property.{RxReply}
use rust_mqtt.Packets.Whole.{set_value, push_pair, whole_loop}
use rust_mqtt.Packets.Puback.{read_reason_code}
use rust_mqtt.Packets.Disconnect.{DisconnectPacket}

unfoldable pub disconnect_code_allowed : ReasonCode → Bool
disconnect_code_allowed c = elim c [
  | ReasonCode.success ↦ true
  | ReasonCode.disconnect_with_will_message ↦ true
  | ReasonCode.unspecified_error ↦ true
  | ReasonCode.malformed_packet ↦ true
  | ReasonCode.protocol_error ↦ true
  | ReasonCode.implementation_specific_error ↦ true
  | ReasonCode.not_authorized ↦ true
  | ReasonCode.server_busy ↦ true
  | ReasonCode.server_shutting_down ↦ true
  | ReasonCode.bad_authentication_method ↦ true
  | ReasonCode.keep_alive_timeout ↦ true
  | ReasonCode.session_taken_over ↦ true
  | ReasonCode.topic_filter_invalid ↦ true
  | ReasonCode.topic_name_invalid ↦ true
  | ReasonCode.receive_maximum_exceeded ↦ true
  | ReasonCode.topic_alias_invalid ↦ true
  | ReasonCode.packet_too_large ↦ true
  | ReasonCode.message_rate_too_high ↦ true
  | ReasonCode.quota_exceeded ↦ true
  | ReasonCode.administrative_action ↦ true
  | ReasonCode.payload_format_invalid ↦ true
  | ReasonCode.retain_not_supported ↦ true
  | ReasonCode.qos_not_supported ↦ true
  | ReasonCode.use_another_server ↦ true
  | ReasonCode.server_moved ↦ true
  | ReasonCode.shared_subscriptions_not_supported ↦ true
  | ReasonCode.connection_rate_exceeded ↦ true
  | ReasonCode.maximum_connect_time ↦ true
  | ReasonCode.subscription_identifiers_not_supported ↦ true
  | ReasonCode.wildcard_subscriptions_not_supported ↦ true
  | _ ↦ false
]

-- The variables of the loop.
pub record Notice : Type 0 where
  pub reason : Option (List ℕ)
  pub user : List StringPair
  pub server : Option (List ℕ)

abbrev pub no_notice : Notice
no_notice = record { reason = none; user = []; server = none }

module _ (utf8 : List ℕ → Bool) (net : Reader) (provider : BufferProvider)
    (max_user_properties : ℕ) where
  -- The arms of the match on the property type.
  unfoldable pub read_disconnect_property :
      PropertyType → Body net provider → Notice → RxReply net provider Notice
  unfolding set_value push_pair read_string
  read_disconnect_property t b ps = elim t [
    | session_expiry_interval ↦ returned (err b protocol_error)
    | reason_string ↦
        set_value net provider (read_string utf8 net provider) (λ o. record ps { reason = o })
          ps.reason b
    | user_property ↦
        push_pair net provider utf8 max_user_properties (λ us. record ps { user = us }) ps.user b
    | server_reference ↦
        set_value net provider (read_string utf8 net provider) (λ o. record ps { server = o })
          ps.server b
    | _ ↦ returned (err b malformed_packet)
  ]

  -- The reason code and the property length may be left out.
  unfoldable pub receive_code : FixedHeader → Body net provider → RxReply net provider ReasonCode
  unfolding read_reason_code from_read
  receive_code header b =
      if header.remaining_len == 0
      then returned (ok b ReasonCode.success)
      else map_err from_read (read_reason_code (body_reader net provider) b)

  unfoldable pub receive_length : FixedHeader → Body net provider → RxReply net provider ℕ
  unfolding from_read
  receive_length header b =
      if ltb header.remaining_len 2
      then returned (ok b 0)
      else map_err from_read (VarByteInt.read (body_reader net provider) b)

  -- `receive`
  unfoldable pub receive : FixedHeader → Body net provider → RxReply net provider DisconnectPacket
  unfolding receive_code disconnect_code_allowed receive_length whole_loop read_disconnect_property
  receive header b =
      if not (flags header == 0)
      then returned (err b malformed_packet)
      else and_then (receive_code header b) (λ b1 code.
        if not (disconnect_code_allowed code)
        then returned (err b1 protocol_error)
        else and_then (receive_length header b1) (λ b2 n.
          if not (b2.remaining_len == n)
          then returned (err b2 malformed_packet)
          else and_then
              (whole_loop net provider read_disconnect_property b2.remaining_len b2 no_notice)
              (λ b3 ps. returned (
                ok b3 (record {
                  reason_code = code;
                  session_expiry = none;
                  reason_string = ps.reason;
                  user_properties = ps.user;
                  server = ps.server;
                })))))
