-- ===== src/Packets/Connack.antt =====
-- src/v5/packet/connack.rs: receiving a CONNACK packet.
use rust_mqtt.Prelude.{
  ℕ, Bool, true, false, ◌==◌, ltb, not, if◌then◌else◌, Option, none, List, [], returned,
}
use Prim.Native.Nat.{bit_and}
use rust_mqtt.Types.Qos.{Qos}
use rust_mqtt.Types.ReasonCode.{ReasonCode}
use rust_mqtt.Wire.Transport.{Reader, ok, err}
use rust_mqtt.Wire.Feed.{and_then, map_err}
use rust_mqtt.Wire.Ints.{read_u8, read_u16, read_bool}
use rust_mqtt.Wire.VarByteInt
use rust_mqtt.Wire.Header.{FixedHeader, flags}
use rust_mqtt.Wire.Body.{BufferProvider, Body, body_reader, skip}
use rust_mqtt.Wire.Strings.{StringPair, read_string}
use rust_mqtt.Packets.RxError.{malformed_packet, protocol_error, from_read, from_body}
use rust_mqtt.Packets.PropertyType.{
  PropertyType, session_expiry_interval, receive_maximum, maximum_qos, retain_available,
  maximum_packet_size, assigned_client_identifier, topic_alias_maximum, reason_string,
  user_property, wildcard_subscription_available, subscription_identifier_available,
  shared_subscription_available, server_keep_alive, response_information, server_reference,
  authentication_method, authentication_data,
}
use rust_mqtt.Packets.Property.{RxReply}
use rust_mqtt.Packets.Whole.{set_value, push_pair, whole_loop}
use rust_mqtt.Packets.Puback.{read_reason_code}
use rust_mqtt.Packets.Disconnect.{SessionExpiryInterval}
use rust_mqtt.Packets.Values.{
  KeepAlive, MaximumPacketSize, read_server_keep_alive, read_session_expiry, read_maximum_qos,
  read_maximum_packet_size, read_receive_maximum,
}

-- The variables of the loop: the properties, and whether authentication has been skipped.
pub record Negotiated : Type 0 where
  pub expiry : Option SessionExpiryInterval
  pub receive_limit : Option ℕ
  pub qos : Option Qos
  pub retain : Option Bool
  pub packet_size : Option MaximumPacketSize
  pub client : Option (List ℕ)
  pub aliases : Option ℕ
  pub reason : Option (List ℕ)
  pub user : List StringPair
  pub wildcards : Option Bool
  pub identifiers : Option Bool
  pub shared : Option Bool
  pub keep_alive : Option KeepAlive
  pub response : Option (List ℕ)
  pub server : Option (List ℕ)
  pub method_seen : Bool
  pub data_seen : Bool

abbrev pub nothing_yet : Negotiated
nothing_yet = record {
  expiry = none;
  receive_limit = none;
  qos = none;
  retain = none;
  packet_size = none;
  client = none;
  aliases = none;
  reason = none;
  user = [];
  wildcards = none;
  identifiers = none;
  shared = none;
  keep_alive = none;
  response = none;
  server = none;
  method_seen = false;
  data_seen = false;
}

-- `ConnackPacket`, its properties as the loop has left them.
pub record ConnackPacket : Type 0 where
  pub session_present : Bool
  pub reason_code : ReasonCode
  pub properties : Negotiated

unfoldable pub connack_code_allowed : ReasonCode → Bool
connack_code_allowed c = elim c [
  | ReasonCode.success ↦ true
  | ReasonCode.unspecified_error ↦ true
  | ReasonCode.malformed_packet ↦ true
  | ReasonCode.protocol_error ↦ true
  | ReasonCode.implementation_specific_error ↦ true
  | ReasonCode.unsupported_protocol_version ↦ true
  | ReasonCode.client_identifier_not_valid ↦ true
  | ReasonCode.bad_user_name_or_password ↦ true
  | ReasonCode.not_authorized ↦ true
  | ReasonCode.server_unavailable ↦ true
  | ReasonCode.server_busy ↦ true
  | ReasonCode.banned ↦ true
  | ReasonCode.bad_authentication_method ↦ true
  | ReasonCode.topic_name_invalid ↦ true
  | ReasonCode.packet_too_large ↦ true
  | ReasonCode.quota_exceeded ↦ true
  | ReasonCode.payload_format_invalid ↦ true
  | ReasonCode.retain_not_supported ↦ true
  | ReasonCode.qos_not_supported ↦ true
  | ReasonCode.use_another_server ↦ true
  | ReasonCode.server_moved ↦ true
  | ReasonCode.connection_rate_exceeded ↦ true
  | _ ↦ false
]

module _ (utf8 : List ℕ → Bool) (net : Reader) (provider : BufferProvider) where
  -- A length of two bytes, and as many bytes skipped.
  unfoldable pub skip_binary : Body net provider → RxReply net provider Unit
  unfolding read_u16 skip from_read from_body
  skip_binary b =
      and_then (map_err from_read (read_u16 (body_reader net provider) b))
        (λ b' len. map_err from_body (skip net provider len b'))

  module _ (max_user_properties : ℕ) where
    -- The arms of the match on the property type.
    unfoldable pub read_connack_property :
        PropertyType → Body net provider → Negotiated → RxReply net provider Negotiated
    unfolding set_value push_pair skip_binary read_string
    read_connack_property t b ps =
        let reader = body_reader net provider in
        let string = read_string utf8 net provider in
        elim t [
          | session_expiry_interval ↦
              set_value net provider (read_session_expiry reader) (λ o. record ps { expiry = o })
                ps.expiry b
          | receive_maximum ↦
              set_value net provider (read_receive_maximum reader)
                (λ o. record ps { receive_limit = o }) ps.receive_limit b
          | maximum_qos ↦
              set_value net provider (read_maximum_qos reader) (λ o. record ps { qos = o }) ps.qos b
          | retain_available ↦
              set_value net provider (read_bool reader) (λ o. record ps { retain = o }) ps.retain b
          | maximum_packet_size ↦
              set_value net provider (read_maximum_packet_size reader)
                (λ o. record ps { packet_size = o }) ps.packet_size b
          | assigned_client_identifier ↦
              set_value net provider string (λ o. record ps { client = o }) ps.client b
          | topic_alias_maximum ↦
              set_value net provider (read_u16 reader) (λ o. record ps { aliases = o }) ps.aliases b
          | reason_string ↦
              set_value net provider string (λ o. record ps { reason = o }) ps.reason b
          | user_property ↦
              push_pair net provider utf8 max_user_properties (λ us. record ps { user = us })
                ps.user b
          | wildcard_subscription_available ↦
              set_value net provider (read_bool reader) (λ o. record ps { wildcards = o })
                ps.wildcards b
          | subscription_identifier_available ↦
              set_value net provider (read_bool reader) (λ o. record ps { identifiers = o })
                ps.identifiers b
          | shared_subscription_available ↦
              set_value net provider (read_bool reader) (λ o. record ps { shared = o }) ps.shared b
          | server_keep_alive ↦
              set_value net provider (read_server_keep_alive reader)
                (λ o. record ps { keep_alive = o }) ps.keep_alive b
          | response_information ↦
              set_value net provider string (λ o. record ps { response = o }) ps.response b
          | server_reference ↦
              set_value net provider string (λ o. record ps { server = o }) ps.server b
          | authentication_method ↦
              if ps.method_seen
              then returned (err b protocol_error)
              else and_then (skip_binary b)
                  (λ b' _. returned (ok b' (record ps { method_seen = true })))
          | authentication_data ↦
              if ps.data_seen
              then returned (err b protocol_error)
              else and_then (skip_binary b)
                  (λ b' _. returned (ok b' (record ps { data_seen = true })))
          | _ ↦ returned (err b malformed_packet)
        ]

    -- `receive`
    unfoldable pub receive : FixedHeader → Body net provider → RxReply net provider ConnackPacket
    unfolding read_u8 read_reason_code connack_code_allowed whole_loop read_connack_property
        from_read
    receive header b =
        if not (flags header == 0)
        then returned (err b malformed_packet)
        else and_then (map_err from_read (read_u8 (body_reader net provider) b))
            (λ b1 connack_flags.
              and_then (map_err from_read (read_reason_code (body_reader net provider) b1))
                (λ b2 code.
                  if not (connack_code_allowed code)
                  then returned (err b2 protocol_error)
                  else if ltb 0 (bit_and connack_flags 0xFE)
                  then returned (err b2 protocol_error)
                  else and_then (map_err from_read (VarByteInt.read (body_reader net provider) b2))
                      (λ b3 n.
                        if not (b3.remaining_len == n)
                        then returned (err b3 malformed_packet)
                        else and_then
                            (whole_loop net provider read_connack_property b3.remaining_len b3
                              nothing_yet)
                            (λ b4 ps. returned (
                              ok b4 (record {
                                session_present = ltb 0 connack_flags;
                                reason_code = code;
                                properties = ps;
                              }))))))
