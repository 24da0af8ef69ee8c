-- ===== src/Packets/Suback.antt =====
-- src/v5/packet/subacks: receiving a SUBACK or UNSUBACK packet.
use rust_mqtt.Prelude.{
  ℕ, zero, suc, Bool, true, false, ◌==◌, ltb, not, if◌then◌else◌, Option, none, List, [], ◌∷◌, ◌++◌,
  length, returned, panicked,
}
use rust_mqtt.Types.Pid.{PacketIdentifier}
use rust_mqtt.Types.ReasonCode.{
  ReasonCode, success, granted_qos1, granted_qos2, no_subscription_existed, unspecified_error,
  implementation_specific_error, not_authorized, topic_filter_invalid, packet_identifier_in_use,
  quota_exceeded, shared_subscriptions_not_supported, subscription_identifiers_not_supported,
  wildcard_subscriptions_not_supported,
}
use rust_mqtt.Wire.Transport.{Reader, ok, err}
use rust_mqtt.Wire.Feed.{and_then, map_err}
use rust_mqtt.Wire.VarByteInt
use rust_mqtt.Wire.Header.{FixedHeader, PacketType, flags}
use rust_mqtt.Wire.Header
use rust_mqtt.Wire.Body.{BufferProvider, Body, body_reader}
use rust_mqtt.Wire.Strings.{StringPair, binary_len, read_string}
use rust_mqtt.Packets.RxError.{malformed_packet, protocol_error, from_read}
use rust_mqtt.Packets.PropertyType.{PropertyType, reason_string, user_property}
use rust_mqtt.Packets.Property.{RxReply}
use rust_mqtt.Packets.Counted.{set_property, push_user, counted_loop}
use rust_mqtt.Packets.Puback.{Properties, read_packet_identifier, read_reason_code}

-- `Suback` and `Unsuback`
pub data SubackType : Type 0 where
  sub unsub : SubackType

-- `PACKET_TYPE`
unfoldable pub suback_packet_type : SubackType → PacketType
suback_packet_type sub = Header.suback
suback_packet_type unsub = Header.unsuback

-- `reason_code_allowed`
unfoldable pub suback_code_allowed : SubackType → ReasonCode → Bool
suback_code_allowed sub c = elim c [
  | success ↦ true
  | granted_qos1 ↦ true
  | granted_qos2 ↦ true
  | unspecified_error ↦ true
  | implementation_specific_error ↦ true
  | not_authorized ↦ true
  | topic_filter_invalid ↦ true
  | packet_identifier_in_use ↦ true
  | quota_exceeded ↦ true
  | shared_subscriptions_not_supported ↦ true
  | subscription_identifiers_not_supported ↦ true
  | wildcard_subscriptions_not_supported ↦ true
  | _ ↦ false
]
suback_code_allowed unsub c = elim c [
  | success ↦ true
  | no_subscription_existed ↦ true
  | unspecified_error ↦ true
  | implementation_specific_error ↦ true
  | not_authorized ↦ true
  | topic_filter_invalid ↦ true
  | packet_identifier_in_use ↦ true
  | _ ↦ false
]

-- `GenericSubackPacket`; the type parameter is an argument of the operations.
pub record SubackPacket : Type 0 where
  pub packet_identifier : PacketIdentifier
  pub reason_string : Option (List ℕ)
  pub user_properties : List StringPair
  pub reason_codes : List ReasonCode

module _ (utf8 : List ℕ → Bool) (net : Reader) (provider : BufferProvider)
    (max_topic_filters max_user_properties : ℕ) where
  -- The arms of the match on the property type.
  unfoldable pub read_suback_property :
      PropertyType → Body net provider → Properties → RxReply net provider (Properties × ℕ)
  unfolding set_property push_user read_string
  read_suback_property t b ps = elim t [
    | reason_string ↦
        set_property net provider (read_string utf8 net provider) binary_len
          (λ o. record ps { reason = o }) ps.reason b
    | user_property ↦
        push_user net provider utf8 max_user_properties (λ us. record ps { user = us }) ps.user b
    | _ ↦ returned (err b malformed_packet)
  ]

  module _ (t : SubackType) where
    -- The loop over the reason codes, with fuel for one byte in each round.
    unfoldable pub codes_loop :
        (fuel : ℕ) → Body net provider → List ReasonCode → RxReply net provider (List ReasonCode)
    unfolding read_reason_code suback_code_allowed from_read
    codes_loop zero b codes = if b.remaining_len == 0 then returned (ok b codes) else panicked
    codes_loop (suc fuel) b codes =
        let rest =
          and_then (map_err from_read (read_reason_code (body_reader net provider) b)) (λ b' c.
            let more = codes_loop fuel b' (codes ++ (c ∷ [])) in
            if not (suback_code_allowed t c)
            then returned (err b' protocol_error)
            else if ltb (length codes) max_topic_filters
            then more
            else returned (err b' protocol_error)) in
        if b.remaining_len == 0 then returned (ok b codes) else rest

    -- `receive`
    unfoldable pub receive : FixedHeader → Body net provider → RxReply net provider SubackPacket
    unfolding read_packet_identifier counted_loop read_suback_property codes_loop from_read
    receive header b =
        if not (flags header == 0)
        then returned (err b malformed_packet)
        else and_then (map_err from_read (read_packet_identifier (body_reader net provider) b))
            (λ b1 pid.
              and_then (map_err from_read (VarByteInt.read (body_reader net provider) b1)) (λ b2 n.
                if ltb b2.remaining_len n
                then returned (err b2 malformed_packet)
                else if n == b2.remaining_len
                then returned (err b2 protocol_error)
                else and_then
                    (counted_loop net provider read_suback_property n b2 n
                      (record { reason = none; user = [] }))
                    (λ b3 ps. and_then (codes_loop b3.remaining_len b3 []) (λ b4 codes. returned (
                      ok b4 (record {
                        packet_identifier = pid;
                        reason_string = ps.reason;
                        user_properties = ps.user;
                        reason_codes = codes;
                      }))))))
