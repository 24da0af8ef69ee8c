-- ===== src/Packets/Publish.antt =====
-- src/v5/packet/publish.rs: receiving a PUBLISH packet; with src/client/options/publish.rs.
use rust_mqtt.Prelude.{
  ℕ, ◌/◌, ◌%◌, ◌^◌, Bool, ◌==◌, ltb, if◌then◌else◌, Option, none, some, List, [], ◌∷◌, ◌++◌, length,
  returned, panicked,
}
use rust_mqtt.Types.Qos.{Qos, IdentifiedQos, try_from_bits}
use rust_mqtt.Wire.Transport.{Reader, ok, err}
use rust_mqtt.Wire.Feed.{and_then, map_err}
use rust_mqtt.Wire.Ints.{read_bool, read_u32, read_nonzero, u8_len, u16_len, u32_len}
use rust_mqtt.Wire.VarByteInt.{VarByteInt}
use rust_mqtt.Wire.VarByteInt
use rust_mqtt.Wire.Header.{FixedHeader, flags}
use rust_mqtt.Wire.Body.{BufferProvider, Body, body_reader, read_and_store}
use rust_mqtt.Wire.Strings.{StringPair, binary_len, read_binary, read_string, read_topic_name}
use rust_mqtt.Topics.Name.{is_empty, topic_name}
use rust_mqtt.Packets.RxError.{malformed_packet, protocol_error, invalid_topic_name, from_read}
use rust_mqtt.Packets.PropertyType.{
  PropertyType, payload_format_indicator, message_expiry_interval, topic_alias, response_topic,
  correlation_data, user_property, subscription_identifier, content_type,
}
use rust_mqtt.Packets.Property.{RxReply}
use rust_mqtt.Packets.Counted.{set_property, push_user, counted_loop}
use rust_mqtt.Packets.Puback.{read_packet_identifier}
use rust_mqtt.Packets.PubackSend.{var_len}

-- `TopicReference`; an alias is a nonzero u16.
pub data TopicReference : Type 0 where
  named : List ℕ → TopicReference
  aliased : ℕ → TopicReference
  mapped : List ℕ → ℕ → TopicReference

unfoldable pub alias_of : TopicReference → Option ℕ
alias_of (named n) = none
alias_of (aliased a) = some a
alias_of (mapped n a) = some a

unfoldable pub name_of : TopicReference → Option (List ℕ)
name_of (named n) = some n
name_of (aliased a) = none
name_of (mapped n a) = some n

-- The properties that are read into a packet.
pub record PublishProperties : Type 0 where
  pub payload_format : Option Bool
  pub expiry : Option ℕ
  pub alias : Option ℕ
  pub response : Option (List ℕ)
  pub correlation : Option (List ℕ)
  pub user : List StringPair
  pub subscriptions : List VarByteInt
  pub content : Option (List ℕ)

abbrev pub no_properties : PublishProperties
no_properties = record {
  payload_format = none;
  expiry = none;
  alias = none;
  response = none;
  correlation = none;
  user = [];
  subscriptions = [];
  content = none;
}

pub record PublishPacket : Type 0 where
  pub dup : Bool
  pub identified_qos : IdentifiedQos
  pub retain : Bool
  pub topic : TopicReference
  pub payload_format_indicator : Option Bool
  pub message_expiry_interval : Option ℕ
  pub response_topic : Option (List ℕ)
  pub correlation_data : Option (List ℕ)
  pub user_properties : List StringPair
  pub subscription_identifiers : List VarByteInt
  pub content_type : Option (List ℕ)
  pub message : List ℕ

-- The match on the topic name and the alias.
unfoldable pub topic_reference : Option (List ℕ) → Option ℕ → Option TopicReference
topic_reference none none = none
topic_reference none (some a) = some (aliased a)
topic_reference (some n) none = some (named n)
topic_reference (some n) (some a) = some (mapped n a)

module _ (utf8 : List ℕ → Bool) (net : Reader) (provider : BufferProvider) where
  -- The topic name, which may be empty.
  unfoldable pub receive_topic : Body net provider → RxReply net provider (Option (List ℕ))
  unfolding read_string topic_name from_read
  receive_topic b = and_then (map_err from_read (read_string utf8 net provider b)) (λ b' s.
      if is_empty s then returned (ok b' none) else elim (topic_name s) [
        | some t ↦ returned (ok b' (some t))
        | none ↦ returned (err b' invalid_topic_name)
      ])

  -- The packet identifier that the quality of service level asks for.
  unfoldable pub receive_identified : Qos → Body net provider → RxReply net provider IdentifiedQos
  unfolding read_packet_identifier from_read
  receive_identified Qos.at_most_once b = returned (ok b IdentifiedQos.at_most_once)
  receive_identified Qos.at_least_once b =
      and_then (map_err from_read (read_packet_identifier (body_reader net provider) b))
        (λ b' pid. returned (ok b' (IdentifiedQos.at_least_once pid)))
  receive_identified Qos.exactly_once b =
      and_then (map_err from_read (read_packet_identifier (body_reader net provider) b))
        (λ b' pid. returned (ok b' (IdentifiedQos.exactly_once pid)))

  module _ (max_subscription_identifiers max_user_properties : ℕ) where
    -- A subscription identifier, which is dropped where there is no room.
    unfoldable pub read_subscription :
        Body net provider → PublishProperties → RxReply net provider (PublishProperties × ℕ)
    unfolding from_read var_len
    read_subscription b ps =
        and_then (map_err from_read (VarByteInt.read (body_reader net provider) b)) (λ b' v.
          let kept =
            if ltb (length ps.subscriptions) max_subscription_identifiers
            then ps.subscriptions ++ (v ∷ [])
            else ps.subscriptions in
          elim (var_len v) [
            | returned n ↦ returned (ok b' (record ps { subscriptions = kept }, n))
            | panicked ↦ panicked
          ])

    -- The arms of the match on the property type.
    unfoldable pub read_publish_property :
        PropertyType
        → Body net provider
        → PublishProperties
        → RxReply net provider (PublishProperties × ℕ)
    unfolding set_property push_user read_subscription
    read_publish_property t b ps = elim t [
      | payload_format_indicator ↦
          set_property net provider (read_bool (body_reader net provider)) (λ v. u8_len)
            (λ o. record ps { payload_format = o }) ps.payload_format b
      | message_expiry_interval ↦
          set_property net provider (read_u32 (body_reader net provider)) (λ v. u32_len)
            (λ o. record ps { expiry = o }) ps.expiry b
      | topic_alias ↦
          set_property net provider (read_nonzero (body_reader net provider) 2) (λ v. u16_len)
            (λ o. record ps { alias = o }) ps.alias b
      | response_topic ↦
          set_property net provider (read_topic_name utf8 net provider) binary_len
            (λ o. record ps { response = o }) ps.response b
      | correlation_data ↦
          set_property net provider (read_binary utf8 net provider) binary_len
            (λ o. record ps { correlation = o }) ps.correlation b
      | user_property ↦
          push_user net provider utf8 max_user_properties (λ us. record ps { user = us }) ps.user b
      | subscription_identifier ↦ read_subscription b ps
      | content_type ↦
          set_property net provider (read_string utf8 net provider) binary_len
            (λ o. record ps { content = o }) ps.content b
      | _ ↦ returned (err b malformed_packet)
    ]

    -- `receive` from the properties on.
    unfoldable pub receive_rest :
        (flags : ℕ)
        → IdentifiedQos
        → Option (List ℕ)
        → (properties_length : ℕ) → Body net provider
        → RxReply net provider PublishPacket
    unfolding counted_loop read_publish_property topic_reference read_and_store from_read
    receive_rest flags qos name n b =
        and_then (counted_loop net provider read_publish_property n b n no_properties) (λ b' ps.
          elim (topic_reference name ps.alias) [
            | none ↦ returned (err b' protocol_error)
            | some topic ↦
                and_then (map_err from_read (read_and_store net provider b'.remaining_len b'))
                  (λ b2 message. returned (
                    ok b2 (record {
                      dup = flags / 2 ^ 3 == 1;
                      identified_qos = qos;
                      retain = flags % 2 == 1;
                      topic = topic;
                      payload_format_indicator = ps.payload_format;
                      message_expiry_interval = ps.expiry;
                      response_topic = ps.response;
                      correlation_data = ps.correlation;
                      user_properties = ps.user;
                      subscription_identifiers = ps.subscriptions;
                      content_type = ps.content;
                      message = message;
                    })))
          ])

    -- `receive`; `flags & 0x03` after the shift is the remainder by 4.
    unfoldable pub receive : FixedHeader → Body net provider → RxReply net provider PublishPacket
    unfolding receive_topic receive_identified receive_rest from_read
    receive header b = elim (try_from_bits (flags header / 2 % 4)) [
      | none ↦ returned (err b malformed_packet)
      | some qos ↦ and_then (receive_topic b) (λ b1 name.
          and_then (receive_identified qos b1) (λ b2 identified.
            and_then (map_err from_read (VarByteInt.read (body_reader net provider) b2))
              (λ b3 n. receive_rest (flags header) identified name n b3)))
    ]
