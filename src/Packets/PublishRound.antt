-- ===== src/Packets/PublishRound.antt =====
-- src/v5/packet/publish.rs: a packet that `send` wrote is received as it was.
use rust_mqtt.Prelude.{
  ℕ, ◌*◌, ◌/◌, ◌%◌, ◌^◌, ◌≡◌, refl, sym, subst, ap, ◌∙◌, Bool, true, false, if◌then◌else◌, ◌==◌,
  none, some, List, [], ◌∷◌, ◌++◌, length, arith, returned,
}
use Prim.Native.Nat.{bit_or}
use mathlib.Core.List.{append-nil}
use rust_mqtt.Types.Pid.{IsPid}
use rust_mqtt.Types.Qos.{Qos, IdentifiedQos, packet_identifier, qos_of, into_bits, try_from_bits}
use rust_mqtt.Wire.Transport.{Reader, Writer, IsOpen, ok}
use rust_mqtt.Wire.VarByteInt
use rust_mqtt.Wire.VarByteInt.{max_encodable}
use rust_mqtt.Wire.Encoding.{encoding}
use rust_mqtt.Wire.Header.{flags, publish, from_type_and_flags}
use rust_mqtt.Wire.Feed.{and_then, map_err, IsFed, Takes}
use rust_mqtt.Wire.Ints.{to_be_bytes}
use rust_mqtt.Wire.Body.{BufferProvider, Body, body_reader, read_and_store}
use rust_mqtt.Wire.BodyFeed.{HoldsBody, HasRoom, read_and_store-feed}
use rust_mqtt.Wire.Compose.{Takes-end, Takes-map_err}
use rust_mqtt.Wire.Strings.{read_string, from_utf8_binary}
use rust_mqtt.Wire.StringRound.{binary_bytes, read_string-feed}
use rust_mqtt.Topics.Name.{is_empty, name_loop, topic_name}
use rust_mqtt.Packets.RxError.{from_read}
use rust_mqtt.Packets.AckType.{new_header}
use rust_mqtt.Packets.PropertyBytes.{Sometimes, optional_bytes}
use rust_mqtt.Packets.CountedRead.{counted_loop-feed}
use rust_mqtt.Packets.Puback.{read_packet_identifier}
use rust_mqtt.Packets.FieldsRead.{read_packet_identifier-feed, read_var-feed}
use rust_mqtt.Packets.Publish.{
  TopicReference, named, aliased, mapped, alias_of, name_of, no_properties, PublishPacket,
  topic_reference, receive_topic, receive_identified, read_publish_property, receive_rest, receive,
}
use rust_mqtt.Packets.PublishSend.{name_or_empty, publish_flags, send}
use rust_mqtt.Packets.PublishBytes.{
  properties_bytes, fields_bytes, IsTopic, IsPublish, length-fields_bytes,
}
use rust_mqtt.Packets.PublishWrite.{publish_header, packet_bytes, send-takes}
use rust_mqtt.Packets.PublishParts.{properties_of, properties-Part}

abbrev bits : Bool → Qos → Bool → ℕ
bits d q r =
    bit_or (bit_or ((if d then 1 else 0) * 2 ^ 3 % 2 ^ 8) (into_bits q 1)) (if r then 1 else 0)

-- The flags of a header give the three values back.
flags-bits :
    (d : Bool) (q : Qos) (r : Bool) (n : ℕ)
    → ((flags (new_header publish (bits d q r) n) / 2 ^ 3 == 1) ≡ d)
      × (try_from_bits (flags (new_header publish (bits d q r) n) / 2 % 4) ≡ some q)
      × ((flags (new_header publish (bits d q r) n) % 2 == 1) ≡ r)
unfolding flags new_header into_bits try_from_bits
flags-bits true Qos.at_most_once true n = (refl, refl, refl)
flags-bits true Qos.at_least_once true n = (refl, refl, refl)
flags-bits true Qos.exactly_once true n = (refl, refl, refl)
flags-bits true Qos.at_most_once false n = (refl, refl, refl)
flags-bits true Qos.at_least_once false n = (refl, refl, refl)
flags-bits true Qos.exactly_once false n = (refl, refl, refl)
flags-bits false Qos.at_most_once true n = (refl, refl, refl)
flags-bits false Qos.at_least_once true n = (refl, refl, refl)
flags-bits false Qos.exactly_once true n = (refl, refl, refl)
flags-bits false Qos.at_most_once false n = (refl, refl, refl)
flags-bits false Qos.at_least_once false n = (refl, refl, refl)
flags-bits false Qos.exactly_once false n = (refl, refl, refl)

type-bits :
    (d : Bool) (q : Qos) (r : Bool) (n : ℕ)
    → from_type_and_flags (new_header publish (bits d q r) n).type_and_flags ≡ some publish
unfolding from_type_and_flags new_header into_bits
type-bits true Qos.at_most_once true n = refl
type-bits true Qos.at_least_once true n = refl
type-bits true Qos.exactly_once true n = refl
type-bits true Qos.at_most_once false n = refl
type-bits true Qos.at_least_once false n = refl
type-bits true Qos.exactly_once false n = refl
type-bits false Qos.at_most_once true n = refl
type-bits false Qos.at_least_once true n = refl
type-bits false Qos.exactly_once true n = refl
type-bits false Qos.at_most_once false n = refl
type-bits false Qos.at_least_once false n = refl
type-bits false Qos.exactly_once false n = refl

-- The header is that of a PUBLISH packet.
pub publish_header-type :
    (p : PublishPacket) → from_type_and_flags (publish_header p).type_and_flags ≡ some publish
unfolding publish_flags
publish_header-type p = type-bits p.dup (qos_of p.identified_qos) p.retain (length (fields_bytes p))

is_empty-accepted : (n : List ℕ) → topic_name n ≡ some n → is_empty n ≡ false
unfolding topic_name
is_empty-accepted [] h = cc
is_empty-accepted (b ∷ n) h = refl

name_loop-accepted : (n : List ℕ) → topic_name n ≡ some n → name_loop n ≡ true
unfolding topic_name
name_loop-accepted n h = ground arith

topic_reference-parts : (t : TopicReference) → topic_reference (name_of t) (alias_of t) ≡ some t
unfolding topic_reference name_of alias_of
topic_reference-parts (named n) = refl
topic_reference-parts (aliased a) = refl
topic_reference-parts (mapped n a) = refl

module _ (net : Reader) (provider : BufferProvider) (holds : net.Stream → List ℕ → Type 0)
    (after : List ℕ) (fed : IsFed net holds) (room : HasRoom net provider holds after)
    (utf8 : List ℕ → Bool) where
  abbrev Holds : Body net provider → List ℕ → Type 0
  Holds = HoldsBody net provider holds after

  receive_name-feed :
      (n : List ℕ)
      → IsTopic utf8 n
      → Takes Holds (receive_topic utf8 net provider) (binary_bytes n) (some n)
  unfolding receive_topic
  receive_name-feed n h =
      Takes-end Holds (λ b. map_err from_read (read_string utf8 net provider b)) _ (binary_bytes n)
        n (some n)
        (Takes-map_err Holds from_read (read_string utf8 net provider) (binary_bytes n) n
          (read_string-feed net provider holds after fed room utf8 n h.string))
        (λ b. rw (is_empty-accepted n h.accepted, name_loop-accepted n h.accepted) refl)

  receive_topic-feed :
      (t : TopicReference)
      → utf8 [] ≡ true
      → Sometimes (IsTopic utf8) (name_of t)
      → Takes Holds (receive_topic utf8 net provider) (binary_bytes (name_or_empty t)) (name_of t)
  unfolding receive_topic name_or_empty name_of from_utf8_binary
  receive_topic-feed (named n) empty h = receive_name-feed n h
  receive_topic-feed (aliased a) empty h =
      Takes-end Holds (λ b. map_err from_read (read_string utf8 net provider b)) _ (binary_bytes [])
        [] none
        (Takes-map_err Holds from_read (read_string utf8 net provider) (binary_bytes []) [] (
          read_string-feed net provider holds after fed room utf8 []
            (record { short = omega arith; accepted = rw (empty) refl })))
        (λ b. refl)
  receive_topic-feed (mapped n a) empty h = receive_name-feed n h

  receive_identified-feed :
      (q : IdentifiedQos)
      → Sometimes IsPid (packet_identifier q)
      → Takes Holds
          (receive_identified utf8 net provider (qos_of q))
          (optional_bytes (to_be_bytes 2) (packet_identifier q))
          q
  unfolding receive_identified optional_bytes packet_identifier qos_of
  receive_identified-feed IdentifiedQos.at_most_once h = λ b rest held. (b, refl, held)
  receive_identified-feed (IdentifiedQos.at_least_once pid) h =
      Takes-end Holds (λ b. map_err from_read (read_packet_identifier (body_reader net provider) b))
        _ (to_be_bytes 2 pid) pid (IdentifiedQos.at_least_once pid)
        (Takes-map_err Holds from_read (read_packet_identifier (body_reader net provider))
          (to_be_bytes 2 pid) pid
          (read_packet_identifier-feed net provider holds after fed room utf8 pid h))
        (λ b. refl)
  receive_identified-feed (IdentifiedQos.exactly_once pid) h =
      Takes-end Holds (λ b. map_err from_read (read_packet_identifier (body_reader net provider) b))
        _ (to_be_bytes 2 pid) pid (IdentifiedQos.exactly_once pid)
        (Takes-map_err Holds from_read (read_packet_identifier (body_reader net provider))
          (to_be_bytes 2 pid) pid
          (read_packet_identifier-feed net provider holds after fed room utf8 pid h))
        (λ b. refl)

  -- The message is what is left.
  message-feed :
      (message : List ℕ) (b : Body net provider)
      → Holds b message
      → (b' : Body net provider) × (read_and_store net provider b.remaining_len b
          ≡ returned (ok b' message))
        × Holds b' []
  message-feed message b held =
      let whole : Holds b (message ++ []) = subst (Holds b) (sym (append-nil message)) held in
      let (b', e, h) = read_and_store-feed net provider holds after fed room message b [] whole in
      (b', ap (λ n. read_and_store net provider n b) (sym held.1) ∙ e, h)

  module _ (max_subscription_identifiers max_user_properties : ℕ) (p : PublishPacket)
      (valid : IsPublish utf8 max_user_properties p) where
    flagged :
        ((flags (publish_header p) / 2 ^ 3 == 1) ≡ p.dup)
        × (try_from_bits (flags (publish_header p) / 2 % 4) ≡ some (qos_of p.identified_qos))
        × ((flags (publish_header p) % 2 == 1) ≡ p.retain)
    unfolding publish_flags
    flagged = flags-bits p.dup (qos_of p.identified_qos) p.retain (length (fields_bytes p))

    rest-feed :
        (b : Body net provider)
        → Holds b (properties_bytes p ++ p.message)
        → (b' : Body net provider) × (receive_rest utf8 net provider max_subscription_identifiers
              max_user_properties
              (flags (publish_header p))
              p.identified_qos
              (name_of p.topic)
              (length (properties_bytes p))
              b
            ≡ returned (ok b' p))
          × Holds b' []
    unfolding receive_rest
    rest-feed b held =
        let (b1, e1, h1) =
          counted_loop-feed net provider holds after fed room utf8
            (read_publish_property utf8 net provider max_subscription_identifiers
              max_user_properties)
            no_properties (properties_of p) (properties_bytes p) p.message b
            (properties-Part net provider holds after fed room utf8 max_subscription_identifiers
              max_user_properties p valid)
            held in
        let (b2, e2, h2) = message-feed p.message b1 h1 in
        let same : record p { subscription_identifiers = [] } ≡ p =
          ap (λ l. record p { subscription_identifiers = l }) (sym valid.subscriptions) in
        (
          b2,
          rw (e1, and_then, topic_reference-parts p.topic, e2, flagged.0, flagged.2)
              (ap (λ q. returned (ok b2 q)) same),
          h2,
        )

    pub receive-feed :
        (b : Body net provider)
        → Holds b (fields_bytes p)
        → (b' : Body net provider) × (receive utf8 net provider max_subscription_identifiers
              max_user_properties
              (publish_header p)
              b
            ≡ returned (ok b' p))
          × Holds b' []
    unfolding receive
    receive-feed b held =
        let fits = valid.fits in
        let (b1, e1, h1) = receive_topic-feed p.topic valid.empty valid.name b _ held in
        let (b2, e2, h2) = receive_identified-feed p.identified_qos valid.identified b1 _ h1 in
        let (b3, e3, h3) =
          Takes-map_err Holds from_read (VarByteInt.read (body_reader net provider))
            (encoding (length (properties_bytes p))) (length (properties_bytes p))
            (read_var-feed net provider holds after fed room utf8 (length (properties_bytes p))
              (omega (arith, length-fields_bytes p)))
            b2 _ h2 in
        let (b4, e4, h4) = rest-feed b3 h3 in
        (b4, rw (flagged.1, receive, e1, and_then, e2, e3, e4) refl, h4)

module _ (w : Writer) (contents : w.Sink → List ℕ) (open_sink : IsOpen w contents) (net : Reader)
    (provider : BufferProvider) (holds : net.Stream → List ℕ → Type 0) (fed : IsFed net holds) where
  -- A PUBLISH packet with valid values, no subscription identifiers, no more user properties than
  -- are kept, and fields of at most 268435455 bytes, is written by send to an open sink as its
  -- bytes; and receive, on a body that holds these bytes after the fixed header, with a transport
  -- that delivers them in any parts and a buffer that has room, returns the same packet and takes
  -- no byte of what comes after.
  pub publish-receive :
      (utf8 : List ℕ → Bool) (max_subscription_identifiers max_user_properties : ℕ)
      (p : PublishPacket)
      → IsPublish utf8 max_user_properties p
      → (after : List ℕ) → HasRoom net provider holds after
      → (s : w.Sink) (b : Body net provider) → HoldsBody net provider holds after b (fields_bytes p)
      → ((s' : w.Sink) × (send w s p ≡ returned (ok s' tt))
          × (contents s' ≡ contents s ++ packet_bytes p))
        × ((b' : Body net provider) × (receive utf8 net provider max_subscription_identifiers
                max_user_properties
                (publish_header p)
                b
              ≡ returned (ok b' p))
            × HoldsBody net provider holds after b' [])
  publish-receive utf8 max_subscription_identifiers max_user_properties p valid after room s b
        held =
      (
        send-takes w contents open_sink utf8 max_user_properties p valid s,
        receive-feed net provider holds after fed room utf8 max_subscription_identifiers
            max_user_properties p valid b held,
      )
