-- ===== src/Packets/PubackRound.antt =====
-- src/v5/packet/pubacks/mod.rs: a packet that `send` wrote is received as it was.
use rust_mqtt.Prelude.{
  ℕ, ◌+◌, ◌≤◌, ◌≡◌, refl, sym, ap, ◌∙◌, Bool, true, false, List, [], ◌∷◌, ◌++◌, length, arith,
  returned, ◌==◌, ==_self, ==_ne, ltb, length-append,
}
use rust_mqtt.Types.ReasonCode.{value}
use rust_mqtt.Wire.Transport.{Reader, Writer, IsOpen, ok}
use rust_mqtt.Wire.VarByteInt
use rust_mqtt.Wire.Encoding.{encoding, encoding_positive}
use rust_mqtt.Wire.Header.{FixedHeader, flags}
use rust_mqtt.Wire.Feed.{map_err, IsFed, Takes}
use rust_mqtt.Wire.Ints.{to_be_bytes}
use rust_mqtt.Wire.Body.{BufferProvider, Body, body_reader}
use rust_mqtt.Wire.BodyFeed.{HoldsBody, HasRoom}
use rust_mqtt.Wire.Compose.{Takes-end, Takes-map_err}
use rust_mqtt.Packets.RxError.{from_read}
use rust_mqtt.Packets.AckType.{AckType, ack, rec, rel, comp, ack_flags, ack_packet_type, new_header}
use rust_mqtt.Packets.Puback.{
  PubackPacket, read_packet_identifier, read_reason_code, receive_reason_code,
  receive_properties_length, receive,
}
use rust_mqtt.Packets.PubackSend.{encoded_len, send}
use rust_mqtt.Packets.PubackBytes.{
  properties_bytes, fields_bytes, IsPuback, properties_bound, length-fields_bytes,
  encoded_len-bytes,
}
use rust_mqtt.Packets.PubackWrite.{send-takes, value_small}
use rust_mqtt.Packets.FieldsRead.{read_packet_identifier-feed, read_reason_code-feed, read_var-feed}
use rust_mqtt.Packets.PubackRead.{properties_loop-feed}

-- The fixed header of a packet.
abbrev pub ack_header : AckType → PubackPacket → FixedHeader
ack_header t p = new_header (ack_packet_type t) (ack_flags t) (length (fields_bytes p))

-- All bytes of a packet.
abbrev pub packet_bytes : AckType → PubackPacket → List ℕ
packet_bytes t p =
    ((ack_header t p).type_and_flags ∷ encoding (length (fields_bytes p))) ++ fields_bytes p

flags-new_header :
    (t : AckType) (n : ℕ) → flags (new_header (ack_packet_type t) (ack_flags t) n) ≡ ack_flags t
unfolding flags new_header ack_packet_type ack_flags
flags-new_header ack n = refl
flags-new_header rec n = refl
flags-new_header rel n = refl
flags-new_header comp n = refl

module _ (net : Reader) (provider : BufferProvider) (holds : net.Stream → List ℕ → Type 0)
    (after : List ℕ) (fed : IsFed net holds) (room : HasRoom net provider holds after)
    (utf8 : List ℕ → Bool) (max_user_properties : ℕ) (t : AckType) (p : PubackPacket)
    (valid : IsPuback utf8 max_user_properties t p) where
  abbrev Holds : Body net provider → List ℕ → Type 0
  Holds = HoldsBody net provider holds after

  at_least_four : 4 ≤ length (fields_bytes p)
  at_least_four = omega (
    arith,
    length-fields_bytes utf8 max_user_properties t p valid,
    encoding_positive (length (properties_bytes p)),
  )

  reason_code-feed :
      Takes Holds
        (receive_reason_code utf8 net provider max_user_properties t (ack_header t p))
        (value p.reason_code ∷ [])
        p.reason_code
  unfolding receive_reason_code new_header
  reason_code-feed =
      rw (==_ne (length (fields_bytes p)) 2 (let four = at_least_four in omega arith)) (
        Takes-end Holds (λ b. map_err from_read (read_reason_code (body_reader net provider) b)) _
          (value p.reason_code ∷ []) p.reason_code p.reason_code
          (Takes-map_err Holds from_read (read_reason_code (body_reader net provider))
            (value p.reason_code ∷ []) p.reason_code
            (read_reason_code-feed net provider holds after fed room utf8 p.reason_code
              (value_small p.reason_code)))
          (λ b. rw (valid.allowed) refl))

  properties_length-feed :
      Takes Holds
        (receive_properties_length utf8 net provider max_user_properties t (ack_header t p))
        (encoding (length (properties_bytes p)))
        (length (properties_bytes p))
  unfolding receive_properties_length new_header
  properties_length-feed =
      let four = at_least_four in
      let bound = properties_bound utf8 max_user_properties t p valid in
      let long : ltb (length (fields_bytes p)) 4 ≡ false = ground (arith) in
      rw (long) (
        Takes-map_err Holds from_read (VarByteInt.read (body_reader net provider))
          (encoding (length (properties_bytes p))) (length (properties_bytes p))
          (read_var-feed net provider holds after fed room utf8 (length (properties_bytes p))
            (omega arith)))

  pub receive-feed :
      (b : Body net provider)
      → Holds b (fields_bytes p)
      → (b' : Body net provider) × (receive utf8 net provider max_user_properties t
            (ack_header t p)
            b
          ≡ returned (ok b' p))
        × Holds b' []
  unfolding receive
  receive-feed b held =
      let (b1, e1, h1) =
        Takes-map_err Holds from_read (read_packet_identifier (body_reader net provider))
          (to_be_bytes 2 p.packet_identifier) p.packet_identifier
          (read_packet_identifier-feed net provider holds after fed room utf8 p.packet_identifier
            valid.identified)
          b _ held in
      let (b2, e2, h2) = reason_code-feed b1 _ h1 in
      let (b3, e3, h3) = properties_length-feed b2 _ h2 in
      let all_there : (b3.remaining_len == length (properties_bytes p)) ≡ true =
        rw (sym h3.1) (==_self (length (properties_bytes p))) in
      let (b4, e4, h4) =
        properties_loop-feed net provider holds after fed room utf8 max_user_properties
          p.reason_string p.user_properties valid.reason valid.user valid.few b3 h3 in
      let same_flags : (flags (ack_header t p) == ack_flags t) ≡ true =
        rw (flags-new_header t (length (fields_bytes p))) (==_self (ack_flags t)) in
      (b4, rw (same_flags, e1, e2, e3, all_there, e4) refl, h4)

module _ (w : Writer) (contents : w.Sink → List ℕ) (open_sink : IsOpen w contents) (net : Reader)
    (provider : BufferProvider) (holds : net.Stream → List ℕ → Type 0) (fed : IsFed net holds) where
  -- A PUBACK, PUBREC, PUBREL or PUBCOMP packet with a nonzero 16-bit identifier, an allowed reason
  -- code, strings that are valid and fit, and no more user properties than the client keeps, 2047
  -- at most, is written by send to an open sink as its bytes, whose number is encoded_len; and
  -- receive, on a body that holds these bytes after the fixed header, with a transport that
  -- delivers them in any parts and a buffer that has room, returns the same packet and takes no
  -- byte of what comes after.
  pub send-receive :
      (utf8 : List ℕ → Bool) (max_user_properties : ℕ) (t : AckType) (p : PubackPacket)
      → IsPuback utf8 max_user_properties t p
      → (after : List ℕ) → HasRoom net provider holds after
      → (s : w.Sink) (b : Body net provider) → HoldsBody net provider holds after b (fields_bytes p)
      → ((s' : w.Sink) × (send w t s p ≡ returned (ok s' tt))
          × (contents s' ≡ contents s ++ packet_bytes t p))
        × (encoded_len p ≡ returned (length (packet_bytes t p)))
        × ((b' : Body net provider) × (receive utf8 net provider max_user_properties t
                (ack_header t p)
                b
              ≡ returned (ok b' p))
            × HoldsBody net provider holds after b' [])
  send-receive utf8 max_user_properties t p valid after room s b held =
      let total : 1 + length (encoding (length (fields_bytes p))) + length (fields_bytes p)
          ≡ length (packet_bytes t p) =
        omega (arith, length-append (encoding (length (fields_bytes p))) (fields_bytes p)) in
      (
        send-takes w contents open_sink utf8 max_user_properties t p valid s,
        encoded_len-bytes utf8 max_user_properties t p valid ∙ ap (λ n. returned n) total,
        receive-feed net provider holds after fed room utf8 max_user_properties t p valid b held,
      )
