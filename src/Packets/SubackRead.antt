-- ===== src/Packets/SubackRead.antt =====
-- src/v5/packet/subacks: what `receive` makes of the bytes of a SUBACK or UNSUBACK packet.
use rust_mqtt.Prelude.{
  ℕ, zero, suc, ◌+◌, ◌≤◌, ◌≡◌, refl, sym, ap, ◌∙◌, Bool, true, false, Option, none, List, [], ◌∷◌,
  ◌++◌, map, length, All, arith, returned, ◌==◌, ==_ne, ==_self, ltb, lt→ltb, length-append,
  length-map,
}
use mathlib.Core.List.{append-nil, append_assoc}
use rust_mqtt.Types.Pid.{IsPid}
use rust_mqtt.Types.ReasonCode.{ReasonCode, value}
use rust_mqtt.Wire.Transport.{Reader, ok}
use rust_mqtt.Wire.VarByteInt.{max_encodable}
use rust_mqtt.Wire.VarByteInt
use rust_mqtt.Wire.Encoding.{encoding}
use rust_mqtt.Wire.Header.{FixedHeader, flags}
use rust_mqtt.Wire.Feed.{and_then, IsFed}
use rust_mqtt.Wire.Ints.{to_be_bytes}
use rust_mqtt.Wire.Body.{BufferProvider, Body, body_reader}
use rust_mqtt.Wire.BodyFeed.{HoldsBody, HasRoom}
use rust_mqtt.Wire.Compose.{Takes-map_err}
use rust_mqtt.Wire.Strings.{StringPair, binary_len, read_string}
use rust_mqtt.Wire.StringRound.{
  binary_bytes, length-binary_bytes, IsString, IsPair, read_string-feed,
}
use rust_mqtt.Packets.RxError.{from_read}
use rust_mqtt.Packets.PropertyType.{reason_string}
use rust_mqtt.Packets.PropertyBytes.{Sometimes, property_bytes, optional_bytes}
use rust_mqtt.Packets.CountedRead.{
  set_property-feed, push_user-feed, counted_loop-feed, CountedReads, then_part, optional_part,
  users_part,
}
use rust_mqtt.Packets.Puback.{Properties, read_packet_identifier, read_reason_code}
use rust_mqtt.Packets.PropertyBytes.{user_bytes}
use rust_mqtt.Packets.PubackWrite.{value_small}
use rust_mqtt.Packets.FieldsRead.{read_packet_identifier-feed, read_reason_code-feed, read_var-feed}
use rust_mqtt.Packets.Suback.{
  SubackType, suback_code_allowed, SubackPacket, read_suback_property, codes_loop, receive,
}

abbrev pub properties_bytes : SubackPacket → List ℕ
properties_bytes p =
    optional_bytes (property_bytes reason_string binary_bytes) p.reason_string
    ++ user_bytes p.user_properties

-- What comes after the fixed header.
abbrev pub fields_bytes : SubackPacket → List ℕ
fields_bytes p =
    to_be_bytes 2 p.packet_identifier
    ++ (encoding (length (properties_bytes p)) ++ (properties_bytes p ++ map value p.reason_codes))

abbrev Allowed : SubackType → ReasonCode → Type 0
Allowed t c = suback_code_allowed t c ≡ true

-- A packet that a client with room for so many filters and user properties keeps whole.
pub record IsSuback (utf8 : List ℕ → Bool) (max_topic_filters max_user_properties : ℕ)
    (t : SubackType) (p : SubackPacket) : Type 0 where
  pub identified : IsPid p.packet_identifier
  pub reason : Sometimes (IsString utf8) p.reason_string
  pub user : All (IsPair utf8) p.user_properties
  pub few : length p.user_properties ≤ max_user_properties
  pub codes : All (λ c. suback_code_allowed t c ≡ true) p.reason_codes
  pub answered : 1 ≤ length p.reason_codes
  pub asked : length p.reason_codes ≤ max_topic_filters
  pub encodable : length (properties_bytes p) ≤ max_encodable

module _ (net : Reader) (provider : BufferProvider) (holds : net.Stream → List ℕ → Type 0)
    (after : List ℕ) (fed : IsFed net holds) (room : HasRoom net provider holds after)
    (utf8 : List ℕ → Bool) (max_topic_filters max_user_properties : ℕ) where
  abbrev Holds : Body net provider → List ℕ → Type 0
  Holds = HoldsBody net provider holds after

  codes_loop-feed :
      (t : SubackType) (fuel : ℕ) (codes before : List ReasonCode) (b : Body net provider)
      → All (Allowed t) codes
      → length before + length codes ≤ max_topic_filters
      → length codes ≤ fuel
      → Holds b (map value codes)
      → (b' : Body net provider) × (codes_loop utf8 net provider max_topic_filters
            max_user_properties t fuel b before
          ≡ returned (ok b' (before ++ codes)))
        × Holds b' []
  unfolding codes_loop
  codes_loop-feed t zero [] before b allowed fits enough (h, l) =
      (b, rw (sym l, append-nil before) refl, (h, l))
  codes_loop-feed t (suc fuel) [] before b allowed fits enough (h, l) =
      (b, rw (sym l, append-nil before) refl, (h, l))
  codes_loop-feed t zero (c ∷ codes) before b allowed fits enough held = absurd (omega arith)
  codes_loop-feed t (suc fuel) (c ∷ codes) before b (first, others) fits enough held =
      let (b1, e1, h1) =
        Takes-map_err Holds from_read (read_reason_code (body_reader net provider)) (value c ∷ []) c
          (read_reason_code-feed net provider holds after fed room utf8 c (value_small c)) b
          (map value codes) held in
      let (b2, e2, h2) =
        codes_loop-feed t fuel codes (before ++ (c ∷ [])) b1 others
          (omega (arith, length-append before (c ∷ []))) (omega arith) h1 in
      let more : (b.remaining_len == 0) ≡ false =
        ==_ne b.remaining_len 0 (let l = held.1 in omega arith) in
      (
        b2,
        rw (more, e1, and_then, first, lt→ltb (length before) max_topic_filters (omega arith))
            (e2 ∙ ap (λ z. returned (ok b2 z)) (append_assoc before (c ∷ []) codes)),
        h2,
      )

  abbrev Part : Properties → List ℕ → Properties → Type 0
  Part =
      CountedReads net provider holds after fed room utf8
        (read_suback_property utf8 net provider max_topic_filters max_user_properties)

  properties-Part :
      (reason : Option (List ℕ)) (users : List StringPair)
      → Sometimes (IsString utf8) reason
      → All (IsPair utf8) users
      → length users ≤ max_user_properties
      → Part
          (record { reason = none; user = [] })
          (optional_bytes (property_bytes reason_string binary_bytes) reason ++ user_bytes users)
          (record { reason = reason; user = users })
  unfolding read_suback_property
  properties-Part reason users valid valid_users few =
      let read = read_suback_property utf8 net provider max_topic_filters max_user_properties in
      then_part net provider holds after fed room utf8 read (record { reason = none; user = [] })
        (record { reason = reason; user = [] }) (record { reason = reason; user = users })
        (optional_bytes (property_bytes reason_string binary_bytes) reason) (user_bytes users)
        (optional_part net provider holds after fed room utf8 read reason_string
          (λ o. record { reason = o; user = [] }) binary_bytes (IsString utf8)
          (λ v h.
            set_property-feed net provider holds after fed room utf8 (read_string utf8 net provider)
              binary_len (λ o. record { reason = o; user = [] }) (binary_bytes v) v
              (read_string-feed net provider holds after fed room utf8 v h) (length-binary_bytes v))
          reason valid)
        (users_part net provider holds after fed room utf8 read
          (λ us. record { reason = reason; user = us }) (IsPair utf8) max_user_properties
          (λ us u h space.
            push_user-feed net provider holds after fed room utf8 max_user_properties
              (λ us. record { reason = reason; user = us }) us u h space)
          [] users valid_users (omega arith))

  -- A SUBACK or UNSUBACK packet without flags, with a nonzero 16-bit identifier, valid strings, no
  -- more user properties than are kept, and at least one reason code, all allowed and no more than
  -- there are filters, is received from its bytes as the packet, and no byte of what comes after is
  -- taken, with a transport that delivers the bytes in any parts and a buffer that has room.
  pub suback-receive :
      (t : SubackType) (header : FixedHeader) (p : SubackPacket) (b : Body net provider)
      → flags header ≡ 0
      → IsSuback utf8 max_topic_filters max_user_properties t p
      → Holds b (fields_bytes p)
      → (b' : Body net provider) × (receive utf8 net provider max_topic_filters max_user_properties
            t header b
          ≡ returned (ok b' p))
        × Holds b' []
  unfolding receive
  suback-receive t header p b flagless valid held =
      let n = length (properties_bytes p) in
      let (b1, e1, h1) =
        Takes-map_err Holds from_read (read_packet_identifier (body_reader net provider))
          (to_be_bytes 2 p.packet_identifier) p.packet_identifier
          (read_packet_identifier-feed net provider holds after fed room utf8 p.packet_identifier
            valid.identified)
          b _ held in
      let (b2, e2, h2) =
        Takes-map_err Holds from_read (VarByteInt.read (body_reader net provider)) (encoding n) n
          (read_var-feed net provider holds after fed room utf8 n valid.encodable) b1 _ h1 in
      let (b3, e3, h3) =
        counted_loop-feed net provider holds after fed room utf8
          (read_suback_property utf8 net provider max_topic_filters max_user_properties)
          (record { reason = none; user = [] })
          (record { reason = p.reason_string; user = p.user_properties }) (properties_bytes p)
          (map value p.reason_codes) b2
          (properties-Part p.reason_string p.user_properties valid.reason valid.user valid.few)
          h2 in
      let total : length (properties_bytes p) + length p.reason_codes ≡ b2.remaining_len =
        let l = h2.1 in
        omega (
          arith,
          length-append (properties_bytes p) (map value p.reason_codes),
          length-map value p.reason_codes,
        ) in
      let answered = valid.answered in
      let (b4, e4, h4) =
        codes_loop-feed t b3.remaining_len p.reason_codes [] b3 valid.codes
          (let asked = valid.asked in omega arith)
          (let l = h3.1 in omega (arith, length-map value p.reason_codes)) h3 in
      let enough : ltb b2.remaining_len n ≡ false = ground arith in
      let some_left : (n == b2.remaining_len) ≡ false = ==_ne n b2.remaining_len (omega arith) in
      let no_flags : (flags header == 0) ≡ true = rw (flagless) (==_self 0) in
      (b4, rw (no_flags, e1, e2, enough, some_left, e3, e4) refl, h4)
