-- ===== src/Packets/ConnackRound.antt =====
-- src/v5/packet/connack.rs: what `receive` makes of the bytes of a CONNACK packet.
use rust_mqtt.Prelude.{
  ℕ, ◌≤◌, ◌<◌, ◌≡◌, refl, sym, subst, Bool, true, false, List, [], ◌∷◌, ◌++◌, length, returned,
  if◌then◌else◌, arith, ==_self, ltb, ◌==◌,
}
use Prim.Native.Nat.{bit_and}
use rust_mqtt.Types.ReasonCode.{ReasonCode, value}
use rust_mqtt.Wire.Transport.{Reader, ok, err}
use rust_mqtt.Wire.VarByteInt.{max_encodable}
use rust_mqtt.Wire.VarByteInt
use rust_mqtt.Wire.Encoding.{encoding}
use rust_mqtt.Wire.Header.{FixedHeader, flags}
use rust_mqtt.Wire.Feed.{and_then, map_err, IsFed, Takes}
use rust_mqtt.Wire.Ints.{read_u8, read_u8-feed}
use rust_mqtt.Wire.Body.{BufferProvider, Body, body_reader}
use rust_mqtt.Wire.BodyFeed.{HoldsBody, HasRoom, body-IsFed}
use rust_mqtt.Wire.Compose.{Takes-map_err}
use rust_mqtt.Packets.RxError.{protocol_error, from_read}
use rust_mqtt.Packets.PropertyType.{identifier}
use rust_mqtt.Packets.Whole.{whole_loop}
use rust_mqtt.Packets.WholeRead.{
  WholeReads, whole_nothing, whole_property, whole_then, whole_loop-feed, whole_loop-stops,
}
use rust_mqtt.Packets.PublishBytes.{bool_bytes}
use rust_mqtt.Packets.Puback.{read_reason_code}
use rust_mqtt.Packets.PubackWrite.{value_small}
use rust_mqtt.Packets.FieldsRead.{read_reason_code-feed, read_var-feed}
use rust_mqtt.Packets.Connack.{
  Negotiated, nothing_yet, connack_code_allowed, read_connack_property, receive,
}
use rust_mqtt.Packets.ConnackProperty.{
  ConnackProperty, type_of, value_bytes, keep, keep_all, AreNew, has_come, all_bytes,
}
use rust_mqtt.Packets.ConnackRead.{property-Step}
use rust_mqtt.Packets.ConnackAgain.{property_again}

-- What comes after the fixed header, with the bytes of the properties.
abbrev pub fields_bytes : (session_present : Bool) → ReasonCode → (properties : List ℕ) → List ℕ
fields_bytes session_present code properties =
    bool_bytes session_present
    ++ ((value code ∷ []) ++ (encoding (length properties) ++ properties))

flags_small : (session_present : Bool) → (if session_present then 1 else 0) < 256
flags_small true = omega arith
flags_small false = omega arith

flags_clear :
    (session_present : Bool) → ltb 0 (bit_and (if session_present then 1 else 0) 0xFE) ≡ false
flags_clear true = refl
flags_clear false = refl

flags_session :
    (session_present : Bool) → ltb 0 (if session_present then 1 else 0) ≡ session_present
flags_session true = refl
flags_session false = refl

module _ (net : Reader) (provider : BufferProvider) (holds : net.Stream → List ℕ → Type 0)
    (after : List ℕ) (fed : IsFed net holds) (room : HasRoom net provider holds after)
    (utf8 : List ℕ → Bool) (max_user_properties : ℕ) where
  abbrev Holds : Body net provider → List ℕ → Type 0
  Holds = HoldsBody net provider holds after

  abbrev Part : Negotiated → List ℕ → Negotiated → Type 0
  Part =
      WholeReads net provider holds after fed room utf8
        (read_connack_property utf8 net provider max_user_properties)

  all-Part :
      (is : List ConnackProperty) (ps : Negotiated)
      → AreNew utf8 max_user_properties is ps
      → Part ps (all_bytes is) (keep_all max_user_properties is ps)
  unfolding all_bytes
  all-Part [] ps new =
      whole_nothing net provider holds after fed room utf8
        (read_connack_property utf8 net provider max_user_properties) ps
  all-Part (i ∷ is) ps (valid, first, others) =
      let read = read_connack_property utf8 net provider max_user_properties in
      let next = keep max_user_properties i ps in
      whole_then net provider holds after fed room utf8 read ps next
        (keep_all max_user_properties (i ∷ is) ps) ((identifier (type_of i) ∷ []) ++ value_bytes i)
        (all_bytes is)
        (whole_property net provider holds after fed room utf8 read (type_of i) ps next
          (value_bytes i)
          (property-Step net provider holds after fed room utf8 max_user_properties i ps valid
            first))
        (all-Part is next others)

  flags-Takes :
      (session_present : Bool)
      → Takes Holds
          (λ b. map_err from_read (read_u8 (body_reader net provider) b))
          (bool_bytes session_present)
          (if session_present then 1 else 0)
  flags-Takes session_present =
      Takes-map_err Holds from_read (read_u8 (body_reader net provider))
        (bool_bytes session_present) (if session_present then 1 else 0)
        (read_u8-feed (body_reader net provider) Holds (body-IsFed net provider holds after fed)
          (if session_present then 1 else 0) (flags_small session_present))

  -- `receive` up to its loop.
  fields-received :
      (header : FixedHeader) (session_present : Bool) (code : ReasonCode) (properties : List ℕ)
      (b : Body net provider)
      → flags header ≡ 0
      → connack_code_allowed code ≡ true
      → length properties ≤ max_encodable
      → Holds b (fields_bytes session_present code properties)
      → (b' : Body net provider) × (receive utf8 net provider max_user_properties header b
          ≡ and_then
              (whole_loop net provider
                (read_connack_property utf8 net provider max_user_properties)
                b'.remaining_len
                b'
                nothing_yet)
              (λ b4 ps. returned (
                ok b4 (record {
                  session_present = session_present;
                  reason_code = code;
                  properties = ps;
                }))))
        × Holds b' properties
  unfolding receive
  fields-received header session_present code properties b flagless allowed short held =
      let n = length properties in
      let (b1, e1, h1) =
        flags-Takes session_present b ((value code ∷ []) ++ (encoding n ++ properties)) held in
      let (b2, e2, h2) =
        Takes-map_err Holds from_read (read_reason_code (body_reader net provider))
          (value code ∷ []) code
          (read_reason_code-feed net provider holds after fed room utf8 code (value_small code)) b1
          (encoding n ++ properties) h1 in
      let (b3, e3, h3) =
        Takes-map_err Holds from_read (VarByteInt.read (body_reader net provider)) (encoding n) n
          (read_var-feed net provider holds after fed room utf8 n short) b2 properties h2 in
      let no_flags : (flags header == 0) ≡ true = rw (flagless) (==_self 0) in
      let all : (b3.remaining_len == n) ≡ true =
        subst (λ z. (b3.remaining_len == z) ≡ true) (sym h3.1) (==_self b3.remaining_len) in
      (
        b3,
        rw
            (
              no_flags,
              e1,
              e2,
              allowed,
              flags_clear session_present,
              e3,
              all,
              flags_session session_present,
            )
            refl,
        h3,
      )

  -- A CONNACK packet without flags, with an allowed reason code and any properties in any order,
  -- whose values are allowed, of which none but the user property comes twice, and whose bytes are
  -- at most 268435455, is received from its bytes: with its session flag, its reason code, every
  -- property as it was sent, the first user properties that there is room for, and nothing of
  -- authentication; and no byte of what comes after is taken, with a transport that delivers the
  -- bytes in any parts and a buffer that has room.
  pub connack-receive :
      (header : FixedHeader) (session_present : Bool) (code : ReasonCode)
      (is : List ConnackProperty) (b : Body net provider)
      → flags header ≡ 0
      → connack_code_allowed code ≡ true
      → AreNew utf8 max_user_properties is nothing_yet
      → length (all_bytes is) ≤ max_encodable
      → Holds b (fields_bytes session_present code (all_bytes is))
      → (b' : Body net provider) × (receive utf8 net provider max_user_properties header b
          ≡ returned (
              ok b' (record {
                session_present = session_present;
                reason_code = code;
                properties = keep_all max_user_properties is nothing_yet;
              })))
        × Holds b' []
  connack-receive header session_present code is b flagless allowed new short held =
      let (b1, e1, h1) =
        fields-received header session_present code (all_bytes is) b flagless allowed short held in
      let (b2, e2, h2) =
        whole_loop-feed net provider holds after fed room utf8
          (read_connack_property utf8 net provider max_user_properties) nothing_yet
          (keep_all max_user_properties is nothing_yet) (all_bytes is) b1
          (all-Part is nothing_yet new) h1 in
      (b2, rw (e1, e2) refl, h2)

  -- A CONNACK packet without flags, with an allowed reason code and properties that are allowed and
  -- new, after which a property other than a user property comes again, whatever follows its
  -- identifier, is refused with a protocol error, with a property length of at most 268435455 and a
  -- transport that delivers the bytes in any parts and a buffer that has room.
  pub connack-repeated :
      (header : FixedHeader) (session_present : Bool) (code : ReasonCode)
      (is : List ConnackProperty) (i : ConnackProperty) (more : List ℕ) (b : Body net provider)
      → flags header ≡ 0
      → connack_code_allowed code ≡ true
      → AreNew utf8 max_user_properties is nothing_yet
      → has_come i (keep_all max_user_properties is nothing_yet) ≡ true
      → length (all_bytes is ++ ((identifier (type_of i) ∷ []) ++ more)) ≤ max_encodable
      → Holds b (
          fields_bytes session_present code
            (all_bytes is ++ ((identifier (type_of i) ∷ []) ++ more)))
      → (b' : Body net provider) × (receive utf8 net provider max_user_properties header b
          ≡ returned (err b' protocol_error))
  connack-repeated header session_present code is i more b flagless allowed new again short held =
      let (b1, e1, h1) =
        fields-received header session_present code
          (all_bytes is ++ ((identifier (type_of i) ∷ []) ++ more)) b flagless allowed short held in
      let (b2, e2) =
        whole_loop-stops net provider holds after fed room utf8
          (read_connack_property utf8 net provider max_user_properties) nothing_yet
          (keep_all max_user_properties is nothing_yet) (all_bytes is) more (type_of i)
          protocol_error b1 (all-Part is nothing_yet new)
          (property_again net provider utf8 max_user_properties i
            (keep_all max_user_properties is nothing_yet) again)
          h1 in
      (b2, rw (e1, e2) refl)
