-- ===== src/Packets/DisconnectRead.antt =====
-- src/v5/packet/disconnect.rs: what `receive` makes of the bytes of a DISCONNECT packet.
use rust_mqtt.Prelude.{
  ℕ, ◌≤◌, ◌≡◌, refl, sym, subst, Bool, true, false, none, List, [], ◌∷◌, ◌++◌, length, All,
  returned, arith, ◌==◌, ==_ne, ==_self, length-append, ltb,
}
use rust_mqtt.Types.ReasonCode.{ReasonCode, value}
use rust_mqtt.Wire.Transport.{Reader, ok}
use rust_mqtt.Wire.VarByteInt.{max_encodable}
use rust_mqtt.Wire.VarByteInt
use rust_mqtt.Wire.Encoding.{encoding, encoding_positive}
use rust_mqtt.Wire.Header.{FixedHeader, flags}
use rust_mqtt.Wire.Feed.{IsFed}
use rust_mqtt.Wire.Body.{BufferProvider, Body, body_reader}
use rust_mqtt.Wire.BodyFeed.{HoldsBody, HasRoom}
use rust_mqtt.Wire.Compose.{Takes-map_err}
use rust_mqtt.Wire.Strings.{read_string}
use rust_mqtt.Wire.StringRound.{binary_bytes, IsString, IsPair, read_string-feed}
use rust_mqtt.Packets.RxError.{from_read}
use rust_mqtt.Packets.PropertyType.{reason_string, server_reference}
use rust_mqtt.Packets.PropertyBytes.{Sometimes, property_bytes, optional_bytes, user_bytes}
use rust_mqtt.Packets.WholeRead.{
  set_value-feed, push_pair-feed, WholeReads, whole_then, whole_optional, whole_users,
  whole_loop-feed,
}
use rust_mqtt.Packets.Puback.{read_reason_code}
use rust_mqtt.Packets.PubackWrite.{value_small}
use rust_mqtt.Packets.FieldsRead.{read_reason_code-feed, read_var-feed}
use rust_mqtt.Packets.Disconnect.{DisconnectPacket}
use rust_mqtt.Packets.DisconnectReceive.{
  disconnect_code_allowed, Notice, no_notice, read_disconnect_property, receive_code,
  receive_length, receive,
}

abbrev pub packet_of : ReasonCode → Notice → DisconnectPacket
packet_of code ps = record {
  reason_code = code;
  session_expiry = none;
  reason_string = ps.reason;
  user_properties = ps.user;
  server = ps.server;
}

abbrev pub properties_bytes : Notice → List ℕ
properties_bytes ps =
    optional_bytes (property_bytes reason_string binary_bytes) ps.reason
    ++ (user_bytes ps.user
        ++ optional_bytes (property_bytes server_reference binary_bytes) ps.server)

-- How a DISCONNECT packet without a session expiry interval may be written: the property length may
-- be left out if there are no properties, and with it the reason code if it tells of success.
pub data Written : ReasonCode → Notice → List ℕ → Type 0 where
  minimal : Written ReasonCode.success no_notice []
  coded : (c : ReasonCode) → Written c no_notice (value c ∷ [])
  full :
      (c : ReasonCode) (ps : Notice)
      → Written c ps
          ((value c ∷ []) ++ (encoding (length (properties_bytes ps)) ++ properties_bytes ps))

-- Properties that a client with room for so many user properties keeps whole.
pub record IsNotice (utf8 : List ℕ → Bool) (max_user_properties : ℕ) (ps : Notice) : Type 0 where
  pub reason : Sometimes (IsString utf8) ps.reason
  pub user : All (IsPair utf8) ps.user
  pub few : length ps.user ≤ max_user_properties
  pub server : Sometimes (IsString utf8) ps.server
  pub encodable : length (properties_bytes ps) ≤ max_encodable

module _ (net : Reader) (provider : BufferProvider) (holds : net.Stream → List ℕ → Type 0)
    (after : List ℕ) (fed : IsFed net holds) (room : HasRoom net provider holds after)
    (utf8 : List ℕ → Bool) (max_user_properties : ℕ) where
  abbrev Holds : Body net provider → List ℕ → Type 0
  Holds = HoldsBody net provider holds after

  properties-Reads :
      (ps : Notice)
      → IsNotice utf8 max_user_properties ps
      → WholeReads net provider holds after fed room utf8
          (read_disconnect_property utf8 net provider max_user_properties)
          no_notice
          (properties_bytes ps)
          ps
  unfolding read_disconnect_property
  properties-Reads ps valid =
      let read = read_disconnect_property utf8 net provider max_user_properties in
      let reason_read : Notice = record no_notice { reason = ps.reason } in
      let users_read : Notice = record reason_read { user = ps.user } in
      whole_then net provider holds after fed room utf8 read no_notice reason_read ps
        (optional_bytes (property_bytes reason_string binary_bytes) ps.reason) _
        (whole_optional net provider holds after fed room utf8 read reason_string
          (λ o. record no_notice { reason = o }) binary_bytes (IsString utf8)
          (λ v h.
            set_value-feed net provider holds after fed room utf8 (read_string utf8 net provider)
              (λ o. record no_notice { reason = o }) (binary_bytes v) v
              (read_string-feed net provider holds after fed room utf8 v h))
          ps.reason valid.reason)
        (whole_then net provider holds after fed room utf8 read reason_read users_read ps
          (user_bytes ps.user) _
          (whole_users net provider holds after fed room utf8 read
            (λ us. record reason_read { user = us }) (IsPair utf8) max_user_properties
            (λ us u h space.
              push_pair-feed net provider holds after fed room utf8 max_user_properties
                (λ us. record reason_read { user = us }) us u h space)
            [] ps.user valid.user (let few = valid.few in omega arith))
          (whole_optional net provider holds after fed room utf8 read server_reference
            (λ o. record users_read { server = o }) binary_bytes (IsString utf8)
            (λ v h.
              set_value-feed net provider holds after fed room utf8 (read_string utf8 net provider)
                (λ o. record users_read { server = o }) (binary_bytes v) v
                (read_string-feed net provider holds after fed room utf8 v h))
            ps.server valid.server))

  -- `receive` up to its loop.
  LoopReached : FixedHeader → ReasonCode → Notice → Body net provider → Type 0
  LoopReached header code ps b =
      (b1 : Body net provider) × (b2 : Body net provider) × (receive_code utf8 net provider
          max_user_properties header b
        ≡ returned (ok b1 code))
      × (receive_length utf8 net provider max_user_properties header b1
          ≡ returned (ok b2 (length (properties_bytes ps))))
      × Holds b2 (properties_bytes ps)

  fields-received :
      (header : FixedHeader) (code : ReasonCode) (ps : Notice) (bytes : List ℕ)
      (b : Body net provider)
      → Written code ps bytes
      → header.remaining_len ≡ length bytes
      → length (properties_bytes ps) ≤ max_encodable
      → Holds b bytes
      → LoopReached header code ps b
  unfolding receive_code receive_length LoopReached optional_bytes user_bytes
  fields-received header code ps bytes b minimal same short held =
      (b, b, rw (same) refl, rw (same) refl, held)
  fields-received header c ps bytes b (coded c') same short held =
      let (b1, e1, h1) =
        Takes-map_err Holds from_read (read_reason_code (body_reader net provider)) (value c ∷ []) c
          (read_reason_code-feed net provider holds after fed room utf8 c (value_small c)) b []
          held in
      (b1, b1, rw (same) e1, rw (same) refl, h1)
  fields-received header c ps bytes b (full _ _) same short held =
      let n = length (properties_bytes ps) in
      let (b1, e1, h1) =
        Takes-map_err Holds from_read (read_reason_code (body_reader net provider)) (value c ∷ []) c
          (read_reason_code-feed net provider holds after fed room utf8 c (value_small c)) b
          (encoding n ++ properties_bytes ps) held in
      let (b2, e2, h2) =
        Takes-map_err Holds from_read (VarByteInt.read (body_reader net provider)) (encoding n) n
          (read_var-feed net provider holds after fed room utf8 n short) b1 (properties_bytes ps)
          h1 in
      let n_bytes = encoding_positive n in
      let some_code : (header.remaining_len == 0) ≡ false =
        ==_ne header.remaining_len 0 (omega (arith, same)) in
      let long : ltb header.remaining_len 2 ≡ false =
        ground (arith, length-append (encoding n) (properties_bytes ps)) in
      (b1, b2, rw (some_code) e1, rw (long) e2, h2)

  -- A DISCONNECT packet without flags and without a session expiry interval, with an allowed reason
  -- code, valid strings, and no more user properties than are kept, is received from its bytes as
  -- the packet, in each way it may be written: in full, without the property length where it has no
  -- properties, and without a reason code too where that is success; and no byte of what comes
  -- after is taken, with a transport that delivers the bytes in any parts and a buffer that has
  -- room.
  pub disconnect-receive :
      (header : FixedHeader) (code : ReasonCode) (ps : Notice) (bytes : List ℕ)
      (b : Body net provider)
      → flags header ≡ 0
      → disconnect_code_allowed code ≡ true
      → IsNotice utf8 max_user_properties ps
      → Written code ps bytes
      → header.remaining_len ≡ length bytes
      → Holds b bytes
      → (b' : Body net provider) × (receive utf8 net provider max_user_properties header b
          ≡ returned (ok b' (packet_of code ps)))
        × Holds b' []
  unfolding receive LoopReached
  disconnect-receive header code ps bytes b flagless allowed valid written same held =
      let (b1, b2, e1, e2, h2) =
        fields-received header code ps bytes b written same valid.encodable held in
      let (b3, e3, h3) =
        whole_loop-feed net provider holds after fed room utf8
          (read_disconnect_property utf8 net provider max_user_properties) no_notice ps
          (properties_bytes ps) b2 (properties-Reads ps valid) h2 in
      let no_flags : (flags header == 0) ≡ true = rw (flagless) (==_self 0) in
      let all : (b2.remaining_len == length (properties_bytes ps)) ≡ true =
        subst (λ z. (b2.remaining_len == z) ≡ true) (sym h2.1) (==_self b2.remaining_len) in
      (b3, rw (no_flags, e1, allowed, e2, all, e3) refl, h3)
