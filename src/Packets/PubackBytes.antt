-- ===== src/Packets/PubackBytes.antt =====
-- The bytes of a PUBACK, PUBREC, PUBREL or PUBCOMP packet of src/v5/packet/pubacks/mod.rs, and their
-- number.
use rust_mqtt.Prelude.{
  ℕ, ◌+◌, ◌*◌, ◌%◌, ◌^◌, ◌≤◌, ◌≡◌, refl, Bool, true, Option, none, some, List, [], ◌∷◌, ◌++◌,
  length, All, arith, length-append, le→leb, returned,
}
use rust_mqtt.Types.Pid.{IsPid}
use rust_mqtt.Types.ReasonCode
use rust_mqtt.Wire.VarByteInt.{max_encodable, new_unchecked}
use rust_mqtt.Wire.Encoding.{encoding, written_len-encoding}
use rust_mqtt.Wire.Ints.{to_be_bytes, length-to_be_bytes, u8_len, u16_len}
use rust_mqtt.Wire.Strings.{StringPair}
use rust_mqtt.Wire.StringRound.{
  binary_bytes, pair_bytes, length-binary_bytes, length-pair_bytes, IsString, IsPair,
}
use rust_mqtt.Packets.PropertyType.{reason_string}
use rust_mqtt.Packets.PropertyBytes.{user_bytes, property_bytes, optional_bytes, Sometimes}
use rust_mqtt.Packets.AckType.{AckType, reason_code_allowed}
use rust_mqtt.Packets.Puback.{PubackPacket}
use rust_mqtt.Packets.PubackSend.{
  reason_string_len, user_property_len, user_properties_len, properties_length, remaining_len,
  encoded_len, var_len,
}

abbrev pub reason_bytes : Option (List ℕ) → List ℕ
reason_bytes = optional_bytes (property_bytes reason_string binary_bytes)

abbrev pub properties_bytes : PubackPacket → List ℕ
properties_bytes p = reason_bytes p.reason_string ++ user_bytes p.user_properties

-- What comes after the fixed header.
abbrev pub fields_bytes : PubackPacket → List ℕ
fields_bytes p =
    to_be_bytes 2 p.packet_identifier
    ++ ((ReasonCode.value p.reason_code ∷ [])
        ++ (encoding (length (properties_bytes p)) ++ properties_bytes p))

-- A packet of the type that a client with room for so many user properties sends.
pub record IsPuback (utf8 : List ℕ → Bool) (max_user_properties : ℕ) (t : AckType)
    (p : PubackPacket) : Type 0 where
  pub bounded : max_user_properties ≤ 2047
  pub identified : IsPid p.packet_identifier
  pub allowed : reason_code_allowed t p.reason_code ≡ true
  pub reason : Sometimes (IsString utf8) p.reason_string
  pub user : All (IsPair utf8) p.user_properties
  pub few : length p.user_properties ≤ max_user_properties

pub length-reason_bytes : (r : Option (List ℕ)) → length (reason_bytes r) ≡ reason_string_len r
unfolding optional_bytes reason_string_len
length-reason_bytes none = refl
length-reason_bytes (some s) = omega (arith, length-binary_bytes s)

pub length-user_bytes : (ps : List StringPair) → length (user_bytes ps) ≡ user_properties_len ps
unfolding user_bytes user_properties_len user_property_len
length-user_bytes [] = refl
length-user_bytes (p ∷ ps) =
    omega (
      arith,
      length-append (pair_bytes p) (user_bytes ps),
      length-pair_bytes p,
      length-user_bytes ps,
    )

reason_bound :
    (utf8 : List ℕ → Bool) (r : Option (List ℕ))
    → Sometimes (IsString utf8) r
    → reason_string_len r ≤ 65538
unfolding reason_string_len
reason_bound utf8 none h = omega arith
reason_bound utf8 (some s) h = let short = h.short in omega arith

pub user_bound :
    (utf8 : List ℕ → Bool) (ps : List StringPair)
    → All (IsPair utf8) ps
    → user_properties_len ps ≤ 131075 * length ps
unfolding user_properties_len user_property_len
user_bound utf8 [] h = omega arith
user_bound utf8 (p ∷ ps) ((n, v), h) =
    let name = n.short in let value = v.short in omega (arith, user_bound utf8 ps h)

pub encoding_bound : (x : ℕ) → length (encoding x) ≤ 4
unfolding encoding
encoding_bound x = ground (arith)

pub new_unchecked-fits : (x : ℕ) → x ≤ max_encodable → new_unchecked (x % 2 ^ 32) ≡ returned x
unfolding new_unchecked
new_unchecked-fits x h =
    let same : x % 2 ^ 32 ≡ x = omega arith in rw (same, le→leb x max_encodable h) refl

pub var_len-encoding : (x : ℕ) → x ≤ max_encodable → var_len x ≡ returned (length (encoding x))
unfolding var_len
var_len-encoding x h = rw (written_len-encoding x h, var_len) refl

module _ (utf8 : List ℕ → Bool) (max_user_properties : ℕ) (t : AckType) (p : PubackPacket)
    (valid : IsPuback utf8 max_user_properties t p) where
  pub properties_bound : length (properties_bytes p) ≤ 268376063
  properties_bound =
      let few = valid.few in
      let bounded = valid.bounded in
      omega (
        arith,
        length-append (reason_bytes p.reason_string) (user_bytes p.user_properties),
        length-reason_bytes p.reason_string,
        length-user_bytes p.user_properties,
        reason_bound utf8 p.reason_string valid.reason,
        user_bound utf8 p.user_properties valid.user,
      )

  pub length-fields_bytes :
      length (fields_bytes p)
      ≡ 3 + (length (properties_bytes p) + length (encoding (length (properties_bytes p))))
  length-fields_bytes = omega (
    arith,
    length-append (to_be_bytes 2 p.packet_identifier) (
        (ReasonCode.value p.reason_code ∷ [])
        ++ (encoding (length (properties_bytes p)) ++ properties_bytes p)),
    length-to_be_bytes 2 p.packet_identifier,
    length-append (encoding (length (properties_bytes p))) (properties_bytes p),
  )

  pub fields_bound : length (fields_bytes p) ≤ max_encodable
  fields_bound =
      omega
        (arith, length-fields_bytes, properties_bound, encoding_bound (length (properties_bytes p)))

  pub properties_length-bytes : properties_length p ≡ returned (length (properties_bytes p))
  unfolding properties_length
  properties_length-bytes =
      let total : reason_string_len p.reason_string + user_properties_len p.user_properties
          ≡ length (properties_bytes p) =
        omega (
          arith,
          length-append (reason_bytes p.reason_string) (user_bytes p.user_properties),
          length-reason_bytes p.reason_string,
          length-user_bytes p.user_properties,
        ) in
      rw (total)
        (new_unchecked-fits (length (properties_bytes p)) (omega (arith, properties_bound)))

  pub remaining_len-bytes : remaining_len p ≡ returned (length (fields_bytes p))
  unfolding remaining_len
  remaining_len-bytes =
      let total : u16_len
            + u8_len
            + (length (properties_bytes p) + length (encoding (length (properties_bytes p))))
          ≡ length (fields_bytes p) =
        omega (arith, length-fields_bytes) in
      rw
        (
          properties_length-bytes,
          var_len-encoding (length (properties_bytes p)) (omega (arith, properties_bound)),
          total,
        )
        (new_unchecked-fits (length (fields_bytes p)) fields_bound)

  pub encoded_len-bytes :
      encoded_len p
      ≡ returned (1 + length (encoding (length (fields_bytes p))) + length (fields_bytes p))
  unfolding encoded_len
  encoded_len-bytes =
      rw (remaining_len-bytes, var_len-encoding (length (fields_bytes p)) fields_bound) refl
