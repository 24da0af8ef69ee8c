-- ===== src/Packets/SubscribeWrite.antt =====
-- src/v5/packet/subscribe.rs: what `send` writes, and that every packet of the client can be sent.
use rust_mqtt.Prelude.{
  ℕ, ◌+◌, ◌*◌, ◌%◌, ◌^◌, ◌≤◌, ◌<◌, ◌≡◌, refl, sym, ap, suc, Bool, le→leb, Option, none, some, List,
  [], ◌∷◌, ◌++◌, length, All, returned, arith, length-append,
}
use mathlib.Core.List.{append_assoc}
use rust_mqtt.Wire.Transport.{Writer, IsOpen, ok}
use rust_mqtt.Wire.VarByteInt.{VarByteInt, max_encodable}
use rust_mqtt.Wire.VarByteInt
use rust_mqtt.Wire.Encoding.{encoding}
use rust_mqtt.Wire.Ints.{to_be_bytes, length-to_be_bytes, write_int, u16_len}
use rust_mqtt.Wire.Header.{FixedHeader, subscribe, write}
use rust_mqtt.Wire.Strings.{max_length}
use rust_mqtt.Wire.WriteVar.{Appends, write-takes}
use rust_mqtt.Wire.RoundTrip.{write_header-takes}
use rust_mqtt.Wire.Compose.{Appends-then, Appends-bytes, Appends-nothing}
use rust_mqtt.Wire.StringRound.{binary_bytes, length-binary_bytes, write_binary-takes, IsPair}
use rust_mqtt.Topics.Subscription.{SubscriptionFilter}
use rust_mqtt.Packets.PropertyType.{subscription_identifier}
use rust_mqtt.Packets.PropertyWrite.{optional_property-takes}
use rust_mqtt.Packets.PropertyBytes.{Sometimes, property_bytes, optional_bytes}
use rust_mqtt.Packets.AckType.{new_header}
use rust_mqtt.Packets.PubackSend.{write_packet_identifier, user_properties_len}
use rust_mqtt.Packets.PropertyBytes.{user_bytes}
use rust_mqtt.Packets.PubackBytes.{
  length-user_bytes, user_bound, encoding_bound, new_unchecked-fits, var_len-encoding,
}
use rust_mqtt.Packets.PubackWrite.{write_users-takes, write_byte-takes}
use rust_mqtt.Packets.PublishLimits.{new-some}
use rust_mqtt.Packets.Subscribe.{
  SubscribePacket, filters_len, subscription_len, properties_length, remaining_len_raw, new,
  remaining_len, write_filters, write_fields, send,
}

unfoldable pub filters_bytes : List SubscriptionFilter → List ℕ
filters_bytes [] = []
filters_bytes (f ∷ fs) = binary_bytes f.topic ++ ((f.subscription_options ∷ []) ++ filters_bytes fs)

abbrev pub identifier_bytes : Option VarByteInt → List ℕ
identifier_bytes = optional_bytes (property_bytes subscription_identifier encoding)

abbrev pub properties_bytes : SubscribePacket → List ℕ
properties_bytes p = identifier_bytes p.subscription_identifier ++ user_bytes p.user_properties

-- What comes after the fixed header.
abbrev pub fields_bytes : SubscribePacket → List ℕ
fields_bytes p =
    to_be_bytes 2 p.packet_identifier
    ++ (encoding (length (properties_bytes p))
        ++ (properties_bytes p ++ filters_bytes p.subscribe_filters))

abbrev pub subscribe_header : SubscribePacket → FixedHeader
subscribe_header p = new_header subscribe 0x02 (length (fields_bytes p))

abbrev pub packet_bytes : SubscribePacket → List ℕ
packet_bytes p =
    ((subscribe_header p).type_and_flags ∷ encoding (length (fields_bytes p))) ++ fields_bytes p

abbrev pub IsFilter : SubscriptionFilter → Type 0
IsFilter f = (length f.topic ≤ max_length) × (f.subscription_options < 256)

-- A packet of a client whose constants are those that `new` trusts.
pub record IsSubscribe (utf8 : List ℕ → Bool) (max_topic_filters max_user_properties : ℕ)
    (p : SubscribePacket) : Type 0 where
  pub filters_bounded : max_topic_filters ≤ 2053
  pub users_bounded : max_user_properties ≤ 1021
  pub identifier : Sometimes (λ v. v ≤ max_encodable) p.subscription_identifier
  pub user : All (IsPair utf8) p.user_properties
  pub few : length p.user_properties ≤ max_user_properties
  pub filters : All IsFilter p.subscribe_filters
  pub fit : length p.subscribe_filters ≤ max_topic_filters

length-filters_bytes : (fs : List SubscriptionFilter) → length (filters_bytes fs) ≡ filters_len fs
unfolding filters_bytes filters_len
length-filters_bytes [] = refl
length-filters_bytes (f ∷ fs) = omega (
  arith,
  length-append (binary_bytes f.topic) ((f.subscription_options ∷ []) ++ filters_bytes fs),
  length-binary_bytes f.topic,
  length-filters_bytes fs,
)

filters_bound :
    (fs : List SubscriptionFilter) → All IsFilter fs → filters_len fs ≤ 65538 * length fs
unfolding filters_len
filters_bound [] h = omega arith
filters_bound (f ∷ fs) ((short, small), h) = omega (arith, filters_bound fs h)

identifier_bound : (o : Option VarByteInt) → length (identifier_bytes o) ≤ 5
unfolding optional_bytes
identifier_bound none = omega arith
identifier_bound (some v) = omega (arith, encoding_bound v)

subscription_len-bytes :
    (o : Option VarByteInt)
    → Sometimes (λ v. v ≤ max_encodable) o
    → subscription_len o ≡ returned (length (identifier_bytes o))
unfolding subscription_len optional_bytes
subscription_len-bytes none h = refl
subscription_len-bytes (some v) h = rw (var_len-encoding v h) (ap_suc (length (encoding v)))
  where
    ap_suc : (n : ℕ) → returned (1 + n) ≡ returned (suc n)
    ap_suc n = ap (λ k. returned k) (omega arith)

module _ (utf8 : List ℕ → Bool) (max_topic_filters max_user_properties : ℕ) (p : SubscribePacket)
    (valid : IsSubscribe utf8 max_topic_filters max_user_properties p) where
  properties_bound : length (properties_bytes p) ≤ 133827580
  properties_bound =
      let few = valid.few in
      let bounded = valid.users_bounded in
      omega (
        arith,
        length-append (identifier_bytes p.subscription_identifier) (user_bytes p.user_properties),
        identifier_bound p.subscription_identifier,
        length-user_bytes p.user_properties,
        user_bound utf8 p.user_properties valid.user,
      )

  length-fields_bytes :
      length (fields_bytes p)
      ≡ u16_len
        + (length (properties_bytes p) + length (encoding (length (properties_bytes p))))
        + filters_len p.subscribe_filters
  length-fields_bytes =
      let filters = filters_bytes p.subscribe_filters in
      let number = encoding (length (properties_bytes p)) in
      omega (
        arith,
        length-append (to_be_bytes 2 p.packet_identifier)
            (number ++ (properties_bytes p ++ filters)),
        length-to_be_bytes 2 p.packet_identifier,
        length-append number (properties_bytes p ++ filters),
        length-append (properties_bytes p) filters,
        length-filters_bytes p.subscribe_filters,
      )

  fields_bound : length (fields_bytes p) ≤ max_encodable
  fields_bound =
      let fit = valid.fit in
      let bounded = valid.filters_bounded in
      omega (
        arith,
        length-fields_bytes,
        properties_bound,
        encoding_bound (length (properties_bytes p)),
        filters_bound p.subscribe_filters valid.filters,
      )

  properties_length-bytes : properties_length p ≡ returned (length (properties_bytes p))
  unfolding properties_length
  properties_length-bytes =
      let total : length (identifier_bytes p.subscription_identifier)
            + user_properties_len p.user_properties
          ≡ length (properties_bytes p) =
        omega (
          arith,
          length-append (identifier_bytes p.subscription_identifier) (user_bytes p.user_properties),
          length-user_bytes p.user_properties,
        ) in
      rw (subscription_len-bytes p.subscription_identifier valid.identifier, total)
        (new_unchecked-fits (length (properties_bytes p)) (omega (arith, properties_bound)))

  remaining_len-bytes : remaining_len p ≡ returned (length (fields_bytes p))
  unfolding remaining_len remaining_len_raw
  remaining_len-bytes =
      let same : length (fields_bytes p) % 2 ^ 32 ≡ length (fields_bytes p) =
        omega (arith, fields_bound) in
      rw
        (
          properties_length-bytes,
          var_len-encoding (length (properties_bytes p)) (omega (arith, properties_bound)),
          sym length-fields_bytes,
          same,
          new-some (length (fields_bytes p)) fields_bound,
        )
        refl

  new-trusts : new max_topic_filters max_user_properties p ≡ returned (some p)
  unfolding new
  new-trusts =
      rw
        (
          le→leb max_user_properties 1021 valid.users_bounded,
          le→leb max_topic_filters 2053 valid.filters_bounded,
        )
        refl

  module _ (w : Writer) (contents : w.Sink → List ℕ) (open_sink : IsOpen w contents) where
    filters_takes :
        (s : w.Sink) (fs : List SubscriptionFilter)
        → All IsFilter fs
        → Appends w contents open_sink s (write_filters w s fs) (filters_bytes fs)
    unfolding write_filters filters_bytes
    filters_takes s [] h = Appends-nothing w contents open_sink s
    filters_takes s (f ∷ fs) ((short, small), h) =
        Appends-then w contents open_sink s _ _ _ _
          (write_binary-takes w contents open_sink s f.topic short)
          (λ s1.
            Appends-then w contents open_sink s1 (write_int w 1 s1 f.subscription_options) _
              (f.subscription_options ∷ []) _
              (write_byte-takes w contents open_sink s1 f.subscription_options small)
              (λ s2. filters_takes s2 fs h))

    fields_takes :
        (s : w.Sink)
        → Appends w contents open_sink s
            (write_fields w s (length (properties_bytes p)) p)
            (fields_bytes p)
    unfolding write_fields write_packet_identifier write_int
    fields_takes s =
        Appends-then w contents open_sink s (write_packet_identifier w s p.packet_identifier) _ _ _
          (Appends-bytes w contents open_sink s (to_be_bytes 2 p.packet_identifier))
          (λ s1.
            Appends-then w contents open_sink s1
              (VarByteInt.write w s1 (length (properties_bytes p))) _ _ _
              (write-takes w contents open_sink s1 (length (properties_bytes p))
                (omega (arith, properties_bound)))
              (λ s2.
                rw
                  (append_assoc (identifier_bytes p.subscription_identifier)
                    (user_bytes p.user_properties) (filters_bytes p.subscribe_filters))
                  (Appends-then w contents open_sink s2 _ _ _ _
                    (optional_property-takes w contents open_sink (VarByteInt.write w) encoding
                      (λ v. v ≤ max_encodable) (write-takes w contents open_sink)
                      subscription_identifier s2 p.subscription_identifier valid.identifier)
                    (λ s3.
                      Appends-then w contents open_sink s3 _ _ _ _
                        (write_users-takes w contents open_sink utf8 s3 p.user_properties
                          valid.user)
                        (λ s4. filters_takes s4 p.subscribe_filters valid.filters)))))

    -- With constants of at most 2053 topic filters and 1021 user properties, for which new does not
    -- look at the length, every SUBSCRIBE packet with values that fit is accepted by new, its
    -- remaining length can be encoded, and send writes its bytes to an open sink.
    pub subscribe-sends :
        (s : w.Sink)
        → (new max_topic_filters max_user_properties p ≡ returned (some p))
          × ((s' : w.Sink) × (send w s p ≡ returned (ok s' tt))
              × (contents s' ≡ contents s ++ packet_bytes p))
    unfolding send new_header
    subscribe-sends s =
        let (s', e, c) =
          Appends-then w contents open_sink s (write w s (subscribe_header p))
            (λ s1 _. write_fields w s1 (length (properties_bytes p)) p) _ _
            (write_header-takes w contents open_sink s (subscribe_header p) fields_bound)
            fields_takes in
        (new-trusts, (s', rw (remaining_len-bytes, properties_length-bytes, e) refl, c))
