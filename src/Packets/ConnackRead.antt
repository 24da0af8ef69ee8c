-- ===== src/Packets/ConnackRead.antt =====
-- src/v5/packet/connack.rs: how each property of a CONNACK packet is read.
use rust_mqtt.Prelude.{
  ℕ, ◌+◌, ◌≤◌, ◌≡◌, refl, sym, subst, Bool, true, false, Option, none, some, List, [], ◌∷◌, ◌++◌,
  length, ltb, if◌then◌else◌, returned, arith,
}
use mathlib.Core.List.{append_assoc}
use rust_mqtt.Types.Qos.{level}
use rust_mqtt.Wire.Transport.{Reader, ok}
use rust_mqtt.Wire.Feed.{map_err, and_then, IsFed, Takes}
use rust_mqtt.Wire.Ints.{u16_len, to_be_bytes, read_u16, read_u16-feed, read_bool}
use rust_mqtt.Wire.Body.{BufferProvider, Body, body_reader, skip}
use rust_mqtt.Wire.BodyFeed.{HoldsBody, HasRoom, body-IsFed, skip-feed}
use rust_mqtt.Wire.Compose.{Takes-then, Takes-end, Takes-map_err}
use rust_mqtt.Wire.Strings.{StringPair, max_length, read_string, read_pair}
use rust_mqtt.Wire.StringRound.{
  binary_bytes, pair_bytes, IsString, IsPair, read_string-feed, read_pair-feed,
}
use rust_mqtt.Packets.RxError.{from_read, from_body}
use rust_mqtt.Packets.Property.{ReadsValue, skip_user_property}
use rust_mqtt.Packets.Whole.{set_value, push_pair}
use rust_mqtt.Packets.WholeRead.{set_value-feed, One}
use rust_mqtt.Packets.PublishBytes.{bool_bytes}
use rust_mqtt.Packets.PublishRead.{read_bool-feed}
use rust_mqtt.Packets.Values.{
  as_u16, limit, read_server_keep_alive, read_session_expiry, read_maximum_qos,
  read_maximum_packet_size, read_receive_maximum,
}
use rust_mqtt.Packets.ValuesRead.{
  read_server_keep_alive-feed, read_session_expiry-feed, read_maximum_qos-feed,
  read_maximum_packet_size-feed, read_receive_maximum-feed,
}
use rust_mqtt.Packets.Disconnect.{interval_value}
use rust_mqtt.Packets.Connack.{Negotiated, skip_binary, read_connack_property}
use rust_mqtt.Packets.ConnackProperty.{
  ConnackProperty, expiry, receive_limit, packet_size, aliases, qos, retain, wildcards, identifiers,
  shared, client, reason, response, server, method, data_bytes, user, keep_alive, type_of,
  value_bytes, keep, IsValue, has_come, is_some,
}

module _ (net : Reader) (provider : BufferProvider) (holds : net.Stream → List ℕ → Type 0)
    (after : List ℕ) (fed : IsFed net holds) (room : HasRoom net provider holds after)
    (utf8 : List ℕ → Bool) (max_user_properties : ℕ) where
  abbrev Holds : Body net provider → List ℕ → Type 0
  Holds = HoldsBody net provider holds after

  abbrev body : Reader
  body = body_reader net provider

  abbrev body_fed : IsFed body Holds
  body_fed = body-IsFed net provider holds after fed

  -- A property that has not been set is set.
  set_new :
      {A : Type 0} (read : ReadsValue net provider A) (set : Option A → Negotiated) (o : Option A)
      (bytes : List ℕ) (v : A)
      → is_some o ≡ false
      → Takes Holds read bytes v
      → Takes Holds (set_value net provider read set o) bytes (set (some v))
  unfolding is_some
  set_new read set none bytes v unset takes =
      set_value-feed net provider holds after fed room utf8 read set bytes v takes
  set_new read set (some w) bytes v unset takes = ground arith

  -- A length, and as many bytes skipped.
  length-Takes :
      (bytes : List ℕ)
      → length bytes ≤ max_length
      → Takes Holds
          (λ b. map_err from_read (read_u16 body b))
          (to_be_bytes 2 (length bytes))
          (length bytes)
  length-Takes bytes short =
      Takes-map_err Holds from_read (read_u16 body) (to_be_bytes 2 (length bytes)) (length bytes)
        (read_u16-feed body Holds body_fed (length bytes) (omega arith))

  skip-Takes :
      (bytes : List ℕ)
      → Takes Holds (λ b. map_err from_body (skip net provider (length bytes) b)) bytes tt
  skip-Takes bytes =
      Takes-map_err Holds from_body (skip net provider (length bytes)) bytes tt
        (λ b rest held. skip-feed net provider holds after fed b bytes rest held)

  skip_binary-feed :
      (bytes : List ℕ)
      → length bytes ≤ max_length
      → Takes Holds (skip_binary utf8 net provider) (binary_bytes bytes) tt
  unfolding skip_binary
  skip_binary-feed bytes short =
      Takes-then Holds (λ b. map_err from_read (read_u16 body b))
        (λ b len. map_err from_body (skip net provider len b)) (to_be_bytes 2 (length bytes)) bytes
        (length bytes) tt (length-Takes bytes short) (skip-Takes bytes)

  skip_user_property-feed :
      (u : StringPair)
      → IsPair utf8 u
      → Takes Holds
          (skip_user_property net provider)
          (pair_bytes u)
          (u16_len + length u.name + u16_len + length u.value)
  unfolding skip_user_property
  skip_user_property-feed u (name, value) =
      let total = u16_len + length u.name + u16_len + length u.value in
      subst
        (λ z.
          Takes Holds (skip_user_property net provider) z
            (u16_len + length u.name + u16_len + length u.value))
        (sym (append_assoc (to_be_bytes 2 (length u.name)) u.name (binary_bytes u.value)))
        (Takes-then Holds (λ b. map_err from_read (read_u16 body b)) _
          (to_be_bytes 2 (length u.name)) (u.name ++ binary_bytes u.value) (length u.name) total
          (length-Takes u.name name.short)
          (Takes-then Holds (λ b. map_err from_body (skip net provider (length u.name) b)) _ u.name
            (binary_bytes u.value) tt total (skip-Takes u.name)
            (Takes-then Holds (λ b. map_err from_read (read_u16 body b)) _
              (to_be_bytes 2 (length u.value)) u.value (length u.value) total
              (length-Takes u.value value.short)
              (Takes-end Holds (λ b. map_err from_body (skip net provider (length u.value) b)) _
                u.value tt total (skip-Takes u.value) (λ b. refl)))))

  -- A user property is kept or skipped.
  push_pair-Takes :
      (set : List StringPair → Negotiated) (us : List StringPair) (u : StringPair)
      → IsPair utf8 u
      → (space : Bool)
      → Takes Holds
          (λ b.
            if space
            then and_then
                (map_err from_read (read_pair utf8 net provider b))
                (λ b' p. returned (ok b' (set (us ++ (p ∷ [])))))
            else and_then (skip_user_property net provider b) (λ b' _. returned (ok b' (set us))))
          (pair_bytes u)
          (set (if space then us ++ (u ∷ []) else us))
  push_pair-Takes set us u valid true =
      Takes-end Holds (λ b. map_err from_read (read_pair utf8 net provider b)) _ (pair_bytes u) u
        (set (us ++ (u ∷ [])))
        (Takes-map_err Holds from_read (read_pair utf8 net provider) (pair_bytes u) u
          (read_pair-feed net provider holds after fed room utf8 u valid))
        (λ b. refl)
  push_pair-Takes set us u valid false =
      Takes-end Holds (skip_user_property net provider) _ (pair_bytes u)
        (u16_len + length u.name + u16_len + length u.value) (set us)
        (skip_user_property-feed u valid) (λ b. refl)

  abbrev pub Step : ConnackProperty → Negotiated → Type 0
  Step i ps =
      One net provider holds after fed room utf8
        (read_connack_property utf8 net provider max_user_properties) (type_of i) ps (value_bytes i)
        (keep max_user_properties i ps)

  -- A string, and a Boolean.
  string_new :
      (set : Option (List ℕ) → Negotiated) (o : Option (List ℕ)) (v : List ℕ)
      → IsString utf8 v
      → is_some o ≡ false
      → Takes Holds
          (set_value net provider (read_string utf8 net provider) set o)
          (binary_bytes v)
          (set (some v))
  string_new set o v valid unset =
      set_new (read_string utf8 net provider) set o (binary_bytes v) v unset
        (read_string-feed net provider holds after fed room utf8 v valid)

  bool_new :
      (set : Option Bool → Negotiated) (o : Option Bool) (v : Bool)
      → is_some o ≡ false
      → Takes Holds (set_value net provider (read_bool body) set o) (bool_bytes v) (set (some v))
  bool_new set o v unset =
      set_new (read_bool body) set o (bool_bytes v) v unset
        (read_bool-feed net provider holds after fed room utf8 v)

  pub property-Step :
      (i : ConnackProperty) (ps : Negotiated) → IsValue utf8 i → has_come i ps ≡ false → Step i ps
  unfolding read_connack_property push_pair type_of value_bytes keep IsValue has_come
  property-Step (expiry v) ps valid unset =
      set_new (read_session_expiry body) (λ o. record ps { expiry = o }) ps.expiry
        (to_be_bytes 4 (interval_value v)) v unset
        (read_session_expiry-feed body Holds body_fed v valid)
  property-Step (receive_limit v) ps (lo, hi) unset =
      set_new (read_receive_maximum body) (λ o. record ps { receive_limit = o }) ps.receive_limit
        (to_be_bytes 2 v) v unset (read_receive_maximum-feed body Holds body_fed v lo hi)
  property-Step (packet_size v) ps (lo, hi) unset =
      set_new (read_maximum_packet_size body) (λ o. record ps { packet_size = o }) ps.packet_size
        (to_be_bytes 4 v) (limit v) unset
        (read_maximum_packet_size-feed body Holds body_fed v lo hi)
  property-Step (aliases v) ps small unset =
      set_new (read_u16 body) (λ o. record ps { aliases = o }) ps.aliases (to_be_bytes 2 v) v unset
        (read_u16-feed body Holds body_fed v small)
  property-Step (qos v) ps valid unset =
      set_new (read_maximum_qos body) (λ o. record ps { qos = o }) ps.qos (level v ∷ []) v unset
        (read_maximum_qos-feed body Holds body_fed v)
  property-Step (retain v) ps valid unset =
      bool_new (λ o. record ps { retain = o }) ps.retain v unset
  property-Step (wildcards v) ps valid unset =
      bool_new (λ o. record ps { wildcards = o }) ps.wildcards v unset
  property-Step (identifiers v) ps valid unset =
      bool_new (λ o. record ps { identifiers = o }) ps.identifiers v unset
  property-Step (shared v) ps valid unset =
      bool_new (λ o. record ps { shared = o }) ps.shared v unset
  property-Step (client v) ps valid unset =
      string_new (λ o. record ps { client = o }) ps.client v valid unset
  property-Step (reason v) ps valid unset =
      string_new (λ o. record ps { reason = o }) ps.reason v valid unset
  property-Step (response v) ps valid unset =
      string_new (λ o. record ps { response = o }) ps.response v valid unset
  property-Step (server v) ps valid unset =
      string_new (λ o. record ps { server = o }) ps.server v valid unset
  property-Step (method v) ps short unseen = rw (unseen) (
      Takes-end Holds (skip_binary utf8 net provider) _ (binary_bytes v) tt
        (record ps { method_seen = true }) (skip_binary-feed v short) (λ b. refl))
  property-Step (data_bytes v) ps short unseen = rw (unseen) (
      Takes-end Holds (skip_binary utf8 net provider) _ (binary_bytes v) tt
        (record ps { data_seen = true }) (skip_binary-feed v short) (λ b. refl))
  property-Step (user v) ps valid unset =
      push_pair-Takes (λ us. record ps { user = us }) ps.user v valid
        (ltb (length ps.user) max_user_properties)
  property-Step (keep_alive v) ps valid unset =
      set_new (read_server_keep_alive body) (λ o. record ps { keep_alive = o }) ps.keep_alive
        (to_be_bytes 2 (as_u16 v)) v unset (read_server_keep_alive-feed body Holds body_fed v valid)
