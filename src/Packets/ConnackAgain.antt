-- ===== src/Packets/ConnackAgain.antt =====
-- src/v5/packet/connack.rs: a property of a CONNACK packet that comes a second time.
use rust_mqtt.Prelude.{ℕ, ◌≡◌, refl, Bool, true, Option, none, some, List, returned, arith}
use rust_mqtt.Wire.Transport.{Reader, err}
use rust_mqtt.Wire.Body.{BufferProvider, Body}
use rust_mqtt.Packets.RxError.{protocol_error, from_at_most_once}
use rust_mqtt.Packets.Property.{ReadsValue, try_set}
use rust_mqtt.Packets.Whole.{set_value}
use rust_mqtt.Packets.Connack.{Negotiated, read_connack_property}
use rust_mqtt.Packets.ConnackProperty.{
  ConnackProperty, expiry, receive_limit, packet_size, aliases, qos, retain, wildcards, identifiers,
  shared, client, reason, response, server, method, data_bytes, user, keep_alive, type_of, has_come,
  is_some,
}

module _ (net : Reader) (provider : BufferProvider) where
  set_again :
      {A : Type 0} (read : ReadsValue net provider A) (set : Option A → Negotiated) (o : Option A)
      → is_some o ≡ true
      → (b : Body net provider)
      → set_value net provider read set o b ≡ returned (err b protocol_error)
  unfolding is_some set_value try_set from_at_most_once
  set_again read set none seen b = ground arith
  set_again read set (some w) seen b = refl

  -- A property that has come before is refused.
  pub property_again :
      (utf8 : List ℕ → Bool) (max_user_properties : ℕ) (i : ConnackProperty) (ps : Negotiated)
      → has_come i ps ≡ true
      → (b : Body net provider)
      → read_connack_property utf8 net provider max_user_properties (type_of i) b ps
        ≡ returned (err b protocol_error)
  unfolding read_connack_property type_of has_come
  property_again utf8 max (expiry v) ps seen b =
      set_again _ (λ o. record ps { expiry = o }) ps.expiry seen b
  property_again utf8 max (receive_limit v) ps seen b =
      set_again _ (λ o. record ps { receive_limit = o }) ps.receive_limit seen b
  property_again utf8 max (packet_size v) ps seen b =
      set_again _ (λ o. record ps { packet_size = o }) ps.packet_size seen b
  property_again utf8 max (aliases v) ps seen b =
      set_again _ (λ o. record ps { aliases = o }) ps.aliases seen b
  property_again utf8 max (qos v) ps seen b = set_again _ (λ o. record ps { qos = o }) ps.qos seen b
  property_again utf8 max (retain v) ps seen b =
      set_again _ (λ o. record ps { retain = o }) ps.retain seen b
  property_again utf8 max (wildcards v) ps seen b =
      set_again _ (λ o. record ps { wildcards = o }) ps.wildcards seen b
  property_again utf8 max (identifiers v) ps seen b =
      set_again _ (λ o. record ps { identifiers = o }) ps.identifiers seen b
  property_again utf8 max (shared v) ps seen b =
      set_again _ (λ o. record ps { shared = o }) ps.shared seen b
  property_again utf8 max (client v) ps seen b =
      set_again _ (λ o. record ps { client = o }) ps.client seen b
  property_again utf8 max (reason v) ps seen b =
      set_again _ (λ o. record ps { reason = o }) ps.reason seen b
  property_again utf8 max (response v) ps seen b =
      set_again _ (λ o. record ps { response = o }) ps.response seen b
  property_again utf8 max (server v) ps seen b =
      set_again _ (λ o. record ps { server = o }) ps.server seen b
  property_again utf8 max (method v) ps seen b = rw (seen) refl
  property_again utf8 max (data_bytes v) ps seen b = rw (seen) refl
  property_again utf8 max (user v) ps seen b = ground arith
  property_again utf8 max (keep_alive v) ps seen b =
      set_again _ (λ o. record ps { keep_alive = o }) ps.keep_alive seen b
