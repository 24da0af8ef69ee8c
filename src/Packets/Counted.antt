-- ===== src/Packets/Counted.antt =====
-- src/v5/packet: the loop over properties that counts down the property length, as PUBLISH, SUBACK and
-- UNSUBACK have it.
use rust_mqtt.Prelude.{
  ℕ, zero, suc, ◌-◌, ◌==◌, leb, ltb, if◌then◌else◌, Bool, Option, none, some, List, [], ◌∷◌, ◌++◌,
  length, returned, panicked,
}
use rust_mqtt.Wire.Transport.{Reader, ok, err}
use rust_mqtt.Wire.Feed.{and_then, map_err}
use rust_mqtt.Wire.Body.{BufferProvider, Body, body_reader}
use rust_mqtt.Wire.Strings.{StringPair, pair_len, read_pair}
use rust_mqtt.Packets.RxError.{malformed_packet, from_read, from_at_most_once}
use rust_mqtt.Packets.PropertyType.{PropertyType, type_len, read_property_type}
use rust_mqtt.Packets.Property.{RxReply, ReadsValue, try_set, skip_user_property}

-- `usize::checked_sub`
unfoldable pub checked_sub : ℕ → ℕ → Option ℕ
checked_sub a b = if leb b a then some (a - b) else none

module _ (net : Reader) (provider : BufferProvider) {PS : Type 0} where
  -- An arm that sets a property at most once and tells the length to take off.
  unfoldable pub set_property :
      {A : Type 0}
      → ReadsValue net provider A
      → (len : A → ℕ) → (set : Option A → PS) → Option A
      → Body net provider
      → RxReply net provider (PS × ℕ)
  unfolding try_set from_at_most_once
  set_property read len set o b =
      and_then (map_err from_at_most_once (try_set net provider read o b))
        (λ b' o'. elim o' [ some v ↦ returned (ok b' (set (some v), len v)) | none ↦ panicked ])

  -- The arms of a user property, which is skipped where there is no room: `set` puts the ones read
  -- so far into the packet.
  unfoldable pub push_user :
      (utf8 : List ℕ → Bool) (max_user_properties : ℕ) (set : List StringPair → PS)
      → List StringPair
      → Body net provider
      → RxReply net provider (PS × ℕ)
  unfolding read_pair skip_user_property from_read
  push_user utf8 max_user_properties set us b =
      if ltb (length us) max_user_properties
      then and_then (map_err from_read (read_pair utf8 net provider b))
          (λ b' p. returned (ok b' (set (us ++ (p ∷ [])), pair_len p)))
      else and_then (skip_user_property net provider b) (λ b' len. returned (ok b' (set us, len)))

  -- The loop, with fuel for one byte in each round; `read_property` is the match on the property
  -- type and gives the length to take off.
  unfoldable pub counted_loop :
      (PropertyType → Body net provider → PS → RxReply net provider (PS × ℕ))
      → (fuel : ℕ) → Body net provider
      → (properties_length : ℕ) → PS
      → RxReply net provider PS
  unfolding read_property_type checked_sub from_read
  counted_loop read_property zero b n ps = if n == 0 then returned (ok b ps) else panicked
  counted_loop read_property (suc fuel) b n ps =
      let rest =
        and_then (map_err from_read (read_property_type (body_reader net provider) b)) (λ b1 t.
          and_then (read_property t b1 ps) (λ b2 x. elim (checked_sub (n - type_len) (x.1)) [
            | some left ↦ counted_loop read_property fuel b2 left (x.0)
            | none ↦ returned (err b2 malformed_packet)
          ])) in
      if n == 0 then returned (ok b ps) else rest
