-- ===== src/Packets/Whole.antt =====
-- src/v5/packet: the loop over properties that runs to the end of the body, as CONNACK, DISCONNECT and
-- the packets that acknowledge a publication have it.
use rust_mqtt.Prelude.{
  ℕ, zero, suc, ◌==◌, ltb, if◌then◌else◌, Bool, Option, List, [], ◌∷◌, ◌++◌, length, returned,
  panicked,
}
use rust_mqtt.Wire.Transport.{Reader, ok}
use rust_mqtt.Wire.Feed.{and_then, map_err}
use rust_mqtt.Wire.Body.{BufferProvider, Body, body_reader}
use rust_mqtt.Wire.Strings.{StringPair, read_pair}
use rust_mqtt.Packets.RxError.{from_read, from_at_most_once}
use rust_mqtt.Packets.PropertyType.{PropertyType, read_property_type}
use rust_mqtt.Packets.Property.{RxReply, ReadsValue, try_set, skip_user_property}

module _ (net : Reader) (provider : BufferProvider) {PS : Type 0} where
  -- An arm that sets a property at most once.
  unfoldable pub set_value :
      {A : Type 0}
      → ReadsValue net provider A
      → (set : Option A → PS) → Option A
      → Body net provider
      → RxReply net provider PS
  unfolding try_set from_at_most_once
  set_value read set o b =
      and_then (map_err from_at_most_once (try_set net provider read o b))
        (λ b' o'. returned (ok b' (set o')))

  -- The arms of a user property, which is skipped where there is no room.
  unfoldable pub push_pair :
      (utf8 : List ℕ → Bool) (max_user_properties : ℕ) (set : List StringPair → PS)
      → List StringPair
      → Body net provider
      → RxReply net provider PS
  unfolding read_pair skip_user_property from_read
  push_pair utf8 max_user_properties set us b =
      if ltb (length us) max_user_properties
      then and_then (map_err from_read (read_pair utf8 net provider b))
          (λ b' p. returned (ok b' (set (us ++ (p ∷ [])))))
      else and_then (skip_user_property net provider b) (λ b' _. returned (ok b' (set us)))

  -- The loop, with fuel for one byte in each round; `read_property` is the match on the property
  -- type.
  unfoldable pub whole_loop :
      (PropertyType → Body net provider → PS → RxReply net provider PS)
      → (fuel : ℕ) → Body net provider
      → PS
      → RxReply net provider PS
  unfolding read_property_type from_read
  whole_loop read_property zero b ps = if b.remaining_len == 0 then returned (ok b ps) else panicked
  whole_loop read_property (suc fuel) b ps =
      let rest =
        and_then (map_err from_read (read_property_type (body_reader net provider) b)) (λ b1 t.
          and_then (read_property t b1 ps) (λ b2 ps'. whole_loop read_property fuel b2 ps')) in
      if b.remaining_len == 0 then returned (ok b ps) else rest
