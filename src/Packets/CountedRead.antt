-- ===== src/Packets/CountedRead.antt =====
-- src/v5/packet: the counting loop reads properties part by part.
use rust_mqtt.Prelude.{
  ℕ, zero, suc, ◌+◌, ◌≤◌, ◌<◌, All, ◌-◌, ◌≡◌, refl, sym, ap, ◌∙◌, Bool, Option, none, some, List,
  [], ◌∷◌, ◌++◌, length, returned, arith, ◌==◌, ==_ne, false, le→leb, lt→ltb, length-append,
}
use mathlib.Core.List.{append-nil}
use rust_mqtt.Wire.Transport.{Reader, ok}
use rust_mqtt.Wire.Feed.{and_then, map_err, IsFed, Takes}
use rust_mqtt.Wire.Body.{BufferProvider, Body}
use rust_mqtt.Wire.BodyFeed.{HoldsBody, HasRoom}
use rust_mqtt.Wire.Compose.{Takes-end, Takes-map_err}
use rust_mqtt.Packets.RxError.{from_read, from_at_most_once, AtMostOnceError}
use rust_mqtt.Packets.PropertyType.{PropertyType, identifier, user_property}
use rust_mqtt.Packets.PropertyBytes.{user_bytes}
use rust_mqtt.Wire.Strings.{StringPair, read_pair}
use rust_mqtt.Wire.StringRound.{pair_bytes, length-pair_bytes, IsPair, read_pair-feed}
use rust_mqtt.Packets.PropertyBytes.{Sometimes, property_bytes, optional_bytes}
use rust_mqtt.Packets.Property.{RxReply, ReadsValue, try_set}
use rust_mqtt.Packets.Counted.{checked_sub, set_property, push_user, counted_loop}
use rust_mqtt.Packets.FieldsRead.{read_property_type-feed}
use rust_mqtt.Packets.Reads

checked_sub-length :
    (bytes rest : List ℕ)
    → checked_sub (suc (length (bytes ++ rest)) - 1) (length bytes) ≡ some (length rest)
unfolding checked_sub
checked_sub-length bytes rest =
    let whole : suc (length (bytes ++ rest)) - 1 ≡ length bytes + length rest =
      omega (arith, length-append bytes rest) in
    let left : (length bytes + length rest) - length bytes ≡ length rest = omega arith in
    rw (whole, le→leb (length bytes) (length bytes + length rest) (omega arith), left) refl

module _ (net : Reader) (provider : BufferProvider) (holds : net.Stream → List ℕ → Type 0)
    (after : List ℕ) (fed : IsFed net holds) (room : HasRoom net provider holds after)
    (utf8 : List ℕ → Bool) where
  abbrev Holds : Body net provider → List ℕ → Type 0
  Holds = HoldsBody net provider holds after

  module _ {PS : Type 0} where
    -- A value that may be set is read and set.
    pub set_property-feed :
        {A : Type 0} (read : ReadsValue net provider A) (len : A → ℕ) (set : Option A → PS)
        (bytes : List ℕ) (v : A)
        → Takes Holds read bytes v
        → length bytes ≡ len v
        → Takes Holds
            (set_property net provider read len set none)
            bytes
            (set (some v), length bytes)
    unfolding set_property try_set
    set_property-feed read len set bytes v takes same =
        Takes-end Holds (λ b. map_err from_at_most_once (try_set net provider read none b)) _ bytes
          (some v) (set (some v), length bytes)
          (Takes-map_err Holds from_at_most_once (try_set net provider read none) bytes (some v) (
            Takes-map_err Holds AtMostOnceError.read _ bytes (some v) (
              Takes-end Holds read (λ b' v. returned (ok b' (some v))) bytes v (some v) takes
                (λ b. refl))))
          (λ b. rw (same) refl)

    -- A user property is read where there is room.
    pub push_user-feed :
        (max_user_properties : ℕ) (set : List StringPair → PS) (us : List StringPair)
        (u : StringPair)
        → IsPair utf8 u
        → length us < max_user_properties
        → Takes Holds
            (push_user net provider utf8 max_user_properties set us)
            (pair_bytes u)
            (set (us ++ (u ∷ [])), length (pair_bytes u))
    unfolding push_user
    push_user-feed max_user_properties set us u valid space =
        rw (lt→ltb (length us) max_user_properties space) (
          Takes-end Holds (λ b. map_err from_read (read_pair utf8 net provider b)) _ (pair_bytes u)
            u (set (us ++ (u ∷ [])), length (pair_bytes u))
            (Takes-map_err Holds from_read (read_pair utf8 net provider) (pair_bytes u) u
              (read_pair-feed net provider holds after fed room utf8 u valid))
            (λ b. rw (length-pair_bytes u) refl))

    module _
        (read_property : PropertyType
          → Body net provider
          → PS
          → RxReply net provider (PS × ℕ)) where
      abbrev loop : ℕ → Body net provider → ℕ → PS → RxReply net provider PS
      loop = counted_loop net provider read_property

      -- These bytes are read as a property of the type, and their number is taken off.
      abbrev pub One : PropertyType → PS → List ℕ → PS → Type 0
      One t ps bytes ps' = Takes Holds (λ b. read_property t b ps) bytes (ps', length bytes)

      pub counted_round :
          (fuel : ℕ) (b : Body net provider) (t : PropertyType) (ps ps' : PS)
          (bytes rest tail : List ℕ)
          → One t ps bytes ps'
          → Holds b ((identifier t ∷ []) ++ (bytes ++ (rest ++ tail)))
          → (b' : Body net provider) × (loop (suc fuel) b (suc (length (bytes ++ rest))) ps
              ≡ loop fuel b' (length rest) ps')
            × Holds b' (rest ++ tail)
      unfolding counted_loop
      counted_round fuel b t ps ps' bytes rest tail one held =
          let (b1, e1, h1) =
            read_property_type-feed net provider holds after fed room utf8 t b
              (bytes ++ (rest ++ tail)) held in
          let (b2, e2, h2) = one b1 (rest ++ tail) h1 in
          let checked : checked_sub (suc (length (bytes ++ rest)) - 1) (length bytes)
              ≡ some (length rest) =
            checked_sub-length bytes rest in
          let more : (suc (length (bytes ++ rest)) == 0) ≡ false =
            ==_ne (suc (length (bytes ++ rest))) 0 (omega arith) in
          (b2, rw (more, e1, e2, and_then, checked) refl, h2)

      counted_end :
          (fuel : ℕ) (b : Body net provider) (ps : PS) → loop fuel b 0 ps ≡ returned (ok b ps)
      unfolding counted_loop
      counted_end zero b ps = refl
      counted_end (suc fuel) b ps = refl

      abbrev pub CountedReads : PS → List ℕ → PS → Type 0
      CountedReads = Reads.Reads Holds loop One counted_round

      pub then_part :
          (ps ps1 ps2 : PS) (xs ys : List ℕ)
          → CountedReads ps xs ps1
          → CountedReads ps1 ys ps2
          → CountedReads ps (xs ++ ys) ps2
      then_part = Reads.Reads-then Holds loop One counted_round

      pub optional_part :
          {A : Type 0} (t : PropertyType) (f : Option A → PS) (enc : A → List ℕ) (P : A → Type 0)
          → ((v : A) → P v → One t (f none) (enc v) (f (some v)))
          → (o : Option A) → Sometimes P o
          → CountedReads (f none) (optional_bytes (property_bytes t enc) o) (f o)
      optional_part = Reads.Reads-optional Holds loop One counted_round

      pub users_part :
          (f : List StringPair → PS) (P : StringPair → Type 0) (limit : ℕ)
          → ((us : List StringPair) (u : StringPair)
              → P u
              → length us < limit
              → One user_property (f us) (pair_bytes u) (f (us ++ (u ∷ []))))
          → (us vs : List StringPair) → All P vs
          → length us + length vs ≤ limit
          → CountedReads (f us) (user_bytes vs) (f (us ++ vs))
      users_part = Reads.Reads-users Holds loop One counted_round

      -- The loop over properties that are read part by part.
      pub counted_loop-feed :
          (ps ps' : PS) (bytes tail : List ℕ) (b : Body net provider)
          → CountedReads ps bytes ps'
          → Holds b (bytes ++ tail)
          → (b' : Body net provider) × (loop (length bytes) b (length bytes) ps
              ≡ returned (ok b' ps'))
            × Holds b' tail
      counted_loop-feed ps ps' bytes tail b reads held =
          let all : length (bytes ++ []) ≡ length bytes = ap length (append-nil bytes) in
          let (fuel, b', enough, e, h) = reads (length bytes) b [] tail (omega (arith, all)) held in
          (b', ap (λ n. loop (length bytes) b n ps) (sym all) ∙ e ∙ counted_end fuel b' ps', h)
