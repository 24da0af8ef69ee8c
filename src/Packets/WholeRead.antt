-- ===== src/Packets/WholeRead.antt =====
-- src/v5/packet: the loop to the end of the body reads properties part by part.
use rust_mqtt.Prelude.{
  ℕ, zero, suc, ◌+◌, ◌≤◌, ◌<◌, ◌≡◌, refl, sym, subst, ◌∙◌, Bool, false, Option, none, some, List,
  [], ◌∷◌, ◌++◌, length, All, returned, ◌==◌, ==_ne, lt→ltb, arith,
}
use mathlib.Core.List.{append-nil}
use rust_mqtt.Wire.Transport.{Reader, ok, err}
use rust_mqtt.Wire.Feed.{map_err, IsFed, Takes}
use rust_mqtt.Wire.Body.{BufferProvider, Body}
use rust_mqtt.Wire.BodyFeed.{HoldsBody, HasRoom}
use rust_mqtt.Wire.Compose.{Takes-end, Takes-map_err}
use rust_mqtt.Wire.Strings.{StringPair, read_pair}
use rust_mqtt.Wire.StringRound.{pair_bytes, IsPair, read_pair-feed}
use rust_mqtt.Packets.RxError.{RxError, from_read, from_at_most_once, AtMostOnceError}
use rust_mqtt.Packets.PropertyType.{PropertyType, identifier, user_property}
use rust_mqtt.Packets.Property.{RxReply, ReadsValue, try_set}
use rust_mqtt.Packets.PropertyBytes.{user_bytes}
use rust_mqtt.Packets.Whole.{set_value, push_pair, whole_loop}
use rust_mqtt.Packets.FieldsRead.{read_property_type-feed}
use rust_mqtt.Packets.PropertyBytes.{Sometimes, property_bytes, optional_bytes}
use rust_mqtt.Packets.Reads

module _ (net : Reader) (provider : BufferProvider) (holds : net.Stream → List ℕ → Type 0)
    (after : List ℕ) (fed : IsFed net holds) (room : HasRoom net provider holds after)
    (utf8 : List ℕ → Bool) where
  abbrev Holds : Body net provider → List ℕ → Type 0
  Holds = HoldsBody net provider holds after

  module _ {PS : Type 0} where
    -- A value that may be set is read and set.
    pub set_value-feed :
        {A : Type 0} (read : ReadsValue net provider A) (set : Option A → PS) (bytes : List ℕ)
        (v : A)
        → Takes Holds read bytes v
        → Takes Holds (set_value net provider read set none) bytes (set (some v))
    unfolding set_value try_set
    set_value-feed read set bytes v takes =
        Takes-end Holds (λ b. map_err from_at_most_once (try_set net provider read none b)) _ bytes
          (some v) (set (some v))
          (Takes-map_err Holds from_at_most_once (try_set net provider read none) bytes (some v) (
            Takes-map_err Holds AtMostOnceError.read _ bytes (some v) (
              Takes-end Holds read (λ b' v. returned (ok b' (some v))) bytes v (some v) takes
                (λ b. refl))))
          (λ b. refl)

    -- A user property is read where there is room.
    pub push_pair-feed :
        (max_user_properties : ℕ) (set : List StringPair → PS) (us : List StringPair)
        (u : StringPair)
        → IsPair utf8 u
        → length us < max_user_properties
        → Takes Holds
            (push_pair net provider utf8 max_user_properties set us)
            (pair_bytes u)
            (set (us ++ (u ∷ [])))
    unfolding push_pair
    push_pair-feed max_user_properties set us u valid space =
        rw (lt→ltb (length us) max_user_properties space) (
          Takes-end Holds (λ b. map_err from_read (read_pair utf8 net provider b)) _ (pair_bytes u)
            u (set (us ++ (u ∷ [])))
            (Takes-map_err Holds from_read (read_pair utf8 net provider) (pair_bytes u) u
              (read_pair-feed net provider holds after fed room utf8 u valid))
            (λ b. refl))

    module _ (read_property : PropertyType → Body net provider → PS → RxReply net provider PS) where
      -- The number of bytes that are left does not count.
      abbrev loop : ℕ → Body net provider → ℕ → PS → RxReply net provider PS
      loop fuel b n ps = whole_loop net provider read_property fuel b ps

      -- These bytes are read as a property of the type.
      abbrev pub One : PropertyType → PS → List ℕ → PS → Type 0
      One t ps bytes ps' = Takes Holds (λ b. read_property t b ps) bytes ps'

      pub whole_round :
          (fuel : ℕ) (b : Body net provider) (t : PropertyType) (ps ps' : PS)
          (bytes rest tail : List ℕ)
          → One t ps bytes ps'
          → Holds b ((identifier t ∷ []) ++ (bytes ++ (rest ++ tail)))
          → (b' : Body net provider) × (loop (suc fuel) b (suc (length (bytes ++ rest))) ps
              ≡ loop fuel b' (length rest) ps')
            × Holds b' (rest ++ tail)
      unfolding whole_loop
      whole_round fuel b t ps ps' bytes rest tail one held =
          let (b1, e1, h1) =
            read_property_type-feed net provider holds after fed room utf8 t b
              (bytes ++ (rest ++ tail)) held in
          let (b2, e2, h2) = one b1 (rest ++ tail) h1 in
          let more : (b.remaining_len == 0) ≡ false =
            ==_ne b.remaining_len 0 (let l = held.1 in omega arith) in
          (b2, rw (more, e1, e2) refl, h2)

      whole_end :
          (fuel : ℕ) (b : Body net provider) (ps : PS)
          → Holds b []
          → loop fuel b 0 ps ≡ returned (ok b ps)
      unfolding whole_loop
      whole_end zero b ps (h, l) = rw (sym l) refl
      whole_end (suc fuel) b ps (h, l) = rw (sym l) refl

      abbrev pub WholeReads : PS → List ℕ → PS → Type 0
      WholeReads = Reads.Reads Holds loop One whole_round

      pub whole_nothing : (ps : PS) → WholeReads ps [] ps
      whole_nothing = Reads.Reads-nothing Holds loop One whole_round

      pub whole_property :
          (t : PropertyType) (ps ps' : PS) (bytes : List ℕ)
          → One t ps bytes ps'
          → WholeReads ps ((identifier t ∷ []) ++ bytes) ps'
      whole_property = Reads.Reads-property Holds loop One whole_round

      pub whole_then :
          (ps ps1 ps2 : PS) (xs ys : List ℕ)
          → WholeReads ps xs ps1
          → WholeReads ps1 ys ps2
          → WholeReads ps (xs ++ ys) ps2
      whole_then = Reads.Reads-then Holds loop One whole_round

      pub whole_optional :
          {A : Type 0} (t : PropertyType) (f : Option A → PS) (enc : A → List ℕ) (P : A → Type 0)
          → ((v : A) → P v → One t (f none) (enc v) (f (some v)))
          → (o : Option A) → Sometimes P o
          → WholeReads (f none) (optional_bytes (property_bytes t enc) o) (f o)
      whole_optional = Reads.Reads-optional Holds loop One whole_round

      pub whole_users :
          (f : List StringPair → PS) (P : StringPair → Type 0) (limit : ℕ)
          → ((us : List StringPair) (u : StringPair)
              → P u
              → length us < limit
              → One user_property (f us) (pair_bytes u) (f (us ++ (u ∷ []))))
          → (us vs : List StringPair) → All P vs
          → length us + length vs ≤ limit
          → WholeReads (f us) (user_bytes vs) (f (us ++ vs))
      whole_users = Reads.Reads-users Holds loop One whole_round

      -- The loop over properties that are read part by part, to the end of the body.
      pub whole_loop-feed :
          (ps ps' : PS) (bytes : List ℕ) (b : Body net provider)
          → WholeReads ps bytes ps'
          → Holds b bytes
          → (b' : Body net provider) × (whole_loop net provider read_property b.remaining_len b ps
              ≡ returned (ok b' ps'))
            × Holds b' []
      whole_loop-feed ps ps' bytes b reads held =
          let whole : Holds b (bytes ++ []) = subst (Holds b) (sym (append-nil bytes)) held in
          let (fuel, b', enough, e, h) =
            reads b.remaining_len b [] [] (let l = whole.1 in omega arith) whole in
          (b', e ∙ whole_end fuel b' ps' h, h)

      whole_stop :
          (fuel : ℕ) (ps : PS) (more : List ℕ) (t : PropertyType)
          (e : RxError net.Error provider.ProvisionError) (b : Body net provider)
          → ((b : Body net provider) → read_property t b ps ≡ returned (err b e))
          → 1 ≤ fuel
          → Holds b ((identifier t ∷ []) ++ more)
          → (b' : Body net provider) × (whole_loop net provider read_property fuel b ps
              ≡ returned (err b' e))
      unfolding whole_loop
      whole_stop zero ps more t e b refused enough held = absurd (omega arith)
      whole_stop (suc fuel) ps more t e b refused enough held =
          let (b1, e1, h1) =
            read_property_type-feed net provider holds after fed room utf8 t b more held in
          let left : (b.remaining_len == 0) ≡ false =
            ==_ne b.remaining_len 0 (let l = held.1 in omega arith) in
          (b1, rw (left, e1, refused b1) refl)

      -- A property that is refused ends the loop, after the properties before it.
      pub whole_loop-stops :
          (ps ps' : PS) (bytes more : List ℕ) (t : PropertyType)
          (e : RxError net.Error provider.ProvisionError) (b : Body net provider)
          → WholeReads ps bytes ps'
          → ((b : Body net provider) → read_property t b ps' ≡ returned (err b e))
          → Holds b (bytes ++ ((identifier t ∷ []) ++ more))
          → (b' : Body net provider) × (whole_loop net provider read_property b.remaining_len b ps
              ≡ returned (err b' e))
      whole_loop-stops ps ps' bytes more t e b reads refused held =
          let rest = (identifier t ∷ []) ++ more in
          let whole : Holds b (bytes ++ (rest ++ [])) =
            subst (λ z. Holds b (bytes ++ z)) (sym (append-nil rest)) held in
          let (fuel, b1, enough, e1, h1) =
            reads b.remaining_len b rest [] (let l = held.1 in omega arith) whole in
          let (b2, e2) = whole_stop fuel ps' (more ++ []) t e b1 refused (omega arith) h1 in
          (b2, e1 ∙ e2)
