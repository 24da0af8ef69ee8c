-- ===== src/Packets/Reads.antt =====
-- src/v5/packet: how the loops over properties read a list of properties part by part.
use rust_mqtt.Prelude.{
  ℕ, zero, suc, ◌+◌, ◌≤◌, ◌<◌, ◌≡◌, refl, subst, ap, ◌∙◌, sym, Option, none, some, List, [], ◌∷◌,
  ◌++◌, length, All, arith, length-append,
}
use mathlib.Core.List.{append-nil, append_assoc}
use rust_mqtt.Wire.Strings.{StringPair}
use rust_mqtt.Wire.StringRound.{pair_bytes}
use rust_mqtt.Packets.PropertyType.{PropertyType, user_property, identifier}
use rust_mqtt.Packets.PropertyBytes.{user_bytes, property_bytes, optional_bytes, Sometimes}

-- `run fuel b n ps` is a loop whose properties are the next `n` bytes of the body, and `One t ps
-- bytes ps'` tells that these bytes are read as a property of the type; `round` is a round of the
-- loop.
module _ {S PS R : Type 0} (Holds : S → List ℕ → Type 0) (run : (fuel : ℕ) → S → (n : ℕ) → PS → R)
    (One : PropertyType → PS → List ℕ → PS → Type 0)
    (round : (fuel : ℕ) (b : S) (t : PropertyType) (ps ps' : PS) (bytes rest tail : List ℕ)
      → One t ps bytes ps'
      → Holds b ((identifier t ∷ []) ++ (bytes ++ (rest ++ tail)))
      → (b' : S) × (run (suc fuel) b (suc (length (bytes ++ rest))) ps
          ≡ run fuel b' (length rest) ps')
        × Holds b' (rest ++ tail)) where
  abbrev pub Reads : PS → List ℕ → PS → Type 0
  Reads ps bytes ps' =
      (fuel : ℕ) (b : S) (rest tail : List ℕ)
      → length (bytes ++ rest) ≤ fuel
      → Holds b (bytes ++ (rest ++ tail))
      → (fuel' : ℕ) × (b' : S) × (length rest ≤ fuel')
        × (run fuel b (length (bytes ++ rest)) ps ≡ run fuel' b' (length rest) ps')
        × Holds b' (rest ++ tail)

  pub Reads-nothing : (ps : PS) → Reads ps [] ps
  Reads-nothing ps fuel b rest tail enough held = (fuel, b, enough, refl, held)

  pub Reads-property :
      (t : PropertyType) (ps ps' : PS) (bytes : List ℕ)
      → One t ps bytes ps'
      → Reads ps ((identifier t ∷ []) ++ bytes) ps'
  Reads-property t ps ps' bytes one zero b rest tail enough held = absurd (omega arith)
  Reads-property t ps ps' bytes one (suc fuel) b rest tail enough held =
      let (b', e, h) = round fuel b t ps ps' bytes rest tail one held in
      (fuel, b', omega (arith, length-append bytes rest), e, h)

  pub Reads-then :
      (ps ps1 ps2 : PS) (xs ys : List ℕ)
      → Reads ps xs ps1
      → Reads ps1 ys ps2
      → Reads ps (xs ++ ys) ps2
  Reads-then ps ps1 ps2 xs ys first second fuel b rest tail enough held =
      let joined : (xs ++ ys) ++ rest ≡ xs ++ (ys ++ rest) = append_assoc xs ys rest in
      let ahead : (xs ++ ys) ++ (rest ++ tail) ≡ xs ++ ((ys ++ rest) ++ tail) =
        append_assoc xs ys (rest ++ tail) ∙ ap (λ z. xs ++ z) (sym (append_assoc ys rest tail)) in
      let (f1, b1, enough1, e1, h1) =
        first fuel b (ys ++ rest) tail (subst (λ z. length z ≤ fuel) joined enough)
          (subst (Holds b) ahead held) in
      let (f2, b2, enough2, e2, h2) =
        second f1 b1 rest tail enough1 (subst (Holds b1) (append_assoc ys rest tail) h1) in
      (f2, b2, enough2, ap (λ z. run fuel b (length z) ps) joined ∙ e1 ∙ e2, h2)

  -- A property that may be left out; `f` puts it into what has been read so far.
  pub Reads-optional :
      {A : Type 0} (t : PropertyType) (f : Option A → PS) (enc : A → List ℕ) (P : A → Type 0)
      → ((v : A) → P v → One t (f none) (enc v) (f (some v)))
      → (o : Option A) → Sometimes P o
      → Reads (f none) (optional_bytes (property_bytes t enc) o) (f o)
  unfolding optional_bytes
  Reads-optional t f enc P one none h = Reads-nothing (f none)
  Reads-optional t f enc P one (some v) h = Reads-property t (f none) (f (some v)) (enc v) (one v h)

  -- User properties, of which there is room for `room`.
  pub Reads-users :
      (f : List StringPair → PS) (P : StringPair → Type 0) (room : ℕ)
      → ((us : List StringPair) (u : StringPair)
          → P u
          → length us < room
          → One user_property (f us) (pair_bytes u) (f (us ++ (u ∷ []))))
      → (us vs : List StringPair) → All P vs
      → length us + length vs ≤ room
      → Reads (f us) (user_bytes vs) (f (us ++ vs))
  unfolding user_bytes
  Reads-users f P room one us [] h fits =
      subst (λ z. Reads (f us) [] (f z)) (sym (append-nil us)) (Reads-nothing (f us))
  Reads-users f P room one us (v ∷ vs) (first, others) fits =
      Reads-then (f us) (f (us ++ (v ∷ []))) (f (us ++ (v ∷ vs)))
        ((identifier user_property ∷ []) ++ pair_bytes v) (user_bytes vs)
        (Reads-property user_property (f us) (f (us ++ (v ∷ []))) (pair_bytes v)
          (one us v first (omega arith)))
        (subst (λ z. Reads (f (us ++ (v ∷ []))) (user_bytes vs) (f z)) (append_assoc us (v ∷ []) vs)
          (Reads-users f P room one (us ++ (v ∷ [])) vs others
            (omega (arith, length-append us (v ∷ [])))))
