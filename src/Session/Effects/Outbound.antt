-- ===== src/Session/Effects/Outbound.antt =====
-- The handle of a client publication: where it points, and the effect of its write, its removal and
-- of the scheduling of a new entry.
use rust_mqtt.Prelude.{
  ℕ, ◌<◌, ◌≤◌, ◌≡◌, refl, ◌⊎◌, inl, inr, Option, none, some, List, length, min, returned, ltb,
  lt→ltb, Option-cases, arith,
}
use rust_mqtt.Keyed.{position}
use rust_mqtt.Keyed.Find.{Found, position-Found, lookup-of_position, lookup-of_position-none}
use rust_mqtt.Keyed.Remove.{Updated}
use rust_mqtt.Vec.{HeaplessVec, IsHeaplessVec}
use rust_mqtt.Vec.Effects.{modify-Updated, push-some, swap_remove-Updated}
use rust_mqtt.Types.Pid.{PacketIdentifier}
use rust_mqtt.Session.LocalState.{LocalPublishState}
use rust_mqtt.Session.State.{
  Session, Limits, OutboundHandle, Outbound, outbound_key, outbound_handle, sub_handle,
  unsub_handle, schedule_outbound, available_outbound_publish_capacity,
}
use rust_mqtt.Session.OutboundHandle.{set, remove}
use rust_mqtt.Session.View.{local_of, sub_of, unsub_of, IsValid, IsOneFlow, OutboundStep}
use mathlib.Core.Option

abbrev pub at : Session → ℕ → LocalPublishState → OutboundHandle
at s i st = record { session = s; i = i; state = st }

abbrev with_outbound : Session → List Outbound → Session
with_outbound s es = record s { outbound_publishes = es }

-- A lookup succeeds exactly if there is a handle, and both show the same state.
pub data Tracks (s : Session) (p : PacketIdentifier) : Type 0 where
  untracked : local_of s p ≡ none → outbound_handle s p ≡ none → Tracks s p
  tracked :
      (i : ℕ) (x : Outbound)
      → local_of s p ≡ some (x.1)
      → outbound_handle s p ≡ some (at s i (x.1))
      → Found outbound_key p i x s.outbound_publishes
      → Tracks s p

pub Tracks-total : (s : Session) (p : PacketIdentifier) → Tracks s p
unfolding local_of outbound_handle
Tracks-total s p = elim (Option-cases (position outbound_key p s.outbound_publishes)) [
  | inl e ↦ untracked (rw (lookup-of_position-none outbound_key p s.outbound_publishes e)) (rw e)
  | inr ((i, x), e) ↦
      tracked i x (rw (lookup-of_position outbound_key p s.outbound_publishes i x e)) (rw e)
        (position-Found outbound_key p s.outbound_publishes i x e)
]

step_with :
    (s : Session) (p : PacketIdentifier) (o : Option Outbound) (es : List Outbound)
    → Updated outbound_key p o s.outbound_publishes es
    → OutboundStep s (with_outbound s es) p (Option.map (λ e. e.1) o)
unfolding local_of
step_with s p o es up = record {
  locals = λ q. ground (arith, up.lookups q);
  same_inbound = refl;
  same_subs = refl;
  same_unsubs = refl;
}

-- A step that tracks no identifier beside a subscription or an unsubscription keeps them apart.
OutboundStep-IsOneFlow :
    {s s' : Session} {p : PacketIdentifier} {o : Option LocalPublishState}
    → OutboundStep s s' p o
    → (o ≡ none) ⊎ ((sub_of s p ≡ none) × (unsub_of s p ≡ none))
    → (q : PacketIdentifier) → IsOneFlow s q
    → IsOneFlow s' q
unfolding sub_of unsub_of
OutboundStep-IsOneFlow step alone q flow = record {
  sub_or_unsub = ground (arith, step.same_subs, step.same_unsubs, flow.sub_or_unsub);
  sub_or_local = ground (arith, step.same_subs, step.locals q, flow.sub_or_local, alone);
  unsub_or_local = ground (arith, step.same_unsubs, step.locals q, flow.unsub_or_local, alone);
}

IsValid-with :
    {limits : Limits} {s : Session} (valid : IsValid limits s) (p : PacketIdentifier)
    (o : Option Outbound) (es : List Outbound)
    → Updated outbound_key p o s.outbound_publishes es
    → (Option.map (λ e. e.1) o ≡ none) ⊎ ((sub_of s p ≡ none) × (unsub_of s p ≡ none))
    → length es ≤ min limits.send_maximum 65535
    → IsValid limits (with_outbound s es)
IsValid-with {s} valid p o es up alone fits = record {
  subs_unique = valid.subs_unique;
  unsubs_unique = valid.unsubs_unique;
  inbound_unique = valid.inbound_unique;
  outbound_unique = up.unique_keys;
  subs_fit = valid.subs_fit;
  unsubs_fit = valid.unsubs_fit;
  inbound_fits = valid.inbound_fits;
  outbound_fits = fits;
  one_flow = λ q. OutboundStep-IsOneFlow (step_with s p o es up) alone q (valid.one_flow q);
}

-- A result that leaves the session valid, with only `p` changed.
abbrev pub Reaches :
    Limits → Session → PacketIdentifier → Option LocalPublishState → Session → Type 0
Reaches limits s p o s' = IsValid limits s' × OutboundStep s s' p o

module _ {limits : Limits} {s : Session} (valid : IsValid limits s) {p i : ℕ} {x : Outbound}
    (found : Found outbound_key p i x s.outbound_publishes)
    (shown : local_of s p ≡ some (x.1)) where
  pub set_effect :
      (st : LocalPublishState)
      → (s' : Session) × (set (at s i (x.1)) st ≡ returned (at s' i st))
        × Reaches limits s p (some st) s'
  unfolding set
  set_effect st =
      let (es, e, size, up) =
        modify-Updated outbound_key (λ y. (y.0, st)) p i x s.outbound_publishes found.has_key
          valid.outbound_unique found in
      (
        with_outbound s es,
        rw e,
        (
          IsValid-with valid p _ es up alone (omega (arith, valid.outbound_fits)),
          step_with s p _ es up,
        ),
      )
    where
      alone : (some st ≡ none) ⊎ ((sub_of s p ≡ none) × (unsub_of s p ≡ none))
      alone =
          ground (arith, shown, (valid.one_flow p).sub_or_local, (valid.one_flow p).unsub_or_local)

  pub remove_effect :
      (vec : HeaplessVec) (laws : IsHeaplessVec vec)
      → (s' : Session) × (remove vec (at s i (x.1)) ≡ returned s') × Reaches limits s p none s'
  unfolding remove
  remove_effect vec laws =
      let (es, e, size, up) =
        swap_remove-Updated vec laws outbound_key p i x s.outbound_publishes valid.outbound_unique
          found in
      (
        with_outbound s es,
        rw e,
        (
          IsValid-with valid p none es up (inl refl) (omega (arith, valid.outbound_fits)),
          step_with s p none es up,
        ),
      )

-- The capacity test, on a valid session.
pub outbound_room :
    (limits : Limits) (s : Session)
    → IsValid limits s
    → available_outbound_publish_capacity limits s
      ≡ returned (ltb (length s.outbound_publishes) (min limits.send_maximum 65535))
unfolding available_outbound_publish_capacity
outbound_room limits s valid =
    rw (lt→ltb (length s.outbound_publishes) 65536 (omega (arith, valid.outbound_fits)))

pub schedule_effect :
    (vec : HeaplessVec) (laws : IsHeaplessVec vec) (limits : Limits) (s : Session)
    → IsValid limits s
    → (p : PacketIdentifier) (st : LocalPublishState) → local_of s p ≡ none
    → sub_of s p ≡ none
    → unsub_of s p ≡ none
    → outbound_handle s p ≡ none
    → sub_handle s p ≡ none
    → unsub_handle s p ≡ none
    → length s.outbound_publishes < min limits.send_maximum 65535
    → (s' : Session) × (schedule_outbound vec limits s p st ≡ returned s')
      × Reaches limits s p (some st) s'
unfolding schedule_outbound local_of
schedule_effect vec laws limits s valid p st new no_sub no_unsub h₁ h₂ h₃ room =
    let (es, e, size, up) =
      push-some vec laws outbound_key limits.send_maximum s.outbound_publishes (p, st) (omega arith)
        (ground arith) valid.outbound_unique in
    (
      with_outbound s es,
      rw (
        outbound_room limits s valid,
        lt→ltb (length s.outbound_publishes) (min limits.send_maximum 65535) room,
        h₁,
        h₂,
        h₃,
        e,
      ),
      (IsValid-with valid p _ es up (inr (no_sub, no_unsub)) (omega arith), step_with s p _ es up),
    )
