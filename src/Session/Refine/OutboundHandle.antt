-- ===== src/Session/Refine/OutboundHandle.antt =====
-- Every method of a handle on a client publication refines the sender's abstract handshake.
use rust_mqtt.Prelude.{
  ℕ, ◌≡◌, ◌≢◌, refl, if◌then◌else◌, Bool, true, false, none, some, Outcome, returned, Bool-cases,
  inl, inr, arith,
}
use rust_mqtt.Keyed.Find.{Found}
use rust_mqtt.Vec.{HeaplessVec, IsHeaplessVec}
use rust_mqtt.Types.AckMode.{automatic, manual}
use rust_mqtt.Types.Pid.{PacketIdentifier}
use rust_mqtt.Types.Qos.{Qos}
use rust_mqtt.Types.ReasonCode.{ReasonCode, is_erroneous, is_success}
use rust_mqtt.Session.LocalState.{
  LocalPublishState, due_publish_at_least_once, due_publish_exactly_once, await_ack, await_rec,
  due_rel, await_comp,
}
use rust_mqtt.Session.State.{Session, Limits, outbound_key, Response, Event, Result, ok}
use rust_mqtt.Session.InboundHandle.{Reply}
use rust_mqtt.Session.OutboundHandle.{set_reply, nop_reply, remove_reply, set_ok, nop}
use rust_mqtt.Session.OutboundHandle
use rust_mqtt.Session.Ops.{release_handle}
use rust_mqtt.Session.View.{local_of, IsValid}
use rust_mqtt.Session.Effects.Outbound.{at, Reaches, set_effect, remove_effect}
use rust_mqtt.Session.Spec.Local.{
  Local, Reaction, on_puback, on_pubrec, on_pubcomp, on_republish, on_send_pubrel,
}

-- The call returns, with the response and event of the reaction, and leaves a valid session in which
-- only `p` has changed, to the state of the reaction.
abbrev pub Reacts : Limits → Session → PacketIdentifier → Outcome Reply → Reaction → Type 0
Reacts limits s p m r = (s' : Session) × (m ≡ returned (s', r.1, r.2)) × Reaches limits s p r.0 s'

abbrev pub Sends :
    Limits → Session → PacketIdentifier → Outcome (Session × Result) → Local × Result → Type 0
Sends limits s p m r = (s' : Session) × (m ≡ returned (s', r.1)) × Reaches limits s p r.0 s'

pub Reaches-refl :
    {limits : Limits} {s : Session} (p : PacketIdentifier) (o : Local)
    → IsValid limits s
    → local_of s p ≡ o
    → Reaches limits s p o s
Reaches-refl p o valid e = (
  valid,
  record { locals = λ q. ground arith; same_inbound = refl; same_subs = refl; same_unsubs = refl },
)

module _ {limits : Limits} {s : Session} {p : PacketIdentifier} (b : Bool) where
  if-Reacts :
      {m n : Outcome Reply} {x y : Reaction}
      → Reacts limits s p m x
      → Reacts limits s p n y
      → Reacts limits s p (if b then m else n) (if b then x else y)
  if-Reacts h k = elim (Bool-cases b) [ inl e ↦ rw e h | inr e ↦ rw e k ]

-- A handle on the tracked publication `p` of a valid session.
pub record Here (limits : Limits) (s : Session) (p : PacketIdentifier) (i : ℕ)
    (st : LocalPublishState) : Type 0 where
  pub k : PacketIdentifier
  pub valid : IsValid limits s
  pub shown : local_of s p ≡ some st
  pub found : Found outbound_key p i (k, st) s.outbound_publishes

module _ (vec : HeaplessVec) (laws : IsHeaplessVec vec) {limits : Limits} {s : Session} {p i : ℕ}
    {st : LocalPublishState} (here : Here limits s p i st) where
  open here use {valid, shown, found}

  stays : (r : Response) (e : Event) → Reacts limits s p (nop_reply (at s i st) r e) (some st, r, e)
  unfolding nop_reply
  stays r e = (s, refl, Reaches-refl p _ valid shown)

  moves :
      (st' : LocalPublishState) (r : Response) (e : Event)
      → Reacts limits s p (set_reply (at s i st) st' r e) (some st', r, e)
  unfolding set_reply
  moves st' r e = let (s', done, reach) = set_effect valid found shown st' in (s', rw done, reach)

  ends :
      (r : Response) (e : Event) → Reacts limits s p (remove_reply vec (at s i st) r e) (none, r, e)
  unfolding remove_reply
  ends r e =
      let (s', done, reach) = remove_effect valid found shown vec laws in (s', rw done, reach)

  -- An end whose event depends on the reason code.
  ends_by :
      (b : Bool) (r : Response) (good bad : Event)
      → Reacts limits s p
          (if b then remove_reply vec (at s i st) r good else remove_reply vec (at s i st) r bad)
          (none, r, if b then good else bad)
  ends_by true r good bad = ends r good
  ends_by false r good bad = ends r bad

  refuses : (e : Result) → Sends limits s p (release_handle (returned (at s i st, e))) (some st, e)
  refuses e = (s, refl, Reaches-refl p _ valid shown)

  proceeds :
      (st' : LocalPublishState)
      → Sends limits s p (release_handle (set_ok (at s i st) st')) (some st', ok)
  unfolding set_ok
  proceeds st' = let (s', done, reach) = set_effect valid found shown st' in (s', rw done, reach)

module _ (vec : HeaplessVec) (laws : IsHeaplessVec vec) {limits : Limits} {s : Session}
    {p i : ℕ} where
  pub puback_refines :
      (rc : ReasonCode) (st : LocalPublishState)
      → Here limits s p i st
      → Reacts limits s p
          (OutboundHandle.inbound_puback vec (at s i st) rc)
          (on_puback rc (some st))
  unfolding OutboundHandle.inbound_puback on_puback
  puback_refines rc due_publish_at_least_once h = ends_by vec laws h (is_success rc) _ _ _
  puback_refines rc await_ack h = ends_by vec laws h (is_success rc) _ _ _
  puback_refines rc st h = stays vec laws h _ _

  pub pubcomp_refines :
      (rc : ReasonCode) (st : LocalPublishState)
      → Here limits s p i st
      → Reacts limits s p
          (OutboundHandle.inbound_pubcomp vec (at s i st) rc)
          (on_pubcomp rc (some st))
  unfolding OutboundHandle.inbound_pubcomp on_pubcomp
  pubcomp_refines rc (due_rel mode) h = ends_by vec laws h (is_success rc) _ _ _
  pubcomp_refines rc (await_comp mode) h = ends_by vec laws h (is_success rc) _ _ _
  pubcomp_refines rc st h = stays vec laws h _ _

  pub pubrec_refines :
      (rc : ReasonCode) (st : LocalPublishState)
      → Here limits s p i st
      → Reacts limits s p
          (OutboundHandle.inbound_pubrec vec (at s i st) rc)
          (on_pubrec rc (some st))
  unfolding OutboundHandle.inbound_pubrec on_pubrec
  pubrec_refines rc due_publish_at_least_once h = stays vec laws h _ _
  pubrec_refines rc await_ack h = stays vec laws h _ _
  pubrec_refines rc (await_comp mode) h = stays vec laws h _ _
  pubrec_refines rc (due_publish_exactly_once automatic) h =
      if-Reacts (is_erroneous rc) (ends vec laws h _ _) (moves vec laws h _ _ _)
  pubrec_refines rc (due_publish_exactly_once manual) h =
      if-Reacts (is_erroneous rc) (ends vec laws h _ _) (moves vec laws h _ _ _)
  pubrec_refines rc (await_rec automatic) h =
      if-Reacts (is_erroneous rc) (ends vec laws h _ _) (moves vec laws h _ _ _)
  pubrec_refines rc (await_rec manual) h =
      if-Reacts (is_erroneous rc) (ends vec laws h _ _) (moves vec laws h _ _ _)
  pubrec_refines rc (due_rel automatic) h =
      if-Reacts (is_erroneous rc) (ends vec laws h _ _) (moves vec laws h _ _ _)
  pubrec_refines rc (due_rel manual) h =
      if-Reacts (is_erroneous rc) (ends vec laws h _ _) (stays vec laws h _ _)

  pub republish_refines :
      (qos : Qos) (st : LocalPublishState)
      → qos ≢ Qos.at_most_once
      → Here limits s p i st
      → Sends limits s p
          (release_handle (OutboundHandle.outbound_republish (at s i st) qos))
          (on_republish qos (some st))
  unfolding OutboundHandle.outbound_republish on_republish
  republish_refines Qos.at_most_once st ne h = absurd (ne refl)
  republish_refines Qos.at_least_once due_publish_at_least_once ne h = proceeds vec laws h _
  republish_refines Qos.exactly_once (due_publish_exactly_once mode) ne h = proceeds vec laws h _
  republish_refines qos st ne h = refuses vec laws h _

  pub pubrel_refines :
      (st : LocalPublishState)
      → Here limits s p i st
      → Sends limits s p
          (release_handle (OutboundHandle.outbound_pubrel (at s i st)))
          (on_send_pubrel (some st))
  unfolding OutboundHandle.outbound_pubrel on_send_pubrel
  pubrel_refines (due_rel mode) h = proceeds vec laws h _
  pubrel_refines st h = refuses vec laws h _
