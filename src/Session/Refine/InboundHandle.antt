-- ===== src/Session/Refine/InboundHandle.antt =====
-- Every method of a handle on a server publication refines the receiver's abstract handshake.
use rust_mqtt.Prelude.{
  ℕ, ◌≡◌, ◌≢◌, refl, if◌then◌else◌, Bool, none, some, Outcome, returned, Bool-cases, inl, inr,
  arith,
}
use rust_mqtt.Keyed.Find.{Found}
use rust_mqtt.Vec.{HeaplessVec, IsHeaplessVec}
use rust_mqtt.Types.AckMode.{AckMode, automatic, manual}
use rust_mqtt.Types.Pid.{PacketIdentifier}
use rust_mqtt.Types.Qos.{Qos}
use rust_mqtt.Types.ReasonCode.{ReasonCode, is_erroneous}
use rust_mqtt.Session.PeerState.{
  PeerPublishState, await_publish_at_least_once, await_publish_exactly_once, due_ack, due_rec,
  await_rel, await_re_rel, due_comp,
}
use rust_mqtt.Session.State.{Session, Limits, inbound_key, Response, Event, Result, ok}
use rust_mqtt.Session.InboundHandle.{Reply, set_reply, nop_reply, remove_reply, remove_ok, nop, set}
use rust_mqtt.Session.InboundHandle
use rust_mqtt.Session.View.{peer_of, IsValid}
use rust_mqtt.Session.Effects.Inbound.{at, Reaches, set_effect, remove_effect}
use rust_mqtt.Session.Spec.Peer.{
  Peer, Reaction, on_publish, on_pubrel, on_send_puback, on_send_pubrec, on_send_pubcomp,
}

-- The call returns, with the response and event of the reaction, and leaves a valid session in which
-- only `p` has changed, to the state of the reaction.
abbrev pub Reacts : Limits → Session → PacketIdentifier → Outcome Reply → Reaction → Type 0
Reacts limits s p m r = (s' : Session) × (m ≡ returned (s', r.1, r.2)) × Reaches limits s p r.0 s'

abbrev pub Sends :
    Limits → Session → PacketIdentifier → Outcome (Session × Result) → Peer × Result → Type 0
Sends limits s p m r = (s' : Session) × (m ≡ returned (s', r.1)) × Reaches limits s p r.0 s'

pub Reaches-refl :
    {limits : Limits} {s : Session} (p : PacketIdentifier) (o : Peer)
    → IsValid limits s
    → peer_of s p ≡ o
    → Reaches limits s p o s
Reaches-refl p o valid e = (
  valid,
  record { peers = λ q. ground arith; same_outbound = refl; same_subs = refl; same_unsubs = refl },
)

module _ {limits : Limits} {s : Session} {p : PacketIdentifier} (b : Bool) where
  if-Reacts :
      {m n : Outcome Reply} {x y : Reaction}
      → Reacts limits s p m x
      → Reacts limits s p n y
      → Reacts limits s p (if b then m else n) (if b then x else y)
  if-Reacts h k = elim (Bool-cases b) [ inl e ↦ rw e h | inr e ↦ rw e k ]

-- A handle on the tracked publication `p` of a valid session.
pub record Here (limits : Limits) (s : Session) (p : PacketIdentifier) (i : ℕ)
    (st : PeerPublishState) : Type 0 where
  pub k : PacketIdentifier
  pub valid : IsValid limits s
  pub shown : peer_of s p ≡ some st
  pub found : Found inbound_key p i (k, st) s.inbound_publishes

module _ (vec : HeaplessVec) (laws : IsHeaplessVec vec) {limits : Limits} {s : Session} {p i : ℕ}
    {st : PeerPublishState} (here : Here limits s p i st) where
  open here use {valid, shown, found}

  stays : (r : Response) (e : Event) → Reacts limits s p (nop_reply (at s i st) r e) (some st, r, e)
  unfolding nop_reply
  stays r e = (s, refl, Reaches-refl p _ valid shown)

  moves :
      (st' : PeerPublishState) (r : Response) (e : Event)
      → Reacts limits s p (set_reply (at s i st) st' r e) (some st', r, e)
  unfolding set_reply
  moves st' r e = let (s', done, reach) = set_effect valid found st' in (s', rw done, reach)

  ends :
      (r : Response) (e : Event) → Reacts limits s p (remove_reply vec (at s i st) r e) (none, r, e)
  unfolding remove_reply
  ends r e = let (s', done, reach) = remove_effect valid found vec laws in (s', rw done, reach)

  refuses : (e : Result) → Sends limits s p (returned (nop (at s i st), e)) (some st, e)
  unfolding nop
  refuses e = (s, refl, Reaches-refl p _ valid shown)

  finishes : Sends limits s p (remove_ok vec (at s i st)) (none, ok)
  unfolding remove_ok
  finishes = let (s', done, reach) = remove_effect valid found vec laws in (s', rw done, reach)

module _ (vec : HeaplessVec) (laws : IsHeaplessVec vec) {limits : Limits} {s : Session}
    {p i : ℕ} where
  pub republish_refines :
      (room : Bool) (qos : Qos) (mode : AckMode) (st : PeerPublishState)
      → qos ≢ Qos.at_most_once
      → Here limits s p i st
      → Reacts limits s p
          (InboundHandle.inbound_republish (at s i st) qos)
          (on_publish room qos mode (some st))
  unfolding InboundHandle.inbound_republish on_publish
  republish_refines room Qos.at_most_once mode st ne h = absurd (ne refl)
  republish_refines room Qos.at_least_once mode await_publish_at_least_once ne h =
      moves vec laws h _ _ _
  republish_refines room Qos.exactly_once mode (await_publish_exactly_once automatic) ne h =
      moves vec laws h _ _ _
  republish_refines room Qos.exactly_once mode (await_publish_exactly_once manual) ne h =
      moves vec laws h _ _ _
  republish_refines room Qos.exactly_once mode await_publish_at_least_once ne h =
      stays vec laws h _ _
  republish_refines room qos mode st ne h = stays vec laws h _ _

  pub pubrel_refines :
      (rc : ReasonCode) (st : PeerPublishState)
      → Here limits s p i st
      → Reacts limits s p (InboundHandle.inbound_pubrel vec (at s i st) rc) (on_pubrel rc (some st))
  unfolding InboundHandle.inbound_pubrel on_pubrel
  pubrel_refines rc await_publish_at_least_once h = stays vec laws h _ _
  pubrel_refines rc due_ack h = stays vec laws h _ _
  pubrel_refines rc (await_publish_exactly_once automatic) h =
      if-Reacts (is_erroneous rc) (ends vec laws h _ _) (ends vec laws h _ _)
  pubrel_refines rc (await_publish_exactly_once manual) h =
      if-Reacts (is_erroneous rc) (ends vec laws h _ _) (moves vec laws h _ _ _)
  pubrel_refines rc due_rec h =
      if-Reacts (is_erroneous rc) (ends vec laws h _ _) (moves vec laws h _ _ _)
  pubrel_refines rc (await_rel automatic) h =
      if-Reacts (is_erroneous rc) (ends vec laws h _ _) (ends vec laws h _ _)
  pubrel_refines rc (await_rel manual) h =
      if-Reacts (is_erroneous rc) (ends vec laws h _ _) (moves vec laws h _ _ _)
  pubrel_refines rc await_re_rel h = moves vec laws h _ _ _
  pubrel_refines rc due_comp h =
      if-Reacts (is_erroneous rc) (ends vec laws h _ _) (stays vec laws h _ _)

  pub puback_refines :
      (st : PeerPublishState)
      → Here limits s p i st
      → Sends limits s p (InboundHandle.outbound_puback vec (at s i st)) (on_send_puback (some st))
  unfolding InboundHandle.outbound_puback on_send_puback
  puback_refines due_ack h = finishes vec laws h
  puback_refines st h = refuses vec laws h _

  pub pubcomp_refines :
      (st : PeerPublishState)
      → Here limits s p i st
      → Sends limits s p
          (InboundHandle.outbound_pubcomp vec (at s i st))
          (on_send_pubcomp (some st))
  unfolding InboundHandle.outbound_pubcomp on_send_pubcomp
  pubcomp_refines due_comp h = finishes vec laws h
  pubcomp_refines st h = refuses vec laws h _

  pub pubrec_refines :
      (rc : ReasonCode) (st : PeerPublishState)
      → Here limits s p i st
      → Sends limits s p
          (InboundHandle.outbound_pubrec vec (at s i st) rc)
          (on_send_pubrec rc (some st))
  unfolding InboundHandle.outbound_pubrec on_send_pubrec
  pubrec_refines rc due_rec h = elim (Bool-cases (is_erroneous rc)) [
    | inl bad ↦ rw bad (finishes vec laws h)
    | inr good ↦
        let (s', done, reach) = set_effect h.valid h.found (await_rel manual) in
        rw (good, done) (s', refl, reach)
  ]
  pubrec_refines rc st h = refuses vec laws h _
