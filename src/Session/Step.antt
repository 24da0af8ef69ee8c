-- ===== src/Session/Step.antt =====
-- Every call of the client returns, keeps the session valid, and changes each publication as the
-- abstract handshakes tell.
pub mod Packets
pub mod Flows
pub mod Publishes
use rust_mqtt.Prelude.{
  ℕ, Bool, ◌≤◌, min, length, true, false, ◌≡◌, refl, sym, ◌∙◌, ap, ◌⊎◌, inl, inr, ◌==◌,
  if◌then◌else◌, Option, none, some, Outcome, returned, Option-cases, Bool-cases, arith,
}
use rust_mqtt.Keyed.{position, lookup}
use rust_mqtt.Vec.{HeaplessVec, IsHeaplessVec}
use rust_mqtt.Types.AckMode.{AckMode, automatic, manual}
use rust_mqtt.Types.Pid.{PacketIdentifier, IsPid}
use rust_mqtt.Types.Qos.{Qos, IdentifiedQos, qos_of, packet_identifier}
use rust_mqtt.Types.ReasonCode.{ReasonCode}
use rust_mqtt.Session.LocalState.{LocalPublishState}
use rust_mqtt.Session.State.{
  Session, Limits, Response, Event, Result, ok, err, no_capacity, nothing, self_key, sub_handle,
  unsub_handle,
}
use rust_mqtt.Session.InboundHandle.{Reply}
use rust_mqtt.Session.FreeHandle.{initial_state, outbound_sub, outbound_unsub, outbound_publish}
use rust_mqtt.Session.Ops.{inbound_publish, outbound_republish}
use rust_mqtt.Session.View.{peer_of, local_of, sub_of, unsub_of, IsValid, InboundStep, OutboundStep}
use rust_mqtt.Session.Calls.{
  Call, connects, subscribes, unsubscribes, receives_suback, receives_unsuback, publishes,
  republishes, receives_publish, receives_puback, receives_pubrec, receives_pubrel,
  receives_pubcomp, sends_puback, sends_pubrel, sends_pubcomp, sends_pubrec, Answer, replied,
  resulted, refused, finished, step, with_free, tracks_publish,
}
use rust_mqtt.Session.Refine.Inbound.{
  has_room, inbound_publish-Reacts, inbound_pubrel-Reacts, outbound_puback-Sends,
  outbound_pubrec-Sends, outbound_pubcomp-Sends,
}
use rust_mqtt.Session.Refine.Outbound.{
  inbound_puback-Reacts, inbound_pubrec-Reacts, inbound_pubcomp-Reacts, outbound_pubrel-Sends,
  outbound_republish-Sends,
}
use rust_mqtt.Session.Spec.After.{peer_after, local_after, delivered, delivered_after, is_publish}
use rust_mqtt.Session.Spec.Peer.{
  Peer, on_publish, on_pubrel, on_send_puback, on_send_pubrec, on_send_pubcomp,
}
use rust_mqtt.Session.Spec.Local.{
  Local, on_puback, on_pubrec, on_pubcomp, on_republish, on_send_pubrel,
}
use rust_mqtt.Session.Effects.Subs.{SubStep, UnsubStep}
use rust_mqtt.Session.Free.{IsUnused}
use mathlib.Core.Option

-- A request of the user starts a flow under an identifier that no flow of the client uses; or it is
-- refused, for want of an identifier or for want of room, and changes nothing.
abbrev pub Requested :
    Session → Session → Answer → (started : PacketIdentifier → Type 0) → (full : Type 0) → Type 0
Requested s s' a started full =
    ((a ≡ resulted ok) × ((p : PacketIdentifier) × IsPid p × IsUnused s p × started p))
    ⊎ ((s' ≡ s)
        × (((a ≡ refused) × ((p : PacketIdentifier) → IsPid p → ¬ IsUnused s p))
            ⊎ ((a ≡ resulted (err no_capacity)) × full)))

-- The answer to a packet, with the event for the user, and the result of a request, by the handshake
-- of the publication; and what becomes of the flows.
abbrev pub Answered : Limits → Session → Call → Session → Answer → Type 0
Answered limits s (connects present) s' a =
    (a ≡ finished) × ((q : PacketIdentifier) → (sub_of s' q ≡ none) × (unsub_of s' q ≡ none))
Answered limits s subscribes s' a =
    Requested s s' a (λ p. SubStep s s' p (some p)) (limits.subscribe_maximum ≤ length s.subs)
Answered limits s unsubscribes s' a =
    Requested s s' a (λ p. UnsubStep s s' p (some p)) (limits.subscribe_maximum ≤ length s.unsubs)
Answered limits s (receives_suback p) s' a =
    (a ≡ finished) × (((s' ≡ s) × (sub_of s p ≡ none)) ⊎ SubStep s s' p none)
Answered limits s (receives_unsuback p) s' a =
    (a ≡ finished) × (((s' ≡ s) × (unsub_of s p ≡ none)) ⊎ UnsubStep s s' p none)
Answered limits s (publishes qos mode) s' a =
    ((tracks_publish qos mode ≡ false) × (a ≡ refused) × (s' ≡ s))
    ⊎ ((tracks_publish qos mode ≡ true)
        × Requested s s' a
            (λ p.
              (st : LocalPublishState) × (initial_state qos mode ≡ returned st)
              × OutboundStep s s' p (some st))
            (min limits.send_maximum 65535 ≤ length s.outbound_publishes))
Answered limits s (republishes IdentifiedQos.at_most_once) s' a = a ≡ resulted ok
Answered limits s (republishes (IdentifiedQos.at_least_once p)) s' a =
    a ≡ resulted (on_republish Qos.at_least_once (local_of s p)).1
Answered limits s (republishes (IdentifiedQos.exactly_once p)) s' a =
    a ≡ resulted (on_republish Qos.exactly_once (local_of s p)).1
Answered limits s (receives_publish IdentifiedQos.at_most_once mode) s' a =
    a ≡ replied nothing Event.publish
Answered limits s (receives_publish (IdentifiedQos.at_least_once p) mode) s' a =
    let r = on_publish (has_room limits s) Qos.at_least_once mode (peer_of s p) in
    a ≡ replied r.1 r.2
Answered limits s (receives_publish (IdentifiedQos.exactly_once p) mode) s' a =
    let r = on_publish (has_room limits s) Qos.exactly_once mode (peer_of s p) in
    a ≡ replied r.1 r.2
Answered limits s (receives_puback p rc) s' a =
    let r = on_puback rc (local_of s p) in a ≡ replied r.1 r.2
Answered limits s (receives_pubrec p rc) s' a =
    let r = on_pubrec rc (local_of s p) in a ≡ replied r.1 r.2
Answered limits s (receives_pubrel p rc) s' a =
    let r = on_pubrel rc (peer_of s p) in a ≡ replied r.1 r.2
Answered limits s (receives_pubcomp p rc) s' a =
    let r = on_pubcomp rc (local_of s p) in a ≡ replied r.1 r.2
Answered limits s (sends_puback p) s' a = a ≡ resulted (on_send_puback (peer_of s p)).1
Answered limits s (sends_pubrec p rc) s' a = a ≡ resulted (on_send_pubrec rc (peer_of s p)).1
Answered limits s (sends_pubrel p) s' a = a ≡ resulted (on_send_pubrel (local_of s p)).1
Answered limits s (sends_pubcomp p) s' a = a ≡ resulted (on_send_pubcomp (peer_of s p)).1

-- What is shown of a call `c` that returns `s'` with the answer `a`.
pub record Stepped (limits : Limits) (s : Session) (c : Call) (s' : Session) (a : Answer)
    : Type 0 where
  pub valid : IsValid limits s'
  pub peers :
      (q : PacketIdentifier) → peer_of s' q ≡ peer_after (has_room limits s) c q (peer_of s q)
  pub deliveries :
      (q : PacketIdentifier)
      → delivered c q a ≡ delivered_after (has_room limits s) c q (peer_of s q)
  pub locals :
      (q : PacketIdentifier)
      → (local_of s' q ≡ local_after c q (local_of s q))
        ⊎ ((qos : Qos) × (mode : AckMode) × (st : LocalPublishState) × (c ≡ publishes qos mode)
            × (local_of s q ≡ none)
            × (initial_state qos mode ≡ returned st)
            × (local_of s' q ≡ some st))
  pub answered : Answered limits s c s' a

abbrev pub Steps : HeaplessVec → Limits → Session → Call → Type 0
Steps vec limits s c =
    (s' : Session) × (a : Answer) × (step vec limits s c ≡ returned (s', a))
    × Stepped limits s c s' a

local_same :
    (s s' : Session) (q : PacketIdentifier)
    → s'.outbound_publishes ≡ s.outbound_publishes
    → local_of s' q ≡ local_of s q
unfolding local_of
local_same s s' q e = ground arith

pub peer_same :
    (s s' : Session) (q : PacketIdentifier)
    → s'.inbound_publishes ≡ s.inbound_publishes
    → peer_of s' q ≡ peer_of s q
unfolding peer_of
peer_same s s' q e = ground arith

-- A call that moves one publication by the server.
pub inbound-Stepped :
    {limits : Limits} {s s' : Session} {p : PacketIdentifier} (c : Call) (a : Answer)
    (f : Peer → Peer)
    → IsValid limits s' × InboundStep s s' p (f (peer_of s p))
    → ((q : PacketIdentifier) (o : Peer)
        → peer_after (has_room limits s) c q o ≡ (if p == q then f o else o))
    → ((q : PacketIdentifier)
        → delivered c q a ≡ delivered_after (has_room limits s) c q (peer_of s q))
    → ((q : PacketIdentifier) (o : Local) → local_after c q o ≡ o)
    → Answered limits s c s' a
    → Stepped limits s c s' a
inbound-Stepped {s} {s'} {p} c a f (v, m) peer del loc told = record {
  valid = v;
  peers = λ q. ground (arith, m.peers q, peer q (peer_of s q));
  deliveries = del;
  locals = λ q. inl (local_same s s' q m.same_outbound ∙ sym (loc q (local_of s q)));
  answered = told;
}

-- A call that moves one publication by the client.
pub outbound-Stepped :
    {limits : Limits} {s s' : Session} {p : PacketIdentifier} (c : Call) (a : Answer)
    (f : Local → Local)
    → IsValid limits s' × OutboundStep s s' p (f (local_of s p))
    → ((q : PacketIdentifier) (o : Local) → local_after c q o ≡ (if p == q then f o else o))
    → ((q : PacketIdentifier) (o : Peer)
        → (peer_after (has_room limits s) c q o ≡ o)
          × (delivered c q a ≡ delivered_after (has_room limits s) c q o))
    → Answered limits s c s' a
    → Stepped limits s c s' a
outbound-Stepped {s} {s'} {p} c a f (v, m) loc peer told = record {
  valid = v;
  peers = λ q. peer_same s s' q m.same_inbound ∙ sym (peer q (peer_of s q)).0;
  deliveries = λ q. (peer q (peer_of s q)).1;
  locals = λ q. inl (ground (arith, m.locals q, loc q (local_of s q)));
  answered = told;
}

-- A call that moves no publication.
pub same-Stepped :
    {limits : Limits} {s s' : Session} (c : Call) (a : Answer)
    → IsValid limits s'
    → s'.inbound_publishes ≡ s.inbound_publishes
    → s'.outbound_publishes ≡ s.outbound_publishes
    → ((q : PacketIdentifier) (o : Peer)
        → (peer_after (has_room limits s) c q o ≡ o)
          × (delivered c q a ≡ delivered_after (has_room limits s) c q o))
    → ((q : PacketIdentifier) (o : Local) → local_after c q o ≡ o)
    → Answered limits s c s' a
    → Stepped limits s c s' a
same-Stepped {s} {s'} c a v same_in same_out peer loc told = record {
  valid = v;
  peers = λ q. peer_same s s' q same_in ∙ sym (peer q (peer_of s q)).0;
  deliveries = λ q. (peer q (peer_of s q)).1;
  locals = λ q. inl (local_same s s' q same_out ∙ sym (loc q (local_of s q)));
  answered = told;
}
