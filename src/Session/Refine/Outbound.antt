-- ===== src/Session/Refine/Outbound.antt =====
-- Every operation of a session on a publication by the client refines the sender's handshake.
use rust_mqtt.Prelude.{ℕ, ◌≡◌, refl, some, none}
use rust_mqtt.Keyed.Find.{Found}
use rust_mqtt.Vec.{HeaplessVec, IsHeaplessVec}
use rust_mqtt.Types.Pid.{PacketIdentifier}
use rust_mqtt.Types.Qos.{Qos, IdentifiedQos, qos_of, packet_identifier}
use rust_mqtt.Types.ReasonCode.{ReasonCode}
use rust_mqtt.Session.State.{Session, Limits, Outbound, outbound_key}
use rust_mqtt.Session.View.{local_of, IsValid}
use rust_mqtt.Session.Effects.Outbound.{Tracks-total, tracked, untracked}
use rust_mqtt.Session.Ops.{
  inbound_puback, inbound_pubrec, inbound_pubcomp, outbound_republish, outbound_pubrel,
}
use rust_mqtt.Session.Spec.Local.{on_puback, on_pubrec, on_pubcomp, on_republish, on_send_pubrel}
use rust_mqtt.Session.Refine.OutboundHandle.{
  Reacts, Sends, Reaches-refl, Here, puback_refines, pubrec_refines, pubcomp_refines,
  republish_refines, pubrel_refines,
}

module _ (vec : HeaplessVec) (laws : IsHeaplessVec vec) (limits : Limits) (s : Session)
    (valid : IsValid limits s) (p : PacketIdentifier) where
  here :
      (i : ℕ) (x : Outbound)
      → local_of s p ≡ some (x.1)
      → Found outbound_key p i x s.outbound_publishes
      → Here limits s p i (x.1)
  here i x e f = record { k = x.0; valid = valid; shown = e; found = f }

  -- In a valid session, a PUBACK returns with the reply of the sender's handshake: it ends a
  -- publication at level 1, acknowledged or rejected by its reason code, and is refused for one at
  -- level 2. Nothing but the publication under the identifier changes, and the session stays valid.
  pub inbound_puback-Reacts :
      (rc : ReasonCode)
      → Reacts limits s p (inbound_puback vec s p rc) (on_puback rc (local_of s p))
  unfolding inbound_puback on_puback
  inbound_puback-Reacts rc = elim (Tracks-total s p) [
    | untracked e h ↦ rw (e, h, inbound_puback) (s, refl, Reaches-refl p none valid e)
    | tracked i x e h f ↦
        rw (e, h, inbound_puback) (puback_refines vec laws rc (x.1) (here i x e f))
  ]

  -- In a valid session, a PUBREC returns with the reply of the sender's handshake: an error ends a
  -- publication whose PUBREL is not sent, else the PUBREL is sent or left to the user, and a
  -- publication at level 1 is refused. Nothing but the publication under the identifier changes,
  -- and the session stays valid.
  pub inbound_pubrec-Reacts :
      (rc : ReasonCode)
      → Reacts limits s p (inbound_pubrec vec s p rc) (on_pubrec rc (local_of s p))
  unfolding inbound_pubrec on_pubrec
  inbound_pubrec-Reacts rc = elim (Tracks-total s p) [
    | untracked e h ↦ rw (e, h, inbound_pubrec) (s, refl, Reaches-refl p none valid e)
    | tracked i x e h f ↦
        rw (e, h, inbound_pubrec) (pubrec_refines vec laws rc (x.1) (here i x e f))
  ]

  -- In a valid session, a PUBCOMP returns with the reply of the sender's handshake: it ends a
  -- publication whose PUBREC has been received, completed or rejected by its reason code, and is
  -- refused for any other. Nothing but the publication under the identifier changes, and the
  -- session stays valid.
  pub inbound_pubcomp-Reacts :
      (rc : ReasonCode)
      → Reacts limits s p (inbound_pubcomp vec s p rc) (on_pubcomp rc (local_of s p))
  unfolding inbound_pubcomp on_pubcomp
  inbound_pubcomp-Reacts rc = elim (Tracks-total s p) [
    | untracked e h ↦ rw (e, h, inbound_pubcomp) (s, refl, Reaches-refl p none valid e)
    | tracked i x e h f ↦
        rw (e, h, inbound_pubcomp) (pubcomp_refines vec laws rc (x.1) (here i x e f))
  ]

  -- In a valid session, the user's PUBREL returns: it is allowed for a publication whose PUBREL is
  -- due, which then waits for its PUBCOMP, and is refused with the error of the sender's handshake
  -- otherwise. Nothing but that publication changes, and the session stays valid.
  pub outbound_pubrel-Sends : Sends limits s p (outbound_pubrel s p) (on_send_pubrel (local_of s p))
  unfolding outbound_pubrel on_send_pubrel
  outbound_pubrel-Sends = elim (Tracks-total s p) [
    | untracked e h ↦ rw (e, h, outbound_pubrel) (s, refl, Reaches-refl p none valid e)
    | tracked i x e h f ↦ rw (e, h, outbound_pubrel) (pubrel_refines vec laws (x.1) (here i x e f))
  ]

  republish_at_least_once :
      Sends limits s p
        (outbound_republish s (IdentifiedQos.at_least_once p))
        (on_republish Qos.at_least_once (local_of s p))
  unfolding outbound_republish on_republish qos_of
  republish_at_least_once = elim (Tracks-total s p) [
    | untracked e h ↦ rw (e, h, outbound_republish) (s, refl, Reaches-refl p none valid e)
    | tracked i x e h f ↦
        rw (e, h, outbound_republish)
          (republish_refines vec laws Qos.at_least_once (x.1) (λ q. cc) (here i x e f))
  ]

  republish_exactly_once :
      Sends limits s p
        (outbound_republish s (IdentifiedQos.exactly_once p))
        (on_republish Qos.exactly_once (local_of s p))
  unfolding outbound_republish on_republish qos_of
  republish_exactly_once = elim (Tracks-total s p) [
    | untracked e h ↦ rw (e, h, outbound_republish) (s, refl, Reaches-refl p none valid e)
    | tracked i x e h f ↦
        rw (e, h, outbound_republish)
          (republish_refines vec laws Qos.exactly_once (x.1) (λ q. cc) (here i x e f))
  ]

module _ (vec : HeaplessVec) (laws : IsHeaplessVec vec) (limits : Limits) (s : Session)
    (valid : IsValid limits s) where
  -- In a valid session, the retransmission of a PUBLISH returns: it is allowed once after a
  -- reconnection, for a publication at the same level whose PUBLISH is due, and is refused with the
  -- error of the sender's handshake for an unused identifier, another level or another state.
  -- Nothing but that publication changes, and the session stays valid.
  pub outbound_republish-Sends :
      (iq : IdentifiedQos) (p : PacketIdentifier)
      → packet_identifier iq ≡ some p
      → Sends limits s p (outbound_republish s iq) (on_republish (qos_of iq) (local_of s p))
  unfolding packet_identifier qos_of
  outbound_republish-Sends IdentifiedQos.at_most_once p q = cc
  outbound_republish-Sends (IdentifiedQos.at_least_once k) p q =
      let e : k ≡ p = cc in rw e (republish_at_least_once vec laws limits s valid p)
  outbound_republish-Sends (IdentifiedQos.exactly_once k) p q =
      let e : k ≡ p = cc in rw e (republish_exactly_once vec laws limits s valid p)
