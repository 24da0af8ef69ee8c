-- ===== src/Session/Refine/Inbound.antt =====
-- Every operation of a session on a publication by the server refines the receiver's handshake.
use rust_mqtt.Prelude.{
  ℕ, ◌≡◌, ◌≢◌, ◌<◌, refl, Bool, true, none, some, ltb, min, length, Bool-cases, ltb→lt, inl, inr,
}
use rust_mqtt.Vec.{HeaplessVec, IsHeaplessVec}
use rust_mqtt.Types.AckMode.{AckMode, automatic, manual}
use rust_mqtt.Types.Pid.{PacketIdentifier}
use rust_mqtt.Types.Qos.{Qos, IdentifiedQos, qos_of, packet_identifier}
use rust_mqtt.Types.ReasonCode.{ReasonCode}
use rust_mqtt.Keyed.Find.{Found}
use rust_mqtt.Session.PeerState.{due_ack, due_rec, await_rel}
use rust_mqtt.Session.State.{Session, Limits, Inbound, inbound_key, inbound_handle}
use rust_mqtt.Session.View.{peer_of, IsValid}
use rust_mqtt.Session.Effects.Inbound.{
  Tracks-total, tracked, untracked, schedule_effect, inbound_room,
}
use rust_mqtt.Session.Ops.{
  inbound_publish, identified_publish, accept_publish, inbound_pubrel, outbound_puback,
  outbound_pubrec, outbound_pubcomp,
}
use rust_mqtt.Session.Spec.Peer.{
  on_publish, on_pubrel, on_send_puback, on_send_pubrec, on_send_pubcomp,
}
use rust_mqtt.Session.Refine.InboundHandle.{
  Reacts, Sends, Reaches-refl, Here, republish_refines, pubrel_refines, puback_refines,
  pubrec_refines, pubcomp_refines,
}

-- Whether `available_inbound_publish_capacity` says yes.
abbrev pub has_room : Limits → Session → Bool
has_room limits s = ltb (length s.inbound_publishes) (min limits.receive_maximum 65535)

qos_of-above :
    (iq : IdentifiedQos) {p : PacketIdentifier}
    → packet_identifier iq ≡ some p
    → qos_of iq ≢ Qos.at_most_once
unfolding qos_of packet_identifier
qos_of-above IdentifiedQos.at_most_once q e = cc
qos_of-above (IdentifiedQos.at_least_once k) q e = cc
qos_of-above (IdentifiedQos.exactly_once k) q e = cc

module _ (vec : HeaplessVec) (laws : IsHeaplessVec vec) (limits : Limits) (s : Session)
    (valid : IsValid limits s) (p : PacketIdentifier) where
  here :
      (i : ℕ) (x : Inbound)
      → peer_of s p ≡ some (x.1)
      → Found inbound_key p i x s.inbound_publishes
      → Here limits s p i (x.1)
  here i x e f = record { k = x.0; valid = valid; shown = e; found = f }

  -- In a valid session, a PUBREL returns with the reply of the receiver's handshake. Where an error
  -- is its reason code, it aborts a publication at level 2, unless its PUBREL came before a
  -- reconnection and is waited for again. Else, and for one that is waited for again whatever the
  -- reason code, an automatic publication is completed, and a manual one waits for the user's
  -- PUBCOMP. A publication at level 1 is refused, and an unknown identifier is answered by a
  -- PUBCOMP that says so. Nothing but the publication under the identifier changes, and the session
  -- stays valid.
  pub inbound_pubrel-Reacts :
      (rc : ReasonCode) → Reacts limits s p (inbound_pubrel vec s p rc) (on_pubrel rc (peer_of s p))
  unfolding inbound_pubrel on_pubrel
  inbound_pubrel-Reacts rc = elim (Tracks-total s p) [
    | untracked e h ↦ rw (e, h, inbound_pubrel) (s, refl, Reaches-refl p none valid e)
    | tracked i x e h f ↦
        rw (e, h, inbound_pubrel) (pubrel_refines vec laws rc (x.1) (here i x e f))
  ]

  -- In a valid session, the user's PUBACK returns: it ends a publication whose PUBACK is due, and
  -- is refused with the error of the receiver's handshake otherwise. Nothing but that publication
  -- changes, and the session stays valid.
  pub outbound_puback-Sends :
      Sends limits s p (outbound_puback vec s p) (on_send_puback (peer_of s p))
  unfolding outbound_puback on_send_puback
  outbound_puback-Sends = elim (Tracks-total s p) [
    | untracked e h ↦ rw (e, h, outbound_puback) (s, refl, Reaches-refl p none valid e)
    | tracked i x e h f ↦ rw (e, h, outbound_puback) (puback_refines vec laws (x.1) (here i x e f))
  ]

  -- In a valid session, the user's PUBREC returns: it is allowed for a publication whose PUBREC is
  -- due, which an error ends and a success makes wait for its PUBREL, and is refused with the error
  -- of the receiver's handshake otherwise. Nothing but that publication changes, and the session
  -- stays valid.
  pub outbound_pubrec-Sends :
      (rc : ReasonCode)
      → Sends limits s p (outbound_pubrec vec s p rc) (on_send_pubrec rc (peer_of s p))
  unfolding outbound_pubrec on_send_pubrec
  outbound_pubrec-Sends rc = elim (Tracks-total s p) [
    | untracked e h ↦ rw (e, h, outbound_pubrec) (s, refl, Reaches-refl p none valid e)
    | tracked i x e h f ↦
        rw (e, h, outbound_pubrec) (pubrec_refines vec laws rc (x.1) (here i x e f))
  ]

  -- In a valid session, the user's PUBCOMP returns: it ends a publication whose PUBCOMP is due, and
  -- is refused with the error of the receiver's handshake otherwise. Nothing but that publication
  -- changes, and the session stays valid.
  pub outbound_pubcomp-Sends :
      Sends limits s p (outbound_pubcomp vec s p) (on_send_pubcomp (peer_of s p))
  unfolding outbound_pubcomp on_send_pubcomp
  outbound_pubcomp-Sends = elim (Tracks-total s p) [
    | untracked e h ↦ rw (e, h, outbound_pubcomp) (s, refl, Reaches-refl p none valid e)
    | tracked i x e h f ↦
        rw (e, h, outbound_pubcomp) (pubcomp_refines vec laws (x.1) (here i x e f))
  ]

  -- With room for it, a new publication.
  accepts :
      (iq : IdentifiedQos) (mode : AckMode)
      → packet_identifier iq ≡ some p
      → peer_of s p ≡ none
      → inbound_handle s p ≡ none
      → length s.inbound_publishes < min limits.receive_maximum 65535
      → Reacts limits s p
          (accept_publish vec limits s p iq mode)
          (on_publish true (qos_of iq) mode none)
  unfolding accept_publish on_publish qos_of packet_identifier
  accepts IdentifiedQos.at_most_once mode q e h room = cc
  accepts (IdentifiedQos.at_least_once k) automatic q e h room =
      (s, refl, Reaches-refl p none valid e)
  accepts (IdentifiedQos.at_least_once k) manual q e h room =
      let (s', done, reach) = schedule_effect vec laws limits s valid p due_ack e h room in
      (s', rw done, reach)
  accepts (IdentifiedQos.exactly_once k) automatic q e h room =
      let (s', done, reach) =
        schedule_effect vec laws limits s valid p (await_rel automatic) e h room in
      (s', rw done, reach)
  accepts (IdentifiedQos.exactly_once k) manual q e h room =
      let (s', done, reach) = schedule_effect vec laws limits s valid p due_rec e h room in
      (s', rw done, reach)

  identified :
      (iq : IdentifiedQos) (mode : AckMode)
      → packet_identifier iq ≡ some p
      → Reacts limits s p
          (identified_publish vec limits s p iq mode)
          (on_publish (has_room limits s) (qos_of iq) mode (peer_of s p))
  unfolding identified_publish
  identified iq mode q = elim (Tracks-total s p) [
    | untracked e h ↦ elim (Bool-cases (has_room limits s)) [
      | inl room ↦
          rw (e, h, identified_publish, inbound_room limits s valid, room)
            (accepts iq mode q e h (ltb→lt _ _ room))
      | inr full ↦
          rw (e, h, identified_publish, inbound_room limits s valid, full)
            (s, unfold on_publish in refl, unfold on_publish in Reaches-refl p none valid e)
    ]
    | tracked i x e h f ↦
        rw (e, h, identified_publish)
          (republish_refines vec laws (has_room limits s) (qos_of iq) mode (x.1) (qos_of-above iq q)
            (here i x e f))
  ]

  inbound_publish-identified :
      (iq : IdentifiedQos) (mode : AckMode)
      → packet_identifier iq ≡ some p
      → inbound_publish vec limits s iq mode ≡ identified_publish vec limits s p iq mode
  unfolding inbound_publish packet_identifier
  inbound_publish-identified IdentifiedQos.at_most_once mode q = cc
  inbound_publish-identified (IdentifiedQos.at_least_once k) mode q = cc
  inbound_publish-identified (IdentifiedQos.exactly_once k) mode q = cc

  -- In a valid session, a PUBLISH with a packet identifier returns with the reply of the receiver's
  -- handshake, by whether there is room for a new publication. It moves the publication under that
  -- identifier as the handshake says, no other one, nothing of the client's own flows, and leaves
  -- the session valid.
  pub inbound_publish-Reacts :
      (iq : IdentifiedQos) (mode : AckMode)
      → packet_identifier iq ≡ some p
      → Reacts limits s p
          (inbound_publish vec limits s iq mode)
          (on_publish (has_room limits s) (qos_of iq) mode (peer_of s p))
  inbound_publish-Reacts iq mode q =
      rw (inbound_publish-identified iq mode q) (identified iq mode q)
