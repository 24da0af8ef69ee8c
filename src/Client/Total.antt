-- ===== src/Client/Total.antt =====
-- Which packets of a handshake the arms of poll_body handle without a panic.
use rust_mqtt.Prelude.{
  ◌≡◌, refl, ◌∙◌, Bool, true, false, Bool-cases, inl, inr, ◌||◌, ◌&&◌, not, some, Outcome, returned,
  panicked, ◌>>=◌, arith,
}
use rust_mqtt.Types.AckMode.{AckMode}
use rust_mqtt.Types.Pid.{PacketIdentifier}
use rust_mqtt.Types.Qos.{IdentifiedQos, qos_of, packet_identifier}
use rust_mqtt.Types.ReasonCode.{ReasonCode, is_success, is_erroneous}
use rust_mqtt.Vec.{HeaplessVec, IsHeaplessVec}
use rust_mqtt.Session.PeerState.{await_re_rel}
use rust_mqtt.Session.State.{
  Session, Limits, Response, Event, nothing, acknowledge, receive, release, complete, disconnect,
}
use rust_mqtt.Session.InboundHandle.{Reply}
use rust_mqtt.Session.View.{peer_of, local_of, IsValid}
use rust_mqtt.Session.Spec.Peer.{Peer, on_publish, on_pubrel}
use rust_mqtt.Session.Spec.Local.{Local, on_puback, on_pubrec, on_pubcomp}
use rust_mqtt.Session.Refine.Inbound.{has_room, inbound_publish-Reacts, inbound_pubrel-Reacts}
use rust_mqtt.Session.Refine.Outbound.{
  inbound_puback-Reacts, inbound_pubrec-Reacts, inbound_pubcomp-Reacts,
}
use rust_mqtt.Session.Release.{is_received}
use rust_mqtt.Client.Poll.{
  Packet, Action, send, no_action, close_with, Reported, answer_publish, report_publish,
  answer_last, report_puback, answer_pubrec, report_pubrec, answer_pubrel, report_pubrel,
  puback_new, pubrej_from, report_pubcomp, finish, checked, poll_publish, poll_puback, poll_pubrec,
  poll_pubrel, poll_pubcomp,
}

unfoldable pub is_returned : {A : Type 0} → Outcome A → Bool
is_returned (returned a) = true
is_returned panicked = false

is_returned-value : {A : Type 0} (m : Outcome A) → is_returned m ≡ true → (a : A) × (m ≡ returned a)
unfolding is_returned
is_returned-value (returned a) h = (a, refl)
is_returned-value panicked h = cc

module _ (transmits : Packet → Bool) (s : Session) (r : Response) (e : Event)
    (answer : Response → Outcome Action) (report : Event → Outcome Reported) where
  finish_after :
      (a : Action) (x : Reported)
      → answer r ≡ returned a
      → report e ≡ returned x
      → is_returned (finish transmits (returned (s, r, e)) answer report) ≡ true
  unfolding finish is_returned
  finish_after no_action x d k = rw d (rw k refl)
  finish_after (close_with rc) x d k = rw d (rw k refl)
  finish_after (send packet) x d k = elim (Bool-cases (transmits packet)) [
    | inl b ↦ rw d (rw (b, k) refl)
    | inr b ↦ rw d (rw b refl)
  ]

  -- An arm returns if the session does and its two matches cover the reply.
  finish-returned :
      (m : Outcome Reply)
      → m ≡ returned (s, r, e)
      → (is_returned (answer r) ≡ true) × (is_returned (report e) ≡ true)
      → is_returned (finish transmits m answer report) ≡ true
  finish-returned m d (ha, hr) =
      let (a, p) = is_returned-value (answer r) ha in
      let (x, q) = is_returned-value (report e) hr in rw d (finish_after a x p q)

after_report :
    (s : Session) (a : Action) (m : Outcome Reported)
    → is_returned (◌>>=◌ {B = Session × Action × Reported} m (λ e. returned (s, a, e)))
      ≡ is_returned m
unfolding is_returned
after_report s a (returned x) = refl
after_report s a panicked = refl

-- The answer to a last packet is never sent, so the report decides.
finish_last :
    (transmits : Packet → Bool) (s : Session) (r : Response) (e : Event)
    (report : Event → Outcome Reported)
    → is_returned (answer_last r) ≡ true
    → is_returned (finish transmits (returned (s, r, e)) answer_last report)
      ≡ is_returned (report e)
unfolding finish is_returned answer_last
finish_last transmits s nothing e report h = after_report s no_action (report e)
finish_last transmits s (disconnect rc) e report h = after_report s (close_with rc) (report e)
finish_last transmits s (acknowledge _) e report h = cc
finish_last transmits s (receive _) e report h = cc
finish_last transmits s (release _) e report h = cc
finish_last transmits s (complete _) e report h = cc

-- A reason code is a success or an error.
erroneous-success : (rc : ReasonCode) → is_erroneous rc ≡ not (is_success rc)
unfolding is_erroneous is_success
erroneous-success rc = ground arith

-- An arm that answers nothing returns exactly if its report does.
finish_unanswered :
    (transmits : Packet → Bool) (s : Session) (r : Response) (e : Event) (p : PacketIdentifier)
    (report : Event → Outcome Reported)
    → r ≡ nothing
    → is_returned (finish transmits (returned (s, r, e)) (answer_pubrel p) report)
      ≡ is_returned (report e)
unfolding finish is_returned answer_pubrel
finish_unanswered transmits s r e p report d = rw d (after_report s no_action (report e))

puback_covered :
    (rc : ReasonCode) (o : Local)
    → (is_returned (answer_last (on_puback rc o).1) ≡ true)
      × (is_returned (report_puback rc (on_puback rc o).2) ≡ true)
unfolding is_returned answer_last report_puback puback_new pubrej_from on_puback
puback_covered rc o = (ground arith, ground (arith, erroneous-success rc))

pubrec_covered :
    (p : PacketIdentifier) (rc : ReasonCode) (o : Local)
    → (is_returned (answer_pubrec p (on_pubrec rc o).1) ≡ true)
      × (is_returned (report_pubrec rc (on_pubrec rc o).2) ≡ true)
unfolding is_returned answer_pubrec report_pubrec puback_new pubrej_from on_pubrec
pubrec_covered p rc o = (ground arith, ground (arith, erroneous-success rc))

-- The server's PUBREL came before the connection was lost, and is waited for again.
unfoldable pub waits_again : Peer → Bool
waits_again (some await_re_rel) = true
waits_again o = false

pubrel_answered :
    (p : PacketIdentifier) (rc : ReasonCode) (o : Peer)
    → is_returned (answer_pubrel p (on_pubrel rc o).1) ≡ true
unfolding is_returned answer_pubrel on_pubrel
pubrel_answered p rc o = ground arith

pubrel_reported :
    (rc : ReasonCode) (o : Peer)
    → is_returned (report_pubrel rc (on_pubrel rc o).2) ≡ not (waits_again o && not (is_success rc))
unfolding is_returned report_pubrel puback_new pubrej_from on_pubrel waits_again
pubrel_reported rc o = ground (arith, erroneous-success rc)

-- A publication that is released again is not answered by the client.
again_unanswered :
    (rc : ReasonCode) (o : Peer) → waits_again o ≡ true → (on_pubrel rc o).1 ≡ nothing
unfolding waits_again on_pubrel
again_unanswered rc o h = ground arith

publish_covered :
    (iq : IdentifiedQos) (p : PacketIdentifier) (room : Bool) (mode : AckMode) (o : Peer)
    → packet_identifier iq ≡ some p
    → (is_returned (answer_publish iq (on_publish room (qos_of iq) mode o).1) ≡ true)
      × (is_returned (report_publish (on_publish room (qos_of iq) mode o).2) ≡ true)
unfolding is_returned answer_publish report_publish on_publish packet_identifier qos_of
publish_covered iq p room mode o e = (ground arith, ground arith)

pubcomp_answered :
    (rc : ReasonCode) (o : Local) → is_returned (answer_last (on_pubcomp rc o).1) ≡ true
unfolding is_returned answer_last on_pubcomp
pubcomp_answered rc o = ground arith

pubcomp_reported :
    (rc : ReasonCode) (o : Local)
    → is_returned (report_pubcomp rc (on_pubcomp rc o).2)
      ≡ not (is_received o && not (is_success rc))
unfolding is_returned report_pubcomp puback_new on_pubcomp is_received
pubcomp_reported rc o = ground arith

module _ (vec : HeaplessVec) (laws : IsHeaplessVec vec) (limits : Limits) (s : Session)
    (valid : IsValid limits s) (transmits : Packet → Bool) (p : PacketIdentifier) where
  -- In a valid session, the client's handling of a PUBLISH with a packet identifier returns: the
  -- session's answer fits the packet, which has the identifier that the acknowledgement needs, and
  -- its event is one that the client reports.
  pub poll_publish-returned :
      (iq : IdentifiedQos) (mode : AckMode)
      → packet_identifier iq ≡ some p
      → is_returned (poll_publish transmits vec limits s iq mode) ≡ true
  unfolding poll_publish
  poll_publish-returned iq mode q =
      let (s', e, reach) = inbound_publish-Reacts vec laws limits s valid p iq mode q in
      finish-returned transmits s' _ _ (answer_publish iq) report_publish _ e
        (publish_covered iq p (has_room limits s) mode (peer_of s p) q)

  poll_puback-returned :
      (unwanted : Bool) (rc : ReasonCode)
      → is_returned (poll_puback transmits vec limits unwanted s p rc) ≡ true
  unfolding poll_puback checked is_returned
  poll_puback-returned true rc = refl
  poll_puback-returned false rc =
      let (s', e, reach) = inbound_puback-Reacts vec laws limits s valid p rc in
      finish-returned transmits s' _ _ answer_last (report_puback rc) _ e
        (puback_covered rc (local_of s p))

  poll_pubrec-returned :
      (unwanted : Bool) (rc : ReasonCode)
      → is_returned (poll_pubrec transmits vec limits unwanted s p rc) ≡ true
  unfolding poll_pubrec checked is_returned
  poll_pubrec-returned true rc = refl
  poll_pubrec-returned false rc =
      let (s', e, reach) = inbound_pubrec-Reacts vec laws limits s valid p rc in
      finish-returned transmits s' _ _ (answer_pubrec p) (report_pubrec rc) _ e
        (pubrec_covered p rc (local_of s p))

  poll_pubrel-returned :
      (unwanted : Bool) (rc : ReasonCode)
      → is_returned (poll_pubrel transmits vec limits unwanted s p rc)
        ≡ (unwanted || not (waits_again (peer_of s p) && not (is_success rc)))
  unfolding poll_pubrel checked is_returned
  poll_pubrel-returned true rc = refl
  poll_pubrel-returned false rc =
      let (s', e, reach) = inbound_pubrel-Reacts vec laws limits s valid p rc in
      let o = peer_of s p in
      elim (Bool-cases (waits_again o)) [
        | inl again ↦ rw e (
            finish_unanswered transmits s' _ _ p (report_pubrel rc) (again_unanswered rc o again)
            ∙ pubrel_reported rc o)
        | inr first ↦
            let reported : is_returned (report_pubrel rc (on_pubrel rc o).2) ≡ true =
              pubrel_reported rc o ∙ (rw first refl) in
            rw first (
              finish-returned transmits s' _ _ (answer_pubrel p) (report_pubrel rc) _ e
                (pubrel_answered p rc o, reported))
      ]

  -- In a valid session, whether or not the transport takes the answer: the client's handling of a
  -- PUBACK and of a PUBREC returns, whatever the reason code, so that no branch marked unreachable
  -- is reached and the assertions of the events hold. That of a PUBREL panics exactly if the packet
  -- has an error as reason code, is not refused for its problem information, and its publication
  -- has had a PUBREL before a reconnection, so that another is waited for: the session then has it
  -- reported as released, and that event asserts a success.
  pub poll-returned :
      (unwanted : Bool) (rc : ReasonCode)
      → (is_returned (poll_puback transmits vec limits unwanted s p rc) ≡ true)
        × (is_returned (poll_pubrec transmits vec limits unwanted s p rc) ≡ true)
        × (is_returned (poll_pubrel transmits vec limits unwanted s p rc)
            ≡ (unwanted || not (waits_again (peer_of s p) && not (is_success rc))))
  poll-returned unwanted rc = (
    poll_puback-returned unwanted rc,
    poll_pubrec-returned unwanted rc,
    poll_pubrel-returned unwanted rc,
  )

  -- In a valid session, the client's handling of a PUBCOMP panics exactly if the packet has an
  -- error as reason code, is not refused for its problem information, and completes a publication
  -- whose PUBREC has been received: the session then reports a rejection, which the client marks as
  -- unreachable. In all other cases it returns, and the assertion of the event that is reported
  -- holds.
  pub poll_pubcomp-returned :
      (unwanted : Bool) (rc : ReasonCode)
      → is_returned (poll_pubcomp transmits vec limits unwanted s p rc)
        ≡ (unwanted || not (is_received (local_of s p) && not (is_success rc)))
  unfolding poll_pubcomp checked is_returned
  poll_pubcomp-returned true rc = refl
  poll_pubcomp-returned false rc =
      let (s', e, reach) = inbound_pubcomp-Reacts vec laws limits s valid p rc in
      rw e (
        finish_last transmits s' _ _ (report_pubcomp rc) (pubcomp_answered rc (local_of s p))
        ∙ pubcomp_reported rc (local_of s p))
