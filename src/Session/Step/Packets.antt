-- ===== src/Session/Step/Packets.antt =====
-- Every call that acknowledges, receives or repeats a publication returns, and does what `Stepped` says.
use rust_mqtt.Prelude.{refl, ap, arith}
use rust_mqtt.Vec.{HeaplessVec, IsHeaplessVec}
use rust_mqtt.Types.AckMode.{AckMode}
use rust_mqtt.Types.Pid.{PacketIdentifier}
use rust_mqtt.Types.Qos.{Qos, IdentifiedQos, qos_of, packet_identifier}
use rust_mqtt.Types.ReasonCode.{ReasonCode}
use rust_mqtt.Session.State.{Session, Limits}
use rust_mqtt.Session.Ops.{inbound_publish, outbound_republish}
use rust_mqtt.Session.View.{IsValid}
use rust_mqtt.Session.Calls.{
  republishes, receives_publish, receives_puback, receives_pubrec, receives_pubrel,
  receives_pubcomp, sends_puback, sends_pubrel, sends_pubcomp, sends_pubrec, of_reply, of_result,
  step,
}
use rust_mqtt.Session.Refine.Inbound.{
  has_room, inbound_publish-Reacts, inbound_pubrel-Reacts, outbound_puback-Sends,
  outbound_pubrec-Sends, outbound_pubcomp-Sends,
}
use rust_mqtt.Session.Refine.Outbound.{
  inbound_puback-Reacts, inbound_pubrec-Reacts, inbound_pubcomp-Reacts, outbound_pubrel-Sends,
  outbound_republish-Sends,
}
use rust_mqtt.Session.Spec.After.{peer_after, local_after, delivered, delivered_after}
use rust_mqtt.Session.Spec.Peer.{
  on_publish, on_pubrel, on_send_puback, on_send_pubrec, on_send_pubcomp,
}
use rust_mqtt.Session.Spec.Local.{on_puback, on_pubrec, on_pubcomp, on_republish, on_send_pubrel}
use rust_mqtt.Session.Step.{Steps, inbound-Stepped, outbound-Stepped, same-Stepped}

module _ (vec : HeaplessVec) (laws : IsHeaplessVec vec) {limits : Limits} {s : Session}
    (valid : IsValid limits s) where
  pub Steps-pubrel :
      (p : PacketIdentifier) (rc : ReasonCode) → Steps vec limits s (receives_pubrel p rc)
  unfolding step peer_after local_after delivered delivered_after
  Steps-pubrel p rc =
      let (s', e, r) = inbound_pubrel-Reacts vec laws limits s valid p rc in
      (
        s',
        _,
        ap of_reply e,
        inbound-Stepped (receives_pubrel p rc) _ (λ o. (on_pubrel rc o).0) r (λ q o. refl)
            (λ q. refl) (λ q o. refl) refl,
      )

  pub Steps-send_puback : (p : PacketIdentifier) → Steps vec limits s (sends_puback p)
  unfolding step peer_after local_after delivered delivered_after
  Steps-send_puback p =
      let (s', e, r) = outbound_puback-Sends vec laws limits s valid p in
      (
        s',
        _,
        ap of_result e,
        inbound-Stepped (sends_puback p) _ (λ o. (on_send_puback o).0) r (λ q o. refl) (λ q. refl)
            (λ q o. refl) refl,
      )

  pub Steps-send_pubrec :
      (p : PacketIdentifier) (rc : ReasonCode) → Steps vec limits s (sends_pubrec p rc)
  unfolding step peer_after local_after delivered delivered_after
  Steps-send_pubrec p rc =
      let (s', e, r) = outbound_pubrec-Sends vec laws limits s valid p rc in
      (
        s',
        _,
        ap of_result e,
        inbound-Stepped (sends_pubrec p rc) _ (λ o. (on_send_pubrec rc o).0) r (λ q o. refl)
            (λ q. refl) (λ q o. refl) refl,
      )

  pub Steps-send_pubcomp : (p : PacketIdentifier) → Steps vec limits s (sends_pubcomp p)
  unfolding step peer_after local_after delivered delivered_after
  Steps-send_pubcomp p =
      let (s', e, r) = outbound_pubcomp-Sends vec laws limits s valid p in
      (
        s',
        _,
        ap of_result e,
        inbound-Stepped (sends_pubcomp p) _ (λ o. (on_send_pubcomp o).0) r (λ q o. refl) (λ q. refl)
            (λ q o. refl) refl,
      )

  pub Steps-puback :
      (p : PacketIdentifier) (rc : ReasonCode) → Steps vec limits s (receives_puback p rc)
  unfolding step peer_after local_after delivered delivered_after
  Steps-puback p rc =
      let (s', e, r) = inbound_puback-Reacts vec laws limits s valid p rc in
      (
        s',
        _,
        ap of_reply e,
        outbound-Stepped (receives_puback p rc) _ (λ o. (on_puback rc o).0) r (λ q o. refl)
            (λ q o. (refl, refl)) refl,
      )

  pub Steps-pubrec :
      (p : PacketIdentifier) (rc : ReasonCode) → Steps vec limits s (receives_pubrec p rc)
  unfolding step peer_after local_after delivered delivered_after
  Steps-pubrec p rc =
      let (s', e, r) = inbound_pubrec-Reacts vec laws limits s valid p rc in
      (
        s',
        _,
        ap of_reply e,
        outbound-Stepped (receives_pubrec p rc) _ (λ o. (on_pubrec rc o).0) r (λ q o. refl)
            (λ q o. (refl, refl)) refl,
      )

  pub Steps-pubcomp :
      (p : PacketIdentifier) (rc : ReasonCode) → Steps vec limits s (receives_pubcomp p rc)
  unfolding step peer_after local_after delivered delivered_after
  Steps-pubcomp p rc =
      let (s', e, r) = inbound_pubcomp-Reacts vec laws limits s valid p rc in
      (
        s',
        _,
        ap of_reply e,
        outbound-Stepped (receives_pubcomp p rc) _ (λ o. (on_pubcomp rc o).0) r (λ q o. refl)
            (λ q o. (refl, refl)) refl,
      )

  pub Steps-send_pubrel : (p : PacketIdentifier) → Steps vec limits s (sends_pubrel p)
  unfolding step peer_after local_after delivered delivered_after
  Steps-send_pubrel p =
      let (s', e, r) = outbound_pubrel-Sends vec laws limits s valid p in
      (
        s',
        _,
        ap of_result e,
        outbound-Stepped (sends_pubrel p) _ (λ o. (on_send_pubrel o).0) r (λ q o. refl)
            (λ q o. (refl, refl)) refl,
      )

  pub Steps-publish :
      (iq : IdentifiedQos) (mode : AckMode) → Steps vec limits s (receives_publish iq mode)
  unfolding step peer_after local_after delivered delivered_after inbound_publish packet_identifier
      qos_of
  Steps-publish IdentifiedQos.at_most_once mode = (
    s,
    _,
    refl,
    same-Stepped (receives_publish IdentifiedQos.at_most_once mode) _ valid refl refl
        (λ q o. (refl, refl)) (λ q o. refl) refl,
  )
  Steps-publish (IdentifiedQos.at_least_once k) mode =
      let iq = IdentifiedQos.at_least_once k in
      let (s', e, r) = inbound_publish-Reacts vec laws limits s valid k iq mode refl in
      (
        s',
        _,
        ap of_reply e,
        inbound-Stepped (receives_publish iq mode) _
            (λ o. (on_publish (has_room limits s) Qos.at_least_once mode o).0) r (λ q o. refl)
            (λ q. refl) (λ q o. refl) refl,
      )
  Steps-publish (IdentifiedQos.exactly_once k) mode =
      let iq = IdentifiedQos.exactly_once k in
      let (s', e, r) = inbound_publish-Reacts vec laws limits s valid k iq mode refl in
      (
        s',
        _,
        ap of_reply e,
        inbound-Stepped (receives_publish iq mode) _
            (λ o. (on_publish (has_room limits s) Qos.exactly_once mode o).0) r (λ q o. refl)
            (λ q. ground arith) (λ q o. refl) refl,
      )

  pub Steps-republish : (iq : IdentifiedQos) → Steps vec limits s (republishes iq)
  unfolding step peer_after local_after delivered delivered_after outbound_republish qos_of
      packet_identifier
  Steps-republish IdentifiedQos.at_most_once = (
    s,
    _,
    refl,
    same-Stepped (republishes IdentifiedQos.at_most_once) _ valid refl refl (λ q o. (refl, refl))
        (λ q o. refl) refl,
  )
  Steps-republish (IdentifiedQos.at_least_once k) =
      let (s', e, r) =
        outbound_republish-Sends vec laws limits s valid (IdentifiedQos.at_least_once k) k refl in
      (
        s',
        _,
        ap of_result e,
        outbound-Stepped (republishes (IdentifiedQos.at_least_once k)) _
            (λ o. (on_republish Qos.at_least_once o).0) r (λ q o. refl) (λ q o. (refl, refl)) refl,
      )
  Steps-republish (IdentifiedQos.exactly_once k) =
      let (s', e, r) =
        outbound_republish-Sends vec laws limits s valid (IdentifiedQos.exactly_once k) k refl in
      (
        s',
        _,
        ap of_result e,
        outbound-Stepped (republishes (IdentifiedQos.exactly_once k)) _
            (λ o. (on_republish Qos.exactly_once o).0) r (λ q o. refl) (λ q o. (refl, refl)) refl,
      )
