-- ===== src/Client/Poll.antt =====
-- src/client/mod.rs, poll_body: the arms for the packets of a handshake. Each hands the packet to the
-- session, sends what the session answers, and reports its event to the user.
use rust_mqtt.Prelude.{Bool, if◌then◌else◌, Outcome, returned, panicked, ◌>>=◌}
use rust_mqtt.Types.AckMode.{AckMode}
use rust_mqtt.Types.Pid.{PacketIdentifier}
use rust_mqtt.Types.Qos.{IdentifiedQos, packet_identifier}
use rust_mqtt.Types.ReasonCode.{ReasonCode, protocol_error, is_success, is_erroneous}
use rust_mqtt.Vec.{HeaplessVec}
use rust_mqtt.Session.State.{
  Session, Limits, Response, nothing, acknowledge, receive, release, complete, disconnect, Event,
  unwrap,
}
use rust_mqtt.Session.InboundHandle.{Reply}
use rust_mqtt.Session.Ops.{
  inbound_publish, inbound_puback, inbound_pubrec, inbound_pubrel, inbound_pubcomp,
}

-- A packet without properties.
pub data Packet : Type 0 where
  puback pubrec pubrel pubcomp : PacketIdentifier → ReasonCode → Packet

-- What the client does to the connection.
pub data Action : Type 0 where
  no_action : Action
  send : Packet → Action
  close_with : ReasonCode → Action

-- The `Result` of poll: an event for the user, or an error of the server or the network.
pub data Reported : Type 0 where
  publish : Reported
  duplicate : AckMode → Reported
  ignored publish_rejected publish_acknowledged publish_aborted publish_complete : Reported
  publish_received publish_released : AckMode → Reported
  server_error network_error : Reported

unfoldable pub answer_publish : IdentifiedQos → Response → Outcome Action
answer_publish iq (release _) = panicked
answer_publish iq (complete _) = panicked
answer_publish iq nothing = returned no_action
answer_publish iq (acknowledge rc) = do
  p ← unwrap (packet_identifier iq)
  returned (send (puback p rc))
answer_publish iq (receive rc) = do p ← unwrap (packet_identifier iq); returned (send (pubrec p rc))
answer_publish iq (disconnect rc) = returned (close_with rc)

unfoldable pub report_publish : Event → Outcome Reported
report_publish Event.publish = returned publish
report_publish (Event.duplicate mode) = returned (duplicate mode)
report_publish Event.ignored = returned ignored
report_publish Event.server_error = returned server_error
report_publish e = panicked

-- `Puback::new` and `Pubrej::from` in src/client/event.rs assert what their reason code is.
unfoldable pub puback_new : ReasonCode → Reported → Outcome Reported
unfolding is_success
puback_new rc x = if is_success rc then returned x else panicked

unfoldable pub pubrej_from : ReasonCode → Reported → Outcome Reported
unfolding is_erroneous
pubrej_from rc x = if is_erroneous rc then returned x else panicked

-- PUBACK and PUBCOMP are the last packets of their handshakes.
unfoldable pub answer_last : Response → Outcome Action
answer_last nothing = returned no_action
answer_last (disconnect rc) = returned (close_with rc)
answer_last r = panicked

unfoldable pub report_puback : ReasonCode → Event → Outcome Reported
unfolding puback_new pubrej_from
report_puback rc Event.ignored = returned ignored
report_puback rc Event.rejected = pubrej_from rc publish_rejected
report_puback rc Event.acknowledged = puback_new rc publish_acknowledged
report_puback rc Event.server_error = returned server_error
report_puback rc e = panicked

unfoldable pub answer_pubrec : PacketIdentifier → Response → Outcome Action
answer_pubrec p nothing = returned no_action
answer_pubrec p (release rc) = returned (send (pubrel p rc))
answer_pubrec p (disconnect rc) = returned (close_with rc)
answer_pubrec p r = panicked

unfoldable pub report_pubrec : ReasonCode → Event → Outcome Reported
unfolding puback_new pubrej_from
report_pubrec rc Event.ignored = returned ignored
report_pubrec rc Event.rejected = pubrej_from rc publish_rejected
report_pubrec rc (Event.received mode) = puback_new rc (publish_received mode)
report_pubrec rc Event.server_error = returned server_error
report_pubrec rc e = panicked

unfoldable pub answer_pubrel : PacketIdentifier → Response → Outcome Action
answer_pubrel p nothing = returned no_action
answer_pubrel p (complete rc) = returned (send (pubcomp p rc))
answer_pubrel p (disconnect rc) = returned (close_with rc)
answer_pubrel p r = panicked

unfoldable pub report_pubrel : ReasonCode → Event → Outcome Reported
unfolding puback_new pubrej_from
report_pubrel rc Event.ignored = returned ignored
report_pubrel rc Event.aborted = pubrej_from rc publish_aborted
report_pubrel rc (Event.released mode) = puback_new rc (publish_released mode)
report_pubrel rc Event.server_error = returned server_error
report_pubrel rc e = panicked

unfoldable pub report_pubcomp : ReasonCode → Event → Outcome Reported
unfolding puback_new
report_pubcomp rc Event.ignored = returned ignored
report_pubcomp rc Event.completed = puback_new rc publish_complete
report_pubcomp rc Event.server_error = returned server_error
report_pubcomp rc e = panicked

-- `transmits` tells whether the transport takes a packet: the connection is a parameter.
module _ (transmits : Packet → Bool) where
  -- The rest of an arm once the session has replied: an error of the network ends it early.
  unfoldable pub finish :
      Outcome Reply
      → (Response → Outcome Action)
      → (Event → Outcome Reported)
      → Outcome (Session × Action × Reported)
  finish m answer report = do
    r ← m
    a ← answer r.1
    let reported : Outcome (Session × Action × Reported) = (do e ← report r.2; returned (r.0, a, e))
    elim a [
      | send packet ↦
          if transmits packet then reported else returned (r.0, send packet, network_error)
      | _ ↦ reported
    ]

  -- The server must not explain its reason code when the client has asked for no problem
  -- information: `unwanted` tells that it did.
  unfoldable pub checked :
      Bool → Session → Outcome (Session × Action × Reported) → Outcome (Session × Action × Reported)
  checked unwanted s m =
      if unwanted then returned (s, close_with protocol_error, server_error) else m

  module _ (vec : HeaplessVec) (limits : Limits) where
    unfoldable pub poll_publish :
        Session → IdentifiedQos → AckMode → Outcome (Session × Action × Reported)
    poll_publish s iq mode =
        finish (inbound_publish vec limits s iq mode) (answer_publish iq) report_publish

    unfoldable pub poll_puback :
        Bool → Session → PacketIdentifier → ReasonCode → Outcome (Session × Action × Reported)
    poll_puback unwanted s p rc =
        checked unwanted s (finish (inbound_puback vec s p rc) answer_last (report_puback rc))

    unfoldable pub poll_pubrec :
        Bool → Session → PacketIdentifier → ReasonCode → Outcome (Session × Action × Reported)
    poll_pubrec unwanted s p rc =
        checked unwanted s (finish (inbound_pubrec vec s p rc) (answer_pubrec p) (report_pubrec rc))

    unfoldable pub poll_pubrel :
        Bool → Session → PacketIdentifier → ReasonCode → Outcome (Session × Action × Reported)
    poll_pubrel unwanted s p rc =
        checked unwanted s (finish (inbound_pubrel vec s p rc) (answer_pubrel p) (report_pubrel rc))

    unfoldable pub poll_pubcomp :
        Bool → Session → PacketIdentifier → ReasonCode → Outcome (Session × Action × Reported)
    poll_pubcomp unwanted s p rc =
        checked unwanted s (finish (inbound_pubcomp vec s p rc) answer_last (report_pubcomp rc))
