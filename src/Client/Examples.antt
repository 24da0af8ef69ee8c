-- ===== src/Client/Examples.antt =====
-- The arms of poll_body on a concrete session.
use rust_mqtt.Prelude.{◌+◌, [], ◌∷◌, map, returned, ◌≡◌, refl, Bool, true, false, ◌||◌, ◌&&◌, not}
use rust_mqtt.Types.AckMode.{automatic, manual}
use rust_mqtt.Types.Qos.{IdentifiedQos, packet_identifier, qos_of, level}
use rust_mqtt.Types.ReasonCode.{success, packet_identifier_not_found, is_success}
use rust_mqtt.Vec.OnLists.{list_vec, list_vec-IsHeaplessVec}
use rust_mqtt.Session.View.{local_of, peer_of}
use rust_mqtt.Session.PeerState
use rust_mqtt.Keyed.{lookup, position}
use rust_mqtt.Session.Effects.Bulk.{reconnect-IsValid}
use rust_mqtt.Session.Release.{is_received}
use rust_mqtt.Session.Examples.{limits, busy, busy-IsValid}
use rust_mqtt.Client.Poll.{
  Packet, poll_publish, poll_puback, poll_pubrec, poll_pubrel, poll_pubcomp,
}
use rust_mqtt.Session.State.{Session, reconnect}
use rust_mqtt.Session.LocalState.{due_rel, await_comp}
use rust_mqtt.Client.Rerelease.{is_due, rerelease, rereleased, due_packets}
use rust_mqtt.Client.Released.{rerelease_lem}
use rust_mqtt.Client.Poll.{pubrel}
use rust_mqtt.Vec.OnLists
use rust_mqtt.Session.State.{
  inbound_handle, available_inbound_publish_capacity, active_inbound_publishes, schedule_inbound,
}
use rust_mqtt.Session.InboundHandle.{inbound_republish, nop_reply}
use rust_mqtt.Session.Ops.{inbound_publish, identified_publish, accept_publish}
use rust_mqtt.Session.Calls.{receives_pubrel}
use rust_mqtt.Session.Ledger.{under_way, ends}
use rust_mqtt.Session.Examples.{empty, empty-IsValid, opened, released_message}
use rust_mqtt.Client.Poll.{
  send, pubrec, network_error, duplicate, publish, finish, answer_publish, report_publish,
}
use rust_mqtt.Client.Ledger.{
  History, stop, polled, called, is_message, is_new, is_network_error, handed, lost, all_handed,
  all_lost, all_ended, handed-ended,
}
use rust_mqtt.Client.Total.{
  is_returned, waits_again, poll_publish-returned, poll-returned, poll_pubcomp-returned,
}

abbrev transmits_all : Packet → Bool
transmits_all packet = true

poll_publish-returned_example :
    is_returned
      (poll_publish transmits_all list_vec limits busy (IdentifiedQos.exactly_once 7) manual)
    ≡ true
unfolding packet_identifier
poll_publish-returned_example =
    poll_publish-returned list_vec list_vec-IsHeaplessVec limits busy busy-IsValid transmits_all 7
      (IdentifiedQos.exactly_once 7) manual refl

-- After a reconnection, the PUBREL of publication 9 is waited for again.
poll-returned_example :
    (is_returned (
        poll_puback transmits_all list_vec limits false
          (reconnect busy)
          9
          packet_identifier_not_found)
      ≡ true)
    × (is_returned (
          poll_pubrec transmits_all list_vec limits false
            (reconnect busy)
            9
            packet_identifier_not_found)
        ≡ true)
    × (is_returned (
          poll_pubrel transmits_all list_vec limits false
            (reconnect busy)
            9
            packet_identifier_not_found)
        ≡ (false
            || not (
                waits_again (peer_of (reconnect busy) 9)
                && not (is_success packet_identifier_not_found))))
poll-returned_example =
    poll-returned list_vec list_vec-IsHeaplessVec limits (reconnect busy)
      (reconnect-IsValid busy-IsValid) transmits_all 9 false packet_identifier_not_found

released_again_panics :
    (false
      || not (
          waits_again (peer_of (reconnect busy) 9) && not (is_success packet_identifier_not_found)))
    ≡ false
unfolding waits_again peer_of reconnect PeerState.reconnected lookup is_success
released_again_panics = refl

poll_pubcomp-returned_example :
    is_returned
      (poll_pubcomp transmits_all list_vec limits false busy 2 packet_identifier_not_found)
    ≡ (false || not (is_received (local_of busy 2) && not (is_success packet_identifier_not_found)))
poll_pubcomp-returned_example =
    poll_pubcomp-returned list_vec list_vec-IsHeaplessVec limits busy busy-IsValid transmits_all 2
      false packet_identifier_not_found

-- A session after a reconnection: one PUBREL is due, one is left to the user.
abbrev rejoined : Session
rejoined = record busy {
  outbound_publishes =
      (1, due_rel automatic) ∷ (2, due_rel manual) ∷ (6, await_comp automatic) ∷ [];
}

rerelease_lem_example :
    rerelease transmits_all rejoined
    ≡ returned (
      record rejoined { outbound_publishes = map rereleased rejoined.outbound_publishes },
      due_packets rejoined.outbound_publishes,
      true,
    )
rerelease_lem_example = rerelease_lem transmits_all (λ packet. refl) rejoined

rerelease_sends_one : due_packets rejoined.outbound_publishes ≡ pubrel 1 success ∷ []
unfolding due_packets is_due
rerelease_sends_one = refl

-- A message at level 2 is polled while the transport takes nothing, sent again, released, and then
-- the next one arrives.
abbrev transmits_none : Packet → Bool
transmits_none packet = false

message_lost :
    poll_publish transmits_none list_vec limits empty (IdentifiedQos.exactly_once 5) automatic
    ≡ returned (opened, send (pubrec 5 success), network_error)
unfolding poll_publish finish inbound_publish identified_publish accept_publish inbound_handle
    available_inbound_publish_capacity active_inbound_publishes schedule_inbound position
    OnLists.push answer_publish packet_identifier
message_lost = refl

message_again :
    poll_publish transmits_all list_vec limits opened (IdentifiedQos.exactly_once 5) automatic
    ≡ returned (opened, send (pubrec 5 success), duplicate automatic)
unfolding poll_publish finish inbound_publish identified_publish inbound_handle position
    inbound_republish qos_of nop_reply answer_publish packet_identifier report_publish
message_again = refl

message_new :
    poll_publish transmits_all list_vec limits empty (IdentifiedQos.exactly_once 5) automatic
    ≡ returned (opened, send (pubrec 5 success), publish)
unfolding poll_publish finish inbound_publish identified_publish accept_publish inbound_handle
    available_inbound_publish_capacity active_inbound_publishes schedule_inbound position
    OnLists.push answer_publish packet_identifier report_publish
message_new = refl

other_call : is_message (receives_pubrel 5 success) ≡ false
unfolding is_message
other_call = refl

abbrev exchange : History list_vec limits empty opened
exchange = polled transmits_none (IdentifiedQos.exactly_once 5) automatic _ _ message_lost (
    polled transmits_all (IdentifiedQos.exactly_once 5) automatic _ _ message_again (
      called (receives_pubrel 5 success) _ other_call released_message
        (polled transmits_all (IdentifiedQos.exactly_once 5) automatic _ _ message_new stop)))

exchange_counts :
    (all_handed 5 exchange ≡ 1) × (all_lost 5 exchange ≡ 1) × (all_ended 5 exchange ≡ 1)
unfolding all_handed all_lost all_ended handed is_new lost is_network_error under_way ends peer_of
    lookup PeerState.qos_of level
exchange_counts = (refl, refl, refl)

handed-ended_example :
    all_handed 5 exchange + all_lost 5 exchange + under_way (peer_of empty 5)
    ≡ under_way (peer_of opened 5) + all_ended 5 exchange
handed-ended_example = handed-ended list_vec-IsHeaplessVec 5 exchange empty-IsValid
