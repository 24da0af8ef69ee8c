-- ===== src/Session/Examples.antt =====
-- Runs of the session on concrete data.
use rust_mqtt.Prelude.{◌≤◌, ◌<◌, ◌≡◌, refl, ◌⊎◌, true, none, some, [], ◌∷◌, returned, arith}
use rust_mqtt.Vec.OnLists
use rust_mqtt.Vec.OnLists.{list_vec, list_vec-IsHeaplessVec}
use rust_mqtt.Keyed
use rust_mqtt.Types.AckMode.{automatic, manual}
use rust_mqtt.Types.Pid.{PacketIdentifier, IsPid}
use rust_mqtt.Types.Qos.{Qos, qos_of, packet_identifier, IdentifiedQos}
use rust_mqtt.Types.ReasonCode.{is_erroneous, success, unspecified_error}
use rust_mqtt.Session.LocalState.{due_rel, await_comp, await_ack}
use rust_mqtt.Session.PeerState.{due_ack, due_rec, await_rel, due_comp}
use rust_mqtt.Session.State.{
  Session, Limits, inbound_handle, available_inbound_publish_capacity, active_inbound_publishes,
  schedule_inbound, receive, complete, publish, duplicate, released, Response, Event, ok, reconnect,
  clear,
}
use rust_mqtt.Session.State
use rust_mqtt.Session.Ops
use rust_mqtt.Session.Ops.{
  inbound_publish, inbound_pubrel, inbound_puback, inbound_pubrec, inbound_pubcomp, outbound_puback,
  outbound_pubrec, outbound_pubrel, outbound_pubcomp, outbound_republish, free_handle,
}
use rust_mqtt.Session.Spec.Peer.{
  on_publish, on_pubrel, on_send_puback, on_send_pubrec, on_send_pubcomp,
}
use rust_mqtt.Session.Spec.Local.{on_puback, on_pubrec, on_pubcomp, on_republish, on_send_pubrel}
use rust_mqtt.Session.Refine.InboundHandle.{Reacts, Sends as PeerSends}
use rust_mqtt.Session.Refine.OutboundHandle.{Reacts as LocalReacts, Sends as LocalSends}
use rust_mqtt.Session.Refine.Inbound.{
  has_room, inbound_publish-Reacts, inbound_pubrel-Reacts, outbound_puback-Sends,
  outbound_pubrec-Sends, outbound_pubcomp-Sends,
}
use rust_mqtt.Session.Refine.Outbound.{
  inbound_puback-Reacts, inbound_pubrec-Reacts, inbound_pubcomp-Reacts, outbound_pubrel-Sends,
  outbound_republish-Sends,
}
use rust_mqtt.Session.Free.{IsUnused, free_handle-Search}
use rust_mqtt.Session.InboundHandle
use rust_mqtt.Session.OutboundHandle
use rust_mqtt.Session.Effects.Bulk.{clear-IsValid}
use rust_mqtt.Session.View.{peer_of, local_of, sub_of, unsub_of, IsValid}
use rust_mqtt.Session.Calls.{
  Call, receives_publish, receives_pubrel, sends_pubrel, replied, resulted, step, Run, stop, next,
}
use rust_mqtt.Session.Run.{step_total, Run-IsValid}
use rust_mqtt.Session.Step.{Steps}
use rust_mqtt.Session.Release.{is_received, received-Final}

abbrev pub limits : Limits
limits = record { subscribe_maximum = 2; receive_maximum = 4; send_maximum = 4 }

abbrev pub empty : Session
empty = record { subs = []; unsubs = []; inbound_publishes = []; outbound_publishes = [] }

-- Two server publications, two client publications, a subscription and an unsubscription.
abbrev pub busy : Session
busy = record {
  subs = 3 ∷ [];
  unsubs = 4 ∷ [];
  inbound_publishes = (7, due_rec) ∷ (9, due_comp) ∷ (8, due_ack) ∷ [];
  outbound_publishes = (1, await_ack) ∷ (2, await_comp manual) ∷ (6, due_rel manual) ∷ [];
}

pub busy-IsValid : IsValid limits busy
unfolding sub_of unsub_of local_of Keyed.lookup
busy-IsValid = record {
  subs_unique = (refl, tt);
  unsubs_unique = (refl, tt);
  inbound_unique = (refl, (refl, (refl, tt)));
  outbound_unique = (refl, (refl, (refl, tt)));
  subs_fit = omega arith;
  unsubs_fit = omega arith;
  inbound_fits = omega arith;
  outbound_fits = omega arith;
  one_flow = λ p. record {
    sub_or_unsub = ground arith;
    sub_or_local = ground arith;
    unsub_or_local = ground arith;
  };
}

pub empty-IsValid : IsValid limits empty
unfolding clear
empty-IsValid = clear-IsValid limits busy

step_total_example : Steps list_vec limits busy (receives_pubrel 7 success)
step_total_example =
    step_total list_vec list_vec-IsHeaplessVec busy-IsValid (receives_pubrel 7 success)

-- The server's publication 5, at level 2 and automatic, in the empty session.
abbrev pub opened : Session
opened = record empty { inbound_publishes = (5, await_rel automatic) ∷ [] }

abbrev message : Call
message = receives_publish (IdentifiedQos.exactly_once 5) automatic

-- The handling of PUBLISH, PUBREL and PUBCOMP.
first_message :
    step list_vec limits empty message ≡ returned (opened, replied (receive success) publish)
unfolding step Ops.inbound_publish Ops.identified_publish Ops.accept_publish inbound_handle
    available_inbound_publish_capacity active_inbound_publishes schedule_inbound Keyed.position
    OnLists.push
first_message = refl

message_again :
    step list_vec limits opened message
    ≡ returned (opened, replied (receive success) (duplicate automatic))
unfolding step Ops.inbound_publish Ops.identified_publish inbound_handle Keyed.position
    InboundHandle.inbound_republish qos_of InboundHandle.nop_reply
message_again = refl

pub released_message :
    step list_vec limits opened (receives_pubrel 5 success)
    ≡ returned (empty, replied (complete success) (released automatic))
unfolding step Ops.inbound_pubrel inbound_handle Keyed.position InboundHandle.inbound_pubrel
    is_erroneous InboundHandle.remove_reply OnLists.swap_remove
released_message = refl

-- A message at level 2 that is sent twice and released, and then the next one.
abbrev exchange : Run list_vec limits empty opened
exchange = next message _ first_message (
    next message _ message_again
      (next (receives_pubrel 5 success) _ released_message (next message _ first_message stop)))

Run-IsValid_example : IsValid limits opened
Run-IsValid_example = Run-IsValid list_vec list_vec-IsHeaplessVec exchange empty-IsValid

-- PUBREL of publication 6, whose PUBREC has been received.
abbrev busy_released : Session
busy_released = record busy {
  outbound_publishes = (1, await_ack) ∷ (2, await_comp manual) ∷ (6, await_comp manual) ∷ [];
}

release_sent : step list_vec limits busy (sends_pubrel 6) ≡ returned (busy_released, resulted ok)
unfolding step Ops.outbound_pubrel State.outbound_handle Keyed.position
    OutboundHandle.outbound_pubrel OutboundHandle.set_ok Keyed.modify
release_sent = refl

received-Final_example :
    (local_of busy_released 6 ≡ none) ⊎ (is_received (local_of busy_released 6) ≡ true)
unfolding is_received local_of Keyed.lookup
received-Final_example =
    received-Final list_vec list_vec-IsHeaplessVec limits busy-IsValid (sends_pubrel 6)
      (resulted ok) 6 release_sent refl

inbound_publish-Reacts_example :
    Reacts limits busy 7
      (inbound_publish list_vec limits busy (IdentifiedQos.exactly_once 7) manual)
      (on_publish (has_room limits busy) Qos.exactly_once manual (peer_of busy 7))
unfolding qos_of packet_identifier
inbound_publish-Reacts_example =
    inbound_publish-Reacts list_vec list_vec-IsHeaplessVec limits busy busy-IsValid 7
      (IdentifiedQos.exactly_once 7) manual refl

inbound_pubrel-Reacts_example :
    Reacts limits busy 9
      (inbound_pubrel list_vec busy 9 success)
      (on_pubrel success (peer_of busy 9))
inbound_pubrel-Reacts_example =
    inbound_pubrel-Reacts list_vec list_vec-IsHeaplessVec limits busy busy-IsValid 9 success

outbound_puback-Sends_example :
    PeerSends limits busy 8 (outbound_puback list_vec busy 8) (on_send_puback (peer_of busy 8))
outbound_puback-Sends_example =
    outbound_puback-Sends list_vec list_vec-IsHeaplessVec limits busy busy-IsValid 8

outbound_pubrec-Sends_example :
    PeerSends limits busy 7
      (outbound_pubrec list_vec busy 7 unspecified_error)
      (on_send_pubrec unspecified_error (peer_of busy 7))
outbound_pubrec-Sends_example =
    outbound_pubrec-Sends list_vec list_vec-IsHeaplessVec limits busy busy-IsValid 7
      unspecified_error

outbound_pubcomp-Sends_example :
    PeerSends limits busy 9 (outbound_pubcomp list_vec busy 9) (on_send_pubcomp (peer_of busy 9))
outbound_pubcomp-Sends_example =
    outbound_pubcomp-Sends list_vec list_vec-IsHeaplessVec limits busy busy-IsValid 9

inbound_puback-Reacts_example :
    LocalReacts limits busy 1
      (inbound_puback list_vec busy 1 success)
      (on_puback success (local_of busy 1))
inbound_puback-Reacts_example =
    inbound_puback-Reacts list_vec list_vec-IsHeaplessVec limits busy busy-IsValid 1 success

inbound_pubrec-Reacts_example :
    LocalReacts limits busy 6
      (inbound_pubrec list_vec busy 6 unspecified_error)
      (on_pubrec unspecified_error (local_of busy 6))
inbound_pubrec-Reacts_example =
    inbound_pubrec-Reacts list_vec list_vec-IsHeaplessVec limits busy busy-IsValid 6
      unspecified_error

inbound_pubcomp-Reacts_example :
    LocalReacts limits busy 2
      (inbound_pubcomp list_vec busy 2 success)
      (on_pubcomp success (local_of busy 2))
inbound_pubcomp-Reacts_example =
    inbound_pubcomp-Reacts list_vec list_vec-IsHeaplessVec limits busy busy-IsValid 2 success

outbound_pubrel-Sends_example :
    LocalSends limits busy 6 (outbound_pubrel busy 6) (on_send_pubrel (local_of busy 6))
outbound_pubrel-Sends_example =
    outbound_pubrel-Sends list_vec list_vec-IsHeaplessVec limits busy busy-IsValid 6

outbound_republish-Sends_example :
    LocalSends limits busy 1
      (outbound_republish busy (IdentifiedQos.at_least_once 1))
      (on_republish Qos.at_least_once (local_of busy 1))
unfolding qos_of packet_identifier
outbound_republish-Sends_example =
    outbound_republish-Sends list_vec list_vec-IsHeaplessVec limits busy busy-IsValid
      (IdentifiedQos.at_least_once 1) 1 refl

free_handle-Search_example :
    ((q : PacketIdentifier) × (free_handle busy
        ≡ some (some (record { session = busy; packet_identifier = q })))
      × IsPid q
      × IsUnused busy q
      × ((k : PacketIdentifier) → 1 ≤ k → k < q → ¬ IsUnused busy k))
    ⊎ ((free_handle busy ≡ some none) × ((k : PacketIdentifier) → IsPid k → ¬ IsUnused busy k))
free_handle-Search_example = free_handle-Search busy
