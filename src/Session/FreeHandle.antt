-- ===== src/Session/FreeHandle.antt =====
-- src/session/handle.rs: starting a subscription, an unsubscription or a publication under an unused
-- packet identifier, and ending the first two.
use rust_mqtt.Prelude.{none, some, if◌then◌else◌, Outcome, returned, panicked, ◌>>=◌}
use rust_mqtt.Types.AckMode.{AckMode, automatic, manual}
use rust_mqtt.Types.Qos.{Qos}
use rust_mqtt.Vec.{HeaplessVec}
use rust_mqtt.Session.LocalState.{LocalPublishState, await_ack, await_rec}
use rust_mqtt.Session.State.{
  Session, Limits, FreeHandle, SubHandle, UnsubHandle, Result, ok, err, no_capacity,
  schedule_outbound, available_outbound_publish_capacity, unwrap,
}

-- The state of a new publication: the asserts at the head of `outbound_publish`, then the match.
unfoldable pub initial_state : Qos → AckMode → Outcome LocalPublishState
initial_state Qos.at_most_once ack_mode = panicked
initial_state Qos.at_least_once manual = panicked
initial_state Qos.at_least_once automatic = returned await_ack
initial_state Qos.exactly_once ack_mode = returned (await_rec ack_mode)

module _ (vec : HeaplessVec) (limits : Limits) where
  unfoldable pub outbound_sub : FreeHandle → Session × Result
  outbound_sub h = elim (vec.push limits.subscribe_maximum h.session.subs h.packet_identifier) [
    | some subs ↦ (record (h.session) { subs = subs }, ok)
    | none ↦ (h.session, err no_capacity)
  ]

  unfoldable pub outbound_unsub : FreeHandle → Session × Result
  outbound_unsub h = elim (vec.push limits.subscribe_maximum h.session.unsubs h.packet_identifier) [
    | some unsubs ↦ (record (h.session) { unsubs = unsubs }, ok)
    | none ↦ (h.session, err no_capacity)
  ]

  unfoldable pub outbound_publish : FreeHandle → Qos → AckMode → Outcome (Session × Result)
  outbound_publish h qos ack_mode = do
    state ← initial_state qos ack_mode
    room ← available_outbound_publish_capacity limits h.session
    if room
        then (do
          s ← schedule_outbound vec limits h.session h.packet_identifier state
          returned (s, ok))
        else returned (h.session, err no_capacity)

module _ (vec : HeaplessVec) where
  unfoldable pub remove_sub : SubHandle → Outcome Session
  remove_sub h = do
    subs ← unwrap (vec.swap_remove h.session.subs h.i)
    returned (record (h.session) { subs = subs })

  unfoldable pub remove_unsub : UnsubHandle → Outcome Session
  remove_unsub h = do
    unsubs ← unwrap (vec.swap_remove h.session.unsubs h.i)
    returned (record (h.session) { unsubs = unsubs })
