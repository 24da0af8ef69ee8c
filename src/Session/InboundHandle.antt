-- ===== src/Session/InboundHandle.antt =====
-- src/session/handle.rs: the handshake of a publication by the server, one method for each packet
-- that the client receives (`inbound_`) or sends (`outbound_`).
use rust_mqtt.Prelude.{if◌then◌else◌, Outcome, returned, panicked, ◌>>=◌}
use rust_mqtt.Keyed.{modify}
use rust_mqtt.Types.AckMode.{automatic, manual}
use rust_mqtt.Types.Qos.{Qos}
use rust_mqtt.Types.ReasonCode.{ReasonCode, is_erroneous, success, protocol_error}
use rust_mqtt.Vec.{HeaplessVec}
use rust_mqtt.Session.PeerState.{
  PeerPublishState, await_publish_at_least_once, await_publish_exactly_once, due_ack, due_rec,
  await_rel, await_re_rel, due_comp,
}
use rust_mqtt.Session.State.{
  Session, InboundHandle, Response, nothing, receive, complete, disconnect, Event, publish,
  duplicate, ignored, released, aborted, server_error, Result, ok, err, qos_mismatched,
  handshake_state_mismatched, unwrap,
}

-- The new session with the response and the event.
abbrev pub Reply : Type 0
Reply = Session × Response × Event

unfoldable pub set : InboundHandle → PeerPublishState → Outcome InboundHandle
set h state = do
  entries ← unwrap (modify (λ e. (e.0, state)) h.i h.session.inbound_publishes)
  returned (record {
    session = record (h.session) { inbound_publishes = entries };
    i = h.i;
    state = state;
  })

-- `nop` only logs.
unfoldable pub nop : InboundHandle → Session
nop h = h.session

-- `set`, and then the answer.
unfoldable pub set_reply : InboundHandle → PeerPublishState → Response → Event → Outcome Reply
unfolding set
set_reply h state r e = do h' ← set h state; returned (h'.session, r, e)

unfoldable pub nop_reply : InboundHandle → Response → Event → Outcome Reply
unfolding nop
nop_reply h r e = returned (nop h, r, e)

unfoldable pub inbound_republish : InboundHandle → Qos → Outcome Reply
inbound_republish h Qos.at_most_once = panicked
inbound_republish h Qos.at_least_once = elim h.state [
  | await_publish_exactly_once _ ↦ nop_reply h (disconnect protocol_error) server_error
  | due_rec ↦ nop_reply h (disconnect protocol_error) server_error
  | await_rel _ ↦ nop_reply h (disconnect protocol_error) server_error
  | await_re_rel ↦ nop_reply h (disconnect protocol_error) server_error
  | due_comp ↦ nop_reply h (disconnect protocol_error) server_error
  | due_ack ↦ nop_reply h nothing publish
  | await_publish_at_least_once ↦ set_reply h due_ack nothing publish
]
inbound_republish h Qos.exactly_once = elim h.state [
  | await_publish_at_least_once ↦ nop_reply h (disconnect protocol_error) server_error
  | due_ack ↦ nop_reply h (disconnect protocol_error) server_error
  | await_publish_exactly_once automatic ↦
      set_reply h (await_rel automatic) (receive success) (duplicate automatic)
  | await_publish_exactly_once manual ↦ set_reply h due_rec nothing (duplicate manual)
  | due_rec ↦ nop_reply h nothing (duplicate manual)
  | await_rel mode ↦ nop_reply h (receive success) (duplicate mode)
  | await_re_rel ↦ nop_reply h (disconnect protocol_error) server_error
  | due_comp ↦ nop_reply h (disconnect protocol_error) server_error
]

module _ (vec : HeaplessVec) where
  unfoldable pub remove : InboundHandle → Outcome Session
  remove h = do
    entries ← unwrap (vec.swap_remove h.session.inbound_publishes h.i)
    returned (record (h.session) { inbound_publishes = entries })

  -- `remove`, and then the answer.
  unfoldable pub remove_reply : InboundHandle → Response → Event → Outcome Reply
  unfolding remove
  remove_reply h r e = do s ← remove h; returned (s, r, e)

  unfoldable pub remove_ok : InboundHandle → Outcome (Session × Result)
  unfolding remove
  remove_ok h = do s ← remove h; returned (s, ok)

  unfoldable pub outbound_puback : InboundHandle → Outcome (Session × Result)
  outbound_puback h = elim h.state [
    | await_publish_at_least_once ↦ returned (nop h, err handshake_state_mismatched)
    | await_publish_exactly_once _ ↦ returned (nop h, err qos_mismatched)
    | due_rec ↦ returned (nop h, err qos_mismatched)
    | await_rel _ ↦ returned (nop h, err qos_mismatched)
    | await_re_rel ↦ returned (nop h, err qos_mismatched)
    | due_comp ↦ returned (nop h, err qos_mismatched)
    | due_ack ↦ remove_ok h
  ]

  unfoldable pub outbound_pubrec : InboundHandle → ReasonCode → Outcome (Session × Result)
  outbound_pubrec h reason_code = elim h.state [
    | await_publish_at_least_once ↦ returned (nop h, err qos_mismatched)
    | due_ack ↦ returned (nop h, err qos_mismatched)
    | await_publish_exactly_once _ ↦ returned (nop h, err handshake_state_mismatched)
    | await_rel _ ↦ returned (nop h, err handshake_state_mismatched)
    | await_re_rel ↦ returned (nop h, err handshake_state_mismatched)
    | due_comp ↦ returned (nop h, err handshake_state_mismatched)
    | due_rec ↦
        if is_erroneous reason_code
        then remove_ok h
        else (do h' ← set h (await_rel manual); returned (h'.session, ok))
  ]

  unfoldable pub inbound_pubrel : InboundHandle → ReasonCode → Outcome Reply
  inbound_pubrel h reason_code = elim h.state [
    | await_publish_at_least_once ↦ nop_reply h (disconnect protocol_error) server_error
    | due_ack ↦ nop_reply h (disconnect protocol_error) server_error
    | await_publish_exactly_once mode ↦
        if is_erroneous reason_code then remove_reply h (complete success) aborted else elim mode [
          | automatic ↦ remove_reply h (complete success) (released automatic)
          | manual ↦ set_reply h due_comp nothing (released manual)
        ]
    | due_rec ↦
        if is_erroneous reason_code
        then remove_reply h (complete success) aborted
        else set_reply h due_comp nothing (released manual)
    | await_rel mode ↦
        if is_erroneous reason_code then remove_reply h (complete success) aborted else elim mode [
          | automatic ↦ remove_reply h (complete success) (released automatic)
          | manual ↦ set_reply h due_comp nothing (released manual)
        ]
    | await_re_rel ↦ set_reply h due_comp nothing (released manual)
    | due_comp ↦
        if is_erroneous reason_code
        then remove_reply h (complete success) aborted
        else nop_reply h nothing ignored
  ]

  unfoldable pub outbound_pubcomp : InboundHandle → Outcome (Session × Result)
  outbound_pubcomp h = elim h.state [
    | await_publish_at_least_once ↦ returned (nop h, err qos_mismatched)
    | due_ack ↦ returned (nop h, err qos_mismatched)
    | await_publish_exactly_once _ ↦ returned (nop h, err handshake_state_mismatched)
    | due_rec ↦ returned (nop h, err handshake_state_mismatched)
    | await_rel _ ↦ returned (nop h, err handshake_state_mismatched)
    | await_re_rel ↦ returned (nop h, err handshake_state_mismatched)
    | due_comp ↦ remove_ok h
  ]
