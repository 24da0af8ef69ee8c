-- ===== src/Session/OutboundHandle.antt =====
-- src/session/handle.rs: the handshake of a publication by the client, one method for each packet
-- that the client receives (`inbound_`) or sends (`outbound_`).
use rust_mqtt.Prelude.{ℕ, ◌+◌, get_elem?, if◌then◌else◌, Option, Outcome, returned, panicked, ◌>>=◌}
use rust_mqtt.Keyed.{modify}
use rust_mqtt.Types.AckMode.{automatic, manual}
use rust_mqtt.Types.Qos.{Qos}
use rust_mqtt.Types.Pid.{PacketIdentifier}
use rust_mqtt.Types.ReasonCode.{ReasonCode, is_erroneous, is_success, success, protocol_error}
use rust_mqtt.Vec.{HeaplessVec}
use rust_mqtt.Session.LocalState.{
  LocalPublishState, due_publish_at_least_once, due_publish_exactly_once, await_ack, await_rec,
  due_rel, await_comp,
}
use rust_mqtt.Session.State.{
  Session, OutboundHandle, Response, nothing, release, disconnect, Event, ignored, acknowledged,
  received, completed, rejected, server_error, Result, ok, err, qos_mismatched,
  handshake_state_mismatched, unwrap,
}
use rust_mqtt.Session.InboundHandle.{Reply}
use mathlib.Core.Option

unfoldable pub set : OutboundHandle → LocalPublishState → Outcome OutboundHandle
set h state = do
  entries ← unwrap (modify (λ e. (e.0, state)) h.i h.session.outbound_publishes)
  returned (record {
    session = record (h.session) { outbound_publishes = entries };
    i = h.i;
    state = state;
  })

-- `nop` only logs.
unfoldable pub nop : OutboundHandle → Session
nop h = h.session

unfoldable pub packet_identifier : OutboundHandle → Outcome PacketIdentifier
packet_identifier h = do e ← unwrap (get_elem? h.session.outbound_publishes h.i); returned e.0

-- The handle of the next entry.
unfoldable pub next : OutboundHandle → Option OutboundHandle
next h =
    let i : ℕ = h.i + 1 in
    Option.map (λ e. record { session = h.session; i = i; state = e.1 })
      (get_elem? h.session.outbound_publishes i)

-- `set`, and then the answer.
unfoldable pub set_reply : OutboundHandle → LocalPublishState → Response → Event → Outcome Reply
unfolding set
set_reply h state r e = do h' ← set h state; returned (h'.session, r, e)

unfoldable pub nop_reply : OutboundHandle → Response → Event → Outcome Reply
unfolding nop
nop_reply h r e = returned (nop h, r, e)

-- A method on `&mut self` returns the handle with its result.
unfoldable pub set_ok : OutboundHandle → LocalPublishState → Outcome (OutboundHandle × Result)
unfolding set
set_ok h state = do h' ← set h state; returned (h', ok)

unfoldable pub outbound_republish : OutboundHandle → Qos → Outcome (OutboundHandle × Result)
outbound_republish h Qos.at_most_once = panicked
outbound_republish h Qos.at_least_once = elim h.state [
  | due_publish_at_least_once ↦ set_ok h await_ack
  | await_ack ↦ returned (h, err handshake_state_mismatched)
  | due_publish_exactly_once _ ↦ returned (h, err qos_mismatched)
  | await_rec _ ↦ returned (h, err qos_mismatched)
  | due_rel _ ↦ returned (h, err qos_mismatched)
  | await_comp _ ↦ returned (h, err qos_mismatched)
]
outbound_republish h Qos.exactly_once = elim h.state [
  | due_publish_at_least_once ↦ returned (h, err qos_mismatched)
  | await_ack ↦ returned (h, err qos_mismatched)
  | await_rec _ ↦ returned (h, err handshake_state_mismatched)
  | due_rel _ ↦ returned (h, err handshake_state_mismatched)
  | await_comp _ ↦ returned (h, err handshake_state_mismatched)
  | due_publish_exactly_once mode ↦ set_ok h (await_rec mode)
]

unfoldable pub outbound_pubrel : OutboundHandle → Outcome (OutboundHandle × Result)
outbound_pubrel h = elim h.state [
  | due_publish_at_least_once ↦ returned (h, err qos_mismatched)
  | await_ack ↦ returned (h, err qos_mismatched)
  | due_publish_exactly_once _ ↦ returned (h, err handshake_state_mismatched)
  | await_rec _ ↦ returned (h, err handshake_state_mismatched)
  | await_comp _ ↦ returned (h, err handshake_state_mismatched)
  | due_rel mode ↦ set_ok h (await_comp mode)
]

module _ (vec : HeaplessVec) where
  unfoldable pub remove : OutboundHandle → Outcome Session
  remove h = do
    entries ← unwrap (vec.swap_remove h.session.outbound_publishes h.i)
    returned (record (h.session) { outbound_publishes = entries })

  -- `remove`, and then the answer.
  unfoldable pub remove_reply : OutboundHandle → Response → Event → Outcome Reply
  unfolding remove
  remove_reply h r e = do s ← remove h; returned (s, r, e)

  unfoldable pub inbound_puback : OutboundHandle → ReasonCode → Outcome Reply
  inbound_puback h reason_code =
      let end =
        if is_success reason_code
        then remove_reply h nothing acknowledged
        else remove_reply h nothing rejected in
      elim h.state [
        | due_publish_at_least_once ↦ end
        | await_ack ↦ end
        | due_publish_exactly_once _ ↦ nop_reply h (disconnect protocol_error) server_error
        | await_rec _ ↦ nop_reply h (disconnect protocol_error) server_error
        | due_rel _ ↦ nop_reply h (disconnect protocol_error) server_error
        | await_comp _ ↦ nop_reply h (disconnect protocol_error) server_error
      ]

  unfoldable pub inbound_pubrec : OutboundHandle → ReasonCode → Outcome Reply
  inbound_pubrec h reason_code = elim h.state [
    | due_publish_at_least_once ↦ nop_reply h (disconnect protocol_error) server_error
    | await_ack ↦ nop_reply h (disconnect protocol_error) server_error
    | due_publish_exactly_once mode ↦
        if is_erroneous reason_code then remove_reply h nothing rejected else elim mode [
          | automatic ↦ set_reply h (await_comp automatic) (release success) (received automatic)
          | manual ↦ set_reply h (due_rel manual) nothing (received manual)
        ]
    | due_rel mode ↦
        if is_erroneous reason_code then remove_reply h nothing rejected else elim mode [
          | automatic ↦ set_reply h (await_comp automatic) (release success) ignored
          | manual ↦ nop_reply h nothing ignored
        ]
    | await_comp _ ↦ nop_reply h (release success) ignored
    | await_rec mode ↦
        if is_erroneous reason_code then remove_reply h nothing rejected else elim mode [
          | automatic ↦ set_reply h (await_comp automatic) (release success) (received automatic)
          | manual ↦ set_reply h (due_rel manual) nothing (received manual)
        ]
  ]

  unfoldable pub inbound_pubcomp : OutboundHandle → ReasonCode → Outcome Reply
  inbound_pubcomp h reason_code =
      let end =
        if is_success reason_code
        then remove_reply h nothing completed
        else remove_reply h nothing rejected in
      elim h.state [
        | due_publish_at_least_once ↦ nop_reply h (disconnect protocol_error) server_error
        | await_ack ↦ nop_reply h (disconnect protocol_error) server_error
        | due_publish_exactly_once _ ↦ nop_reply h (disconnect protocol_error) server_error
        | await_rec _ ↦ nop_reply h (disconnect protocol_error) server_error
        | due_rel _ ↦ end
        | await_comp _ ↦ end
      ]
