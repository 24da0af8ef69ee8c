-- ===== src/Session/Ops.antt =====
-- src/session/mod.rs: the operations of a session. Each looks its packet identifier up and leaves the
-- rest to the handle, or answers for an unknown identifier.
use rust_mqtt.Prelude.{
  ℕ, zero, suc, Bool, ◌&&◌, ◌==◌, if◌then◌else◌, Option, none, some, [], ◌∷◌, Outcome, returned,
  panicked, ◌>>=◌,
}
use rust_mqtt.Types.AckMode.{AckMode, automatic, manual}
use rust_mqtt.Types.Pid.{PacketIdentifier, one, next}
use rust_mqtt.Types.Qos.{IdentifiedQos, qos_of}
use rust_mqtt.Types.ReasonCode.{ReasonCode, success, quota_exceeded, packet_identifier_not_found}
use rust_mqtt.Vec.{HeaplessVec}
use rust_mqtt.Session.PeerState.{due_ack, due_rec, await_rel}
use rust_mqtt.Session.State.{
  Session, Limits, FreeHandle, OutboundHandle, nothing, acknowledge, receive, release, complete,
  disconnect, publish, ignored, server_error, Result, ok, err, packet_identifier_unused, sub_handle,
  unsub_handle, inbound_handle, outbound_handle, available_inbound_publish_capacity,
  schedule_inbound, is_none,
}
use rust_mqtt.Session.InboundHandle.{Reply}
use rust_mqtt.Session.InboundHandle
use rust_mqtt.Session.OutboundHandle

-- Whether no handle of a client packet has the identifier.
unfoldable pub is_free : Session → PacketIdentifier → Bool
is_free s p =
    is_none (outbound_handle s p) && is_none (sub_handle s p) && is_none (unsub_handle s p)

-- The loop of `free_handle` with fuel; the outer `none` means that the fuel ran out.
unfoldable pub free_loop : ℕ → Session → PacketIdentifier → Option (Option FreeHandle)
unfolding is_free
free_loop zero s p = none
free_loop (suc fuel) s p =
    let q : ℕ = next p in
    let rest : Option (Option FreeHandle) =
      (let more = free_loop fuel s q in if q == one then some none else more) in
    if is_free s p then some (some (record { session = s; packet_identifier = p })) else rest

-- There are 65535 packet identifiers, so the loop has at most that many rounds.
unfoldable pub free_handle : Session → Option (Option FreeHandle)
free_handle s = free_loop 65535 s one

unfoldable pub outbound_iter : Session → Option OutboundHandle
outbound_iter s = elim s.outbound_publishes [
  | [] ↦ none
  | e ∷ _ ↦ some (record { session = s; i = 0; state = e.1 })
]

-- The session of a handle that a method on `&mut self` gave back.
abbrev pub release_handle : Outcome (OutboundHandle × Result) → Outcome (Session × Result)
release_handle m = m >>= λ r. returned ((r.0).session, r.1)

unfoldable pub outbound_republish : Session → IdentifiedQos → Outcome (Session × Result)
outbound_republish s IdentifiedQos.at_most_once = returned (s, ok)
outbound_republish s (IdentifiedQos.at_least_once p) = elim (outbound_handle s p) [
  | some h ↦
      release_handle (OutboundHandle.outbound_republish h (qos_of (IdentifiedQos.at_least_once p)))
  | none ↦ returned (s, err packet_identifier_unused)
]
outbound_republish s (IdentifiedQos.exactly_once p) = elim (outbound_handle s p) [
  | some h ↦
      release_handle (OutboundHandle.outbound_republish h (qos_of (IdentifiedQos.exactly_once p)))
  | none ↦ returned (s, err packet_identifier_unused)
]

unfoldable pub outbound_pubrel : Session → PacketIdentifier → Outcome (Session × Result)
outbound_pubrel s p = elim (outbound_handle s p) [
  | some h ↦ release_handle (OutboundHandle.outbound_pubrel h)
  | none ↦ returned (s, err packet_identifier_unused)
]

module _ (vec : HeaplessVec) where
  unfoldable pub outbound_puback : Session → PacketIdentifier → Outcome (Session × Result)
  outbound_puback s p = elim (inbound_handle s p) [
    | some h ↦ InboundHandle.outbound_puback vec h
    | none ↦ returned (s, err packet_identifier_unused)
  ]

  unfoldable pub outbound_pubrec :
      Session → PacketIdentifier → ReasonCode → Outcome (Session × Result)
  outbound_pubrec s p reason_code = elim (inbound_handle s p) [
    | some h ↦ InboundHandle.outbound_pubrec vec h reason_code
    | none ↦ returned (s, err packet_identifier_unused)
  ]

  unfoldable pub inbound_pubrel : Session → PacketIdentifier → ReasonCode → Outcome Reply
  inbound_pubrel s p reason_code = elim (inbound_handle s p) [
    | some h ↦ InboundHandle.inbound_pubrel vec h reason_code
    | none ↦ returned (s, complete packet_identifier_not_found, ignored)
  ]

  unfoldable pub outbound_pubcomp : Session → PacketIdentifier → Outcome (Session × Result)
  outbound_pubcomp s p = elim (inbound_handle s p) [
    | some h ↦ InboundHandle.outbound_pubcomp vec h
    | none ↦ returned (s, err packet_identifier_unused)
  ]

  unfoldable pub inbound_puback : Session → PacketIdentifier → ReasonCode → Outcome Reply
  inbound_puback s p reason_code = elim (outbound_handle s p) [
    | some h ↦ OutboundHandle.inbound_puback vec h reason_code
    | none ↦ returned (s, nothing, ignored)
  ]

  unfoldable pub inbound_pubrec : Session → PacketIdentifier → ReasonCode → Outcome Reply
  inbound_pubrec s p reason_code = elim (outbound_handle s p) [
    | some h ↦ OutboundHandle.inbound_pubrec vec h reason_code
    | none ↦ returned (s, release packet_identifier_not_found, ignored)
  ]

  unfoldable pub inbound_pubcomp : Session → PacketIdentifier → ReasonCode → Outcome Reply
  inbound_pubcomp s p reason_code = elim (outbound_handle s p) [
    | some h ↦ OutboundHandle.inbound_pubcomp vec h reason_code
    | none ↦ returned (s, nothing, ignored)
  ]

module _ (vec : HeaplessVec) (limits : Limits) where
  -- A publication that is not tracked yet, while there is room for it.
  unfoldable pub accept_publish :
      Session → PacketIdentifier → IdentifiedQos → AckMode → Outcome Reply
  unfolding schedule_inbound
  accept_publish s p IdentifiedQos.at_most_once ack_mode = panicked
  accept_publish s p (IdentifiedQos.at_least_once _) manual = do
    s' ← schedule_inbound vec limits s p due_ack
    returned (s', nothing, publish)
  accept_publish s p (IdentifiedQos.at_least_once _) automatic =
      returned (s, acknowledge success, publish)
  accept_publish s p (IdentifiedQos.exactly_once _) manual = do
    s' ← schedule_inbound vec limits s p due_rec
    returned (s', nothing, publish)
  accept_publish s p (IdentifiedQos.exactly_once _) automatic = do
    s' ← schedule_inbound vec limits s p (await_rel automatic)
    returned (s', receive success, publish)

  -- The arm of `inbound_publish` for both levels with a packet identifier.
  unfoldable pub identified_publish :
      Session → PacketIdentifier → IdentifiedQos → AckMode → Outcome Reply
  unfolding available_inbound_publish_capacity
  identified_publish s p identified_qos ack_mode = elim (inbound_handle s p) [
    | some h ↦ InboundHandle.inbound_republish h (qos_of identified_qos)
    | none ↦ (do
      room ← available_inbound_publish_capacity limits s
      if room
          then accept_publish s p identified_qos ack_mode
          else returned (s, disconnect quota_exceeded, server_error))
  ]

  unfoldable pub inbound_publish : Session → IdentifiedQos → AckMode → Outcome Reply
  inbound_publish s IdentifiedQos.at_most_once ack_mode = returned (s, nothing, publish)
  inbound_publish s (IdentifiedQos.at_least_once p) ack_mode =
      identified_publish s p (IdentifiedQos.at_least_once p) ack_mode
  inbound_publish s (IdentifiedQos.exactly_once p) ack_mode =
      identified_publish s p (IdentifiedQos.exactly_once p) ack_mode
