-- ===== src/Client/Rerelease.antt =====
-- src/client/mod.rs, rerelease: after a reconnection, the PUBREL of each publication whose PUBREC has
-- been received is sent again.
use rust_mqtt.Prelude.{
  ℕ, zero, suc, Bool, true, false, if◌then◌else◌, none, some, List, [], ◌∷◌, ◌++◌, length, Outcome,
  returned, panicked, ◌>>=◌,
}
use rust_mqtt.Types.AckMode.{automatic}
use rust_mqtt.Types.ReasonCode.{success}
use rust_mqtt.Session.LocalState.{LocalPublishState, due_rel, await_comp}
use rust_mqtt.Session.State.{Session, Outbound, OutboundHandle, Result, ok, err}
use rust_mqtt.Session.OutboundHandle.{outbound_pubrel, packet_identifier, next}
use rust_mqtt.Session.Ops.{outbound_iter}
use rust_mqtt.Client.Poll.{Packet, pubrel}

-- `handle.state == LocalPublishState::DueRel(AckMode::Automatic)`
unfoldable pub is_due : LocalPublishState → Bool
is_due (due_rel automatic) = true
is_due st = false

-- `.unwrap()` on a `Result`
abbrev pub unwrap_ok : OutboundHandle × Result → Outcome OutboundHandle
unwrap_ok (h, ok) = returned h
unwrap_ok (h, err e) = panicked

-- What is left when the loop ends: the session, the packets sent, and whether no send failed. The
-- flush after the loop is the transport's.
abbrev pub Released : Type 0
Released = Session × List Packet × Bool

module _ (transmits : Packet → Bool) where
  -- The loop with fuel for the entries from the handle on.
  unfoldable pub rerelease_loop : ℕ → OutboundHandle → List Packet → Outcome Released
  rerelease_loop zero h sent = panicked
  rerelease_loop (suc fuel) h sent = elim (is_due h.state) [
    | true ↦ (do
      r ← outbound_pubrel h
      released ← unwrap_ok r
      p ← packet_identifier released
      let packet = pubrel p success
      let failed : Outcome Released = returned (released.session, sent, false)
      let continued : Outcome Released = elim (next released) [
        | some h' ↦ rerelease_loop fuel h' (sent ++ packet ∷ [])
        | none ↦ returned (released.session, sent ++ packet ∷ [], true)
      ]
      if transmits packet then continued else failed)
    | false ↦ elim (next h) [
      | some h' ↦ rerelease_loop fuel h' sent
      | none ↦ returned (h.session, sent, true)
    ]
  ]

  unfoldable pub rerelease : Session → Outcome Released
  rerelease s = elim (outbound_iter s) [
    | none ↦ returned (s, [], true)
    | some h ↦ rerelease_loop (length s.outbound_publishes) h []
  ]

-- The entry after its PUBREL is sent again.
unfoldable pub rereleased : Outbound → Outbound
rereleased e = if is_due e.1 then (e.0, await_comp automatic) else e

unfoldable pub due_packets : List Outbound → List Packet
due_packets [] = []
due_packets (e ∷ es) =
    let rest = due_packets es in if is_due e.1 then pubrel e.0 success ∷ rest else rest
