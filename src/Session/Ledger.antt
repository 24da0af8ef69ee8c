-- ===== src/Session/Ledger.antt =====
-- What a call of src/client/mod.rs does to the count of messages at level 2 that the session lets be
-- handed over as new ones.
use rust_mqtt.Prelude.{
  ℕ, ◌+◌, ◌-◌, ◌*◌, ◌≤◌, ◌≡◌, Bool, true, false, ◌==◌, if◌then◌else◌, Bool-cases, none, some, inl,
  inr, arith,
}
use rust_mqtt.Types.AckMode.{AckMode}
use rust_mqtt.Types.Pid.{PacketIdentifier}
use rust_mqtt.Types.Qos.{Qos, IdentifiedQos, level}
use rust_mqtt.Types.ReasonCode.{ReasonCode}
use rust_mqtt.Session.PeerState
use rust_mqtt.Session.PeerState.{PeerPublishState}
use rust_mqtt.Session.State.{Session, Limits}
use rust_mqtt.Session.View.{peer_of}
use rust_mqtt.Session.Calls.{
  Call, connects, subscribes, unsubscribes, receives_suback, receives_unsuback, publishes,
  republishes, receives_publish, receives_puback, receives_pubrec, receives_pubrel,
  receives_pubcomp, sends_puback, sends_pubrel, sends_pubcomp, sends_pubrec, Answer,
}
use rust_mqtt.Session.Spec.Peer.{
  Peer, on_publish, on_pubrel, on_send_puback, on_send_pubrec, on_send_pubcomp,
}
use rust_mqtt.Session.Spec.After.{peer_after, delivered, delivered_after, is_publish}
use rust_mqtt.Session.Refine.Inbound.{has_room}
use rust_mqtt.Session.Step.{Stepped}
use mathlib.Core.Option

-- 1 while a handshake at level 2 is under way.
unfoldable pub under_way : Peer → ℕ
under_way none = 0
under_way (some st) = level (PeerState.qos_of st) - 1

-- 1 for a call that ends a handshake at level 2.
unfoldable pub ends : Peer → Peer → ℕ
ends o o' = under_way o - under_way o'

-- What a call lets be handed over is what it starts.
abbrev pub Balanced : Peer → Peer → ℕ → Type 0
Balanced o o' n = n + under_way o ≡ under_way o' + ends o o'

Balanced-publish :
    (room : Bool) (qos : Qos) (mode : AckMode) (o : Peer)
    → Balanced o
        (on_publish room qos mode o).0
        ((level qos - 1) * is_publish (on_publish room qos mode o).2)
unfolding ends under_way on_publish is_publish level PeerState.qos_of
Balanced-publish room qos mode o = ground arith

Balanced-less : (o o' : Peer) → under_way o' ≤ under_way o → Balanced o o' 0
unfolding ends
Balanced-less o o' h = omega arith

fewer-pubrel : (rc : ReasonCode) (o : Peer) → under_way (on_pubrel rc o).0 ≤ under_way o
unfolding under_way on_pubrel level PeerState.qos_of
fewer-pubrel rc o = ground arith

fewer-send_puback : (o : Peer) → under_way (on_send_puback o).0 ≤ under_way o
unfolding under_way on_send_puback level PeerState.qos_of
fewer-send_puback o = ground arith

fewer-send_pubrec : (rc : ReasonCode) (o : Peer) → under_way (on_send_pubrec rc o).0 ≤ under_way o
unfolding under_way on_send_pubrec level PeerState.qos_of
fewer-send_pubrec rc o = ground arith

fewer-send_pubcomp : (o : Peer) → under_way (on_send_pubcomp o).0 ≤ under_way o
unfolding under_way on_send_pubcomp level PeerState.qos_of
fewer-send_pubcomp o = ground arith

reconnected-under_way : (o : Peer) → under_way (Option.map PeerState.reconnected o) ≡ under_way o
unfolding under_way level PeerState.qos_of PeerState.reconnected
reconnected-under_way o = ground arith

-- Where the call is about another identifier, nothing changes.
on_same :
    (p q : PacketIdentifier) (o o' : Peer)
    → under_way o' ≤ under_way o
    → under_way (if p == q then o' else o) ≤ under_way o
on_same p q o o' h = ground arith

Balanced-same :
    (p q : PacketIdentifier) (o o' : Peer) (n : ℕ)
    → Balanced o o' n
    → Balanced o (if p == q then o' else o) (if p == q then n else 0)
unfolding ends
Balanced-same p q o o' n h = ground arith

Balanced-message :
    (room : Bool) (iq : IdentifiedQos) (mode : AckMode) (q : PacketIdentifier) (o : Peer)
    → Balanced o
        (peer_after room (receives_publish iq mode) q o)
        (delivered_after room (receives_publish iq mode) q o)
unfolding peer_after delivered_after level
Balanced-message room IdentifiedQos.at_most_once mode q o = Balanced-less o o (omega arith)
Balanced-message room (IdentifiedQos.at_least_once p) mode q o = elim (Bool-cases (p == q)) [
  | inl e ↦ grind (arith, Balanced-publish room Qos.at_least_once mode o)
  | inr e ↦ grind (arith, Balanced-less o o)
]
Balanced-message room (IdentifiedQos.exactly_once p) mode q o =
    Balanced-same p q o _ _ (omega (arith, Balanced-publish room Qos.exactly_once mode o))

Balanced-after :
    (room : Bool) (c : Call) (q : PacketIdentifier) (o : Peer)
    → Balanced o (peer_after room c q o) (delivered_after room c q o)
unfolding peer_after delivered_after under_way
Balanced-after room (receives_publish iq mode) q o = Balanced-message room iq mode q o
Balanced-after room (connects true) q o = Balanced-less o _ (omega (arith, reconnected-under_way o))
Balanced-after room (connects false) q o = Balanced-less o none (ground arith)
Balanced-after room (receives_pubrel p rc) q o =
    Balanced-less o _ (on_same p q o _ (fewer-pubrel rc o))
Balanced-after room (sends_puback p) q o = Balanced-less o _ (on_same p q o _ (fewer-send_puback o))
Balanced-after room (sends_pubrec p rc) q o =
    Balanced-less o _ (on_same p q o _ (fewer-send_pubrec rc o))
Balanced-after room (sends_pubcomp p) q o =
    Balanced-less o _ (on_same p q o _ (fewer-send_pubcomp o))
Balanced-after room subscribes q o = Balanced-less o o (omega arith)
Balanced-after room unsubscribes q o = Balanced-less o o (omega arith)
Balanced-after room (receives_suback p) q o = Balanced-less o o (omega arith)
Balanced-after room (receives_unsuback p) q o = Balanced-less o o (omega arith)
Balanced-after room (publishes qos mode) q o = Balanced-less o o (omega arith)
Balanced-after room (republishes iq) q o = Balanced-less o o (omega arith)
Balanced-after room (receives_puback p rc) q o = Balanced-less o o (omega arith)
Balanced-after room (receives_pubrec p rc) q o = Balanced-less o o (omega arith)
Balanced-after room (receives_pubcomp p rc) q o = Balanced-less o o (omega arith)
Balanced-after room (sends_pubrel p) q o = Balanced-less o o (omega arith)

pub Stepped-Balanced :
    {limits : Limits} {s t : Session} (c : Call) (a : Answer) (q : PacketIdentifier)
    → Stepped limits s c t a
    → Balanced (peer_of s q) (peer_of t q) (delivered c q a)
Stepped-Balanced {limits} {s} c a q st =
    rw (st.peers q, st.deliveries q) (Balanced-after (has_room limits s) c q (peer_of s q))
