-- ===== src/Client/Ledger.antt =====
-- src/client/mod.rs, poll_body: how often a message at level 2 reaches the user over a history of calls.
use rust_mqtt.Prelude.{
  ℕ, ◌+◌, ◌-◌, ◌≡◌, refl, ◌⊎◌, inl, inr, subst, ap, Bool, true, false, ◌==◌, if◌then◌else◌,
  Bool-cases, Outcome, returned, panicked, arith,
}
use rust_mqtt.Vec.{HeaplessVec, IsHeaplessVec}
use rust_mqtt.Types.AckMode.{AckMode}
use rust_mqtt.Types.Pid.{PacketIdentifier}
use rust_mqtt.Types.Qos.{IdentifiedQos}
use rust_mqtt.Session.State.{Session, Limits, Response, Event}
use rust_mqtt.Session.InboundHandle.{Reply}
use rust_mqtt.Session.Ops.{inbound_publish}
use rust_mqtt.Session.View.{peer_of, IsValid}
use rust_mqtt.Session.Calls.{Call, receives_publish, Answer, replied, step, of_reply}
use rust_mqtt.Session.Spec.Peer.{Peer}
use rust_mqtt.Session.Spec.After.{delivered, is_publish}
use rust_mqtt.Session.Ledger.{under_way, ends, Balanced, Stepped-Balanced}
use rust_mqtt.Session.Run.{Stepped-of}
use rust_mqtt.Client.Poll.{
  Packet, Action, no_action, send, close_with, Reported, publish, network_error, answer_publish,
  report_publish, finish, poll_publish,
}

abbrev Polled : Type 0
Polled = Session × Action × Reported

-- What an arm reports is an error of the network, or what becomes of the session's event.
abbrev Tells : Outcome Reply → (Event → Outcome Reported) → Outcome Polled → Type 0
Tells m report panicked = Unit
Tells m report (returned (t, a, x)) =
    (r : Response) × (e : Event) × (m ≡ returned (t, r, e))
    × ((x ≡ network_error) ⊎ (report e ≡ returned x))

module _ (transmits : Packet → Bool) (answer : Response → Outcome Action)
    (report : Event → Outcome Reported) where
  answered-Tells :
      (s : Session) (r : Response) (e : Event) (o : Outcome Action) (z : Outcome Reported)
      → answer r ≡ o
      → report e ≡ z
      → Tells (returned (s, r, e)) report (finish transmits (returned (s, r, e)) answer report)
  unfolding finish
  answered-Tells s r e panicked z d k = rw d tt
  answered-Tells s r e (returned no_action) panicked d k = rw d (rw k tt)
  answered-Tells s r e (returned no_action) (returned x) d k = rw d (rw k (r, e, refl, inr k))
  answered-Tells s r e (returned (close_with rc)) panicked d k = rw d (rw k tt)
  answered-Tells s r e (returned (close_with rc)) (returned x) d k = rw d (rw k (r, e, refl, inr k))
  answered-Tells s r e (returned (send packet)) panicked d k =
      elim (Bool-cases (transmits packet)) [
        | inl b ↦ rw d (rw (b, k) tt)
        | inr b ↦ rw d (rw b (r, e, refl, inl refl))
      ]
  answered-Tells s r e (returned (send packet)) (returned x) d k =
      elim (Bool-cases (transmits packet)) [
        | inl b ↦ rw d (rw (b, k) (r, e, refl, inr k))
        | inr b ↦ rw d (rw b (r, e, refl, inl refl))
      ]

  finish-Tells : (m : Outcome Reply) → Tells m report (finish transmits m answer report)
  unfolding finish
  finish-Tells panicked = tt
  finish-Tells (returned (s, r, e)) = answered-Tells s r e (answer r) (report e) refl refl

unfoldable pub is_new : Reported → ℕ
is_new publish = 1
is_new x = 0

unfoldable pub is_network_error : Reported → Bool
is_network_error network_error = true
is_network_error x = false

-- A message at level 2 under `q` is handed to the user as a new one.
unfoldable pub handed : PacketIdentifier → IdentifiedQos → Reported → ℕ
unfolding is_new
handed q (IdentifiedQos.exactly_once p) x = if p == q then is_new x else 0
handed q iq x = 0

-- A message at level 2 under `q` starts a handshake, but poll returns an error of the network.
unfoldable pub lost : PacketIdentifier → IdentifiedQos → Reported → Peer → Peer → ℕ
unfolding is_network_error under_way
lost q (IdentifiedQos.exactly_once p) x o o' =
    if p == q then (if is_network_error x then under_way o' - under_way o else 0) else 0
lost q iq x o o' = 0

unfoldable pub is_message : Call → Bool
is_message (receives_publish iq mode) = true
is_message c = false

network_error_lost :
    (x : Reported) → x ≡ network_error → (is_new x ≡ 0) × (is_network_error x ≡ true)
unfolding is_new is_network_error
network_error_lost x h = (ap is_new h, ap is_network_error h)

reported-publish :
    (e : Event) (x : Reported)
    → report_publish e ≡ returned x
    → (is_new x ≡ is_publish e) × (is_network_error x ≡ false)
unfolding is_new is_network_error report_publish is_publish
reported-publish e x h = (ground arith, ground arith)

other_delivers :
    (c : Call) (q : PacketIdentifier) (a : Answer) → is_message c ≡ false → delivered c q a ≡ 0
unfolding is_message delivered
other_delivers c q a h = ground arith

message-Balanced :
    (q : PacketIdentifier) (iq : IdentifiedQos) (mode : AckMode) (r : Response) (e : Event)
    (x : Reported) (o o' : Peer)
    → (x ≡ network_error) ⊎ (report_publish e ≡ returned x)
    → Balanced o o' (delivered (receives_publish iq mode) q (replied r e))
    → Balanced o o' (handed q iq x + lost q iq x o o')
unfolding handed lost delivered ends
message-Balanced q IdentifiedQos.at_most_once mode r e x o o' told balanced = balanced
message-Balanced q (IdentifiedQos.at_least_once p) mode r e x o o' told balanced = balanced
message-Balanced q (IdentifiedQos.exactly_once p) mode r e x o o' told balanced =
    elim (Bool-cases (p == q)) [
      | inl same ↦ elim told [
        | inl broken ↦ ground (arith, network_error_lost x broken)
        | inr done ↦ ground (arith, reported-publish e x done)
      ]
      | inr other ↦ ground arith
    ]

module _ (vec : HeaplessVec) (limits : Limits) where
  -- A history of the client: a PUBLISH of the server is polled, with a transport that takes the
  -- client's answer or not, and any other call returns.
  pub data History : Session → Session → Type 0 where
    stop : {s : Session} → History s s
    polled :
        {s t u : Session}
        → (transmits : Packet → Bool) (iq : IdentifiedQos) (mode : AckMode) (a : Action)
          (x : Reported)
        → poll_publish transmits vec limits s iq mode ≡ returned (t, a, x)
        → History t u
        → History s u
    called :
        {s t u : Session}
        → (c : Call) (a : Answer) → is_message c ≡ false
        → step vec limits s c ≡ returned (t, a)
        → History t u
        → History s u

module _ {vec : HeaplessVec} {limits : Limits} where
  -- The messages at level 2 under `q` that a history hands to the user as new ones, those that are
  -- lost with the network, and the handshakes at level 2 under `q` that it ends.
  unfoldable pub all_handed : {s u : Session} → PacketIdentifier → History vec limits s u → ℕ
  unfolding handed
  all_handed q stop = 0
  all_handed q (polled transmits iq mode a x e h) = handed q iq x + all_handed q h
  all_handed q (called c a other e h) = all_handed q h

  unfoldable pub all_lost : {s u : Session} → PacketIdentifier → History vec limits s u → ℕ
  unfolding lost
  all_lost q stop = 0
  all_lost {s} q (polled {t = t} transmits iq mode a x e h) =
      lost q iq x (peer_of s q) (peer_of t q) + all_lost q h
  all_lost q (called c a other e h) = all_lost q h

  unfoldable pub all_ended : {s u : Session} → PacketIdentifier → History vec limits s u → ℕ
  all_ended q stop = 0
  all_ended {s} q (polled {t = t} transmits iq mode a x e h) =
      ends (peer_of s q) (peer_of t q) + all_ended q h
  all_ended {s} q (called {t = t} c a other e h) = ends (peer_of s q) (peer_of t q) + all_ended q h

  -- From a valid session on, over every history of the client's calls, in which each PUBLISH of the
  -- server is polled with a transport that takes the client's answer or not, and whatever
  -- retransmissions, reconnections and calls of the user come in any order: the messages at level 2
  -- under an identifier that poll hands to the user as new ones, plus those whose handshake is
  -- started by a poll that returns an error of the network instead, plus one if a handshake was
  -- under way before, are the handshakes that are ended, plus one if a handshake is left under way.
  pub handed-ended :
      IsHeaplessVec vec
      → {s u : Session} (q : PacketIdentifier) (h : History vec limits s u) → IsValid limits s
      → all_handed q h + all_lost q h + under_way (peer_of s q)
        ≡ under_way (peer_of u q) + all_ended q h
  unfolding all_handed all_lost all_ended poll_publish step
  handed-ended laws q stop v = omega arith
  handed-ended laws {s} q (called {t = t} c a other e h) v =
      let st = Stepped-of vec laws v c a e in
      let rest = handed-ended laws q h st.valid in
      omega (arith, rest, Stepped-Balanced c a q st, other_delivers c q a other)
  handed-ended laws {s} q (polled {t = t} transmits iq mode a x e h) v =
      let (r, ev, session_did, told) =
        subst (Tells (inbound_publish vec limits s iq mode) report_publish) e (
          finish-Tells transmits (answer_publish iq) report_publish
            (inbound_publish vec limits s iq mode)) in
      let c = receives_publish iq mode in
      let st = Stepped-of vec laws v c (replied r ev) (ap of_reply session_did) in
      let rest = handed-ended laws q h st.valid in
      let balanced =
        message-Balanced q iq mode r ev x (peer_of s q) (peer_of t q) told
          (Stepped-Balanced c (replied r ev) q st) in
      omega (arith, rest, balanced)
