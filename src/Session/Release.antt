-- ===== src/Session/Release.antt =====
-- The client's publications at level 2 once their PUBREC has been received.
use rust_mqtt.Prelude.{
  ◌≡◌, ◌==◌, if◌then◌else◌, refl, ◌⊎◌, inl, inr, Bool, true, false, none, some, returned, arith,
}
use rust_mqtt.Vec.{HeaplessVec, IsHeaplessVec}
use rust_mqtt.Types.Pid.{PacketIdentifier}
use rust_mqtt.Types.Qos.{Qos, IdentifiedQos}
use rust_mqtt.Types.ReasonCode.{ReasonCode}
use rust_mqtt.Session.LocalState
use rust_mqtt.Session.LocalState.{LocalPublishState, due_rel, await_comp}
use rust_mqtt.Session.State.{Session, Limits}
use rust_mqtt.Session.View.{local_of, IsValid}
use rust_mqtt.Session.Calls.{
  Call, connects, subscribes, unsubscribes, receives_suback, receives_unsuback, publishes,
  republishes, receives_publish, receives_puback, receives_pubrec, receives_pubrel,
  receives_pubcomp, sends_puback, sends_pubrel, sends_pubcomp, sends_pubrec, Answer, step,
}
use rust_mqtt.Session.Spec.Local.{
  Local, on_puback, on_pubrec, on_pubcomp, on_republish, on_send_pubrel,
}
use rust_mqtt.Session.Spec.After.{local_after}
use rust_mqtt.Session.Run.{Stepped-of}
use mathlib.Core.Option

-- The PUBREC of the publication has been received: its PUBREL is due or sent.
unfoldable pub is_received : Local → Bool
is_received (some (due_rel mode)) = true
is_received (some (await_comp mode)) = true
is_received o = false

abbrev Final : Local → Local → Type 0
Final o o' = is_received o ≡ true → (o' ≡ none) ⊎ (is_received o' ≡ true)

Final-puback : (rc : ReasonCode) (o : Local) → Final o (on_puback rc o).0
unfolding is_received on_puback
Final-puback rc o = λ h. ground arith

Final-pubrec : (rc : ReasonCode) (o : Local) → Final o (on_pubrec rc o).0
unfolding is_received on_pubrec
Final-pubrec rc o = λ h. ground arith

Final-pubcomp : (rc : ReasonCode) (o : Local) → Final o (on_pubcomp rc o).0
unfolding is_received on_pubcomp
Final-pubcomp rc o = λ h. ground arith

Final-republish : (qos : Qos) (o : Local) → Final o (on_republish qos o).0
unfolding is_received on_republish
Final-republish qos o = λ h. ground arith

Final-send_pubrel : (o : Local) → Final o (on_send_pubrel o).0
unfolding is_received on_send_pubrel
Final-send_pubrel o = λ h. ground arith

Final-reconnected : (o : Local) → Final o (Option.map LocalState.reconnected o)
unfolding is_received LocalState.reconnected
Final-reconnected o = λ h. ground arith

Final-same :
    (p q : PacketIdentifier) (o o' : Local) → Final o o' → Final o (if p == q then o' else o)
Final-same p q o o' f = λ h. ground (arith, f h)

Final-kept : (o : Local) → Final o o
Final-kept o = λ h. inr h

Final-after : (c : Call) (q : PacketIdentifier) (o : Local) → Final o (local_after c q o)
unfolding local_after
Final-after (connects true) q o = Final-reconnected o
Final-after (connects false) q o = λ h. inl refl
Final-after (republishes IdentifiedQos.at_most_once) q o = Final-kept o
Final-after (republishes (IdentifiedQos.at_least_once p)) q o =
    Final-same p q o _ (Final-republish Qos.at_least_once o)
Final-after (republishes (IdentifiedQos.exactly_once p)) q o =
    Final-same p q o _ (Final-republish Qos.exactly_once o)
Final-after (receives_puback p rc) q o = Final-same p q o _ (Final-puback rc o)
Final-after (receives_pubrec p rc) q o = Final-same p q o _ (Final-pubrec rc o)
Final-after (receives_pubcomp p rc) q o = Final-same p q o _ (Final-pubcomp rc o)
Final-after (sends_pubrel p) q o = Final-same p q o _ (Final-send_pubrel o)
Final-after subscribes q o = Final-kept o
Final-after unsubscribes q o = Final-kept o
Final-after (receives_suback p) q o = Final-kept o
Final-after (receives_unsuback p) q o = Final-kept o
Final-after (publishes qos mode) q o = Final-kept o
Final-after (receives_publish iq mode) q o = Final-kept o
Final-after (receives_pubrel p rc) q o = Final-kept o
Final-after (sends_puback p) q o = Final-kept o
Final-after (sends_pubrec p rc) q o = Final-kept o
Final-after (sends_pubcomp p) q o = Final-kept o

-- Once the PUBREC of a publication has been received, every call that returns, from a valid
-- session, a reconnection included, ends the publication or leaves its PUBREL due or sent: it never
-- waits again for its PUBLISH to be sent or acknowledged.
pub received-Final :
    (vec : HeaplessVec) (laws : IsHeaplessVec vec) (limits : Limits) {s s' : Session}
    → IsValid limits s
    → (c : Call) (a : Answer) (q : PacketIdentifier) → step vec limits s c ≡ returned (s', a)
    → is_received (local_of s q) ≡ true
    → (local_of s' q ≡ none) ⊎ (is_received (local_of s' q) ≡ true)
unfolding is_received
received-Final vec laws limits {s} v c a q e h = elim ((Stepped-of vec laws v c a e).locals q) [
  | inl same ↦ rw same (Final-after c q (local_of s q) h)
  | inr (qos, mode, st, d, absent, i, w) ↦ grind arith
]
