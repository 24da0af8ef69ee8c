-- ===== src/Session/Run.antt =====
-- Histories of calls: they never fail and keep the session valid.
use rust_mqtt.Prelude.{◌≡◌, Outcome, returned, panicked, sym, ◌∙◌, subst}
use rust_mqtt.Vec.{HeaplessVec, IsHeaplessVec}
use rust_mqtt.Session.State.{Session, Limits}
use rust_mqtt.Session.View.{IsValid}
use rust_mqtt.Session.Calls.{
  Call, connects, subscribes, unsubscribes, receives_suback, receives_unsuback, publishes,
  republishes, receives_publish, receives_puback, receives_pubrec, receives_pubrel,
  receives_pubcomp, sends_puback, sends_pubrel, sends_pubcomp, sends_pubrec, Answer, step, Run,
  stop, next,
}
use rust_mqtt.Session.Step.{Stepped, Steps}
use rust_mqtt.Session.Step.Packets.{
  Steps-publish, Steps-republish, Steps-puback, Steps-pubrec, Steps-pubrel, Steps-pubcomp,
  Steps-send_puback, Steps-send_pubrec, Steps-send_pubrel, Steps-send_pubcomp,
}
use rust_mqtt.Session.Step.Flows.{
  Steps-connect, Steps-subscribe, Steps-unsubscribe, Steps-suback, Steps-unsuback,
}
use rust_mqtt.Session.Step.Publishes.{Steps-publishes}

abbrev AfterOutcome : Limits → Session → Call → Outcome (Session × Answer) → Type 0
AfterOutcome limits s c (returned r) = Stepped limits s c r.0 r.1
AfterOutcome limits s c panicked = Unit

module _ (vec : HeaplessVec) (laws : IsHeaplessVec vec) {limits : Limits} where
  -- In a valid session every call of the client on its session returns: in the session no assertion
  -- fails, no unwrap finds nothing and no branch marked unreachable is reached. The session it
  -- leaves is valid. Under every packet identifier the publications of both sides become what the
  -- abstract handshakes say, and so does the session's answer: the response and the event for a
  -- packet about a publication, at either level, and the result of a request of the user about one.
  -- A request to publish, subscribe or unsubscribe starts exactly one flow of its kind, under an
  -- unused identifier, and changes nothing else; or all identifiers are in use or there is no room
  -- for the flow, it is told so, and it changes nothing; or it does not reach the session, at level
  -- 0 or for manual acknowledgement at level 1. The answer to a subscription or an unsubscription
  -- ends it if it is tracked, and a connection forgets all of them.
  pub step_total : {s : Session} → IsValid limits s → (c : Call) → Steps vec limits s c
  step_total v (connects present) = Steps-connect vec laws v present
  step_total v subscribes = Steps-subscribe vec laws v
  step_total v unsubscribes = Steps-unsubscribe vec laws v
  step_total v (receives_suback p) = Steps-suback vec laws v p
  step_total v (receives_unsuback p) = Steps-unsuback vec laws v p
  step_total v (publishes qos mode) = Steps-publishes vec laws v qos mode
  step_total v (republishes iq) = Steps-republish vec laws v iq
  step_total v (receives_publish iq mode) = Steps-publish vec laws v iq mode
  step_total v (receives_puback p rc) = Steps-puback vec laws v p rc
  step_total v (receives_pubrec p rc) = Steps-pubrec vec laws v p rc
  step_total v (receives_pubrel p rc) = Steps-pubrel vec laws v p rc
  step_total v (receives_pubcomp p rc) = Steps-pubcomp vec laws v p rc
  step_total v (sends_puback p) = Steps-send_puback vec laws v p
  step_total v (sends_pubrel p) = Steps-send_pubrel vec laws v p
  step_total v (sends_pubcomp p) = Steps-send_pubcomp vec laws v p
  step_total v (sends_pubrec p rc) = Steps-send_pubrec vec laws v p rc

  -- `step` is a function, so a call that returned did what `step_total` tells.
  pub Stepped-of :
      {s s' : Session}
      → IsValid limits s
      → (c : Call) (a : Answer) → step vec limits s c ≡ returned (s', a)
      → Stepped limits s c s' a
  Stepped-of {s} {s'} v c a e =
      let (t, b, e', st) = step_total v c in subst (AfterOutcome limits s c) (sym e' ∙ e) st

  -- Every history of calls that starts at a valid session leaves a valid one: no packet identifier
  -- twice in a vector or in two flows of the client, and no vector longer than its capacity or than
  -- 16 bits count.
  pub Run-IsValid : {s u : Session} → Run vec limits s u → IsValid limits s → IsValid limits u
  Run-IsValid stop v = v
  Run-IsValid (next c a e r) v = Run-IsValid r (Stepped-of v c a e).valid
