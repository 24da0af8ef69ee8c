-- ===== src/Session/Calls.antt =====
-- src/client/mod.rs: the calls by which the client drives its session, one for each method of the
-- user and each packet of the server that touches it, and the runs made of them.
use rust_mqtt.Prelude.{Bool, true, false, ◌≡◌, if◌then◌else◌, none, some, Outcome, returned, ◌>>=◌}
use rust_mqtt.Types.AckMode.{AckMode, automatic, manual}
use rust_mqtt.Types.Pid.{PacketIdentifier}
use rust_mqtt.Types.Qos.{Qos, IdentifiedQos}
use rust_mqtt.Types.ReasonCode.{ReasonCode}
use rust_mqtt.Vec.{HeaplessVec}
use rust_mqtt.Session.State.{
  Session, Limits, FreeHandle, Response, Event, Result, sub_handle, unsub_handle, unwrap, clear,
  reconnect,
}
use rust_mqtt.Session.FreeHandle.{
  outbound_sub, outbound_unsub, outbound_publish, remove_sub, remove_unsub,
}
use rust_mqtt.Session.InboundHandle.{Reply}
use rust_mqtt.Session.Ops.{
  free_handle, outbound_republish, outbound_pubrel, outbound_puback, outbound_pubrec,
  outbound_pubcomp, inbound_publish, inbound_puback, inbound_pubrec, inbound_pubrel,
  inbound_pubcomp,
}

pub data Call : Type 0 where
  connects : (session_present : Bool) → Call
  subscribes unsubscribes : Call
  receives_suback receives_unsuback : PacketIdentifier → Call
  publishes : Qos → AckMode → Call
  republishes : IdentifiedQos → Call
  receives_publish : IdentifiedQos → AckMode → Call
  receives_puback receives_pubrec receives_pubrel receives_pubcomp :
      PacketIdentifier → ReasonCode → Call
  sends_puback sends_pubrel sends_pubcomp : PacketIdentifier → Call
  sends_pubrec : PacketIdentifier → ReasonCode → Call

pub data Answer : Type 0 where
  -- A packet was handled.
  replied : Response → Event → Answer
  -- The user's request was tracked, or refused by the session.
  resulted : Result → Answer
  -- A request did not reach the session: the client refused it, or it is a PUBLISH at level 0.
  refused : Answer
  finished : Answer

abbrev pub of_reply : Outcome Reply → Outcome (Session × Answer)
of_reply m = m >>= λ r. returned (r.0, replied r.1 r.2)

abbrev pub of_result : Outcome (Session × Result) → Outcome (Session × Answer)
of_result m = m >>= λ r. returned (r.0, resulted r.1)

-- `publish` returns `ManualAckNotAllowed` for manual acknowledgement below level 2, and tracks
-- nothing at level 0.
unfoldable pub tracks_publish : Qos → AckMode → Bool
tracks_publish Qos.at_most_once mode = false
tracks_publish Qos.at_least_once automatic = true
tracks_publish Qos.at_least_once manual = false
tracks_publish Qos.exactly_once mode = true

-- `let Some(handle) = self.session.free_handle() else { return Err(AllPacketIdentifiersUsed) }`
unfoldable pub with_free :
    Session → (FreeHandle → Outcome (Session × Result)) → Outcome (Session × Answer)
with_free s use_handle = do
  free ← unwrap (free_handle s)
  elim free [ some h ↦ of_result (use_handle h) | none ↦ returned (s, refused) ]

-- `connect` once the CONNACK is accepted; a session present on a clean start is not.
abbrev pub connected : Bool → Session → Session
connected true s = reconnect s
connected false s = clear s

module _ (vec : HeaplessVec) (limits : Limits) where
  abbrev pub subscribe : Session → Outcome (Session × Answer)
  subscribe s = with_free s (λ h. returned (outbound_sub vec limits h))

  abbrev pub unsubscribe : Session → Outcome (Session × Answer)
  unsubscribe s = with_free s (λ h. returned (outbound_unsub vec limits h))

  unfoldable pub handle_suback : Session → PacketIdentifier → Outcome (Session × Answer)
  handle_suback s p = elim (sub_handle s p) [
    | some h ↦ (do s' ← remove_sub vec h; returned (s', finished))
    | none ↦ returned (s, finished)
  ]

  unfoldable pub handle_unsuback : Session → PacketIdentifier → Outcome (Session × Answer)
  handle_unsuback s p = elim (unsub_handle s p) [
    | some h ↦ (do s' ← remove_unsub vec h; returned (s', finished))
    | none ↦ returned (s, finished)
  ]

  abbrev pub start_publish : Session → Qos → AckMode → Outcome (Session × Answer)
  start_publish s qos mode =
      if tracks_publish qos mode
      then with_free s (λ h. outbound_publish vec limits h qos mode)
      else returned (s, refused)

  -- The change of the session by each call.
  unfoldable pub step : Session → Call → Outcome (Session × Answer)
  step s (connects session_present) = returned (connected session_present s, finished)
  step s subscribes = subscribe s
  step s unsubscribes = unsubscribe s
  step s (receives_suback p) = handle_suback s p
  step s (receives_unsuback p) = handle_unsuback s p
  step s (publishes qos mode) = start_publish s qos mode
  step s (republishes iq) = of_result (outbound_republish s iq)
  step s (receives_publish iq mode) = of_reply (inbound_publish vec limits s iq mode)
  step s (receives_puback p rc) = of_reply (inbound_puback vec s p rc)
  step s (receives_pubrec p rc) = of_reply (inbound_pubrec vec s p rc)
  step s (receives_pubrel p rc) = of_reply (inbound_pubrel vec s p rc)
  step s (receives_pubcomp p rc) = of_reply (inbound_pubcomp vec s p rc)
  step s (sends_puback p) = of_result (outbound_puback vec s p)
  step s (sends_pubrec p rc) = of_result (outbound_pubrec vec s p rc)
  step s (sends_pubrel p) = of_result (outbound_pubrel s p)
  step s (sends_pubcomp p) = of_result (outbound_pubcomp vec s p)

  -- A history of calls, each of which returns.
  pub data Run : Session → Session → Type 0 where
    stop : {s : Session} → Run s s
    next :
        {s t u : Session} → (c : Call) (a : Answer) → step s c ≡ returned (t, a) → Run t u → Run s u
