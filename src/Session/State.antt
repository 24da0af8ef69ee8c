-- ===== src/Session/State.antt =====
-- src/session/mod.rs: what an operation answers, the session record with its lookups, and the
-- bookkeeping that does not depend on a handshake.
use rust_mqtt.Prelude.{
  ℕ, ◌^◌, min, ltb, Bool, true, false, if◌then◌else◌, Option, none, some, List, [], length, map,
  Outcome, returned, panicked, ◌>>=◌, ◌>>◌,
}
use rust_mqtt.Keyed.{position}
use rust_mqtt.Types.AckMode.{AckMode}
use rust_mqtt.Types.Pid.{PacketIdentifier}
use rust_mqtt.Types.ReasonCode.{ReasonCode}
use rust_mqtt.Session.LocalState.{LocalPublishState}
use rust_mqtt.Session.LocalState
use rust_mqtt.Session.PeerState.{PeerPublishState}
use rust_mqtt.Session.PeerState
use mathlib.Core.Option
use rust_mqtt.Vec.{HeaplessVec}

pub data Response : Type 0 where
  nothing : Response
  acknowledge receive release complete disconnect : ReasonCode → Response

pub data Error : Type 0 where
  no_capacity packet_identifier_unused qos_mismatched handshake_state_mismatched : Error

pub data Event : Type 0 where
  publish : Event
  duplicate : AckMode → Event
  ignored : Event
  acknowledged : Event
  received released : AckMode → Event
  completed aborted rejected server_error : Event

-- `Result<(), Error>`
pub data Result : Type 0 where
  ok : Result
  err : Error → Result

-- The const generics of `Session`.
pub record Limits : Type 0 where
  pub subscribe_maximum : ℕ
  pub receive_maximum : ℕ
  pub send_maximum : ℕ

abbrev pub Inbound : Type 0
Inbound = PacketIdentifier × PeerPublishState

abbrev pub Outbound : Type 0
Outbound = PacketIdentifier × LocalPublishState

pub record Session : Type 0 where
  pub subs : List PacketIdentifier
  pub unsubs : List PacketIdentifier
  pub inbound_publishes : List Inbound
  pub outbound_publishes : List Outbound

abbrev pub self_key : PacketIdentifier → PacketIdentifier
self_key p = p

abbrev pub inbound_key : Inbound → PacketIdentifier
inbound_key e = e.0

abbrev pub outbound_key : Outbound → PacketIdentifier
outbound_key e = e.0

-- The handles borrow the session mutably: a method that consumes its handle returns the session.
pub record SubHandle : Type 0 where
  pub session : Session
  pub i : ℕ

pub record UnsubHandle : Type 0 where
  pub session : Session
  pub i : ℕ

pub record InboundHandle : Type 0 where
  pub session : Session
  pub i : ℕ
  pub state : PeerPublishState

pub record OutboundHandle : Type 0 where
  pub session : Session
  pub i : ℕ
  pub state : LocalPublishState

pub record FreeHandle : Type 0 where
  pub session : Session
  pub packet_identifier : PacketIdentifier

unfoldable pub sub_handle : Session → PacketIdentifier → Option SubHandle
sub_handle s p = Option.map (λ r. record { session = s; i = r.0 }) (position self_key p s.subs)

unfoldable pub unsub_handle : Session → PacketIdentifier → Option UnsubHandle
unsub_handle s p = Option.map (λ r. record { session = s; i = r.0 }) (position self_key p s.unsubs)

unfoldable pub inbound_handle : Session → PacketIdentifier → Option InboundHandle
inbound_handle s p =
    Option.map (λ r. record { session = s; i = r.0; state = r.1.1 })
      (position inbound_key p s.inbound_publishes)

unfoldable pub outbound_handle : Session → PacketIdentifier → Option OutboundHandle
outbound_handle s p =
    Option.map (λ r. record { session = s; i = r.0; state = r.1.1 })
      (position outbound_key p s.outbound_publishes)

-- `self.inbound_publishes.len() as u16`, after the debug assertion that it fits.
unfoldable pub active_inbound_publishes : Session → Outcome ℕ
active_inbound_publishes s =
    let n : ℕ = length s.inbound_publishes in if ltb n (2 ^ 16) then returned n else panicked

unfoldable pub active_outbound_publishes : Session → Outcome ℕ
active_outbound_publishes s =
    let n : ℕ = length s.outbound_publishes in if ltb n (2 ^ 16) then returned n else panicked

unfoldable pub clear : Session → Session
clear s = record { subs = []; unsubs = []; inbound_publishes = []; outbound_publishes = [] }

unfoldable pub reconnect : Session → Session
reconnect s = record {
  subs = [];
  unsubs = [];
  inbound_publishes = map (λ e. (e.0, PeerState.reconnected e.1)) s.inbound_publishes;
  outbound_publishes = map (λ e. (e.0, LocalState.reconnected e.1)) s.outbound_publishes;
}

module _ (limits : Limits) where
  unfoldable pub available_inbound_publish_capacity : Session → Outcome Bool
  unfolding active_inbound_publishes
  available_inbound_publish_capacity s = do
    let capacity = min limits.receive_maximum 65535
    active ← active_inbound_publishes s
    returned (ltb active capacity)

  unfoldable pub available_outbound_publish_capacity : Session → Outcome Bool
  unfolding active_outbound_publishes
  available_outbound_publish_capacity s = do
    let capacity = min limits.send_maximum 65535
    active ← active_outbound_publishes s
    returned (ltb active capacity)

-- `debug_assert!`
abbrev pub assert : Bool → Outcome (Unit {0})
assert true = returned tt
assert false = panicked

-- `.unwrap()`
abbrev pub unwrap {ℓ} : {A : Type ℓ} → Option A → Outcome A
unwrap (some a) = returned a
unwrap none = panicked

abbrev pub is_none {ℓ} : {A : Type ℓ} → Option A → Bool
is_none none = true
is_none (some a) = false

module _ (vec : HeaplessVec) (limits : Limits) where
  unfoldable pub schedule_inbound : Session → PacketIdentifier → PeerPublishState → Outcome Session
  unfolding available_inbound_publish_capacity inbound_handle
  schedule_inbound s p state = do
    room ← available_inbound_publish_capacity limits s
    assert room
    assert (is_none (inbound_handle s p))
    entries ← unwrap (vec.push limits.receive_maximum s.inbound_publishes (p, state))
    returned (record s { inbound_publishes = entries })

  unfoldable pub schedule_outbound :
      Session → PacketIdentifier → LocalPublishState → Outcome Session
  unfolding available_outbound_publish_capacity outbound_handle sub_handle unsub_handle
  schedule_outbound s p state = do
    room ← available_outbound_publish_capacity limits s
    assert room
    assert (is_none (outbound_handle s p))
    assert (is_none (sub_handle s p))
    assert (is_none (unsub_handle s p))
    entries ← unwrap (vec.push limits.send_maximum s.outbound_publishes (p, state))
    returned (record s { outbound_publishes = entries })
