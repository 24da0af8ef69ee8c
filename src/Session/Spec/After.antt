-- ===== src/Session/Spec/After.antt =====
-- What a call of the client makes of the publication under one packet identifier.
use rust_mqtt.Prelude.{ℕ, Bool, true, false, ◌==◌, if◌then◌else◌, none}
use rust_mqtt.Types.Pid.{PacketIdentifier}
use rust_mqtt.Types.Qos.{Qos, IdentifiedQos}
use rust_mqtt.Session.LocalState
use rust_mqtt.Session.PeerState
use rust_mqtt.Session.PeerState.{PeerPublishState}
use rust_mqtt.Session.State.{Event, publish}
use rust_mqtt.Session.Calls.{
  Call, connects, republishes, receives_publish, receives_puback, receives_pubrec, receives_pubrel,
  receives_pubcomp, sends_puback, sends_pubrel, sends_pubcomp, sends_pubrec, Answer, replied,
}
use rust_mqtt.Session.Spec.Peer.{
  Peer, on_publish, on_pubrel, on_send_puback, on_send_pubrec, on_send_pubcomp,
}
use rust_mqtt.Session.Spec.Local.{
  Local, on_puback, on_pubrec, on_pubcomp, on_republish, on_send_pubrel,
}
use mathlib.Core.Option

-- The server's publication `q`, where `room` tells whether a new one would be tracked.
unfoldable pub peer_after : Bool → Call → PacketIdentifier → Peer → Peer
peer_after room (connects true) q o = Option.map PeerState.reconnected o
peer_after room (connects false) q o = none
peer_after room (receives_publish IdentifiedQos.at_most_once mode) q o = o
peer_after room (receives_publish (IdentifiedQos.at_least_once p) mode) q o =
    if p == q then (on_publish room Qos.at_least_once mode o).0 else o
peer_after room (receives_publish (IdentifiedQos.exactly_once p) mode) q o =
    if p == q then (on_publish room Qos.exactly_once mode o).0 else o
peer_after room (receives_pubrel p rc) q o = if p == q then (on_pubrel rc o).0 else o
peer_after room (sends_puback p) q o = if p == q then (on_send_puback o).0 else o
peer_after room (sends_pubrec p rc) q o = if p == q then (on_send_pubrec rc o).0 else o
peer_after room (sends_pubcomp p) q o = if p == q then (on_send_pubcomp o).0 else o
peer_after room c q o = o

-- The client's publication `q`, unless the call starts it.
unfoldable pub local_after : Call → PacketIdentifier → Local → Local
local_after (connects true) q o = Option.map LocalState.reconnected o
local_after (connects false) q o = none
local_after (republishes IdentifiedQos.at_most_once) q o = o
local_after (republishes (IdentifiedQos.at_least_once p)) q o =
    if p == q then (on_republish Qos.at_least_once o).0 else o
local_after (republishes (IdentifiedQos.exactly_once p)) q o =
    if p == q then (on_republish Qos.exactly_once o).0 else o
local_after (receives_puback p rc) q o = if p == q then (on_puback rc o).0 else o
local_after (receives_pubrec p rc) q o = if p == q then (on_pubrec rc o).0 else o
local_after (receives_pubcomp p rc) q o = if p == q then (on_pubcomp rc o).0 else o
local_after (sends_pubrel p) q o = if p == q then (on_send_pubrel o).0 else o
local_after c q o = o

-- 1 for the event by which the session has a message handed to the user as a new one.
unfoldable pub is_publish : Event → ℕ
is_publish publish = 1
is_publish e = 0

-- How many messages at level 2 under `q` the session lets the client hand over as new ones, by its
-- answer to a call.
unfoldable pub delivered : Call → PacketIdentifier → Answer → ℕ
unfolding is_publish
delivered (receives_publish (IdentifiedQos.exactly_once p) mode) q (replied r e) =
    if p == q then is_publish e else 0
delivered c q a = 0

-- What `delivered` is by the handshake of `q`.
unfoldable pub delivered_after : Bool → Call → PacketIdentifier → Peer → ℕ
unfolding is_publish
delivered_after room (receives_publish (IdentifiedQos.exactly_once p) mode) q o =
    if p == q then is_publish (on_publish room Qos.exactly_once mode o).2 else 0
delivered_after room c q o = 0
