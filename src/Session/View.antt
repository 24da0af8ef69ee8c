-- ===== src/Session/View.antt =====
-- A session seen through its lookups, the invariant of its vectors, and what one step of a handshake
-- may change.
use rust_mqtt.Prelude.{◌≤◌, ◌≡◌, ◌⊎◌, ◌==◌, if◌then◌else◌, Option, none, length, min}
use rust_mqtt.Keyed.{lookup, Unique}
use rust_mqtt.Types.Pid.{PacketIdentifier}
use rust_mqtt.Session.LocalState.{LocalPublishState}
use rust_mqtt.Session.PeerState.{PeerPublishState}
use rust_mqtt.Session.State.{Session, Limits, self_key, inbound_key, outbound_key}
use mathlib.Core.Option

-- The state of the server's publication under an identifier, if it is tracked.
unfoldable pub peer_of : Session → PacketIdentifier → Option PeerPublishState
peer_of s p = Option.map (λ e. e.1) (lookup inbound_key p s.inbound_publishes)

-- The state of the client's publication under an identifier, if it is tracked.
unfoldable pub local_of : Session → PacketIdentifier → Option LocalPublishState
local_of s p = Option.map (λ e. e.1) (lookup outbound_key p s.outbound_publishes)

unfoldable pub sub_of : Session → PacketIdentifier → Option PacketIdentifier
sub_of s p = lookup self_key p s.subs

unfoldable pub unsub_of : Session → PacketIdentifier → Option PacketIdentifier
unsub_of s p = lookup self_key p s.unsubs

-- A client packet identifier stands for one flow at most.
pub record IsOneFlow (s : Session) (p : PacketIdentifier) : Type 0 where
  pub sub_or_unsub : (sub_of s p ≡ none) ⊎ (unsub_of s p ≡ none)
  pub sub_or_local : (sub_of s p ≡ none) ⊎ (local_of s p ≡ none)
  pub unsub_or_local : (unsub_of s p ≡ none) ⊎ (local_of s p ≡ none)

-- The invariant: no identifier twice in a vector or in two flows of the client, and no vector longer
-- than its capacity or than 16 bits count.
pub record IsValid (limits : Limits) (s : Session) : Type 0 where
  pub subs_unique : Unique self_key s.subs
  pub unsubs_unique : Unique self_key s.unsubs
  pub inbound_unique : Unique inbound_key s.inbound_publishes
  pub outbound_unique : Unique outbound_key s.outbound_publishes
  pub subs_fit : length s.subs ≤ limits.subscribe_maximum
  pub unsubs_fit : length s.unsubs ≤ limits.subscribe_maximum
  pub inbound_fits : length s.inbound_publishes ≤ min limits.receive_maximum 65535
  pub outbound_fits : length s.outbound_publishes ≤ min limits.send_maximum 65535
  pub one_flow : (p : PacketIdentifier) → IsOneFlow s p

-- Only the server's publication `p` changes, to `o`.
pub record InboundStep (s s' : Session) (p : PacketIdentifier) (o : Option PeerPublishState)
    : Type 0 where
  pub peers : (q : PacketIdentifier) → peer_of s' q ≡ (if p == q then o else peer_of s q)
  pub same_outbound : s'.outbound_publishes ≡ s.outbound_publishes
  pub same_subs : s'.subs ≡ s.subs
  pub same_unsubs : s'.unsubs ≡ s.unsubs

-- Only the client's publication `p` changes, to `o`.
pub record OutboundStep (s s' : Session) (p : PacketIdentifier) (o : Option LocalPublishState)
    : Type 0 where
  pub locals : (q : PacketIdentifier) → local_of s' q ≡ (if p == q then o else local_of s q)
  pub same_inbound : s'.inbound_publishes ≡ s.inbound_publishes
  pub same_subs : s'.subs ≡ s.subs
  pub same_unsubs : s'.unsubs ≡ s.unsubs
