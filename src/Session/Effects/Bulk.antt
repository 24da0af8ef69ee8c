-- ===== src/Session/Effects/Bulk.antt =====
-- `clear` and `reconnect`, which change all entries at once.
use rust_mqtt.Prelude.{◌≡◌, refl, inl, none, length-map, arith}
use rust_mqtt.Keyed.{lookup}
use rust_mqtt.Keyed.Map.{lookup-map, map-Unique}
use rust_mqtt.Types.Pid.{PacketIdentifier}
use rust_mqtt.Session.LocalState
use rust_mqtt.Session.PeerState
use rust_mqtt.Session.State.{Session, Limits, inbound_key, outbound_key, clear, reconnect}
use rust_mqtt.Session.View.{peer_of, local_of, sub_of, unsub_of, IsValid}
use mathlib.Core.Option

pub clear-IsValid : (limits : Limits) (s : Session) → IsValid limits (clear s)
unfolding clear sub_of unsub_of local_of lookup
clear-IsValid limits s = record {
  subs_unique = tt;
  unsubs_unique = tt;
  inbound_unique = tt;
  outbound_unique = tt;
  subs_fit = omega arith;
  unsubs_fit = omega arith;
  inbound_fits = omega arith;
  outbound_fits = omega arith;
  one_flow =
      λ p. record { sub_or_unsub = inl refl; sub_or_local = inl refl; unsub_or_local = inl refl };
}

pub reconnect-IsValid :
    {limits : Limits} {s : Session} → IsValid limits s → IsValid limits (reconnect s)
unfolding reconnect sub_of unsub_of local_of lookup
reconnect-IsValid {s} v = record {
  subs_unique = tt;
  unsubs_unique = tt;
  inbound_unique = map-Unique inbound_key _ (λ x. refl) s.inbound_publishes v.inbound_unique;
  outbound_unique = map-Unique outbound_key _ (λ x. refl) s.outbound_publishes v.outbound_unique;
  subs_fit = omega arith;
  unsubs_fit = omega arith;
  inbound_fits = rw length-map v.inbound_fits;
  outbound_fits = rw length-map v.outbound_fits;
  one_flow =
      λ p. record { sub_or_unsub = inl refl; sub_or_local = inl refl; unsub_or_local = inl refl };
}

-- A reconnection keeps each publication of both sides, in its state for the next connection, and
-- forgets every subscription and unsubscription that waits for an answer.
pub reconnect-lookups :
    (s : Session) (p : PacketIdentifier)
    → (peer_of (reconnect s) p ≡ Option.map PeerState.reconnected (peer_of s p))
      × (local_of (reconnect s) p ≡ Option.map LocalState.reconnected (local_of s p))
      × (sub_of (reconnect s) p ≡ none)
      × (unsub_of (reconnect s) p ≡ none)
unfolding reconnect peer_of local_of sub_of unsub_of lookup
reconnect-lookups s p = (
  ground (
    arith,
    lookup-map inbound_key (λ e. (e.0, PeerState.reconnected e.1)) (λ x. refl) p
        s.inbound_publishes,
  ),
  ground (
    arith,
    lookup-map outbound_key (λ e. (e.0, LocalState.reconnected e.1)) (λ x. refl) p
        s.outbound_publishes,
  ),
  refl,
  refl,
)

pub clear-lookups :
    (s : Session) (p : PacketIdentifier)
    → (peer_of (clear s) p ≡ none)
      × (local_of (clear s) p ≡ none)
      × (sub_of (clear s) p ≡ none)
      × (unsub_of (clear s) p ≡ none)
unfolding clear peer_of local_of sub_of unsub_of lookup
clear-lookups s p = (refl, refl, refl, refl)
