-- ===== src/Session/Effects/Subs.antt =====
-- Steps that change one subscription or unsubscription in flight, and keep the session valid.
use rust_mqtt.Prelude.{◌≤◌, ◌≡◌, refl, ◌⊎◌, ◌==◌, if◌then◌else◌, Option, none, List, length, arith}
use rust_mqtt.Keyed.Remove.{Updated}
use rust_mqtt.Types.Pid.{PacketIdentifier}
use rust_mqtt.Session.State.{Session, Limits, FreeHandle, self_key}
use rust_mqtt.Session.View.{local_of, sub_of, unsub_of, IsValid}
use rust_mqtt.Session.Free.{IsUnused}

abbrev pub free : Session → PacketIdentifier → FreeHandle
free s p = record { session = s; packet_identifier = p }

abbrev pub with_subs : Session → List PacketIdentifier → Session
with_subs s ps = record s { subs = ps }

abbrev pub with_unsubs : Session → List PacketIdentifier → Session
with_unsubs s ps = record s { unsubs = ps }

-- Only the subscription `p` changes, to `o`.
pub record SubStep (s s' : Session) (p : PacketIdentifier) (o : Option PacketIdentifier)
    : Type 0 where
  pub subs : (q : PacketIdentifier) → sub_of s' q ≡ (if p == q then o else sub_of s q)
  pub same_unsubs : s'.unsubs ≡ s.unsubs
  pub same_inbound : s'.inbound_publishes ≡ s.inbound_publishes
  pub same_outbound : s'.outbound_publishes ≡ s.outbound_publishes

-- Only the unsubscription `p` changes, to `o`.
pub record UnsubStep (s s' : Session) (p : PacketIdentifier) (o : Option PacketIdentifier)
    : Type 0 where
  pub unsubs : (q : PacketIdentifier) → unsub_of s' q ≡ (if p == q then o else unsub_of s q)
  pub same_subs : s'.subs ≡ s.subs
  pub same_inbound : s'.inbound_publishes ≡ s.inbound_publishes
  pub same_outbound : s'.outbound_publishes ≡ s.outbound_publishes

pub sub_step :
    (s : Session) (p : PacketIdentifier) (o : Option PacketIdentifier) (ps : List PacketIdentifier)
    → Updated self_key p o s.subs ps
    → SubStep s (with_subs s ps) p o
unfolding sub_of
sub_step s p o ps up = record {
  subs = up.lookups;
  same_unsubs = refl;
  same_inbound = refl;
  same_outbound = refl;
}

pub sub-IsValid :
    {limits : Limits} {s : Session} (valid : IsValid limits s) (p : PacketIdentifier)
    (o : Option PacketIdentifier) (ps : List PacketIdentifier)
    → Updated self_key p o s.subs ps
    → (o ≡ none) ⊎ IsUnused s p
    → length ps ≤ limits.subscribe_maximum
    → IsValid limits (with_subs s ps)
unfolding sub_of unsub_of local_of
sub-IsValid {s} valid p o ps up alone fits = record {
  subs_unique = up.unique_keys;
  unsubs_unique = valid.unsubs_unique;
  inbound_unique = valid.inbound_unique;
  outbound_unique = valid.outbound_unique;
  subs_fit = fits;
  unsubs_fit = valid.unsubs_fit;
  inbound_fits = valid.inbound_fits;
  outbound_fits = valid.outbound_fits;
  one_flow = λ q. record {
    sub_or_unsub = ground (arith, up.lookups q, (valid.one_flow q).sub_or_unsub, alone);
    sub_or_local = ground (arith, up.lookups q, (valid.one_flow q).sub_or_local, alone);
    unsub_or_local = (valid.one_flow q).unsub_or_local;
  };
}

pub unsub_step :
    (s : Session) (p : PacketIdentifier) (o : Option PacketIdentifier) (ps : List PacketIdentifier)
    → Updated self_key p o s.unsubs ps
    → UnsubStep s (with_unsubs s ps) p o
unfolding unsub_of
unsub_step s p o ps up = record {
  unsubs = up.lookups;
  same_subs = refl;
  same_inbound = refl;
  same_outbound = refl;
}

pub unsub-IsValid :
    {limits : Limits} {s : Session} (valid : IsValid limits s) (p : PacketIdentifier)
    (o : Option PacketIdentifier) (ps : List PacketIdentifier)
    → Updated self_key p o s.unsubs ps
    → (o ≡ none) ⊎ IsUnused s p
    → length ps ≤ limits.subscribe_maximum
    → IsValid limits (with_unsubs s ps)
unfolding sub_of unsub_of local_of
unsub-IsValid {s} valid p o ps up alone fits = record {
  subs_unique = valid.subs_unique;
  unsubs_unique = up.unique_keys;
  inbound_unique = valid.inbound_unique;
  outbound_unique = valid.outbound_unique;
  subs_fit = valid.subs_fit;
  unsubs_fit = fits;
  inbound_fits = valid.inbound_fits;
  outbound_fits = valid.outbound_fits;
  one_flow = λ q. record {
    sub_or_unsub = ground (arith, up.lookups q, (valid.one_flow q).sub_or_unsub, alone);
    unsub_or_local = ground (arith, up.lookups q, (valid.one_flow q).unsub_or_local, alone);
    sub_or_local = (valid.one_flow q).sub_or_local;
  };
}
