-- ===== src/Session/Effects/Inbound.antt =====
-- The handle of a server publication: where it points, and the effect of its write, its removal and
-- of the scheduling of a new entry.
use rust_mqtt.Prelude.{
  ℕ, ◌<◌, ◌≤◌, ◌≡◌, refl, inl, inr, Option, none, some, List, length, min, returned, ltb, lt→ltb,
  Option-cases, arith,
}
use rust_mqtt.Keyed.{position, Unique}
use rust_mqtt.Keyed.Find.{Found, position-Found, lookup-of_position, lookup-of_position-none}
use rust_mqtt.Keyed.Remove.{Updated}
use rust_mqtt.Vec.{HeaplessVec, IsHeaplessVec}
use rust_mqtt.Vec.Effects.{modify-Updated, push-some, swap_remove-Updated}
use rust_mqtt.Types.Pid.{PacketIdentifier}
use rust_mqtt.Session.PeerState.{PeerPublishState}
use rust_mqtt.Session.State.{
  Session, Limits, InboundHandle, Inbound, inbound_key, inbound_handle, schedule_inbound,
  available_inbound_publish_capacity,
}
use rust_mqtt.Session.InboundHandle.{set, remove}
use rust_mqtt.Session.View.{peer_of, IsValid, InboundStep, sub_of, unsub_of, local_of}
use mathlib.Core.Option

abbrev pub at : Session → ℕ → PeerPublishState → InboundHandle
at s i st = record { session = s; i = i; state = st }

abbrev with_inbound : Session → List Inbound → Session
with_inbound s es = record s { inbound_publishes = es }

-- A lookup succeeds exactly if there is a handle, and both show the same state.
pub data Tracks (s : Session) (p : PacketIdentifier) : Type 0 where
  untracked : peer_of s p ≡ none → inbound_handle s p ≡ none → Tracks s p
  tracked :
      (i : ℕ) (x : Inbound)
      → peer_of s p ≡ some (x.1)
      → inbound_handle s p ≡ some (at s i (x.1))
      → Found inbound_key p i x s.inbound_publishes
      → Tracks s p

pub Tracks-total : (s : Session) (p : PacketIdentifier) → Tracks s p
unfolding peer_of inbound_handle
Tracks-total s p = elim (Option-cases (position inbound_key p s.inbound_publishes)) [
  | inl e ↦ untracked (rw (lookup-of_position-none inbound_key p s.inbound_publishes e)) (rw e)
  | inr ((i, x), e) ↦
      tracked i x (rw (lookup-of_position inbound_key p s.inbound_publishes i x e)) (rw e)
        (position-Found inbound_key p s.inbound_publishes i x e)
]

module _ {limits : Limits} {s : Session} (valid : IsValid limits s) where
  IsValid-with :
      (es : List Inbound)
      → Unique inbound_key es
      → length es ≤ min limits.receive_maximum 65535
      → IsValid limits (with_inbound s es)
  unfolding sub_of unsub_of local_of
  IsValid-with es u fits = record {
    subs_unique = valid.subs_unique;
    unsubs_unique = valid.unsubs_unique;
    inbound_unique = u;
    outbound_unique = valid.outbound_unique;
    subs_fit = valid.subs_fit;
    unsubs_fit = valid.unsubs_fit;
    inbound_fits = fits;
    outbound_fits = valid.outbound_fits;
    one_flow = λ p. record {
      sub_or_unsub = (valid.one_flow p).sub_or_unsub;
      sub_or_local = (valid.one_flow p).sub_or_local;
      unsub_or_local = (valid.one_flow p).unsub_or_local;
    };
  }

step_with :
    (s : Session) (p : PacketIdentifier) (o : Option Inbound) (es : List Inbound)
    → Updated inbound_key p o s.inbound_publishes es
    → InboundStep s (with_inbound s es) p (Option.map (λ e. e.1) o)
unfolding peer_of
step_with s p o es up = record {
  peers = λ q. ground (arith, up.lookups q);
  same_outbound = refl;
  same_subs = refl;
  same_unsubs = refl;
}

-- A result that leaves the session valid, with only `p` changed.
abbrev pub Reaches :
    Limits → Session → PacketIdentifier → Option PeerPublishState → Session → Type 0
Reaches limits s p o s' = IsValid limits s' × InboundStep s s' p o

module _ {limits : Limits} {s : Session} (valid : IsValid limits s) {p i : ℕ} {x : Inbound}
    (found : Found inbound_key p i x s.inbound_publishes) where
  pub set_effect :
      (st : PeerPublishState)
      → (s' : Session) × (set (at s i (x.1)) st ≡ returned (at s' i st))
        × Reaches limits s p (some st) s'
  unfolding set
  set_effect st =
      let (es, e, size, up) =
        modify-Updated inbound_key (λ y. (y.0, st)) p i x s.inbound_publishes found.has_key
          valid.inbound_unique found in
      (
        with_inbound s es,
        rw e,
        (
          IsValid-with valid es up.unique_keys (omega (arith, valid.inbound_fits)),
          step_with s p _ es up,
        ),
      )

  pub remove_effect :
      (vec : HeaplessVec) (laws : IsHeaplessVec vec)
      → (s' : Session) × (remove vec (at s i (x.1)) ≡ returned s') × Reaches limits s p none s'
  unfolding remove
  remove_effect vec laws =
      let (es, e, size, up) =
        swap_remove-Updated vec laws inbound_key p i x s.inbound_publishes valid.inbound_unique
          found in
      (
        with_inbound s es,
        rw e,
        (
          IsValid-with valid es up.unique_keys (omega (arith, valid.inbound_fits)),
          step_with s p _ es up,
        ),
      )

-- The capacity test, on a valid session.
pub inbound_room :
    (limits : Limits) (s : Session)
    → IsValid limits s
    → available_inbound_publish_capacity limits s
      ≡ returned (ltb (length s.inbound_publishes) (min limits.receive_maximum 65535))
unfolding available_inbound_publish_capacity
inbound_room limits s valid =
    rw (lt→ltb (length s.inbound_publishes) 65536 (omega (arith, valid.inbound_fits)))

pub schedule_effect :
    (vec : HeaplessVec) (laws : IsHeaplessVec vec) (limits : Limits) (s : Session)
    → IsValid limits s
    → (p : PacketIdentifier) (st : PeerPublishState) → peer_of s p ≡ none
    → inbound_handle s p ≡ none
    → length s.inbound_publishes < min limits.receive_maximum 65535
    → (s' : Session) × (schedule_inbound vec limits s p st ≡ returned s')
      × Reaches limits s p (some st) s'
unfolding schedule_inbound peer_of
schedule_effect vec laws limits s valid p st new no_handle room =
    let (es, e, size, up) =
      push-some vec laws inbound_key limits.receive_maximum s.inbound_publishes (p, st)
        (omega arith) (ground arith) valid.inbound_unique in
    (
      with_inbound s es,
      rw (
        inbound_room limits s valid,
        lt→ltb (length s.inbound_publishes) (min limits.receive_maximum 65535) room,
        no_handle,
        e,
      ),
      (IsValid-with valid es up.unique_keys (omega arith), step_with s p _ es up),
    )
