-- ===== src/Session/Free.antt =====
-- `free_handle`: the search for an unused packet identifier.
use rust_mqtt.Prelude.{
  ℕ, zero, suc, ◌+◌, ◌≤◌, ◌<◌, ◌≡◌, refl, ◌⊎◌, inl, inr, ◌↔◌, true, false, Option, none, some,
  Bool-cases, ==_ne, ◌==◌, arith,
}
use rust_mqtt.Types.Pid.{PacketIdentifier, IsPid, one, next}
use rust_mqtt.Keyed.Find.{position-none_iff}
use rust_mqtt.Session.State.{
  Session, FreeHandle, sub_handle, unsub_handle, outbound_handle, self_key, outbound_key,
}
use rust_mqtt.Session.View.{local_of, sub_of, unsub_of}
use rust_mqtt.Session.Ops.{is_free, free_loop, free_handle}

-- The identifier is in use for no packet of the client.
abbrev pub IsUnused : Session → PacketIdentifier → Type 0
IsUnused s p = (local_of s p ≡ none) × (sub_of s p ≡ none) × (unsub_of s p ≡ none)

pub is_free_iff : (s : Session) (p : PacketIdentifier) → (is_free s p ≡ true) ↔ IsUnused s p
unfolding is_free sub_handle unsub_handle outbound_handle local_of sub_of unsub_of
is_free_iff s p = (
  λ e. ground (
    arith,
    position-none_iff outbound_key p s.outbound_publishes,
    position-none_iff self_key p s.subs,
    position-none_iff self_key p s.unsubs,
  ),
  λ e. ground (
    arith,
    position-none_iff outbound_key p s.outbound_publishes,
    position-none_iff self_key p s.subs,
    position-none_iff self_key p s.unsubs,
  ),
)

next_inner : (p : PacketIdentifier) → p < 65535 → next p ≡ p + 1
unfolding next
next_inner p h = ground arith

next_last : next 65535 ≡ one
unfolding next
next_last = refl

-- What the search from `p` answers: the first unused identifier from `p` on, or none if there is
-- none up to the largest.
pub data Search (s : Session) (p : PacketIdentifier) (r : Option (Option FreeHandle)) : Type 0 where
  first_unused :
      (q : PacketIdentifier)
      → r ≡ some (some (record { session = s; packet_identifier = q }))
      → p ≤ q
      → q < 65536
      → is_free s q ≡ true
      → ((k : PacketIdentifier) → p ≤ k → k < q → is_free s k ≡ false)
      → Search s p r
  all_used :
      r ≡ some none
      → ((k : PacketIdentifier) → p ≤ k → k < 65536 → is_free s k ≡ false)
      → Search s p r

used_from :
    (s : Session) (p k : PacketIdentifier)
    → is_free s p ≡ false
    → p ≤ k
    → (p + 1 ≤ k → is_free s k ≡ false)
    → is_free s k ≡ false
used_from s p k e h rest = ground arith

Search-next :
    (s : Session) (p : PacketIdentifier) (r : Option (Option FreeHandle))
    → is_free s p ≡ false
    → Search s (p + 1) r
    → Search s p r
Search-next s p r e (first_unused q er le lt f below) =
    first_unused q er (omega arith) lt f (λ k a b. used_from s p k e a (λ c. below k c b))
Search-next s p r e (all_used er none_free) =
    all_used er (λ k a b. used_from s p k e a (λ c. none_free k c b))

free_loop-Search :
    (fuel : ℕ) (s : Session) (p : PacketIdentifier)
    → 1 ≤ p
    → p < 65536
    → 65536 ≤ fuel + p
    → Search s p (free_loop fuel s p)
unfolding free_loop
free_loop-Search zero s p lo hi enough = absurd (omega arith)
free_loop-Search (suc fuel) s p lo hi enough = elim (Bool-cases (is_free s p)) [
  | inl free ↦ first_unused p (rw free) (omega arith) hi free (λ k a b. absurd (omega arith))
  | inr used ↦ elim (Bool-cases (p == 65535)) [
    | inl last ↦
        all_used (ground (arith, next_last))
          (λ k a b. used_from s p k used a (λ c. absurd (ground arith)))
    | inr inner ↦
        let below : p < 65535 = ground arith in
        rw (used, next_inner p below, ==_ne (p + 1) one (omega arith))
          (Search-next s p _ used
            (free_loop-Search fuel s (p + 1) (omega arith) (omega arith) (omega arith)))
  ]
]

-- The search for a packet identifier always ends. It finds the smallest identifier that no
-- subscription, unsubscription or publication of the client uses, a nonzero 16-bit number, or tells
-- that all of them are in use.
pub free_handle-Search :
    (s : Session)
    → ((q : PacketIdentifier) × (free_handle s
          ≡ some (some (record { session = s; packet_identifier = q })))
        × IsPid q
        × IsUnused s q
        × ((k : PacketIdentifier) → 1 ≤ k → k < q → ¬ IsUnused s k))
      ⊎ ((free_handle s ≡ some none) × ((k : PacketIdentifier) → IsPid k → ¬ IsUnused s k))
unfolding free_handle
free_handle-Search s = elim (free_loop-Search 65535 s 1 (omega arith) (omega arith) (omega arith)) [
  | first_unused q e lo hi free below ↦
      inl (
        q,
        e,
        (lo, hi),
        (is_free_iff s q).0 free,
        λ k a b u. cc (below k a b, (is_free_iff s k).1 u),
      )
  | all_used e used ↦ inr (e, λ k a u. cc (used k a.0 a.1, (is_free_iff s k).1 u))
]

pub IsUnused-handles :
    (s : Session) (p : PacketIdentifier)
    → IsUnused s p
    → (outbound_handle s p ≡ none) × (sub_handle s p ≡ none) × (unsub_handle s p ≡ none)
unfolding sub_handle unsub_handle outbound_handle local_of sub_of unsub_of
IsUnused-handles s p u = (
  ground (arith, position-none_iff outbound_key p s.outbound_publishes),
  ground (arith, position-none_iff self_key p s.subs),
  ground (arith, position-none_iff self_key p s.unsubs),
)
