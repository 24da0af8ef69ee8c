-- ===== src/Buffer/Slices.antt =====
-- src/buffer.rs: the slices a bump buffer hands out do not overlap and lie in the backing slice.
use rust_mqtt.Prelude.{
  ℕ, ◌+◌, ◌-◌, ◌≤◌, ◌<◌, ◌≡◌, ◌↔◌, refl, ap, true, false, ltb, List, [], ◌∷◌, All, Bool-cases, inl,
  inr, arith,
}
use rust_mqtt.Wire.Transport.{done, failed}
use rust_mqtt.Buffer.Bump.{
  BumpBuffer, Slice, insufficient_space, new, remaining_len, provide_slice, provide_all, reset,
}

abbrev pub end_of : Slice → ℕ
end_of s = s.start + s.size

-- Slices in order, none before another's end, between two indices.
unfoldable pub IsPacked : ℕ → ℕ → List Slice → Type 0
IsPacked lo hi [] = lo ≤ hi
IsPacked lo hi (s ∷ slices) = (lo ≤ s.start) × IsPacked (end_of s) hi slices

-- No two slices share a byte.
unfoldable pub AreDisjoint : List Slice → Type 0
AreDisjoint [] = Unit
AreDisjoint (s ∷ slices) = All (λ t. end_of s ≤ t.start) slices × AreDisjoint slices

packed_after :
    (lo at hi : ℕ) (slices : List Slice)
    → at ≤ lo
    → IsPacked lo hi slices
    → All (λ t. at ≤ t.start) slices
unfolding IsPacked
packed_after lo at hi [] le p = tt
packed_after lo at hi (s ∷ slices) le (first, rest) =
    (omega arith, packed_after (end_of s) at hi slices (omega arith) rest)

packed_disjoint : (lo hi : ℕ) (slices : List Slice) → IsPacked lo hi slices → AreDisjoint slices
unfolding IsPacked AreDisjoint
packed_disjoint lo hi [] p = tt
packed_disjoint lo hi (s ∷ slices) (first, rest) = (
  packed_after (end_of s) (end_of s) hi slices (omega arith) rest,
  packed_disjoint (end_of s) hi slices rest,
)

packed_bound :
    (lo hi top : ℕ) (slices : List Slice)
    → hi ≤ top
    → IsPacked lo hi slices
    → (lo ≤ top) × All (λ t. end_of t ≤ top) slices
unfolding IsPacked
packed_bound lo hi top [] le p = (omega arith, tt)
packed_bound lo hi top (s ∷ slices) le (first, rest) =
    let (low, others) = packed_bound (end_of s) hi top slices le rest in
    (omega arith, (low, others))

provide_all-full :
    (b : BumpBuffer) (len : ℕ) (lens : List ℕ)
    → ltb (b.len - b.index) len ≡ true
    → provide_all b (len ∷ lens) ≡ provide_all b lens
unfolding provide_all provide_slice remaining_len
provide_all-full b len lens full =
    let e : provide_slice b len ≡ (b, failed insufficient_space) = rw (full, provide_slice) refl in
    rw (e, provide_all) (ap (λ x. provide_all (x.0) lens) e)

abbrev advanced : BumpBuffer → ℕ → BumpBuffer
advanced b len = record { len = b.len; index = b.index + len }

provide_all-room :
    (b : BumpBuffer) (len : ℕ) (lens : List ℕ)
    → ltb (b.len - b.index) len ≡ false
    → provide_all b (len ∷ lens) ≡ (
      (provide_all (advanced b len) lens).0,
      record { start = b.index; size = len } ∷ (provide_all (advanced b len) lens).1,
    )
unfolding provide_all provide_slice remaining_len
provide_all-room b len lens room =
    let slice : Slice = record { start = b.index; size = len } in
    let e : provide_slice b len ≡ (advanced b len, done slice) = rw (room, provide_slice) refl in
    rw (e, provide_all)
      (ap (λ x. ((provide_all (x.0) lens).0, slice ∷ (provide_all (x.0) lens).1)) e)

-- What the calls leave and return.
abbrev pub Sound : BumpBuffer → BumpBuffer × List Slice → Type 0
Sound b (b', slices) = (b'.len ≡ b.len) × (b'.index ≤ b'.len) × IsPacked b.index b'.index slices

provide_all-Sound :
    (b : BumpBuffer) (lens : List ℕ) → b.index ≤ b.len → Sound b (provide_all b lens)
unfolding provide_all IsPacked
provide_all-Sound b [] h = (refl, h, omega arith)
provide_all-Sound b (len ∷ lens) h = elim (Bool-cases (ltb (b.len - b.index) len)) [
  | inl full ↦ rw (provide_all-full b len lens full) (provide_all-Sound b lens h)
  | inr room ↦ rw (provide_all-room b len lens room) (
      let (e, within, packed) = provide_all-Sound (advanced b len) lens (ground arith) in
      (e, within, (omega arith, packed)))
]

-- Whatever sizes are asked of a new bump buffer, no two of the slices it hands out share a byte,
-- and each lies in the backing slice.
pub provide_all-disjoint :
    (len : ℕ) (lens : List ℕ)
    → AreDisjoint (provide_all (new len) lens).1
      × All (λ s. end_of s ≤ len) (provide_all (new len) lens).1
unfolding new
provide_all-disjoint len lens =
    let (e, within, packed) = provide_all-Sound (new len) lens (omega arith) in
    (packed_disjoint 0 _ _ packed, (packed_bound 0 _ len _ (omega arith) packed).1)

pub provide_slice-reset :
    (b : BumpBuffer) (len : ℕ)
    → b.index ≤ b.len
    → ((provide_slice b len ≡ (b, failed insufficient_space)) ↔ (remaining_len b < len))
      × (len ≤ b.len
          → provide_slice (reset b) len
            ≡ (record { len = b.len; index = len }, done (record { start = 0; size = len })))
unfolding provide_slice remaining_len reset
provide_slice-reset b len h = (
  ground arith,
  λ fits.
      let room : ltb (b.len - 0) len ≡ false = ground arith in
      let start : 0 + len ≡ len = omega arith in rw (room, start) refl,
)
