-- ===== src/Wire/BodyFeed.antt =====
-- src/io/read.rs: a body reader on a transport that delivers the body and what comes after it.
use rust_mqtt.Prelude.{
  ℕ, zero, suc, ◌-◌, ◌≤◌, ◌<◌, ◌≡◌, refl, ap, subst, ◌∙◌, List, [], ◌∷◌, ◌++◌, length, take, drop,
  ltb, ◌==◌, ==_ne, min, le→leb, lt→ltb, false, returned, panicked, arith, length-append,
  length-drop, length-take,
}
use mathlib.Core.List.{append_assoc}
use rust_mqtt.Wire.Transport.{Reader, Io, done, ok}
use rust_mqtt.Wire.Feed.{IsFed, Takes, fill_loop, fill_loop-feed, take-append, drop-append}
use rust_mqtt.Wire.Body.{
  BufferProvider, Body, BodyError, from_body_error, read_body, body_reader, read_and_store, skip,
  skip_loop,
}

module _ (net : Reader) (provider : BufferProvider) (holds : net.Stream → List ℕ → Type 0)
    (after : List ℕ) where
  -- The rest of the body, with which the remaining length agrees, then what comes after the body.
  abbrev pub HoldsBody : Body net provider → List ℕ → Type 0
  HoldsBody b bytes = holds b.r (bytes ++ after) × (length bytes ≡ b.remaining_len)

  -- A provider that has room.
  abbrev pub HasRoom : Type 0
  HasRoom =
      (b : provider.State) (len : ℕ)
      → (b' : provider.State) × (provider.provide_buffer b len ≡ (b', done tt))

  module _ (fed : IsFed net holds) where
    body_gives :
        (b : Body net provider) (len c : ℕ) (bytes : List ℕ)
        → HoldsBody b (c ∷ bytes)
        → (t : Body net provider) × (n : ℕ) × (n ≤ len)
          × (n ≤ length bytes)
          × (read_body net provider b (suc len) ≡ (t, done (c ∷ take n bytes)))
          × HoldsBody t (drop n bytes)
    unfolding read_body
    body_gives b len c bytes (h, l) =
        let (s, n, small, fits, e, h') =
          fed.gives b.r (min len (length bytes)) c (bytes ++ after) h in
        let short : n ≤ length bytes = omega arith in
        let open_body : (b.remaining_len == 0) ≡ false = ==_ne b.remaining_len 0 (omega arith) in
        let asked : min (suc len) b.remaining_len ≡ suc (min len (length bytes)) = omega arith in
        let got : net.read b.r (min (suc len) b.remaining_len) ≡ (s, done (c ∷ take n bytes)) =
          ap (net.read b.r) asked
          ∙ e
          ∙ ap (λ z. (s, done (c ∷ z))) (take-append n bytes after short) in
        let part : length (take n bytes) ≡ n = omega (arith, length-take n bytes) in
        let left : List ℕ
            → ℕ
            → net.Stream × Io net.Error (List ℕ)
            → Body net provider × Io (BodyError net provider) (List ℕ) =
          λ bytes k x. (
            record { r = x.0; buffer = b.buffer; remaining_len = b.remaining_len - k },
            done bytes,
          ) in
        (
          record { r = s; buffer = b.buffer; remaining_len = b.remaining_len - suc n },
          n,
          omega arith,
          short,
          rw (open_body, ==_ne (suc len) 0 (omega arith), got, read_body, part)
              (ap (left (c ∷ take n bytes) (suc n)) got),
          (
            subst (holds s) (drop-append n bytes after short) h',
            omega (arith, length-drop n bytes),
          ),
        )

    pub body-IsFed : IsFed (body_reader net provider) HoldsBody
    body-IsFed = record { gives = body_gives }

    -- What is stored is what the body holds.
    pub read_and_store-feed :
        HasRoom
        → (bytes : List ℕ)
        → Takes HoldsBody (read_and_store net provider (length bytes)) bytes bytes
    unfolding read_and_store
    read_and_store-feed room bytes b rest (h, l) =
        let (state, e) = room b.buffer (length bytes) in
        let enough : ltb b.remaining_len (length bytes) ≡ false =
          ground (arith, length-append bytes rest) in
        let (t, e', h') =
          fill_loop-feed (body_reader net provider) HoldsBody body-IsFed from_body_error
            (length bytes) (record { r = b.r; buffer = state; remaining_len = b.remaining_len })
            bytes rest [] (omega arith) (h, l) in
        (
          t,
          rw (enough, e, read_and_store)
              (ap
                  (λ x.
                    fill_loop (body_reader net provider) from_body_error (length bytes)
                      (record { r = b.r; buffer = x.0; remaining_len = b.remaining_len })
                      (length bytes) [])
                  e
                ∙ e'),
          h',
        )

    skip_loop-round :
        (fuel : ℕ) (b : Body net provider) (t : net.Stream) (m c : ℕ) (bytes : List ℕ)
        → net.read b.r (min 64 (suc m)) ≡ (t, done (c ∷ bytes))
        → length bytes ≤ m
        → skip_loop net provider (suc fuel) b (suc m)
          ≡ skip_loop net provider fuel
              (record { r = t; buffer = b.buffer; remaining_len = b.remaining_len })
              (m - length bytes)
    unfolding skip_loop
    skip_loop-round fuel b t m c bytes e le =
        rw (e, skip_loop, le→leb (length bytes) m le)
          (ap
            (λ x.
              skip_loop net provider fuel
                (record { r = x.0; buffer = b.buffer; remaining_len = b.remaining_len })
                (m - length bytes))
            e)

    skip_loop-feed :
        (fuel : ℕ) (b : Body net provider) (bytes rest : List ℕ)
        → length bytes ≤ fuel
        → holds b.r (bytes ++ rest)
        → (s : net.Stream) × (skip_loop net provider fuel b (length bytes)
            ≡ returned
                (ok (record { r = s; buffer = b.buffer; remaining_len = b.remaining_len }) tt))
          × holds s rest
    unfolding skip_loop
    skip_loop-feed fuel b [] rest le h = (b.r, refl, h)
    skip_loop-feed zero b (c ∷ bytes) rest le h = absurd (omega arith)
    skip_loop-feed (suc fuel) b (c ∷ bytes) rest le h =
        let (t, n, small, fits, e, h') =
          fed.gives b.r (min 63 (length bytes)) c (bytes ++ rest) h in
        let short : n ≤ length bytes = omega arith in
        let part : length (take n bytes) ≡ n = omega (arith, length-take n bytes) in
        let asked : min 64 (suc (length bytes)) ≡ suc (min 63 (length bytes)) = omega arith in
        let got : net.read b.r (min 64 (suc (length bytes))) ≡ (t, done (c ∷ take n bytes)) =
          ap (net.read b.r) asked
          ∙ e
          ∙ ap (λ z. (t, done (c ∷ z))) (take-append n bytes rest short) in
        let (u, e', h2) =
          skip_loop-feed fuel (record { r = t; buffer = b.buffer; remaining_len = b.remaining_len })
            (drop n bytes) rest (omega (arith, length-drop n bytes))
            (subst (holds t) (drop-append n bytes rest short) h') in
        let missing : length bytes - length (take n bytes) ≡ length (drop n bytes) =
          omega (arith, part, length-drop n bytes) in
        (
          u,
          skip_loop-round fuel b t (length bytes) c (take n bytes) got (omega (arith, part))
              ∙ ap
                  (skip_loop net provider fuel
                    (record { r = t; buffer = b.buffer; remaining_len = b.remaining_len }))
                  missing
              ∙ e',
          h2,
        )

    -- A body that has so many bytes is skipped by them.
    pub skip-feed :
        (b : Body net provider) (bytes rest : List ℕ)
        → HoldsBody b (bytes ++ rest)
        → (t : Body net provider) × (skip net provider (length bytes) b ≡ returned (ok t tt))
          × HoldsBody t rest
    unfolding skip
    skip-feed b bytes rest (h, l) =
        let enough : ltb b.remaining_len (length bytes) ≡ false =
          ground (arith, length-append bytes rest) in
        let (s, e, h') =
          skip_loop-feed (length bytes)
            (record { r = b.r; buffer = b.buffer; remaining_len = b.remaining_len - length bytes })
            bytes (rest ++ after) (omega arith)
            (subst (holds b.r) (append_assoc bytes rest after) h) in
        (
          record { r = s; buffer = b.buffer; remaining_len = b.remaining_len - length bytes },
          rw (enough) e,
          (h', omega (arith, length-append bytes rest)),
        )

module _ (net : Reader) (provider : BufferProvider) where
  pub skip-underflow :
      (b : Body net provider) (len : ℕ) → b.remaining_len < len → skip net provider len b ≡ panicked
  unfolding skip
  skip-underflow b len lt = rw (lt→ltb b.remaining_len len lt) refl
