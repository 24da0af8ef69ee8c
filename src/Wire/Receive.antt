-- ===== src/Wire/Receive.antt =====
-- The fixed header that is written is the one that `recv_header` reads.
use rust_mqtt.Prelude.{
  ℕ, suc, ◌+◌, ◌≤◌, ◌<◌, ◌≡◌, ◌≢◌, refl, ap, sym, subst, ◌∙◌, false, lt→ltb, le→leb, ==_ne, List,
  [], ◌∷◌, leb, returned, arith, some, none, take, drop, length,
}
use rust_mqtt.Wire.Transport.{Reader, Delivers, done, ok, err, malformed_packet}
use rust_mqtt.Wire.VarByteInt.{VarByteInt, max_encodable, from_slice_unchecked}
use rust_mqtt.Wire.Encoding.{
  encoding, one_byte, two_bytes, three_bytes, four_bytes, Digits-of, Digits, one, two, three, four,
}
use rust_mqtt.Wire.Header.{
  PacketType, FixedHeader, HeaderState, from_type_and_flags, set_byte, first, received, update,
  recv_loop, recv_header,
}

abbrev state : List ℕ → ℕ → HeaderState
state buffer n = record { buffer = buffer; read = n }

abbrev header : ℕ → VarByteInt → FixedHeader
header type_and_flags n = record { type_and_flags = type_and_flags; remaining_len = n }

module _ (r : Reader) where
  update-byte :
      (buffer : List ℕ) (i : ℕ) (s t : r.Stream) (b : ℕ)
      → i < 5
      → r.read s 1 ≡ (t, done (b ∷ []))
      → update r (state buffer i) s ≡ received (set_byte b i buffer) i b t
  unfolding update
  update-byte buffer i s t b h e =
      rw (e, lt→ltb i 5 h) (ap (λ x. received (set_byte b i buffer) i b (x.0)) e)

  first_byte :
      (fuel : ℕ) (buffer : List ℕ) (s t : r.Stream) (b : ℕ) (p : PacketType)
      → r.read s 1 ≡ (t, done (b ∷ []))
      → from_type_and_flags b ≡ some p
      → recv_loop r (suc fuel) (state buffer 0) s
        ≡ recv_loop r fuel (state (set_byte b 0 buffer) 1) t
  unfolding recv_loop received
  first_byte fuel buffer s t b p e k = rw (update-byte buffer 0 s t b (omega arith) e) (rw k refl)

  more_bytes :
      (fuel : ℕ) (buffer : List ℕ) (i : ℕ) (s t : r.Stream) (b : ℕ)
      → r.read s 1 ≡ (t, done (b ∷ []))
      → i ≢ 0
      → i < 4
      → 128 ≤ b
      → recv_loop r (suc fuel) (state buffer i) s
        ≡ recv_loop r fuel (state (set_byte b i buffer) (i + 1)) t
  unfolding recv_loop received
  more_bytes fuel buffer i s t b e n h k =
      rw (update-byte buffer i s t b (omega arith) e)
        (rw (==_ne i 0 n, le→leb 128 b k, ==_ne i 4 (omega arith)) refl)

  last_byte :
      (fuel : ℕ) (buffer : List ℕ) (i : ℕ) (s t : r.Stream) (b b0 v : ℕ)
      → r.read s 1 ≡ (t, done (b ∷ []))
      → i ≢ 0
      → i < 5
      → b < 128
      → from_slice_unchecked (take i (drop 1 (set_byte b i buffer))) ≡ returned v
      → first (set_byte b i buffer) ≡ returned b0
      → recv_loop r (suc fuel) (state buffer i) s
        ≡ returned (state (set_byte b i buffer) 0, ok t (header b0 v))
  unfolding recv_loop received
  last_byte fuel buffer i s t b b0 v e n h k d f =
      let small : leb 128 b ≡ false = ground arith in
      rw (update-byte buffer i s t b h e) (rw (==_ne i 0 n, small, d, f) refl)

  -- The header is received, and the state is ready for the next one.
  abbrev pub Receives : HeaderState → r.Stream → r.Stream → ℕ → VarByteInt → Type 0
  Receives h s u b x =
      (buffer : List ℕ) × (length buffer ≡ 5)
      × (recv_header r h s ≡ returned (state buffer 0, ok u (header b x)))

  module _ (c0 c1 c2 c3 c4 : ℕ) (s u : r.Stream) (b : ℕ) (p : PacketType)
      (known : from_type_and_flags b ≡ some p) where
    abbrev buffer : List ℕ
    buffer = c0 ∷ c1 ∷ c2 ∷ c3 ∷ c4 ∷ []

    Receives-digits :
        (x : VarByteInt)
        → Digits x
        → Delivers r s (b ∷ encoding x) u
        → Receives (state buffer 0) s u b x
    unfolding recv_header set_byte
    Receives-digits x (one a ha e v) (t, d, rest) =
        let (t1, d1, z) = subst (λ l. Delivers r t l u) e rest in
        (
          b ∷ a ∷ c2 ∷ c3 ∷ c4 ∷ [],
          refl,
          rw v (
              first_byte 4 _ s t b p d known
              ∙ last_byte 3 _ 1 t t1 a b a d1 (omega arith) (omega arith) ha (one_byte a ha) refl
              ∙ rw z refl),
        )
    Receives-digits x (two a a1 ha ha1 e v) (t, d, rest) =
        let (t1, d1, (t2, d2, z)) = subst (λ l. Delivers r t l u) e rest in
        (
          b ∷ (a + 128) ∷ a1 ∷ c3 ∷ c4 ∷ [],
          refl,
          rw v (
              first_byte 4 _ s t b p d known
              ∙ more_bytes 3 _ 1 t t1 (a + 128) d1 (omega arith) (omega arith) (omega arith)
              ∙ last_byte 2 _ 2 t1 t2 a1 b _ d2 (omega arith) (omega arith) ha1
                  (two_bytes a a1 ha ha1) refl
              ∙ rw z refl),
        )
    Receives-digits x (three a a1 a2 ha ha1 ha2 e v) (t, d, rest) =
        let (t1, d1, (t2, d2, (t3, d3, z))) = subst (λ l. Delivers r t l u) e rest in
        (
          b ∷ (a + 128) ∷ (a1 + 128) ∷ a2 ∷ c4 ∷ [],
          refl,
          rw v (
              first_byte 4 _ s t b p d known
              ∙ more_bytes 3 _ 1 t t1 (a + 128) d1 (omega arith) (omega arith) (omega arith)
              ∙ more_bytes 2 _ 2 t1 t2 (a1 + 128) d2 (omega arith) (omega arith) (omega arith)
              ∙ last_byte 1 _ 3 t2 t3 a2 b _ d3 (omega arith) (omega arith) ha2
                  (three_bytes a a1 a2 ha ha1 ha2) refl
              ∙ rw z refl),
        )
    Receives-digits x (four a a1 a2 a3 ha ha1 ha2 ha3 e v) (t, d, rest) =
        let (t1, d1, (t2, d2, (t3, d3, (t4, d4, z)))) = subst (λ l. Delivers r t l u) e rest in
        (
          b ∷ (a + 128) ∷ (a1 + 128) ∷ (a2 + 128) ∷ a3 ∷ [],
          refl,
          rw v (
              first_byte 4 _ s t b p d known
              ∙ more_bytes 3 _ 1 t t1 (a + 128) d1 (omega arith) (omega arith) (omega arith)
              ∙ more_bytes 2 _ 2 t1 t2 (a1 + 128) d2 (omega arith) (omega arith) (omega arith)
              ∙ more_bytes 1 _ 3 t2 t3 (a2 + 128) d3 (omega arith) (omega arith) (omega arith)
              ∙ last_byte 0 _ 4 t3 t4 a3 b _ d4 (omega arith) (omega arith) ha3
                  (four_bytes a a1 a2 a3 ha ha1 ha2 ha3) refl
              ∙ rw z refl),
        )

  pub Receives-encoding :
      (buffer : List ℕ)
      → length buffer ≡ 5
      → (s u : r.Stream) (b : ℕ) (x : VarByteInt) (p : PacketType) → from_type_and_flags b ≡ some p
      → x ≤ max_encodable
      → Delivers r s (b ∷ encoding x) u
      → Receives (state buffer 0) s u b x
  Receives-encoding (c0 ∷ c1 ∷ c2 ∷ c3 ∷ c4 ∷ []) five s u b x p known h d =
      Receives-digits c0 c1 c2 c3 c4 s u b p known x (Digits-of x h) d
  Receives-encoding [] five s u b x p known h d = absurd (omega arith)
  Receives-encoding (_ ∷ []) five s u b x p known h d = absurd (omega arith)
  Receives-encoding (_ ∷ _ ∷ []) five s u b x p known h d = absurd (omega arith)
  Receives-encoding (_ ∷ _ ∷ _ ∷ []) five s u b x p known h d = absurd (omega arith)
  Receives-encoding (_ ∷ _ ∷ _ ∷ _ ∷ []) five s u b x p known h d = absurd (omega arith)
  Receives-encoding (_ ∷ _ ∷ _ ∷ _ ∷ _ ∷ _ ∷ _) five s u b x p known h d = absurd (omega arith)

  -- A header whose first byte has a reserved packet type is rejected as a malformed packet after
  -- that byte, and the state starts the next header.
  pub recv_header-reserved :
      (state : HeaderState) (s t : r.Stream) (b : ℕ)
      → state.read ≡ 0
      → from_type_and_flags b ≡ none
      → r.read s 1 ≡ (t, done (b ∷ []))
      → (h : HeaderState) × (h.read ≡ 0)
        × (recv_header r state s ≡ returned (h, err t malformed_packet))
  unfolding recv_header recv_loop received
  recv_header-reserved st s t b start unknown e = (
    record { buffer = set_byte b 0 st.buffer; read = 0 },
    refl,
    subst
        (λ k.
          recv_header r (record { buffer = st.buffer; read = k }) s
          ≡ returned (record { buffer = set_byte b 0 st.buffer; read = 0 }, err t malformed_packet))
        (sym start) (rw (update-byte st.buffer 0 s t b (omega arith) e) (rw unknown refl)),
  )
