-- ===== src/Wire/RoundTrip.antt =====
-- What src/io and src/header.rs write to a transport is what they read from one.
use rust_mqtt.Prelude.{
  ℕ, ◌+◌, ◌≤◌, ◌≡◌, refl, sym, subst, ◌∙◌, List, [], ◌∷◌, length, some, returned,
}
use mathlib.Core.List.{append_assoc}
use rust_mqtt.Wire.Transport.{Reader, Writer, IsOpen, Delivers, ok, write_bytes-takes}
use rust_mqtt.Wire.VarByteInt.{VarByteInt, max_encodable}
use rust_mqtt.Wire.VarByteInt
use rust_mqtt.Wire.Encoding.{encoding, written_len-encoding}
use rust_mqtt.Wire.Header.{PacketType, FixedHeader, HeaderState, packet_type, write, written_len}
use rust_mqtt.Wire.WriteVar.{Appends, write-takes}
use rust_mqtt.Wire.ReadVar.{read-encoding}
use rust_mqtt.Wire.Receive.{Receives, Receives-encoding}

module _ (w : Writer) (contents : w.Sink → List ℕ) (open_sink : IsOpen w contents) where
  pub write_header-takes :
      (s : w.Sink) (header : FixedHeader)
      → header.remaining_len ≤ max_encodable
      → Appends w contents open_sink s
          (write w s header)
          (header.type_and_flags ∷ encoding header.remaining_len)
  unfolding write
  write_header-takes s header h =
      let (t, e, c) = write_bytes-takes w contents open_sink s (header.type_and_flags ∷ []) in
      let (u, e', c') = write-takes w contents open_sink t header.remaining_len h in
      (
        u,
        rw e e',
        c'
            ∙ rw
                (
                  c,
                  append_assoc (contents s) (header.type_and_flags ∷ [])
                      (encoding header.remaining_len),
                )
                refl,
      )

module _ (w : Writer) (contents : w.Sink → List ℕ) (open_sink : IsOpen w contents)
    (r : Reader) where
  -- An encodable number is written to an open sink, which may take the bytes in any parts, as its
  -- variable byte integer encoding, of the length that written_len tells; and a reader that
  -- delivers the encoding reads the number back and takes no byte more.
  pub read-write :
      (s : w.Sink) (t u : r.Stream) (x : VarByteInt)
      → x ≤ max_encodable
      → Delivers r t (encoding x) u
      → Appends w contents open_sink s (VarByteInt.write w s x) (encoding x)
        × (VarByteInt.written_len x ≡ some (length (encoding x)))
        × (VarByteInt.read r t ≡ returned (ok u x))
  read-write s t u x h d =
      (write-takes w contents open_sink s x h, written_len-encoding x h, read-encoding r t u x h d)

  -- A fixed header whose packet type is not reserved and whose remaining length is encodable is
  -- written to an open sink as its type byte and the encoding of the length, of the length that
  -- written_len tells; and a reader that delivers these bytes one by one, from any state that
  -- starts a header, gives the same header back and a state that starts the next one.
  pub recv_header-write :
      (s : w.Sink) (t u : r.Stream) (state : HeaderState) (header : FixedHeader) (p : PacketType)
      → length state.buffer ≡ 5
      → state.read ≡ 0
      → packet_type header ≡ some p
      → header.remaining_len ≤ max_encodable
      → Delivers r t (header.type_and_flags ∷ encoding header.remaining_len) u
      → Appends w contents open_sink s
          (write w s header)
          (header.type_and_flags ∷ encoding header.remaining_len)
        × (written_len header ≡ some (1 + length (encoding header.remaining_len)))
        × Receives r state t u header.type_and_flags header.remaining_len
  unfolding written_len packet_type
  recv_header-write s t u state header p five start known h d = (
    write_header-takes w contents open_sink s header h,
    rw (written_len-encoding header.remaining_len h) refl,
    subst
        (λ k.
          Receives r (record { buffer = state.buffer; read = k }) t u header.type_and_flags
            header.remaining_len)
        (sym start)
        (Receives-encoding r state.buffer five t u header.type_and_flags header.remaining_len p
          known h d),
  )
