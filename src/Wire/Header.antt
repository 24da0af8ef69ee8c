-- ===== src/Wire/Header.antt =====
-- src/header.rs and src/client/raw/header.rs: the fixed header of a packet, its writer, and its reader
-- that keeps what it has read between calls; and the loop of `recv_header` in src/client/raw/mod.rs.
use rust_mqtt.Prelude.{
  ℕ, zero, suc, ◌+◌, ◌/◌, ◌%◌, ◌^◌, Option, none, some, List, [], ◌∷◌, take, drop, ltb, leb, ◌==◌,
  if◌then◌else◌, Outcome, returned, panicked, ◌>>=◌,
}
use rust_mqtt.Wire.Transport.{
  Reader, Writer, done, failed, Reply, ok, err, ReadError, read_error, unexpected_eof,
  malformed_packet, WriteError, write_bytes,
}
use rust_mqtt.Wire.VarByteInt.{VarByteInt, from_slice_unchecked}
use rust_mqtt.Wire.VarByteInt
use mathlib.Core.Option

pub data PacketType : Type 0 where
  connect connack publish puback pubrec pubrel pubcomp subscribe suback unsubscribe unsuback :
      PacketType
  pingreq pingresp disconnect auth : PacketType

-- The match on the upper four bits of a u8, with the feature for version 5; `none` is `Reserved`.
unfoldable pub from_type_and_flags : ℕ → Option PacketType
from_type_and_flags type_and_flags =
    let bits : ℕ = type_and_flags % 2 ^ 8 / 2 ^ 4 in
    if bits == 1
    then some connect
    else if bits == 2
    then some connack
    else if bits == 3
    then some publish
    else if bits == 4
    then some puback
    else if bits == 5
    then some pubrec
    else if bits == 6
    then some pubrel
    else if bits == 7
    then some pubcomp
    else if bits == 8
    then some subscribe
    else if bits == 9
    then some suback
    else if bits == 10
    then some unsubscribe
    else if bits == 11
    then some unsuback
    else if bits == 12
    then some pingreq
    else if bits == 13
    then some pingresp
    else if bits == 14
    then some disconnect
    else if bits == 15
    then some auth
    else none

pub record FixedHeader : Type 0 where
  pub type_and_flags : ℕ
  pub remaining_len : VarByteInt

unfoldable pub flags : FixedHeader → ℕ
flags h = h.type_and_flags % 16

unfoldable pub packet_type : FixedHeader → Option PacketType
packet_type h = from_type_and_flags h.type_and_flags

unfoldable pub written_len : FixedHeader → Option ℕ
written_len h = Option.map (λ n. 1 + n) (VarByteInt.written_len h.remaining_len)

module _ (w : Writer) where
  unfoldable pub write : w.Sink → FixedHeader → Outcome (Reply w.Sink (WriteError w.Error) Unit)
  write s h = do
    r ← write_bytes w s (h.type_and_flags ∷ [])
    elim r [ err s' e ↦ returned (err s' e) | ok s' _ ↦ VarByteInt.write w s' h.remaining_len ]

-- `buffer` has five bytes.
pub record HeaderState : Type 0 where
  pub buffer : List ℕ
  pub read : ℕ

abbrev pub fresh : HeaderState
fresh = record { buffer = 0 ∷ 0 ∷ 0 ∷ 0 ∷ 0 ∷ []; read = 0 }

-- The write of one byte through `&mut buffer[i..=i]`.
unfoldable pub set_byte : ℕ → ℕ → List ℕ → List ℕ
set_byte b i [] = []
set_byte b zero (c ∷ bytes) = b ∷ bytes
set_byte b (suc i) (c ∷ bytes) = c ∷ set_byte b i bytes

-- `self.buffer[0]`
abbrev pub first : List ℕ → Outcome ℕ
first [] = panicked
first (b ∷ bytes) = returned b

abbrev pub Update : Type 0 → Type 0 → Type 0
Update S E = HeaderState × Reply S (ReadError E) (Option FixedHeader)

-- The rest of `update` once the byte `b` is read into `buffer[i]`.
unfoldable pub received : {S E : Type 0} → List ℕ → ℕ → ℕ → S → Outcome (Update S E)
received buffer i b s =
    if i == 0
    then (elim (from_type_and_flags b) [
      | some p ↦ returned (record { buffer = buffer; read = i + 1 }, ok s none)
      | none ↦ returned (record { buffer = buffer; read = 0 }, err s malformed_packet)
    ])
    else if leb 128 b
    then (if i == 4
        then returned (record { buffer = buffer; read = 0 }, err s malformed_packet)
        else returned (record { buffer = buffer; read = i + 1 }, ok s none))
    else (do
      v ← from_slice_unchecked (take i (drop 1 buffer))
      b0 ← first buffer
      returned (
        record { buffer = buffer; read = 0 },
        ok s (some (record { type_and_flags = b0; remaining_len = v })),
      ))

module _ (r : Reader) where
  unfoldable pub update : HeaderState → r.Stream → Outcome (Update r.Stream r.Error)
  unfolding received
  update h s =
      let (s', x) = r.read s 1 in
      let answer : Outcome (Update r.Stream r.Error) = (elim x [
        | failed e ↦ returned (h, err s' (read_error e))
        | done [] ↦ returned (h, err s' unexpected_eof)
        | done (b ∷ (_ ∷ _)) ↦ panicked
        | done (b ∷ []) ↦ received (set_byte b h.read h.buffer) h.read b s'
      ]) in
      if ltb h.read 5 then answer else panicked

  -- The loop of `recv_header` with fuel for the five bytes of the longest header.
  unfoldable pub recv_loop :
      ℕ
      → HeaderState
      → r.Stream
      → Outcome (HeaderState × Reply r.Stream (ReadError r.Error) FixedHeader)
  recv_loop zero h s = panicked
  recv_loop (suc fuel) h s = do
    x ← update h s
    elim x.1 [
      | ok s' none ↦ recv_loop fuel x.0 s'
      | ok s' (some header) ↦ returned (x.0, ok s' header)
      | err s' e ↦ returned (x.0, err s' e)
    ]

  unfoldable pub recv_header :
      HeaderState
      → r.Stream
      → Outcome (HeaderState × Reply r.Stream (ReadError r.Error) FixedHeader)
  recv_header h s = recv_loop 5 h s
