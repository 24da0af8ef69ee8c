-- ===== src/Raw/Answers.antt =====
-- src/client/raw/mod.rs: sending the DISCONNECT packet of `abort` ends, whatever the transport answers.
use rust_mqtt.Prelude.{
  ℕ, zero, suc, ◌≤◌, ◌<◌, ◌/◌, ◌%◌, none, List, [], ◌∷◌, length, drop, Outcome, returned, ◌≡◌, refl,
  ap, ◌∙◌, arith, length-drop,
}
use rust_mqtt.Types.ReasonCode.{ReasonCode}
use rust_mqtt.Types.ReasonCode
use rust_mqtt.Wire.Transport.{
  Writer, Io, done, failed, write_error, write_zero, Reply, ok, err, write_loop, write_loop-round,
  write_bytes,
}
use rust_mqtt.Wire.VarByteInt
use rust_mqtt.Wire.Ints.{to_be_bytes, write_int}
use rust_mqtt.Wire.Header.{write, FixedHeader}
use rust_mqtt.Wire.Header
use rust_mqtt.Wire.Feed.{and_then, map_err}
use rust_mqtt.Packets.RxError.{from_write}
use rust_mqtt.Packets.AckType.{new_header}
use rust_mqtt.Packets.PubackSend.{
  write_reason_code, write_reason_string, write_user_properties, reason_string_len,
  user_properties_len, var_len,
}
use rust_mqtt.Packets.Disconnect.{
  DisconnectPacket, new, remaining_len, properties_length, interval_len, server_reference_len,
  write_fields, write_interval, write_server_reference,
}
use rust_mqtt.Packets.Disconnect

-- The packet of `abort` has no properties.
abbrev pub plain : ReasonCode → DisconnectPacket
plain c = new c none none []

-- Documented: a call takes no more bytes than it was given.
pub record IsWriter (w : Writer) : Type 0 where
  pub fits :
      (s t : w.Sink) (bytes : List ℕ) (n : ℕ) → w.write s bytes ≡ (t, done n) → n ≤ length bytes

-- The code does not panic.
abbrev pub Answers : {A : Type 0} → Outcome A → Type 0
Answers {A} m = (a : A) × (m ≡ returned a)

module _ (w : Writer) (honest : IsWriter w) where
  round-Answers :
      (fuel : ℕ) (s : w.Sink) (b : ℕ) (bytes : List ℕ)
      → ((t : w.Sink) (n : ℕ) → Answers (write_loop w fuel t (drop n bytes)))
      → (x : w.Sink × Io w.Error ℕ) → w.write s (b ∷ bytes) ≡ x
      → Answers (write_loop w (suc fuel) s (b ∷ bytes))
  unfolding write_loop
  round-Answers fuel s b bytes rest (t, failed e) q =
      (err t (write_error e), rw (q, write_loop) (ap (λ x. returned (err (x.0) (write_error e))) q))
  round-Answers fuel s b bytes rest (t, done zero) q =
      (err t write_zero, rw (q, write_loop) (ap (λ x. returned (err (x.0) write_zero)) q))
  round-Answers fuel s b bytes rest (t, done (suc n)) q =
      let fit = honest.fits s t (b ∷ bytes) (suc n) q in
      let (reply, e) = rest t n in
      (reply, write_loop-round w fuel s t b bytes n q (omega arith) ∙ e)

  write_loop-Answers :
      (fuel : ℕ) (s : w.Sink) (bytes : List ℕ)
      → length bytes ≤ fuel
      → Answers (write_loop w fuel s bytes)
  unfolding write_loop
  write_loop-Answers fuel s [] le = (ok s tt, refl)
  write_loop-Answers zero s (b ∷ bytes) le = absurd (omega arith)
  write_loop-Answers (suc fuel) s (b ∷ bytes) le =
      round-Answers fuel s b bytes
        (λ t n. write_loop-Answers fuel t (drop n bytes) (omega (arith, length-drop n bytes)))
        (w.write s (b ∷ bytes)) refl

  write_bytes-Answers : (s : w.Sink) (bytes : List ℕ) → Answers (write_bytes w s bytes)
  unfolding write_bytes
  write_bytes-Answers s bytes = write_loop-Answers (length bytes) s bytes (omega arith)

  and_then-Answers :
      {S E A B : Type 0} (m : Outcome (Reply S E A)) (k : S → A → Outcome (Reply S E B))
      → Answers m
      → ((s : S) (a : A) → Answers (k s a))
      → Answers (and_then m k)
  and_then-Answers m k (ok s a, e) all = let (b, e') = all s a in (b, rw (e) e')
  and_then-Answers m k (err s x, e) all = (err s x, rw (e) refl)

  -- A number of one byte.
  write_small-Answers : (s : w.Sink) (x : ℕ) → x < 128 → Answers (VarByteInt.write w s x)
  unfolding VarByteInt.write VarByteInt.write_loop
  write_small-Answers s x h =
      let none_left : x / 128 ≡ 0 = omega arith in
      let same : x % 128 ≡ x = omega arith in
      (let (reply, e) = write_bytes-Answers s (x ∷ []) in
        elim reply
            as (λ z. write_bytes w s (x ∷ []) ≡ returned z → Answers (VarByteInt.write w s x)) [
              | err t q ↦ λ e. (err t q, rw none_left (rw same (rw e refl)))
              | ok t u ↦ λ e. (ok t tt, rw none_left (rw same (rw e (rw none_left refl))))
            ]
          e)

  write_header-Answers :
      (s : w.Sink) (h : FixedHeader) → h.remaining_len < 128 → Answers (write w s h)
  unfolding write
  write_header-Answers s h small =
      let (reply, e) = write_bytes-Answers s (h.type_and_flags ∷ []) in
      (elim reply
          as (λ z. write_bytes w s (h.type_and_flags ∷ []) ≡ returned z → Answers (write w s h)) [
            | err t q ↦ λ e. (err t q, rw (e) refl)
            | ok t u ↦
                λ e. (let (r, e') = write_small-Answers t h.remaining_len small in (r, rw (e) e'))
          ]
        e)

  map_err-Answers :
      {S E F A : Type 0} (f : E → F) (m : Outcome (Reply S E A)) → Answers m → Answers (map_err f m)
  map_err-Answers f m (ok s a, e) = (ok s a, rw (e) refl)
  map_err-Answers f m (err s x, e) = (err s (f x), rw (e) refl)

  plain_fields-Answers : (s : w.Sink) (c : ReasonCode) → Answers (write_fields w s 0 (plain c))
  unfolding write_fields write_reason_code write_interval write_reason_string write_user_properties
      write_server_reference write_int
  plain_fields-Answers s c =
      and_then-Answers (write_reason_code w s c) _
        (write_bytes-Answers s (to_be_bytes 1 (ReasonCode.value c)))
        (λ s1 _.
          and_then-Answers (VarByteInt.write w s1 0) _ (write_small-Answers s1 0 (omega arith))
            (λ s2 _. (ok s2 tt, refl)))

  pub plain-Answers : (s : w.Sink) (c : ReasonCode) → Answers (Disconnect.send w s (plain c))
  unfolding Disconnect.send new_header remaining_len properties_length interval_len
      server_reference_len reason_string_len user_properties_len var_len
  plain-Answers s c =
      map_err-Answers from_write
        (and_then (write w s (new_header Header.disconnect 0x00 2))
          (λ s1 _. write_fields w s1 0 (plain c)))
        (and_then-Answers (write w s (new_header Header.disconnect 0x00 2))
          (λ s1 _. write_fields w s1 0 (plain c))
          (write_header-Answers s (new_header Header.disconnect 0x00 2) (omega arith))
          (λ s1 _. plain_fields-Answers s1 c))
