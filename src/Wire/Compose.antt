-- ===== src/Wire/Compose.antt =====
-- src/io: readers and writers one after the other.
use rust_mqtt.Prelude.{ℕ, ◌≡◌, refl, sym, subst, ◌∙◌, List, [], ◌++◌, Outcome, returned}
use mathlib.Core.List.{append-nil, append_assoc}
use rust_mqtt.Wire.Transport.{Writer, IsOpen, Reply, ok, WriteError, write_bytes, write_bytes-takes}
use rust_mqtt.Wire.Feed.{and_then, map_err, Takes}
use rust_mqtt.Wire.WriteVar.{Appends}

module _ {S E A : Type 0} (holds : S → List ℕ → Type 0) where
  pub Takes-then :
      {B : Type 0} (f : S → Outcome (Reply S E A)) (g : S → A → Outcome (Reply S E B))
      (xs ys : List ℕ) (a : A) (b : B)
      → Takes holds f xs a
      → Takes holds (λ s. g s a) ys b
      → Takes holds (λ s. and_then (f s) g) (xs ++ ys) b
  Takes-then f g xs ys a b first second s rest h =
      let (t, e, h') = first s (ys ++ rest) (subst (holds s) (append_assoc xs ys rest) h) in
      let (u, e', h2) = second t rest h' in (u, rw (e) e', h2)

  -- A last step that takes no bytes.
  pub Takes-end :
      {B : Type 0} (f : S → Outcome (Reply S E A)) (g : S → A → Outcome (Reply S E B)) (xs : List ℕ)
      (a : A) (b : B)
      → Takes holds f xs a
      → ((s : S) → g s a ≡ returned (ok s b))
      → Takes holds (λ s. and_then (f s) g) xs b
  Takes-end f g xs a b first last s rest h =
      let (t, e, h') = first s rest h in (t, rw (e) (last t), h')

  pub Takes-map_err :
      {F : Type 0} (w : E → F) (f : S → Outcome (Reply S E A)) (xs : List ℕ) (a : A)
      → Takes holds f xs a
      → Takes holds (λ s. map_err w (f s)) xs a
  Takes-map_err w f xs a first s rest h = let (t, e, h') = first s rest h in (t, rw (e) refl, h')

module _ (w : Writer) (contents : w.Sink → List ℕ) (open_sink : IsOpen w contents) where
  pub Appends-then :
      (s : w.Sink) (m : Outcome (Reply w.Sink (WriteError w.Error) Unit))
      (k : w.Sink → Unit → Outcome (Reply w.Sink (WriteError w.Error) Unit)) (xs ys : List ℕ)
      → Appends w contents open_sink s m xs
      → ((t : w.Sink) → Appends w contents open_sink t (k t tt) ys)
      → Appends w contents open_sink s (and_then m k) (xs ++ ys)
  Appends-then s m k xs ys (t, e, c) second =
      let (u, e', c') = second t in
      (u, rw (e) e', c' ∙ rw (c, append_assoc (contents s) xs ys) refl)

  pub Appends-nothing : (s : w.Sink) → Appends w contents open_sink s (returned (ok s tt)) []
  Appends-nothing s = (s, refl, sym (append-nil (contents s)))

  pub Appends-bytes :
      (s : w.Sink) (bytes : List ℕ) → Appends w contents open_sink s (write_bytes w s bytes) bytes
  Appends-bytes s bytes = write_bytes-takes w contents open_sink s bytes
