-- ===== src/Wire/Lists.antt =====
-- Transports on lists of bytes, for tests: two bytes are read or written in a call at most.
use rust_mqtt.Prelude.{
  ℕ, zero, suc, ◌≤◌, ◌≡◌, refl, sym, subst, List, [], ◌∷◌, ◌++◌, length, take, drop, arith,
}
use rust_mqtt.Wire.Transport.{Reader, Writer, IsOpen, Io, done}
use rust_mqtt.Wire.Feed.{IsFed}

abbrev pub write_two : List ℕ → List ℕ → List ℕ × Io Unit ℕ
write_two s [] = (s, done 0)
write_two s (a ∷ []) = (s ++ a ∷ [], done 1)
write_two s (a ∷ b ∷ bytes) = (s ++ a ∷ b ∷ [], done 2)

abbrev pub list_writer : Writer
list_writer = record { Sink = List ℕ; Error = Unit; write = write_two }

abbrev pub same_bytes : List ℕ → List ℕ
same_bytes s = s

pub takes_two :
    (s : List ℕ) (b : ℕ) (bytes : List ℕ)
    → (t : List ℕ) × (n : ℕ) × (n ≤ length bytes)
      × (write_two s (b ∷ bytes) ≡ (t, done (suc n)))
      × (t ≡ s ++ (b ∷ take n bytes))
takes_two s b [] = (s ++ b ∷ [], 0, omega arith, refl, refl)
takes_two s b (c ∷ bytes) = (s ++ b ∷ c ∷ [], 1, omega arith, refl, refl)

pub list_writer-IsOpen : IsOpen list_writer same_bytes
list_writer-IsOpen = record { takes = takes_two }

abbrev pub read_two : List ℕ → (len : ℕ) → List ℕ × Io Unit (List ℕ)
read_two [] len = ([], done [])
read_two (a ∷ s) zero = (a ∷ s, done [])
read_two (a ∷ s) (suc zero) = (s, done (a ∷ []))
read_two (a ∷ []) (suc (suc len)) = ([], done (a ∷ []))
read_two (a ∷ b ∷ s) (suc (suc len)) = (s, done (a ∷ b ∷ []))

abbrev pub chunk_reader : Reader
chunk_reader = record { Stream = List ℕ; Error = Unit; read = read_two }

abbrev pub Same : List ℕ → List ℕ → Type 0
Same s bytes = s ≡ bytes

abbrev Gives : ℕ → ℕ → List ℕ → List ℕ → Type 0
Gives len b bytes s =
    (t : List ℕ) × (n : ℕ) × (n ≤ len)
    × (n ≤ length bytes)
    × (read_two s (suc len) ≡ (t, done (b ∷ take n bytes)))
    × (t ≡ drop n bytes)

Gives-two : (len b : ℕ) (bytes : List ℕ) → Gives len b bytes (b ∷ bytes)
Gives-two zero b bytes = (bytes, 0, omega arith, omega arith, refl, refl)
Gives-two (suc len) b [] = ([], 0, omega arith, omega arith, refl, refl)
Gives-two (suc len) b (c ∷ bytes) = (bytes, 1, omega arith, omega arith, refl, refl)

pub chunk_reader-IsFed : IsFed chunk_reader Same
chunk_reader-IsFed = record {
  gives = λ s len b bytes h. subst (Gives len b bytes) (sym h) (Gives-two len b bytes);
}
