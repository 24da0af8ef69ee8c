-- ===== src/Client/Released.antt =====
-- The loop of rerelease in src/client/mod.rs goes over all entries.
use rust_mqtt.Prelude.{
  ℕ, zero, suc, ◌+◌, ◌≤◌, ◌≡◌, refl, ap, sym, ◌∙◌, Bool, true, false, Bool-cases, inl, inr, none,
  some, List, [], ◌∷◌, ◌++◌, map, length, length-append, get_elem?, returned, arith,
}
use mathlib.Core.List.{append_assoc, append-nil}
use rust_mqtt.Keyed.Find.{modify-middle}
use rust_mqtt.Types.AckMode.{automatic}
use rust_mqtt.Types.Pid.{PacketIdentifier}
use rust_mqtt.Types.ReasonCode.{success}
use rust_mqtt.Session.LocalState.{LocalPublishState, due_rel, await_comp}
use rust_mqtt.Session.State.{Session, Outbound, OutboundHandle, ok}
use rust_mqtt.Session.OutboundHandle.{outbound_pubrel, set_ok, set, packet_identifier, next}
use rust_mqtt.Session.Ops.{outbound_iter}
use rust_mqtt.Client.Poll.{Packet, pubrel}
use rust_mqtt.Client.Rerelease.{is_due, rerelease_loop, rerelease, rereleased, due_packets}

abbrev with_outbound : Session → List Outbound → Session
with_outbound s es = record s { outbound_publishes = es }

abbrev at : Session → List Outbound → Outbound → List Outbound → OutboundHandle
at s front e back = record {
  session = with_outbound s (front ++ e ∷ back);
  i = length front;
  state = e.1;
}

get_middle :
    {A : Type 0} (front : List A) (x : A) (back : List A)
    → get_elem? (front ++ x ∷ back) (length front) ≡ some x
get_middle [] x back = refl
get_middle (y ∷ front) x back = get_middle front x back

get_next :
    {A : Type 0} (front : List A) (x : A) (back : List A)
    → get_elem? (front ++ x ∷ back) (suc (length front)) ≡ get_elem? back 0
get_next [] x back = refl
get_next (y ∷ front) x back = get_next front x back

plus_one : (n : ℕ) → n + 1 ≡ suc n
plus_one n = omega arith

next-none : (s : Session) (front : List Outbound) (e : Outbound) → next (at s front e []) ≡ none
unfolding next
next-none s front e = rw (plus_one (length front)) (rw (get_next front e []) refl)

next-some :
    (s : Session) (front : List Outbound) (e e' : Outbound) (back : List Outbound)
    → next (at s front e (e' ∷ back)) ≡ some (at s (front ++ e ∷ []) e' back)
unfolding next
next-some s front e e' back =
    rw
      (
        length-append front (e ∷ []),
        append_assoc front (e ∷ []) (e' ∷ back),
        plus_one (length front),
      )
      (rw (get_next front e (e' ∷ back)) refl)

pubrel_due :
    (s : Session) (front : List Outbound) (p : ℕ) (back : List Outbound)
    → outbound_pubrel (at s front (p, due_rel automatic) back)
      ≡ returned (at s front (p, await_comp automatic) back, ok)
unfolding outbound_pubrel set_ok set
pubrel_due s front p back =
    rw (modify-middle (λ e. (e.0, await_comp automatic)) front (p, due_rel automatic) back) refl

pid_here :
    (s : Session) (front : List Outbound) (e : Outbound) (back : List Outbound)
    → packet_identifier (at s front e back) ≡ returned e.0
unfolding packet_identifier
pid_here s front e back = rw (get_middle front e back) refl

is_due-state : (st : LocalPublishState) → is_due st ≡ true → st ≡ due_rel automatic
unfolding is_due
is_due-state st h = ground arith

module _ (transmits : Packet → Bool) (all : (packet : Packet) → transmits packet ≡ true)
    (s : Session) (fuel : ℕ) (front : List Outbound) (sent : List Packet) where
  skips_last :
      (e : Outbound)
      → is_due e.1 ≡ false
      → rerelease_loop transmits (suc fuel) (at s front e []) sent
        ≡ returned (with_outbound s (front ++ e ∷ []), sent, true)
  unfolding rerelease_loop is_due
  skips_last e d = rw d (rw (next-none s front e) refl)

  skips :
      (e e' : Outbound) (back : List Outbound)
      → is_due e.1 ≡ false
      → rerelease_loop transmits (suc fuel) (at s front e (e' ∷ back)) sent
        ≡ rerelease_loop transmits fuel (at s (front ++ e ∷ []) e' back) sent
  unfolding rerelease_loop is_due
  skips e e' back d = rw d (rw (next-some s front e e' back) refl)

  sends_last :
      (p : PacketIdentifier)
      → rerelease_loop transmits (suc fuel) (at s front (p, due_rel automatic) []) sent
        ≡ returned (
          with_outbound s (front ++ (p, await_comp automatic) ∷ []),
          sent ++ pubrel p success ∷ [],
          true,
        )
  unfolding rerelease_loop is_due
  sends_last p = rw (pubrel_due s front p []) (
      rw (pid_here s front (p, await_comp automatic) [])
        (rw (all (pubrel p success), next-none s front (p, await_comp automatic)) refl))

  sends :
      (p : PacketIdentifier) (e' : Outbound) (back : List Outbound)
      → rerelease_loop transmits (suc fuel) (at s front (p, due_rel automatic) (e' ∷ back)) sent
        ≡ rerelease_loop transmits fuel
            (at s (front ++ (p, await_comp automatic) ∷ []) e' back)
            (sent ++ pubrel p success ∷ [])
  unfolding rerelease_loop is_due
  sends p e' back = rw (pubrel_due s front p (e' ∷ back)) (
      rw (pid_here s front (p, await_comp automatic) (e' ∷ back))
        (rw (all (pubrel p success), next-some s front (p, await_comp automatic) e' back) refl))

  -- From the entry `e` on, the loop sends the PUBRELs that are due, in order, and marks them sent.
  abbrev Releases : ℕ → List Outbound → List Packet → Outbound → List Outbound → Type 0
  Releases n front sent e back =
      rerelease_loop transmits n (at s front e back) sent
      ≡ returned (
        with_outbound s (front ++ map rereleased (e ∷ back)),
        sent ++ due_packets (e ∷ back),
        true,
      )

  Releases-due :
      (p : PacketIdentifier) (back : List Outbound)
      → ((e' : Outbound) (back' : List Outbound)
          → back ≡ e' ∷ back'
          → Releases fuel
              (front ++ (p, await_comp automatic) ∷ [])
              (sent ++ pubrel p success ∷ [])
              e'
              back')
      → Releases (suc fuel) front sent (p, due_rel automatic) back
  unfolding rereleased is_due due_packets
  Releases-due p [] rest = sends_last p
  Releases-due p (e' ∷ back) rest =
      sends p e' back
      ∙ rw
          (
            sym (append_assoc front ((p, await_comp automatic) ∷ []) (map rereleased (e' ∷ back))),
            sym (append_assoc sent (pubrel p success ∷ []) (due_packets (e' ∷ back))),
          )
          (rest e' back refl)

  Releases-other :
      (e : Outbound) (back : List Outbound)
      → is_due e.1 ≡ false
      → ((e' : Outbound) (back' : List Outbound)
          → back ≡ e' ∷ back'
          → Releases fuel (front ++ e ∷ []) sent e' back')
      → Releases (suc fuel) front sent e back
  unfolding rereleased due_packets is_due
  Releases-other e [] d rest = skips_last e d ∙ rw (d, append-nil sent) refl
  Releases-other e (e' ∷ back) d rest =
      skips e e' back d
      ∙ rw d
          (rw (sym (append_assoc front (e ∷ []) (map rereleased (e' ∷ back)))) (rest e' back refl))

loop-Releases :
    (transmits : Packet → Bool)
    → (all : (packet : Packet) → transmits packet ≡ true)
    → (s : Session) (fuel : ℕ) (front : List Outbound) (sent : List Packet) (e : Outbound)
      (back : List Outbound)
    → length back + 1 ≤ fuel
    → Releases transmits all s fuel front sent fuel front sent e back
loop-Releases transmits all s zero front sent e back enough = absurd (omega arith)
loop-Releases transmits all s (suc fuel) front sent (p, st) back enough =
    elim (Bool-cases (is_due st)) [
      | inl d ↦ rw (is_due-state st d) (
          Releases-due transmits all s fuel front sent p back (λ e' back' q.
            loop-Releases transmits all s fuel _ _ e' back' (ground (arith, ap length q))))
      | inr d ↦
          Releases-other transmits all s fuel front sent (p, st) back d
            (λ e' back' q.
              loop-Releases transmits all s fuel _ _ e' back' (ground (arith, ap length q)))
    ]

rerelease_entries :
    (transmits : Packet → Bool)
    → (all : (packet : Packet) → transmits packet ≡ true) → (s : Session) (es : List Outbound)
    → rerelease transmits (with_outbound s es)
      ≡ returned (with_outbound s (map rereleased es), due_packets es, true)
unfolding rerelease outbound_iter due_packets
rerelease_entries transmits all s [] = refl
rerelease_entries transmits all s (e ∷ es) =
    loop-Releases transmits all s (length (e ∷ es)) [] [] e es (omega arith)

-- For every session and a transport that takes every packet, rerelease ends without a panic. It
-- sends a PUBREL for each publication of the client whose PUBREL is due and automatic, in the order
-- of the session, marks exactly these as waiting for their PUBCOMP, and changes nothing else.
pub rerelease_lem :
    (transmits : Packet → Bool)
    → (all : (packet : Packet) → transmits packet ≡ true) → (s : Session)
    → rerelease transmits s
      ≡ returned (
        record s { outbound_publishes = map rereleased s.outbound_publishes },
        due_packets s.outbound_publishes,
        true,
      )
rerelease_lem transmits all s = rerelease_entries transmits all s s.outbound_publishes
