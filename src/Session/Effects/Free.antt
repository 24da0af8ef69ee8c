-- ===== src/Session/Effects/Free.antt =====
-- What a free handle does to a valid session: it starts a subscription, an unsubscription or a
-- publication under an unused packet identifier, or refuses for lack of space; and how the first two
-- end.
use rust_mqtt.Prelude.{
  ℕ, ◌≤◌, ◌≡◌, refl, ◌⊎◌, inl, inr, ltb, ltb→lt, Bool-cases, none, some, length, min, returned,
  arith,
}
use rust_mqtt.Keyed.{position}
use rust_mqtt.Keyed.Find.{position-Found}
use rust_mqtt.Vec.{HeaplessVec, IsHeaplessVec}
use rust_mqtt.Vec.Effects.{push-some, swap_remove-Updated}
use rust_mqtt.Types.AckMode.{AckMode}
use rust_mqtt.Types.Pid.{PacketIdentifier}
use rust_mqtt.Types.Qos.{Qos}
use rust_mqtt.Session.LocalState.{LocalPublishState}
use rust_mqtt.Session.State.{Session, Limits, self_key, ok, err, no_capacity}
use rust_mqtt.Session.FreeHandle.{
  initial_state, outbound_sub, outbound_unsub, outbound_publish, remove_sub, remove_unsub,
}
use rust_mqtt.Session.View.{sub_of, unsub_of, IsValid}
use rust_mqtt.Session.Effects.Outbound.{Reaches, schedule_effect, outbound_room}
use rust_mqtt.Session.Free.{IsUnused, IsUnused-handles}
use rust_mqtt.Session.Effects.Subs.{
  free, with_subs, with_unsubs, SubStep, UnsubStep, sub_step, sub-IsValid, unsub_step,
  unsub-IsValid,
}

module _ (vec : HeaplessVec) (laws : IsHeaplessVec vec) {limits : Limits} {s : Session}
    (valid : IsValid limits s) (p : PacketIdentifier) where
  pub outbound_sub_effect :
      IsUnused s p
      → ((s' : Session) × (outbound_sub vec limits (free s p) ≡ (s', ok))
          × IsValid limits s'
          × SubStep s s' p (some p))
        ⊎ ((limits.subscribe_maximum ≤ length s.subs)
            × (outbound_sub vec limits (free s p) ≡ (s, err no_capacity)))
  unfolding outbound_sub sub_of
  outbound_sub_effect unused = elim (Bool-cases (ltb (length s.subs) limits.subscribe_maximum)) [
    | inl room ↦
        let (ps, e, size, up) =
          push-some vec laws self_key limits.subscribe_maximum s.subs p (ltb→lt _ _ room) (unused.1)
            valid.subs_unique in
        inl (
          with_subs s ps,
          rw (e, outbound_sub),
          sub-IsValid valid p (some p) ps up (inr unused) (omega (arith, ltb→lt _ _ room)),
          sub_step s p (some p) ps up,
        )
    | inr full ↦
        let fits : limits.subscribe_maximum ≤ length s.subs = ground arith in
        inr (fits, rw (laws.push_full limits.subscribe_maximum s.subs p fits, outbound_sub))
  ]

  pub outbound_unsub_effect :
      IsUnused s p
      → ((s' : Session) × (outbound_unsub vec limits (free s p) ≡ (s', ok))
          × IsValid limits s'
          × UnsubStep s s' p (some p))
        ⊎ ((limits.subscribe_maximum ≤ length s.unsubs)
            × (outbound_unsub vec limits (free s p) ≡ (s, err no_capacity)))
  unfolding outbound_unsub unsub_of
  outbound_unsub_effect unused =
      elim (Bool-cases (ltb (length s.unsubs) limits.subscribe_maximum)) [
        | inl room ↦
            let (ps, e, size, up) =
              push-some vec laws self_key limits.subscribe_maximum s.unsubs p (ltb→lt _ _ room)
                (unused.2) valid.unsubs_unique in
            inl (
              with_unsubs s ps,
              rw (e, outbound_unsub),
              unsub-IsValid valid p (some p) ps up (inr unused) (omega (arith, ltb→lt _ _ room)),
              unsub_step s p (some p) ps up,
            )
        | inr full ↦
            let fits : limits.subscribe_maximum ≤ length s.unsubs = ground arith in
            inr (fits, rw (laws.push_full limits.subscribe_maximum s.unsubs p fits, outbound_unsub))
      ]

  -- A publication above level 0, and at level 1 with automatic acknowledgement, as `publish` asks.
  pub outbound_publish_effect :
      (qos : Qos) (mode : AckMode) (st : LocalPublishState)
      → IsUnused s p
      → initial_state qos mode ≡ returned st
      → ((s' : Session) × (outbound_publish vec limits (free s p) qos mode ≡ returned (s', ok))
          × Reaches limits s p (some st) s')
        ⊎ ((min limits.send_maximum 65535 ≤ length s.outbound_publishes)
            × (outbound_publish vec limits (free s p) qos mode ≡ returned (s, err no_capacity)))
  unfolding outbound_publish
  outbound_publish_effect qos mode st unused starts =
      elim (Bool-cases (ltb (length s.outbound_publishes) (min limits.send_maximum 65535))) [
        | inl room ↦
            let (no_local, no_sub, no_unsub) = IsUnused-handles s p unused in
            let (s', e, reach) =
              schedule_effect vec laws limits s valid p st unused.0 unused.1 unused.2 no_local
                no_sub no_unsub (ltb→lt _ _ room) in
            inl (s', rw (starts, outbound_room limits s valid, room, e), reach)
        | inr full ↦ inr (ground arith, rw (starts, outbound_room limits s valid, full))
      ]

  pub remove_sub_effect :
      (i : ℕ) (x : PacketIdentifier)
      → position self_key p s.subs ≡ some (i, x)
      → (s' : Session) × (remove_sub vec (record { session = s; i = i }) ≡ returned s')
        × IsValid limits s'
        × SubStep s s' p none
  unfolding remove_sub
  remove_sub_effect i x e =
      let (ps, done, size, up) =
        swap_remove-Updated vec laws self_key p i x s.subs valid.subs_unique
          (position-Found self_key p s.subs i x e) in
      (
        with_subs s ps,
        rw done,
        sub-IsValid valid p none ps up (inl refl) (omega (arith, valid.subs_fit)),
        sub_step s p none ps up,
      )

  pub remove_unsub_effect :
      (i : ℕ) (x : PacketIdentifier)
      → position self_key p s.unsubs ≡ some (i, x)
      → (s' : Session) × (remove_unsub vec (record { session = s; i = i }) ≡ returned s')
        × IsValid limits s'
        × UnsubStep s s' p none
  unfolding remove_unsub
  remove_unsub_effect i x e =
      let (ps, done, size, up) =
        swap_remove-Updated vec laws self_key p i x s.unsubs valid.unsubs_unique
          (position-Found self_key p s.unsubs i x e) in
      (
        with_unsubs s ps,
        rw done,
        unsub-IsValid valid p none ps up (inl refl) (omega (arith, valid.unsubs_fit)),
        unsub_step s p none ps up,
      )
