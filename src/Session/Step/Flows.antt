-- ===== src/Session/Step/Flows.antt =====
-- Every call that starts or ends a flow, or begins a connection, returns, and does what `Stepped` says.
use rust_mqtt.Prelude.{Bool, true, false, refl, inl, inr, Option-cases}
use rust_mqtt.Keyed.{position}
use rust_mqtt.Keyed.Find.{position-none_iff}
use rust_mqtt.Vec.{HeaplessVec, IsHeaplessVec}
use rust_mqtt.Types.Pid.{PacketIdentifier}
use rust_mqtt.Session.State.{
  Session, Limits, ok, err, no_capacity, self_key, sub_handle, unsub_handle,
}
use rust_mqtt.Session.View.{IsValid, sub_of, unsub_of}
use rust_mqtt.Session.Calls.{
  handle_suback, handle_unsuback, connects, subscribes, unsubscribes, receives_suback,
  receives_unsuback, resulted, refused, finished, step, with_free,
}
use rust_mqtt.Session.Spec.After.{peer_after, local_after, delivered, delivered_after}
use rust_mqtt.Session.Step.{Steps, same-Stepped}
use rust_mqtt.Session.Effects.Free.{
  outbound_sub_effect, outbound_unsub_effect, remove_sub_effect, remove_unsub_effect,
}
use rust_mqtt.Session.Effects.Bulk.{
  clear-IsValid, clear-lookups, reconnect-IsValid, reconnect-lookups,
}
use rust_mqtt.Session.Free.{free_handle-Search}

module _ (vec : HeaplessVec) (laws : IsHeaplessVec vec) {limits : Limits} {s : Session}
    (valid : IsValid limits s) where
  pub Steps-connect : (session_present : Bool) → Steps vec limits s (connects session_present)
  unfolding step peer_after local_after delivered delivered_after
  Steps-connect true = (
    _,
    finished,
    refl,
    record {
      valid = reconnect-IsValid valid;
      peers = λ q. (reconnect-lookups s q).0;
      deliveries = λ q. refl;
      locals = λ q. inl (reconnect-lookups s q).1;
      answered = (refl, λ q. let (x, y, u, v) = reconnect-lookups s q in (u, v));
    },
  )
  Steps-connect false = (
    _,
    finished,
    refl,
    record {
      valid = clear-IsValid limits s;
      peers = λ q. (clear-lookups s q).0;
      deliveries = λ q. refl;
      locals = λ q. inl (clear-lookups s q).1;
      answered = (refl, λ q. let (x, y, u, v) = clear-lookups s q in (u, v));
    },
  )

  pub Steps-suback : (p : PacketIdentifier) → Steps vec limits s (receives_suback p)
  unfolding step handle_suback sub_handle sub_of peer_after local_after delivered delivered_after
  Steps-suback p = elim (Option-cases (position self_key p s.subs)) [
    | inl e ↦ (
      s,
      finished,
      rw (e, handle_suback),
      same-Stepped (receives_suback p) finished valid refl refl (λ q o. (refl, refl)) (λ q o. refl)
          (refl, inl (refl, (position-none_iff self_key p s.subs).0 e)),
    )
    | inr ((i, x), e) ↦
        let (s', done, v, m) = remove_sub_effect vec laws valid p i x e in
        (
          s',
          finished,
          rw (e, done, handle_suback),
          same-Stepped (receives_suback p) finished v m.same_inbound m.same_outbound
              (λ q o. (refl, refl)) (λ q o. refl) (refl, inr m),
        )
  ]

  pub Steps-unsuback : (p : PacketIdentifier) → Steps vec limits s (receives_unsuback p)
  unfolding step handle_unsuback unsub_handle unsub_of peer_after local_after delivered
      delivered_after
  Steps-unsuback p = elim (Option-cases (position self_key p s.unsubs)) [
    | inl e ↦ (
      s,
      finished,
      rw (e, handle_unsuback),
      same-Stepped (receives_unsuback p) finished valid refl refl (λ q o. (refl, refl))
          (λ q o. refl) (refl, inl (refl, (position-none_iff self_key p s.unsubs).0 e)),
    )
    | inr ((i, x), e) ↦
        let (s', done, v, m) = remove_unsub_effect vec laws valid p i x e in
        (
          s',
          finished,
          rw (e, done, handle_unsuback),
          same-Stepped (receives_unsuback p) finished v m.same_inbound m.same_outbound
              (λ q o. (refl, refl)) (λ q o. refl) (refl, inr m),
        )
  ]

  pub Steps-subscribe : Steps vec limits s subscribes
  unfolding step with_free peer_after local_after delivered delivered_after
  Steps-subscribe = elim (free_handle-Search s) [
    | inl (p, found, range, unused, least) ↦ elim (outbound_sub_effect vec laws valid p unused) [
      | inl (s', done, v, m) ↦ (
        s',
        resulted ok,
        rw (found, done),
        same-Stepped subscribes _ v m.same_inbound m.same_outbound (λ q o. (refl, refl))
            (λ q o. refl) (inl (refl, (p, range, unused, m))),
      )
      | inr (full, done) ↦ (
        s,
        resulted (err no_capacity),
        rw (found, done),
        same-Stepped subscribes _ valid refl refl (λ q o. (refl, refl)) (λ q o. refl)
            (inr (refl, inr (refl, full))),
      )
    ]
    | inr (found, all_used) ↦ (
      s,
      refused,
      rw found,
      same-Stepped subscribes _ valid refl refl (λ q o. (refl, refl)) (λ q o. refl)
          (inr (refl, inl (refl, all_used))),
    )
  ]

  pub Steps-unsubscribe : Steps vec limits s unsubscribes
  unfolding step with_free peer_after local_after delivered delivered_after
  Steps-unsubscribe = elim (free_handle-Search s) [
    | inl (p, found, range, unused, least) ↦ elim (outbound_unsub_effect vec laws valid p unused) [
      | inl (s', done, v, m) ↦ (
        s',
        resulted ok,
        rw (found, done),
        same-Stepped unsubscribes _ v m.same_inbound m.same_outbound (λ q o. (refl, refl))
            (λ q o. refl) (inl (refl, (p, range, unused, m))),
      )
      | inr (full, done) ↦ (
        s,
        resulted (err no_capacity),
        rw (found, done),
        same-Stepped unsubscribes _ valid refl refl (λ q o. (refl, refl)) (λ q o. refl)
            (inr (refl, inr (refl, full))),
      )
    ]
    | inr (found, all_used) ↦ (
      s,
      refused,
      rw found,
      same-Stepped unsubscribes _ valid refl refl (λ q o. (refl, refl)) (λ q o. refl)
          (inr (refl, inl (refl, all_used))),
    )
  ]
