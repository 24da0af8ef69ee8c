-- ===== src/Session/Step/Publishes.antt =====
-- PUBLISH by the user: it starts a publication under an unused identifier, or changes nothing.
use rust_mqtt.Prelude.{true, ◌≡◌, refl, inl, inr, ◌==◌, some, returned, Bool-cases, arith}
use rust_mqtt.Vec.{HeaplessVec, IsHeaplessVec}
use rust_mqtt.Types.AckMode.{AckMode, automatic, manual}
use rust_mqtt.Types.Pid.{PacketIdentifier}
use rust_mqtt.Types.Pid.{IsPid}
use rust_mqtt.Types.Qos.{Qos}
use rust_mqtt.Session.LocalState.{LocalPublishState, await_ack, await_rec}
use rust_mqtt.Session.State.{Session, Limits, ok, err, no_capacity}
use rust_mqtt.Session.FreeHandle.{initial_state}
use rust_mqtt.Session.View.{IsValid, OutboundStep}
use rust_mqtt.Session.Calls.{publishes, Answer, resulted, refused, step, with_free, tracks_publish}
use rust_mqtt.Session.Spec.After.{peer_after, local_after, delivered, delivered_after}
use rust_mqtt.Session.Step.{Steps, Stepped, Answered, peer_same, same-Stepped}
use rust_mqtt.Session.Effects.Free.{outbound_publish_effect}
use rust_mqtt.Session.Free.{free_handle-Search, IsUnused}

initial_of :
    (qos : Qos) (mode : AckMode)
    → tracks_publish qos mode ≡ true
    → (st : LocalPublishState) × (initial_state qos mode ≡ returned st)
unfolding tracks_publish initial_state
initial_of Qos.at_most_once mode e = cc
initial_of Qos.at_least_once automatic e = (await_ack, refl)
initial_of Qos.at_least_once manual e = cc
initial_of Qos.exactly_once mode e = (await_rec mode, refl)

module _ (vec : HeaplessVec) (laws : IsHeaplessVec vec) {limits : Limits} {s : Session}
    (valid : IsValid limits s) (qos : Qos) (mode : AckMode) where
  no_publish :
      (a : Answer)
      → Answered limits s (publishes qos mode) s a
      → Stepped limits s (publishes qos mode) s a
  unfolding peer_after local_after delivered delivered_after
  no_publish a told =
      same-Stepped (publishes qos mode) a valid refl refl (λ q o. (refl, refl)) (λ q o. refl) told

  -- The new publication is the only one that changes, and it was not tracked before.
  start-Stepped :
      (p : PacketIdentifier) (st : LocalPublishState) (s' : Session)
      → tracks_publish qos mode ≡ true
      → IsPid p
      → IsUnused s p
      → initial_state qos mode ≡ returned st
      → IsValid limits s' × OutboundStep s s' p (some st)
      → Stepped limits s (publishes qos mode) s' (resulted ok)
  unfolding peer_after local_after delivered delivered_after
  start-Stepped p st s' tracks range unused starts (v, m) = record {
    valid = v;
    peers = λ q. peer_same s s' q m.same_inbound;
    deliveries = λ q. refl;
    locals = λ q. elim (Bool-cases (p == q)) [
      | inl hit ↦
          inr (qos, mode, st, refl, ground (arith, unused.0), starts, ground (arith, m.locals q))
      | inr miss ↦ inl (ground (arith, m.locals q))
    ];
    answered = inr (tracks, inl (refl, (p, range, unused, (st, starts, m))));
  }

  pub Steps-publishes : Steps vec limits s (publishes qos mode)
  unfolding step with_free
  Steps-publishes = elim (Bool-cases (tracks_publish qos mode)) [
    | inr untracked ↦ (s, refused, rw untracked, no_publish refused (inl (untracked, refl, refl)))
    | inl tracks ↦ elim (free_handle-Search s) [
      | inr (found, all_used) ↦ (
        s,
        refused,
        rw (tracks, found),
        no_publish refused (inr (tracks, inr (refl, inl (refl, all_used)))),
      )
      | inl (p, found, range, unused, least) ↦
          let (st, starts) = initial_of qos mode tracks in
          elim (outbound_publish_effect vec laws valid p qos mode st unused starts) [
            | inl (s', done, reach) ↦ (
              s',
              resulted ok,
              rw (tracks, found, done),
              start-Stepped p st s' tracks range unused starts reach,
            )
            | inr (full, done) ↦ (
              s,
              resulted (err no_capacity),
              rw (tracks, found, done),
              no_publish _ (inr (tracks, inr (refl, inr (refl, full)))),
            )
          ]
    ]
  ]
