-- ===== src/Topics/Subscription.antt =====
-- src/types/topic.rs and src/client/options/subscribe.rs: a filter of a SUBSCRIBE packet with its byte
-- of options.
use rust_mqtt.Prelude.{
  ℕ, ◌/◌, ◌%◌, Bool, true, false, ◌&&◌, ◌==◌, if◌then◌else◌, Option, none, some, List, ◌≡◌, ◌↔◌,
  sym, ap, subst, arith,
}
use Prim.Native.Nat.{bit_or}
use rust_mqtt.Types.Qos.{Qos, into_bits, try_from_bits}
use rust_mqtt.Topics.Filter.{is_shared}

pub data RetainHandling : Type 0 where
  always_send send_if_not_subscribed_before never_send : RetainHandling

-- The fields of `Options` that go into the byte.
pub record SubscriptionOptions : Type 0 where
  pub retain_handling : RetainHandling
  pub retain_as_published : Bool
  pub no_local : Bool
  pub qos : Qos

-- `Options::new`
abbrev pub default_options : SubscriptionOptions
default_options = record {
  retain_handling = always_send;
  retain_as_published = false;
  no_local = false;
  qos = Qos.at_most_once;
}

pub record SubscriptionFilter : Type 0 where
  pub topic : List ℕ
  pub subscription_options : ℕ

abbrev pub retain_handling_bits : RetainHandling → ℕ
retain_handling_bits always_send = 0x00
retain_handling_bits send_if_not_subscribed_before = 0x10
retain_handling_bits never_send = 0x20

abbrev pub options_bits : SubscriptionOptions → ℕ
options_bits o =
    bit_or
      (bit_or
        (bit_or (retain_handling_bits o.retain_handling)
          (if o.retain_as_published then 0x08 else 0x00))
        (if o.no_local then 0x04 else 0x00))
      (into_bits o.qos 0)

-- `SubscriptionFilter::new`; `none` is `NoLocalSharedSubscription`.
unfoldable pub new : List ℕ → SubscriptionOptions → Option SubscriptionFilter
unfolding into_bits is_shared
new topic o =
    if o.no_local && is_shared topic
    then none
    else some (record { topic = topic; subscription_options = options_bits o })

-- The fields as MQTT places them in the byte: maximum QoS in bits 0 and 1, no local in bit 2, retain
-- as published in bit 3, retain handling in bits 4 and 5.
unfoldable pub HasFields : ℕ → SubscriptionOptions → Type 0
HasFields byte o =
    (try_from_bits (byte % 4) ≡ some o.qos)
    × ((byte / 4 % 2 == 1) ≡ o.no_local)
    × ((byte / 8 % 2 == 1) ≡ o.retain_as_published)
    × (byte / 16 ≡ (elim o.retain_handling [
      | always_send ↦ 0
      | send_if_not_subscribed_before ↦ 1
      | never_send ↦ 2
    ]))

all_bits :
    (h : RetainHandling) (rap nl : Bool) (q : Qos)
    → HasFields
        (options_bits
          (record { retain_handling = h; retain_as_published = rap; no_local = nl; qos = q }))
        (record { retain_handling = h; retain_as_published = rap; no_local = nl; qos = q })
unfolding HasFields into_bits try_from_bits
all_bits h rap nl q = ground (arith)

chosen :
    {A : Type 0} (refused : Bool) (a b : A) → (if refused then none else some a) ≡ some b → b ≡ a
chosen refused a b e = ground arith

-- The filter of a subscription is refused exactly if no local is asked of a shared subscription;
-- else it keeps the topic filter, and its byte of options has each option in the place that MQTT
-- gives it.
pub new-fields :
    (topic : List ℕ) (o : SubscriptionOptions)
    → ((new topic o ≡ none) ↔ ((o.no_local ≡ true) × (is_shared topic ≡ true)))
      × ((f : SubscriptionFilter)
          → new topic o ≡ some f
          → (f.topic ≡ topic) × HasFields f.subscription_options o)
unfolding new
new-fields topic o = (
  ground arith,
  λ f e.
      let same = chosen (o.no_local && is_shared topic) _ f e in
      (
        ap (λ g. g.topic) same,
        subst (λ g. HasFields g.subscription_options o) (sym same)
            (all_bits o.retain_handling o.retain_as_published o.no_local o.qos),
      ),
)
