-- ===== src/Packets/Subscribe.antt =====
-- src/v5/packet/subscribe.rs: sending a SUBSCRIBE packet; with the filters of src/types/topic.rs.
use rust_mqtt.Prelude.{
  ℕ, ◌+◌, ◌%◌, ◌^◌, leb, ◌&&◌, if◌then◌else◌, Option, none, some, List, [], ◌∷◌, Outcome, returned,
  panicked, ◌>>=◌,
}
use rust_mqtt.Types.Pid.{PacketIdentifier}
use rust_mqtt.Wire.Transport.{Writer, Reply, ok}
use rust_mqtt.Wire.Feed.{and_then, map_err}
use rust_mqtt.Wire.Ints.{write_int, u8_len, u16_len}
use rust_mqtt.Wire.VarByteInt.{VarByteInt, new_unchecked}
use rust_mqtt.Wire.VarByteInt
use rust_mqtt.Wire.Header.{subscribe, write}
use rust_mqtt.Wire.Strings.{StringPair, binary_len, write_binary}
use rust_mqtt.Topics.Subscription.{SubscriptionFilter}
use rust_mqtt.Packets.RxError.{TxError, from_write}
use rust_mqtt.Packets.PropertyType.{subscription_identifier}
use rust_mqtt.Packets.Property.{property_len, Write, write_property, write_optional}
use rust_mqtt.Packets.AckType.{new_header}
use rust_mqtt.Packets.PubackSend.{
  user_properties_len, var_len, write_packet_identifier, write_user_properties,
}

pub record SubscribePacket : Type 0 where
  pub packet_identifier : PacketIdentifier
  pub subscription_identifier : Option VarByteInt
  pub user_properties : List StringPair
  pub subscribe_filters : List SubscriptionFilter

-- `written_len` of the filters
unfoldable pub filters_len : List SubscriptionFilter → ℕ
filters_len [] = 0
filters_len (f ∷ fs) = binary_len f.topic + u8_len + filters_len fs

-- `written_len` of the subscription identifier
unfoldable pub subscription_len : Option VarByteInt → Outcome ℕ
unfolding var_len
subscription_len none = returned 0
subscription_len (some v) = var_len v >>= λ n. returned (property_len (λ v. n) v)

-- `properties_length`
unfoldable pub properties_length : SubscribePacket → Outcome VarByteInt
unfolding new_unchecked user_properties_len subscription_len
properties_length p = subscription_len p.subscription_identifier >>= λ n.
    new_unchecked ((n + user_properties_len p.user_properties) % 2 ^ 32)

-- `remaining_len_raw`; `none` is `TooLargeToEncode`.
unfoldable pub remaining_len_raw : SubscribePacket → Outcome (Option VarByteInt)
unfolding properties_length var_len filters_len VarByteInt.new
remaining_len_raw p = do
  l ← properties_length p
  n ← var_len l
  returned (VarByteInt.new ((u16_len + (l + n) + filters_len p.subscribe_filters) % 2 ^ 32))

-- `new`, on the packet that is made: the total is looked at only for large constants.
unfoldable pub new :
    (max_topic_filters max_user_properties : ℕ) → SubscribePacket → Outcome (Option SubscribePacket)
unfolding remaining_len_raw
new max_topic_filters max_user_properties p =
    if leb max_user_properties 1021 && leb max_topic_filters 2053
    then returned (some p)
    else (remaining_len_raw p >>= λ r. returned (elim r [ none ↦ none | some l ↦ some p ]))

-- `remaining_len`; its `unwrap_unchecked` is checked.
unfoldable pub remaining_len : SubscribePacket → Outcome VarByteInt
unfolding remaining_len_raw
remaining_len p = remaining_len_raw p >>= λ r. elim r [ none ↦ panicked | some l ↦ returned l ]

module _ (w : Writer) where
  unfoldable pub write_filters : w.Sink → List SubscriptionFilter → Write w
  unfolding write_binary write_int
  write_filters s [] = returned (ok s tt)
  write_filters s (f ∷ fs) =
      and_then (write_binary w s f.topic)
        (λ s1 _. and_then (write_int w 1 s1 f.subscription_options) (λ s2 _. write_filters s2 fs))

  -- The fields after the fixed header, the property length being `l`.
  unfoldable pub write_fields : w.Sink → VarByteInt → SubscribePacket → Write w
  unfolding write_packet_identifier write_user_properties write_filters write_optional
      write_property
  write_fields s l p = and_then (write_packet_identifier w s p.packet_identifier) (λ s1 _.
      and_then (VarByteInt.write w s1 l) (λ s2 _.
        and_then
          (write_optional w (write_property w subscription_identifier (VarByteInt.write w)) s2
            p.subscription_identifier)
          (λ s3 _.
            and_then (write_user_properties w s3 p.user_properties)
              (λ s4 _. write_filters s4 p.subscribe_filters))))

  -- `send`
  unfoldable pub send : w.Sink → SubscribePacket → Outcome (Reply w.Sink (TxError w.Error) Unit)
  unfolding new_header write remaining_len properties_length write_fields from_write
  send s p = do
    total ← remaining_len p
    l ← properties_length p
    map_err from_write
        (and_then (write w s (new_header subscribe 0x02 total)) (λ s' _. write_fields s' l p))
