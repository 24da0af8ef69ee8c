-- ===== src/Packets/SubscribeExamples.antt =====
-- A subscription, an unsubscription and an answer to the first, written out.
use rust_mqtt.Prelude.{ℕ, ◌≡◌, refl, some, List, [], ◌∷◌, ◌++◌, length, returned, arith}
use rust_mqtt.Types.ReasonCode.{granted_qos1, not_authorized}
use rust_mqtt.Wire.Transport.{ok}
use rust_mqtt.Wire.Header.{FixedHeader, flags}
use rust_mqtt.Wire.Body.{Body}
use rust_mqtt.Wire.BodyFeed.{HoldsBody}
use rust_mqtt.Wire.Ints.{to_be_bytes}
use rust_mqtt.Wire.Strings.{from_utf8_binary, StringPair}
use rust_mqtt.Wire.StringRound.{IsPair}
use rust_mqtt.Wire.Lists.{
  list_writer, same_bytes, list_writer-IsOpen, chunk_reader, Same, chunk_reader-IsFed,
}
use rust_mqtt.Packets.PropertyType.{identifier}
use rust_mqtt.Packets.PropertyBytes.{optional_bytes}
use rust_mqtt.Packets.PropertyBytes.{user_bytes}
use rust_mqtt.Packets.Suback.{SubackPacket, sub, suback_code_allowed}
use rust_mqtt.Packets.Suback
use rust_mqtt.Packets.SubackRead.{IsSuback, suback-receive}
use rust_mqtt.Packets.SubackRead
use rust_mqtt.Packets.Subscribe.{SubscribePacket}
use rust_mqtt.Packets.Subscribe
use rust_mqtt.Packets.SubscribeWrite.{IsSubscribe, subscribe-sends}
use rust_mqtt.Packets.SubscribeWrite
use rust_mqtt.Packets.Unsubscribe.{UnsubscribePacket}
use rust_mqtt.Packets.Unsubscribe
use rust_mqtt.Packets.UnsubscribeWrite.{IsUnsubscribe, unsubscribe-sends}
use rust_mqtt.Packets.UnsubscribeWrite
use rust_mqtt.Packets.Examples.{endless, endless_room, any_text}

abbrev pair : StringPair
pair = record { name = 0x61 ∷ []; value = [] }

pair_valid : IsPair any_text pair
unfolding from_utf8_binary
pair_valid = (
  record { short = omega arith; accepted = refl },
  record { short = omega arith; accepted = refl },
)

abbrev request : SubscribePacket
request = record {
  packet_identifier = 513;
  subscription_identifier = some 300;
  user_properties = pair ∷ [];
  subscribe_filters = record { topic = 0x61 ∷ 0x23 ∷ []; subscription_options = 0x2D } ∷ [];
}

request_valid : IsSubscribe any_text 1 16 request
request_valid = record {
  filters_bounded = omega arith;
  users_bounded = omega arith;
  identifier = omega arith;
  user = (pair_valid, tt);
  few = omega arith;
  filters = ((omega arith, omega arith), tt);
  fit = omega arith;
}

subscribe-sends_example :
    (Subscribe.new 1 16 request ≡ returned (some request))
    × ((s' : List ℕ) × (Subscribe.send list_writer [] request ≡ returned (ok s' tt))
        × (s' ≡ SubscribeWrite.packet_bytes request))
subscribe-sends_example =
    subscribe-sends any_text 1 16 request request_valid list_writer same_bytes list_writer-IsOpen []

abbrev farewell : UnsubscribePacket
farewell = record {
  packet_identifier = 514;
  user_properties = pair ∷ [];
  topic_filters = (0x61 ∷ 0x23 ∷ []) ∷ (0x2B ∷ []) ∷ [];
}

farewell_valid : IsUnsubscribe any_text 2 16 farewell
farewell_valid = record {
  filters_bounded = omega arith;
  users_bounded = omega arith;
  user = (pair_valid, tt);
  few = omega arith;
  filters = (omega arith, (omega arith, tt));
  fit = omega arith;
}

unsubscribe-sends_example :
    (Unsubscribe.new 2 16 farewell ≡ returned (some farewell))
    × ((s' : List ℕ) × (Unsubscribe.send list_writer [] farewell ≡ returned (ok s' tt))
        × (s' ≡ UnsubscribeWrite.packet_bytes farewell))
unsubscribe-sends_example =
    unsubscribe-sends any_text 2 16 farewell farewell_valid list_writer same_bytes
      list_writer-IsOpen []

-- An answer to two filters, of which one is refused.
abbrev answer : SubackPacket
answer = record {
  packet_identifier = 513;
  reason_string = some (0x6E ∷ 0x6F ∷ []);
  user_properties = pair ∷ [];
  reason_codes = granted_qos1 ∷ not_authorized ∷ [];
}

abbrev answer_header : FixedHeader
answer_header = record {
  type_and_flags = 0x90;
  remaining_len = length (SubackRead.fields_bytes answer);
}

answer_valid : IsSuback any_text 2 1 sub answer
unfolding suback_code_allowed from_utf8_binary optional_bytes identifier user_bytes to_be_bytes
answer_valid = record {
  identified = (omega arith, omega arith);
  reason = record { short = omega arith; accepted = refl };
  user = (pair_valid, tt);
  few = omega arith;
  codes = (refl, (refl, tt));
  answered = omega arith;
  asked = omega arith;
  encodable = omega arith;
}

no_flags : flags answer_header ≡ 0
unfolding flags
no_flags = refl

suback-receive_example :
    (b' : Body chunk_reader endless) × (Suback.receive any_text chunk_reader endless 2 1 sub
        answer_header
        (record {
          r = SubackRead.fields_bytes answer ++ (7 ∷ []);
          buffer = 0;
          remaining_len = length (SubackRead.fields_bytes answer);
        })
      ≡ returned (ok b' answer))
    × HoldsBody chunk_reader endless Same (7 ∷ []) b' []
suback-receive_example =
    suback-receive chunk_reader endless Same (7 ∷ []) chunk_reader-IsFed endless_room any_text 2 1
      sub answer_header answer
      (record {
        r = SubackRead.fields_bytes answer ++ (7 ∷ []);
        buffer = 0;
        remaining_len = length (SubackRead.fields_bytes answer);
      })
      no_flags answer_valid (refl, refl)
