-- ===== src/Packets/PublishExamples.antt =====
-- A publication, written out.
use rust_mqtt.Prelude.{
  ℕ, zero, suc, ◌+◌, ◌%◌, ◌^◌, ◌≤◌, ◌≡◌, refl, true, false, none, some, List, [], ◌∷◌, ◌++◌, length,
  returned, arith, leb, if◌then◌else◌,
}
use rust_mqtt.Types.Qos.{IdentifiedQos, packet_identifier}
use rust_mqtt.Wire.Transport.{ok}
use rust_mqtt.Wire.Body.{Body}
use rust_mqtt.Wire.BodyFeed.{HoldsBody}
use rust_mqtt.Wire.Encoding.{encoding}
use rust_mqtt.Wire.Ints.{to_be_bytes}
use rust_mqtt.Wire.VarByteInt.{max_encodable}
use rust_mqtt.Wire.Strings.{from_utf8_binary}
use rust_mqtt.Wire.Lists.{
  list_writer, same_bytes, list_writer-IsOpen, chunk_reader, Same, chunk_reader-IsFed,
}
use rust_mqtt.Topics.Name.{topic_name}
use rust_mqtt.Packets.PropertyType.{identifier}
use rust_mqtt.Packets.PropertyBytes.{optional_bytes}
use rust_mqtt.Packets.PropertyBytes.{user_bytes}
use rust_mqtt.Packets.Publish.{PublishPacket, mapped, named, alias_of, name_of, receive}
use rust_mqtt.Packets.PublishSend.{name_or_empty, created, new, remaining_len, send}
use rust_mqtt.Packets.PublishBytes.{properties_bytes, fields_bytes, IsPublish}
use rust_mqtt.Packets.PublishLimits.{new-accepts, new-wraps}
use rust_mqtt.Packets.PublishWrite.{publish_header, packet_bytes}
use rust_mqtt.Packets.PublishRound.{publish-receive}
use rust_mqtt.Packets.Examples.{endless, endless_room, any_text}

-- A publication at level 2 under a new alias, with a user property, an expiry and a content type.
abbrev pub letter : PublishPacket
letter =
    created true (IdentifiedQos.exactly_once 513) false (mapped (0x61 ∷ 0x2F ∷ 0x62 ∷ []) 7)
      (some true) (some 300) none (some (1 ∷ 2 ∷ [])) (record { name = 0x61 ∷ []; value = [] } ∷ [])
      (some (0x63 ∷ [])) (9 ∷ 8 ∷ [])

-- Four gibibytes.
replicate : ℕ → List ℕ
replicate zero = []
replicate (suc n) = 0 ∷ replicate n

length-replicate : (n : ℕ) → length (replicate n) ≡ n
unfolding replicate
length-replicate zero = refl
length-replicate (suc n) = omega (arith, length-replicate n)

abbrev flood : ℕ → PublishPacket
flood n =
    created false IdentifiedQos.at_most_once false (named (0x61 ∷ [])) none none none none [] none
      (replicate n)

pub letter_valid : IsPublish any_text 1 letter
unfolding packet_identifier name_of alias_of topic_name from_utf8_binary optional_bytes identifier
    name_or_empty user_bytes to_be_bytes encoding
letter_valid = record {
  empty = refl;
  identified = (omega arith, omega arith);
  name = record { string = record { short = omega arith; accepted = refl }; accepted = refl };
  alias = (omega arith, omega arith);
  expiry = omega arith;
  response = tt;
  correlation = omega arith;
  user = (
    (
      record { short = omega arith; accepted = refl },
      record { short = omega arith; accepted = refl },
    ),
    tt,
  );
  few = omega arith;
  content = record { short = omega arith; accepted = refl };
  subscriptions = refl;
  fits = omega arith;
}

publish-receive_example :
    ((s' : List ℕ) × (send list_writer [] letter ≡ returned (ok s' tt))
      × (s' ≡ packet_bytes letter))
    × ((b' : Body chunk_reader endless) × (receive any_text chunk_reader endless 0 1
            (publish_header letter)
            (record {
              r = fields_bytes letter ++ (7 ∷ []);
              buffer = 0;
              remaining_len = length (fields_bytes letter);
            })
          ≡ returned (ok b' letter))
        × HoldsBody chunk_reader endless Same (7 ∷ []) b' [])
publish-receive_example =
    publish-receive list_writer same_bytes list_writer-IsOpen chunk_reader endless Same
      chunk_reader-IsFed any_text 0 1 letter letter_valid (7 ∷ []) endless_room []
      (record {
        r = fields_bytes letter ++ (7 ∷ []);
        buffer = 0;
        remaining_len = length (fields_bytes letter);
      })
      (refl, refl)

new-accepts_example :
    new letter
    ≡ returned (if leb (length (fields_bytes letter)) max_encodable then some letter else none)
new-accepts_example = new-accepts letter (let fits = letter_valid.fits in omega arith)

length-flood : (n : ℕ) → length (fields_bytes (flood n)) ≡ n + 4
unfolding packet_identifier alias_of optional_bytes name_or_empty name_of user_bytes encoding
    to_be_bytes
length-flood n = omega (arith, length-replicate n)

flood_wraps : (n : ℕ) → n ≡ 4294967296 → length (fields_bytes (flood n)) % 2 ^ 32 ≤ max_encodable
flood_wraps n h = omega (arith, length-flood n)

no_properties_bytes : (n : ℕ) → length (properties_bytes (flood n)) ≤ max_encodable
unfolding alias_of optional_bytes user_bytes
no_properties_bytes n = omega arith

new-wraps_example :
    (new (flood 4294967296) ≡ returned (some (flood 4294967296)))
    × (remaining_len (flood 4294967296)
        ≡ returned (length (fields_bytes (flood 4294967296)) % 2 ^ 32))
new-wraps_example =
    new-wraps (flood 4294967296) (no_properties_bytes 4294967296) (flood_wraps 4294967296 refl)
