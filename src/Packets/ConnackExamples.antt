-- ===== src/Packets/ConnackExamples.antt =====
-- A CONNACK packet, written out.
use rust_mqtt.Prelude.{◌≡◌, ◌≤◌, refl, ℕ, true, List, [], ◌∷◌, ◌++◌, length, returned, arith}
use rust_mqtt.Types.Qos.{Qos, level}
use rust_mqtt.Types.ReasonCode.{success}
use rust_mqtt.Wire.Transport.{ok, err}
use rust_mqtt.Wire.Header.{FixedHeader, flags}
use rust_mqtt.Wire.Ints.{to_be_bytes}
use rust_mqtt.Wire.Body.{Body}
use rust_mqtt.Wire.BodyFeed.{HoldsBody}
use rust_mqtt.Wire.Strings.{from_utf8_binary, StringPair}
use rust_mqtt.Wire.StringRound.{IsPair}
use rust_mqtt.Wire.Lists.{chunk_reader, Same, chunk_reader-IsFed}
use rust_mqtt.Packets.RxError.{protocol_error}
use rust_mqtt.Packets.PropertyType.{identifier}
use rust_mqtt.Packets.Disconnect.{seconds, interval_value}
use rust_mqtt.Packets.Values.{every, as_u16}
use rust_mqtt.Packets.Connack.{nothing_yet, connack_code_allowed, receive}
use rust_mqtt.Packets.ConnackProperty.{
  ConnackProperty, expiry, qos, user, method, keep_alive, type_of, value_bytes, keep, keep_all,
  is_some, has_come, IsValue, AreNew, all_bytes,
}
use rust_mqtt.Packets.ConnackRound.{fields_bytes, connack-receive, connack-repeated}
use rust_mqtt.Packets.Examples.{endless, endless_room, any_text}

abbrev pair : StringPair
pair = record { name = 0x61 ∷ []; value = [] }

-- Of two user properties, one is kept.
abbrev properties : List ConnackProperty
properties =
    keep_alive (every 60)
    ∷ user pair
    ∷ method (0x78 ∷ [])
    ∷ expiry (seconds 10)
    ∷ user pair
    ∷ qos Qos.at_least_once
    ∷ []

abbrev header : FixedHeader
header = record {
  type_and_flags = 0x20;
  remaining_len = length (fields_bytes true success (all_bytes properties));
}

no_flags : flags header ≡ 0
unfolding flags
no_flags = refl

success_allowed : connack_code_allowed success ≡ true
unfolding connack_code_allowed
success_allowed = refl

properties_new : AreNew any_text 1 properties nothing_yet
unfolding has_come is_some keep IsValue from_utf8_binary
properties_new =
    let pair_valid : IsPair any_text pair = (
      record { short = omega arith; accepted = refl },
      record { short = omega arith; accepted = refl },
    ) in
    (
      (omega arith, omega arith),
      refl,
      (
        pair_valid,
        refl,
        (omega arith, refl, ((omega arith, omega arith), refl, (pair_valid, refl, (tt, refl, tt)))),
      ),
    )

properties_short : length (all_bytes properties) ≤ 268435455
unfolding all_bytes value_bytes type_of identifier to_be_bytes interval_value level as_u16
properties_short = omega arith

connack-receive_example :
    (b' : Body chunk_reader endless) × (receive any_text chunk_reader endless 1 header (record {
      r = fields_bytes true success (all_bytes properties) ++ (7 ∷ []);
      buffer = 0;
      remaining_len = length (fields_bytes true success (all_bytes properties));
    })
      ≡ returned (
          ok b' (record {
            session_present = true;
            reason_code = success;
            properties = keep_all 1 properties nothing_yet;
          })))
    × HoldsBody chunk_reader endless Same (7 ∷ []) b' []
connack-receive_example =
    connack-receive chunk_reader endless Same (7 ∷ []) chunk_reader-IsFed endless_room any_text 1
      header true success properties
      (record {
        r = fields_bytes true success (all_bytes properties) ++ (7 ∷ []);
        buffer = 0;
        remaining_len = length (fields_bytes true success (all_bytes properties));
      })
      no_flags success_allowed properties_new properties_short (refl, refl)

-- The keep alive comes a second time.
abbrev repeated : List ℕ
repeated =
    all_bytes properties
    ++ ((identifier (type_of (keep_alive (every 30))) ∷ []) ++ value_bytes (keep_alive (every 30)))

keep_alive_came : has_come (keep_alive (every 30)) (keep_all 1 properties nothing_yet) ≡ true
unfolding has_come is_some keep
keep_alive_came = refl

repeated_short : length repeated ≤ 268435455
unfolding all_bytes value_bytes type_of identifier to_be_bytes interval_value level as_u16
repeated_short = omega arith

connack-repeated_example :
    (b' : Body chunk_reader endless) × (receive any_text chunk_reader endless 1 header (record {
      r = fields_bytes true success repeated ++ (7 ∷ []);
      buffer = 0;
      remaining_len = length (fields_bytes true success repeated);
    })
      ≡ returned (err b' protocol_error))
connack-repeated_example =
    connack-repeated chunk_reader endless Same (7 ∷ []) chunk_reader-IsFed endless_room any_text 1
      header true success properties (keep_alive (every 30)) (value_bytes (keep_alive (every 30)))
      (record {
        r = fields_bytes true success repeated ++ (7 ∷ []);
        buffer = 0;
        remaining_len = length (fields_bytes true success repeated);
      })
      no_flags success_allowed properties_new keep_alive_came repeated_short (refl, refl)
