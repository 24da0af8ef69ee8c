-- ===== src/Packets/DisconnectExamples.antt =====
-- A DISCONNECT packet of a server, written out.
use rust_mqtt.Prelude.{ℕ, ◌≡◌, refl, true, some, List, [], ◌∷◌, ◌++◌, length, returned, arith}
use rust_mqtt.Types.ReasonCode.{use_another_server, value}
use rust_mqtt.Wire.Transport.{ok}
use rust_mqtt.Wire.Encoding.{encoding}
use rust_mqtt.Wire.Header.{FixedHeader, flags}
use rust_mqtt.Wire.Ints.{to_be_bytes}
use rust_mqtt.Wire.Body.{Body}
use rust_mqtt.Wire.BodyFeed.{HoldsBody}
use rust_mqtt.Wire.Strings.{from_utf8_binary}
use rust_mqtt.Wire.Lists.{chunk_reader, Same, chunk_reader-IsFed}
use rust_mqtt.Packets.PropertyType.{identifier}
use rust_mqtt.Packets.PropertyBytes.{optional_bytes, user_bytes}
use rust_mqtt.Packets.DisconnectReceive.{Notice, disconnect_code_allowed, receive}
use rust_mqtt.Packets.DisconnectRead.{
  packet_of, properties_bytes, full, IsNotice, disconnect-receive,
}
use rust_mqtt.Packets.Examples.{endless, endless_room, any_text}

abbrev notice : Notice
notice = record {
  reason = some (0x6E ∷ 0x6F ∷ []);
  user = record { name = 0x61 ∷ []; value = [] } ∷ [];
  server = some (0x62 ∷ []);
}

abbrev bytes : List ℕ
bytes =
    (value use_another_server ∷ [])
    ++ (encoding (length (properties_bytes notice)) ++ properties_bytes notice)

abbrev header : FixedHeader
header = record { type_and_flags = 0xE0; remaining_len = length bytes }

no_flags : flags header ≡ 0
unfolding flags
no_flags = refl

allowed : disconnect_code_allowed use_another_server ≡ true
unfolding disconnect_code_allowed
allowed = refl

notice_valid : IsNotice any_text 1 notice
unfolding from_utf8_binary optional_bytes identifier user_bytes to_be_bytes
notice_valid = record {
  reason = record { short = omega arith; accepted = refl };
  user = (
    (
      record { short = omega arith; accepted = refl },
      record { short = omega arith; accepted = refl },
    ),
    tt,
  );
  few = omega arith;
  server = record { short = omega arith; accepted = refl };
  encodable = omega arith;
}

disconnect-receive_example :
    (b' : Body chunk_reader endless) × (receive any_text chunk_reader endless 1 header
        (record { r = bytes ++ (7 ∷ []); buffer = 0; remaining_len = length bytes })
      ≡ returned (ok b' (packet_of use_another_server notice)))
    × HoldsBody chunk_reader endless Same (7 ∷ []) b' []
disconnect-receive_example =
    disconnect-receive chunk_reader endless Same (7 ∷ []) chunk_reader-IsFed endless_room any_text 1
      header use_another_server notice bytes
      (record { r = bytes ++ (7 ∷ []); buffer = 0; remaining_len = length bytes }) no_flags allowed
      notice_valid (full use_another_server notice) refl (refl, refl)
