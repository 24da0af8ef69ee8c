-- ===== src/Packets/Examples.antt =====
-- Packets that acknowledge a publication, written out.
use rust_mqtt.Prelude.{
  ℕ, ◌+◌, ◌≡◌, refl, Bool, true, none, some, List, [], ◌∷◌, ◌++◌, length, returned, panicked, arith,
}
use rust_mqtt.Types.ReasonCode.{not_authorized, value}
use rust_mqtt.Wire.Transport.{ok, done}
use rust_mqtt.Wire.Ints.{to_be_bytes}
use rust_mqtt.Wire.Encoding.{encoding}
use rust_mqtt.Wire.VarByteInt
use rust_mqtt.Wire.Body.{BufferProvider, Body}
use rust_mqtt.Wire.BodyFeed.{HoldsBody, HasRoom}
use rust_mqtt.Wire.Strings.{from_utf8_binary}
use rust_mqtt.Wire.Lists.{
  list_writer, same_bytes, list_writer-IsOpen, chunk_reader, Same, chunk_reader-IsFed,
}
use rust_mqtt.Packets.PropertyType.{user_property, identifier}
use rust_mqtt.Packets.AckType.{
  rec, ack, ack_flags, ack_packet_type, new_header, reason_code_allowed,
}
use rust_mqtt.Packets.Puback.{PubackPacket, receive, read_property}
use rust_mqtt.Packets.PubackSend.{send, encoded_len, new}
use rust_mqtt.Packets.PropertyBytes.{user_bytes, optional_bytes}
use rust_mqtt.Packets.PubackBytes.{IsPuback, fields_bytes}
use rust_mqtt.Packets.PubackRound.{ack_header, packet_bytes, send-receive}
use rust_mqtt.Packets.PubackErrors.{read_property-panics}

-- Memory without an end.
abbrev pub endless : BufferProvider
endless = record {
  State = ℕ;
  ProvisionError = Unit;
  provide_buffer = λ used len. (used + len, done tt);
}

pub endless_room : HasRoom chunk_reader endless Same (7 ∷ [])
endless_room used len = (used + len, refl)

abbrev pub any_text : List ℕ → Bool
any_text s = true

-- A PUBREC packet with a reason string and a user property.
abbrev packet : PubackPacket
packet =
    new 513 not_authorized (some (0x6E ∷ 0x6F ∷ []))
      (record { name = 0x61 ∷ []; value = 0x62 ∷ 0x63 ∷ [] } ∷ [])

packet_valid : IsPuback any_text 1 rec packet
unfolding reason_code_allowed from_utf8_binary
packet_valid = record {
  bounded = omega arith;
  identified = (omega arith, omega arith);
  allowed = refl;
  reason = record { short = omega arith; accepted = refl };
  user = (
    (
      record { short = omega arith; accepted = refl },
      record { short = omega arith; accepted = refl },
    ),
    tt,
  );
  few = omega arith;
}

packet_on_wire :
    packet_bytes rec packet
    ≡ 0x50 ∷ 17 ∷ 2 ∷ 1 ∷ 0x87 ∷ 13 ∷ 0x1F ∷ 0 ∷ 2 ∷ 0x6E ∷ 0x6F ∷ 0x26 ∷ 0 ∷ 1 ∷ 0x61 ∷ 0 ∷ 2
      ∷ 0x62 ∷ 0x63 ∷ []
unfolding optional_bytes user_bytes encoding to_be_bytes value new_header ack_flags ack_packet_type
    identifier
packet_on_wire = refl

abbrev received : Body chunk_reader endless
received = record {
  r = fields_bytes packet ++ (7 ∷ []);
  buffer = 0;
  remaining_len = length (fields_bytes packet);
}

send-receive_example :
    ((s' : List ℕ) × (send list_writer rec (9 ∷ []) packet ≡ returned (ok s' tt))
      × (s' ≡ (9 ∷ []) ++ packet_bytes rec packet))
    × (encoded_len packet ≡ returned (length (packet_bytes rec packet)))
    × ((b' : Body chunk_reader endless) × (receive any_text chunk_reader endless 1 rec
            (ack_header rec packet)
            received
          ≡ returned (ok b' packet))
        × HoldsBody chunk_reader endless Same (7 ∷ []) b' [])
send-receive_example =
    send-receive list_writer same_bytes list_writer-IsOpen chunk_reader endless Same
      chunk_reader-IsFed any_text 1 rec packet packet_valid (7 ∷ []) endless_room (9 ∷ []) received
      (refl, refl)

abbrev body_of : List ℕ → ℕ → Body chunk_reader endless
body_of bytes n = record { r = bytes; buffer = 0; remaining_len = n }

-- The name of a user property is longer than what is left of the body.
read_property-panics_example :
    read_property any_text chunk_reader endless 0 user_property
      (body_of (0 ∷ 9 ∷ 1 ∷ 7 ∷ []) 3)
      (record { reason = none; user = [] })
    ≡ panicked
unfolding to_be_bytes
read_property-panics_example =
    read_property-panics chunk_reader endless Same (7 ∷ []) chunk_reader-IsFed endless_room any_text
      0 (record { reason = none; user = [] }) 9 (1 ∷ []) (body_of (0 ∷ 9 ∷ 1 ∷ 7 ∷ []) 3)
      (omega arith) (omega arith) (omega arith) (refl, refl)

-- So does the whole PUBACK packet.
hostile_puback :
    receive any_text chunk_reader endless 0 ack
      (record { type_and_flags = 0x40; remaining_len = 8 })
      (body_of (0 ∷ 5 ∷ 0 ∷ 4 ∷ 0x26 ∷ 0 ∷ 9 ∷ 1 ∷ []) 8)
    ≡ panicked
unfolding receive VarByteInt.read VarByteInt.read_loop VarByteInt.from_slice_unchecked
    VarByteInt.new_unchecked VarByteInt.decode_loop
hostile_puback = refl
