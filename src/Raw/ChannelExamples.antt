-- ===== src/Raw/ChannelExamples.antt =====
-- Two publications that one connection sends and another receives, written out.
use rust_mqtt.Prelude.{ℕ, ◌≡◌, refl, List, [], ◌∷◌, ◌++◌, returned}
use rust_mqtt.Wire.Transport.{done}
use rust_mqtt.Wire.Header.{fresh}
use rust_mqtt.Wire.Lists.{
  list_writer, same_bytes, list_writer-IsOpen, chunk_reader, Same, chunk_reader-IsFed,
}
use rust_mqtt.Packets.Publish.{PublishPacket}
use rust_mqtt.Packets.PublishExamples.{letter, letter_valid}
use rust_mqtt.Packets.Examples.{endless, endless_room, any_text}
use rust_mqtt.Raw.Net.{Transport, NetState}
use rust_mqtt.Raw.Connection.{Raw, value, with_net}
use rust_mqtt.Raw.Channel.{ready, all_bytes, send_all, recv_all, channel}

-- A wire that is written to its end and read from its start.
abbrev wire : Transport
wire = record {
  Net = List ℕ;
  Error = Unit;
  ErrorKind = ℕ;
  read = chunk_reader.read;
  write = list_writer.write;
  flush = λ n. (n, done tt);
  kind = λ e. 0;
  write_zero_kind = 1;
  not_connected_kind = 2;
}

abbrev idle : Raw wire endless
idle = record { n = NetState.terminated; buf = 0; header = fresh }

abbrev letters : List PublishPacket
letters = letter ∷ letter ∷ []

channel_example :
    ((s' : List ℕ) × (send_all wire endless letters
          (with_net wire endless (NetState.ok (7 ∷ [])) idle)
        ≡ returned (value (with_net wire endless (NetState.ok s') idle) tt))
      × (s' ≡ (7 ∷ []) ++ all_bytes letters))
    × ((t' : List ℕ) × (buf' : ℕ) × (buffer' : List ℕ) × (recv_all any_text wire endless 0 1 2
            (ready wire endless (all_bytes letters ++ (9 ∷ [])) 0 (0 ∷ 0 ∷ 0 ∷ 0 ∷ 0 ∷ []))
          ≡ returned (value (ready wire endless t' buf' buffer') letters))
        × Same t' (9 ∷ []))
channel_example =
    channel any_text 0 1 letters (letter_valid, (letter_valid, tt)) wire endless same_bytes
      list_writer-IsOpen idle (7 ∷ []) wire Same chunk_reader-IsFed endless_room
      (all_bytes letters ++ (9 ∷ [])) 0 (0 ∷ 0 ∷ 0 ∷ 0 ∷ 0 ∷ []) (9 ∷ []) refl refl
