-- ===== src/Wire/Examples.antt =====
-- Numbers and headers on transports on lists.
use rust_mqtt.Prelude.{ℕ, ◌+◌, ◌≡◌, refl, List, [], ◌∷◌, length, take, drop, some, arith}
use rust_mqtt.Wire.Transport.{Reader, done}
use rust_mqtt.Wire.Encoding.{encoding}
use rust_mqtt.Wire.Header.{
  publish, FixedHeader, fresh, from_type_and_flags, packet_type, write, written_len,
}
use rust_mqtt.Wire.WriteVar.{Appends}
use rust_mqtt.Wire.Receive.{Receives}
use rust_mqtt.Wire.Lists.{list_writer, same_bytes, list_writer-IsOpen}
use rust_mqtt.Wire.RoundTrip.{recv_header-write}

abbrev list_reader : Reader
list_reader = record {
  Stream = List ℕ;
  Error = Unit;
  read = λ s len. (drop len s, done (take len s));
}

abbrev header : FixedHeader
header = record { type_and_flags = 0x32; remaining_len = 321 }

recv_header-write_example :
    Appends list_writer same_bytes list_writer-IsOpen []
      (write list_writer [] header)
      (0x32 ∷ encoding 321)
    × (written_len header ≡ some (1 + length (encoding 321)))
    × Receives list_reader fresh (0x32 ∷ 193 ∷ 2 ∷ 9 ∷ []) (9 ∷ []) 0x32 321
unfolding encoding packet_type from_type_and_flags
recv_header-write_example =
    recv_header-write list_writer same_bytes list_writer-IsOpen list_reader []
      (0x32 ∷ 193 ∷ 2 ∷ 9 ∷ []) (9 ∷ []) fresh header publish refl refl refl (omega arith)
      (193 ∷ 2 ∷ 9 ∷ [], refl, (2 ∷ 9 ∷ [], refl, (9 ∷ [], refl, refl)))
