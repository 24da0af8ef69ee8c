-- ===== src/Raw/Examples.antt =====
-- Connections written out, over a transport of two lists: what is still to be read, and what has been
-- written.
use rust_mqtt.Prelude.{
  ℕ, ◌≤◌, ◌≡◌, refl, ap, Bool, true, Option, some, List, [], ◌∷◌, ◌++◌, length, returned, arith,
}
use rust_mqtt.Types.ReasonCode.{malformed_packet, success}
use rust_mqtt.Wire.Transport.{IsOpen, done}
use rust_mqtt.Wire.Header.{FixedHeader, fresh}
use rust_mqtt.Wire.Lists.{write_two, read_two, takes_two}
use rust_mqtt.Packets.AckType.{ack}
use rust_mqtt.Packets.Puback.{PubackPacket, receive}
use rust_mqtt.Packets.PubackSend.{minimal}
use rust_mqtt.Packets.PubackSend
use rust_mqtt.Buffer.Bump.{bump_provider}
use rust_mqtt.Buffer.Bump
use rust_mqtt.Raw.Net.{Transport, reader_of, writer_of, NetState, is_ok}
use rust_mqtt.Raw.Connection.{
  Raw, Result, value, with_net, abort, send, flush, recv_body, recv_header,
}
use rust_mqtt.Raw.Laws.{
  Agrees, Receive, Send, HeaderPanics, BodyPanics, SendPanics, connection-Agrees,
}
use rust_mqtt.Raw.Answers.{IsWriter}
use rust_mqtt.Raw.Abort.{IsOver, disconnect_bytes, abort-sends, abort-ends}

-- What is to be read, and what is written.
abbrev Net : Type 0
Net = List ℕ × List ℕ

abbrev lists : Transport
lists = record {
  Net = Net;
  Error = Unit;
  ErrorKind = ℕ;
  read = λ n len. let (s, r) = read_two (n.0) len in ((s, n.1), r);
  write = λ n bytes. let (s, r) = write_two (n.1) bytes in ((n.0, s), r);
  flush = λ n. (n, done tt);
  kind = λ e. 0;
  write_zero_kind = 1;
  not_connected_kind = 2;
}

abbrev written : Net → List ℕ
written n = n.1

lists-IsOpen : IsOpen (writer_of lists) written
lists-IsOpen = record {
  takes = λ n b bytes.
      let (t, k, le, e, c) = takes_two (n.1) b bytes in
      ((n.0, t), k, le, ap (λ x. ((n.0, x.0), x.1)) e, c);
}

two_at_most :
    (n m : List ℕ) (bytes : List ℕ) (k : ℕ) → write_two n bytes ≡ (m, done k) → k ≤ length bytes
two_at_most n m [] k e = ground (arith)
two_at_most n m (a ∷ []) k e = ground (arith)
two_at_most n m (a ∷ b ∷ bytes) k e = ground (arith)

lists-IsWriter : IsWriter (writer_of lists)
lists-IsWriter = record {
  fits = λ n m bytes k e. two_at_most (n.1) (m.1) bytes k (ap (λ x. ((x.0).1, x.1)) e);
}

abbrev faulty : Raw lists bump_provider
faulty = record {
  n = NetState.faulted (1 ∷ [], 9 ∷ []) malformed_packet;
  buf = Bump.new 4;
  header = fresh;
}

-- The connection is up, and a PUBACK packet is to be read.
abbrev up : Raw lists bump_provider
up = record { n = NetState.ok (0x40 ∷ 2 ∷ 0 ∷ 5 ∷ [], []); buf = Bump.new 4; header = fresh }

abbrev any_text : List ℕ → Bool
any_text s = true

abbrev receive_puback : Receive lists bump_provider PubackPacket
receive_puback = receive any_text (reader_of lists) bump_provider 1 ack

abbrev send_puback : Send lists bump_provider
send_puback n = PubackSend.send (writer_of lists) ack n (minimal 5 success)

abbrev puback_header : FixedHeader
puback_header = record { type_and_flags = 0x40; remaining_len = 2 }

connection-Agrees_example :
    Agrees lists bump_provider
      (HeaderPanics lists bump_provider fresh)
      (recv_header lists bump_provider up)
    × Agrees lists bump_provider
        (BodyPanics lists bump_provider receive_puback puback_header)
        (recv_body lists bump_provider receive_puback puback_header up)
    × Agrees lists bump_provider
        (SendPanics lists bump_provider send_puback)
        (send lists bump_provider send_puback up)
    × Agrees lists bump_provider ⊥ (flush lists bump_provider up)
connection-Agrees_example =
    connection-Agrees lists bump_provider receive_puback send_puback puback_header up

abort-sends_example :
    (s' : Net) × (abort lists bump_provider faulty
      ≡ returned (value (with_net lists bump_provider NetState.terminated faulty) tt, some s'))
    × (s'.1 ≡ (9 ∷ []) ++ disconnect_bytes malformed_packet)
abort-sends_example =
    abort-sends lists bump_provider written lists-IsOpen faulty (1 ∷ [], 9 ∷ []) malformed_packet
      refl

abort-ends_example :
    (x : Result lists bump_provider Unit) × (dropped : Option Net) × (abort lists bump_provider
        faulty
      ≡ returned (x, dropped))
    × IsOver lists bump_provider x
unfolding is_ok
abort-ends_example = abort-ends lists bump_provider lists-IsWriter faulty refl
