-- ===== src/Raw/Abort.antt =====
-- src/client/raw/mod.rs: what `abort` sends, and that it ends the connection.
use rust_mqtt.Prelude.{
  ℕ, false, Option, none, some, List, [], ◌∷◌, ◌++◌, returned, ◌≡◌, refl, ap, arith,
}
use rust_mqtt.Types.ReasonCode.{ReasonCode}
use rust_mqtt.Types.ReasonCode
use rust_mqtt.Wire.Transport.{Writer, IsOpen, ok, err}
use rust_mqtt.Wire.VarByteInt
use rust_mqtt.Wire.Header.{write, FixedHeader}
use rust_mqtt.Wire.Header
use rust_mqtt.Wire.Feed.{map_err}
use rust_mqtt.Wire.Encoding.{encoding}
use rust_mqtt.Wire.WriteVar.{Appends, write-takes}
use rust_mqtt.Wire.RoundTrip.{write_header-takes}
use rust_mqtt.Wire.Compose.{Appends-then, Appends-nothing}
use rust_mqtt.Wire.Body.{BufferProvider}
use rust_mqtt.Packets.RxError.{from_write}
use rust_mqtt.Packets.AckType.{new_header, type_bits}
use rust_mqtt.Packets.PubackSend.{
  write_reason_code, write_reason_string, write_user_properties, reason_string_len,
  user_properties_len, var_len,
}
use rust_mqtt.Packets.PubackWrite.{write_byte-takes, value_small}
use rust_mqtt.Packets.Disconnect.{
  DisconnectPacket, new, remaining_len, properties_length, interval_len, server_reference_len,
  write_fields, write_interval, write_server_reference,
}
use rust_mqtt.Packets.Disconnect
use rust_mqtt.Raw.Net.{Transport, writer_of, NetState, is_ok, terminate, from_tx}
use rust_mqtt.Raw.Connection.{Raw, Result, value, error, with_net, close_with, abort}
use rust_mqtt.Raw.Answers.{plain, IsWriter, plain-Answers}

-- The fixed header, the reason code and the length of no properties.
abbrev pub disconnect_bytes : ReasonCode → List ℕ
disconnect_bytes c = 0xE0 ∷ 2 ∷ ReasonCode.value c ∷ 0 ∷ []

module _ (w : Writer) (contents : w.Sink → List ℕ) (open_sink : IsOpen w contents) where
  plain_fields-takes :
      (s : w.Sink) (c : ReasonCode)
      → Appends w contents open_sink s (write_fields w s 0 (plain c)) (ReasonCode.value c ∷ 0 ∷ [])
  unfolding write_fields write_reason_code write_interval write_reason_string write_user_properties
      write_server_reference encoding
  plain_fields-takes s c =
      Appends-then w contents open_sink s (write_reason_code w s c) _ (ReasonCode.value c ∷ [])
        (0 ∷ []) (write_byte-takes w contents open_sink s (ReasonCode.value c) (value_small c))
        (λ s1.
          Appends-then w contents open_sink s1 (VarByteInt.write w s1 0) _ (0 ∷ []) []
            (write-takes w contents open_sink s1 0 (omega arith))
            (λ s2. Appends-nothing w contents open_sink s2))

  plain-takes :
      (s : w.Sink) (c : ReasonCode)
      → (s' : w.Sink) × (Disconnect.send w s (plain c) ≡ returned (ok s' tt))
        × (contents s' ≡ contents s ++ disconnect_bytes c)
  unfolding Disconnect.send new_header type_bits encoding remaining_len properties_length
      interval_len server_reference_len reason_string_len user_properties_len var_len
  plain-takes s c =
      let (s', e, z) =
        Appends-then w contents open_sink s (write w s (new_header Header.disconnect 0x00 2))
          (λ s1 _. write_fields w s1 0 (plain c)) (0xE0 ∷ 2 ∷ []) (ReasonCode.value c ∷ 0 ∷ [])
          (write_header-takes w contents open_sink s (new_header Header.disconnect 0x00 2)
            (omega arith))
          (λ s1. plain_fields-takes s1 c) in
      (s', ap (map_err from_write) e, z)

module _ (transport : Transport) (provider : BufferProvider) where
  -- The result leaves a terminated connection.
  abbrev pub IsOver : Result transport provider Unit → Type 0
  IsOver (value r u) = r.n ≡ NetState.terminated
  IsOver (error r e) = r.n ≡ NetState.terminated

  abbrev Ends : Raw transport provider → Type 0
  Ends r =
      (x : Result transport provider Unit) × (dropped : Option transport.Net) × (abort transport
          provider r
        ≡ returned (x, dropped))
      × IsOver x

  Ends-from :
      IsWriter (writer_of transport)
      → (r : Raw transport provider) (n : NetState transport.Net) → r.n ≡ n
      → is_ok n ≡ false
      → Ends r
  unfolding abort is_ok close_with
  Ends-from honest r (NetState.ok s) e down = absurd (ground arith)
  Ends-from honest r NetState.terminated e down = (
    value (with_net transport provider NetState.terminated r) tt,
    none,
    rw (e, abort) (ap (λ n. returned (value (with_net transport provider n r) tt, none)) e),
    refl,
  )
  Ends-from honest r (NetState.faulted s c) e down =
      let (reply, sent) = plain-Answers (writer_of transport) honest s c in
      (elim reply
          as (λ z. Disconnect.send (writer_of transport) s (plain c) ≡ returned z → Ends r) [
            | ok t u ↦ λ sent. (
              value (with_net transport provider NetState.terminated r) tt,
              some t,
              rw (e, sent, abort) refl,
              refl,
            )
            | err t q ↦ λ sent. (
              error (with_net transport provider NetState.terminated r) (from_tx transport q),
              some t,
              rw (e, sent, abort) refl,
              refl,
            )
          ]
        sent)

  -- On a connection that is down, with a transport whose calls take no more bytes than they are
  -- given, abort returns and leaves the connection terminated, whether or not the transport takes
  -- the DISCONNECT packet.
  pub abort-ends :
      IsWriter (writer_of transport)
      → (r : Raw transport provider) → is_ok r.n ≡ false
      → (x : Result transport provider Unit) × (dropped : Option transport.Net) × (abort transport
            provider r
          ≡ returned (x, dropped))
        × IsOver x
  abort-ends honest r down = Ends-from honest r r.n refl down

  -- On a faulted connection whose transport takes all bytes, abort writes a DISCONNECT packet of
  -- four bytes with the reason code of the fault, drops the network and leaves the connection
  -- terminated.
  pub abort-sends :
      (contents : transport.Net → List ℕ)
      → IsOpen (writer_of transport) contents
      → (r : Raw transport provider) (s : transport.Net) (c : ReasonCode)
      → r.n ≡ NetState.faulted s c
      → (s' : transport.Net) × (abort transport provider r
          ≡ returned (value (with_net transport provider NetState.terminated r) tt, some s'))
        × (contents s' ≡ contents s ++ disconnect_bytes c)
  unfolding abort is_ok close_with terminate
  abort-sends contents open_sink r s c faulty =
      let (s', e, z) = plain-takes (writer_of transport) contents open_sink s c in
      (s', rw (faulty, e, abort) refl, z)
