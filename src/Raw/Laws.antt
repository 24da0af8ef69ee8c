-- ===== src/Raw/Laws.antt =====
-- src/client/raw: what every operation does to the state of the connection.
use rust_mqtt.Prelude.{
  true, false, Option, none, some, Outcome, returned, panicked, ◌>>=◌, ◌≡◌, refl,
}
use rust_mqtt.Types.ReasonCode.{ReasonCode}
use rust_mqtt.Wire.Transport.{Reply, ReadError, Io, done, failed, write_error}
use rust_mqtt.Wire.Transport
use rust_mqtt.Wire.Header.{FixedHeader, HeaderState}
use rust_mqtt.Wire.Header
use rust_mqtt.Wire.Body.{BufferProvider, Body}
use rust_mqtt.Packets.RxError.{RxError, TxError, from_header, from_write}
use rust_mqtt.Packets.RxError
use rust_mqtt.Raw.Net.{Transport, reader_of, NetState, is_ok, from_rx, from_tx, get, fail}
use rust_mqtt.Raw.Connection.{
  Raw, Result, value, error, with_net, close_with, handle_rx, handle_tx, recv_header, recv_body,
  send, flush, BodyReply, rx_failure, tx_failure, header_received, body_received, packet_sent,
  flushed,
}

module _ (transport : Transport) (provider : BufferProvider) where
  abbrev pub Conn : Type 0
  Conn = Raw transport provider

  -- The connection is up after a value and down after an error; a panic has the cause `blame`.
  abbrev pub Agrees : {A : Type 0} → Type 0 → Outcome (Result transport provider A) → Type 0
  Agrees blame (returned (value r a)) = is_ok r.n ≡ true
  Agrees blame (returned (error r e)) = is_ok r.n ≡ false
  Agrees blame panicked = blame

  abbrev pub Receive : Type 0 → Type 0
  Receive A =
      FixedHeader
      → Body (reader_of transport) provider
      → Outcome (
          Reply (Body (reader_of transport) provider)
            (RxError transport.Error provider.ProvisionError) A)

  abbrev pub Send : Type 0
  Send = transport.Net → Outcome (Reply transport.Net (TxError transport.Error) Unit)

  -- The reader of the header, the packet's reader and the packet's writer panic at some input.
  abbrev pub HeaderPanics : HeaderState → Type 0
  HeaderPanics state =
      (s : transport.Net) × (Header.recv_header (reader_of transport) state s ≡ panicked)

  abbrev pub BodyPanics : {A : Type 0} → Receive A → FixedHeader → Type 0
  BodyPanics receive h = (b : Body (reader_of transport) provider) × (receive h b ≡ panicked)

  abbrev pub SendPanics : Send → Type 0
  SendPanics packet = (s : transport.Net) × (packet s ≡ panicked)

  fail-down : (c : ReasonCode) (n : NetState transport.Net) → is_ok (fail c n) ≡ false
  unfolding is_ok fail
  fail-down c (NetState.ok s) = refl
  fail-down c (NetState.faulted s d) = refl
  fail-down c NetState.terminated = refl

  pub close_with-down :
      (c : Option ReasonCode) (r : Conn) → is_ok (close_with transport provider c r).0.n ≡ false
  unfolding close_with is_ok
  close_with-down none r = refl
  close_with-down (some c) r = fail-down c r.n

  -- What the client is told of an error in receiving, and what is left of the connection.
  pub handle_rx-outcome :
      (e : RxError transport.Error provider.ProvisionError) (r : Conn)
      → handle_rx transport provider e r
        ≡ returned
            ((close_with transport provider (from_rx transport e).1 r).0, (from_rx transport e).0)
  unfolding handle_rx from_rx
  handle_rx-outcome (RxError.read e) r = refl
  handle_rx-outcome (RxError.buffer b) r = refl
  handle_rx-outcome RxError.unexpected_eof r = refl
  handle_rx-outcome RxError.malformed_packet r = refl
  handle_rx-outcome RxError.protocol_error r = refl
  handle_rx-outcome RxError.invalid_topic_name r = refl

  handle_tx-outcome :
      (e : TxError transport.Error) (r : Conn)
      → handle_tx transport provider e r
        ≡ returned (with_net transport provider NetState.terminated r, from_tx transport e)
  unfolding handle_tx from_tx
  handle_tx-outcome (TxError.write e) r = refl
  handle_tx-outcome RxError.write_zero r = refl

  bind-Agrees :
      {X A : Type 0} (blame : Type 0) (o : Outcome X)
      (k : X → Outcome (Result transport provider A))
      → (o ≡ panicked → blame)
      → ((x : X) → Agrees blame (k x))
      → Agrees blame (o >>= k)
  bind-Agrees blame (returned x) k cause all = all x
  bind-Agrees blame panicked k cause all = cause refl

  rx_failure-Agrees :
      (A blame : Type 0) (e : RxError transport.Error provider.ProvisionError) (r : Conn)
      → Agrees blame (rx_failure transport provider {A = A} e r)
  rx_failure-Agrees A blame e r =
      rw (handle_rx-outcome e r) (close_with-down (from_rx transport e).1 r)

  tx_failure-Agrees :
      (A blame : Type 0) (e : TxError transport.Error) (r : Conn)
      → Agrees blame (tx_failure transport provider {A = A} e r)
  unfolding is_ok
  tx_failure-Agrees A blame e r = rw (handle_tx-outcome e r) refl

  module _ (blame : Type 0) (r : Conn) where
    header_received-Agrees :
        (x : HeaderState × Reply transport.Net (ReadError transport.Error) FixedHeader)
        → Agrees blame (header_received transport provider r x)
    unfolding is_ok
    header_received-Agrees (state, Transport.ok s h) = refl
    header_received-Agrees (state, Transport.err s e) = rx_failure-Agrees _ blame (from_header e) _

    body_received-Agrees :
        {A : Type 0} (x : BodyReply transport provider A)
        → Agrees blame (body_received transport provider r x)
    unfolding is_ok
    body_received-Agrees (Transport.ok b a) = refl
    body_received-Agrees (Transport.err b e) = rx_failure-Agrees _ blame e _

    packet_sent-Agrees :
        (x : Reply transport.Net (TxError transport.Error) Unit)
        → Agrees blame (packet_sent transport provider r x)
    unfolding is_ok
    packet_sent-Agrees (Transport.ok s u) = refl
    packet_sent-Agrees (Transport.err s e) = tx_failure-Agrees _ blame e _

    flushed-Agrees :
        (x : transport.Net × Io transport.Error Unit)
        → Agrees blame (flushed transport provider r x)
    unfolding is_ok
    flushed-Agrees (s, done u) = refl
    flushed-Agrees (s, failed e) = tx_failure-Agrees _ blame (from_write (write_error e)) _

  recv_header-Agrees :
      (r : Conn) → Agrees (HeaderPanics r.header) (recv_header transport provider r)
  unfolding recv_header is_ok get
  recv_header-Agrees r =
      elim r.n
        as (λ n.
          Agrees (HeaderPanics r.header)
            (recv_header transport provider (with_net transport provider n r))) [
              | NetState.ok s ↦
                  bind-Agrees (HeaderPanics r.header)
                    (Header.recv_header (reader_of transport) r.header s) _ (λ e. (s, e))
                    (header_received-Agrees (HeaderPanics r.header)
                      (with_net transport provider (NetState.ok s) r))
              | NetState.faulted s c ↦ refl
              | NetState.terminated ↦ refl
            ]

  recv_body-Agrees :
      {A : Type 0} (receive : Receive A) (h : FixedHeader) (r : Conn)
      → Agrees (BodyPanics receive h) (recv_body transport provider receive h r)
  unfolding recv_body is_ok get
  recv_body-Agrees receive h r =
      elim r.n
        as (λ n.
          Agrees (BodyPanics receive h)
            (recv_body transport provider receive h (with_net transport provider n r))) [
              | NetState.ok s ↦
                  bind-Agrees (BodyPanics receive h)
                    (receive h (record { r = s; buffer = r.buf; remaining_len = h.remaining_len }))
                    _ (λ e. (record { r = s; buffer = r.buf; remaining_len = h.remaining_len }, e))
                    (body_received-Agrees (BodyPanics receive h)
                      (with_net transport provider (NetState.ok s) r))
              | NetState.faulted s c ↦ refl
              | NetState.terminated ↦ refl
            ]

  send-Agrees :
      (packet : Send) (r : Conn) → Agrees (SendPanics packet) (send transport provider packet r)
  unfolding send is_ok get
  send-Agrees packet r =
      elim r.n
        as (λ n.
          Agrees (SendPanics packet)
            (send transport provider packet (with_net transport provider n r))) [
              | NetState.ok s ↦
                  bind-Agrees (SendPanics packet) (packet s) _ (λ e. (s, e))
                    (packet_sent-Agrees (SendPanics packet)
                      (with_net transport provider (NetState.ok s) r))
              | NetState.faulted s c ↦ refl
              | NetState.terminated ↦ refl
            ]

  flush-Agrees : (r : Conn) → Agrees ⊥ (flush transport provider r)
  unfolding flush is_ok get
  flush-Agrees r =
      elim r.n as (λ n. Agrees ⊥ (flush transport provider (with_net transport provider n r))) [
        | NetState.ok s ↦
            flushed-Agrees ⊥ (with_net transport provider (NetState.ok s) r) (transport.flush s)
        | NetState.faulted s c ↦ refl
        | NetState.terminated ↦ refl
      ]

  -- Each of recv_header, recv_body, send and flush leaves the connection up when it returns a value
  -- and down, faulted or terminated, when it returns an error, in whatever state it was; and it
  -- panics only if the reader of the header, the packet's reader or the packet's writer does, flush
  -- never.
  pub connection-Agrees :
      {A : Type 0} (receive : Receive A) (packet : Send) (h : FixedHeader) (r : Conn)
      → Agrees (HeaderPanics r.header) (recv_header transport provider r)
        × Agrees (BodyPanics receive h) (recv_body transport provider receive h r)
        × Agrees (SendPanics packet) (send transport provider packet r)
        × Agrees ⊥ (flush transport provider r)
  connection-Agrees receive packet h r =
      (recv_header-Agrees r, recv_body-Agrees receive h r, send-Agrees packet r, flush-Agrees r)
