-- ===== src/Raw/Connection.antt =====
-- src/client/raw/mod.rs: `Raw`, the connection with its buffer and its half-read header.
use rust_mqtt.Prelude.{if◌then◌else◌, Option, none, some, [], Outcome, returned, panicked, ◌>>=◌}
use rust_mqtt.Types.ReasonCode.{ReasonCode}
use rust_mqtt.Wire.Transport.{ReadError, WriteError, Reply, Io, done, failed, write_error}
use rust_mqtt.Wire.Transport
use rust_mqtt.Wire.Header.{FixedHeader, HeaderState, fresh}
use rust_mqtt.Wire.Header
use rust_mqtt.Wire.Body.{BufferProvider, Body}
use rust_mqtt.Packets.RxError.{RxError, TxError, from_header, from_write}
use rust_mqtt.Packets.Disconnect
use rust_mqtt.Raw.Net.{
  Transport, reader_of, writer_of, NetState, net, refused, is_ok, get, fail, terminate, RawError,
  network, disconnected, alloc, server, from_tx, from_rx,
}

module _ (transport : Transport) (provider : BufferProvider) where
  pub record Raw : Type 0 where
    pub n : NetState transport.Net
    pub buf : provider.State
    pub header : HeaderState

  abbrev pub Error : Type 0
  Error = RawError transport.ErrorKind provider.ProvisionError

  -- What an operation leaves.
  pub data Result (A : Type 0) : Type 0 where
    value : Raw → A → Result A
    error : Raw → Error → Result A

  unfoldable pub new_disconnected : provider.State → Raw
  new_disconnected buf = record { n = NetState.terminated; buf = buf; header = fresh }

  abbrev pub with_net : NetState transport.Net → Raw → Raw
  with_net n r = record { n = n; buf = r.buf; header = r.header }

  -- `set_net`, its debug assertion on
  unfoldable pub set_net : transport.Net → Raw → Outcome Raw
  unfolding is_ok
  set_net s r = if is_ok r.n then panicked else returned (with_net (NetState.ok s) r)

  -- `close_with`, with the network that it drops
  unfoldable pub close_with : Option ReasonCode → Raw → Raw × Option transport.Net
  unfolding fail terminate
  close_with (some c) r = (with_net (fail c r.n) r, none)
  close_with none r = (with_net NetState.terminated r, terminate r.n)

  -- `abort`, with the network that it drops
  unfoldable pub abort : Raw → Outcome (Result Unit × Option transport.Net)
  unfolding is_ok close_with Disconnect.send from_tx
  abort r = if is_ok r.n then panicked else (elim r.n [
    | NetState.faulted s c ↦ (do
      sent ← Disconnect.send (writer_of transport) s (Disconnect.new c none none [])
      elim sent [
        | Transport.ok s' _ ↦
            (let (r', dropped) = close_with none (with_net (NetState.faulted s' c) r) in
              returned (value r' tt, dropped))
        | Transport.err s' e ↦
            (let (r', dropped) = close_with none (with_net (NetState.faulted s' c) r) in
              returned (error r' (from_tx transport e), dropped))
      ])
    | NetState.ok s ↦ (let (r', dropped) = close_with none r in returned (value r' tt, dropped))
    | NetState.terminated ↦ returned (value r tt, none)
  ])

  -- `handle_rx`, in a debug build
  unfoldable pub handle_rx :
      RxError transport.Error provider.ProvisionError → Raw → Outcome (Raw × Error)
  unfolding from_rx close_with
  handle_rx e r =
      let (e', c) = from_rx transport e in
      elim e' [
        | disconnected ↦ panicked
        | network k ↦ returned ((close_with c r).0, network k)
        | alloc b ↦ returned ((close_with c r).0, alloc b)
        | server ↦ returned ((close_with c r).0, server)
      ]

  -- `handle_tx`, in a debug build
  unfoldable pub handle_tx : TxError transport.Error → Raw → Outcome (Raw × Error)
  unfolding from_tx
  handle_tx e r =
      let e' : Error = from_tx transport e in
      elim e' [
        | network k ↦ returned (with_net NetState.terminated r, network k)
        | disconnected ↦ panicked
        | alloc b ↦ panicked
        | server ↦ panicked
      ]

  -- `Err(self.handle_rx(e))` and `map_err(|e| self.handle_tx(e))`
  abbrev pub rx_failure :
      {A : Type 0} → RxError transport.Error provider.ProvisionError → Raw → Outcome (Result A)
  rx_failure e r = do x ← handle_rx e r; returned (error x.0 x.1)

  abbrev pub tx_failure : {A : Type 0} → TxError transport.Error → Raw → Outcome (Result A)
  tx_failure e r = do x ← handle_tx e r; returned (error x.0 x.1)

  -- What is made of the answer of the transport: of a header, a body, a sent packet and a flush.
  abbrev pub header_received :
      Raw
      → HeaderState × Reply transport.Net (ReadError transport.Error) FixedHeader
      → Outcome (Result FixedHeader)
  header_received r (state, Transport.ok s h) =
      returned (value (record { n = NetState.ok s; buf = r.buf; header = state }) h)
  header_received r (state, Transport.err s e) =
      rx_failure (from_header e) (record { n = NetState.ok s; buf = r.buf; header = state })

  abbrev pub BodyReply : Type 0 → Type 0
  BodyReply A =
      Reply (Body (reader_of transport) provider) (RxError transport.Error provider.ProvisionError)
        A

  abbrev pub body_received : {A : Type 0} → Raw → BodyReply A → Outcome (Result A)
  body_received r (Transport.ok b a) =
      returned (value (record { n = NetState.ok b.r; buf = b.buffer; header = r.header }) a)
  body_received r (Transport.err b e) =
      rx_failure e (record { n = NetState.ok b.r; buf = b.buffer; header = r.header })

  abbrev pub packet_sent :
      Raw → Reply transport.Net (TxError transport.Error) Unit → Outcome (Result Unit)
  packet_sent r (Transport.ok s u) = returned (value (with_net (NetState.ok s) r) u)
  packet_sent r (Transport.err s e) = tx_failure e (with_net (NetState.ok s) r)

  abbrev pub flushed : Raw → transport.Net × Io transport.Error Unit → Outcome (Result Unit)
  flushed r (s, done u) = returned (value (with_net (NetState.ok s) r) u)
  flushed r (s, failed e) = tx_failure (from_write (write_error e)) (with_net (NetState.ok s) r)

  unfoldable pub recv_header : Raw → Outcome (Result FixedHeader)
  unfolding get Header.recv_header handle_rx from_header
  recv_header r = elim (get r.n) [
    | refused e ↦ returned (error r disconnected)
    | net s ↦ (do x ← Header.recv_header (reader_of transport) r.header s; header_received r x)
  ]

  -- `recv_body`, for the packet whose `receive` is given
  unfoldable pub recv_body :
      {A : Type 0}
      → (FixedHeader → Body (reader_of transport) provider → Outcome (BodyReply A))
      → FixedHeader
      → Raw
      → Outcome (Result A)
  unfolding get handle_rx
  recv_body receive h r = elim (get r.n) [
    | refused e ↦ returned (error r disconnected)
    | net s ↦ (do
      x ← receive h (record { r = s; buffer = r.buf; remaining_len = h.remaining_len })
      body_received r x)
  ]

  -- `send`, for the packet whose `send` is given
  unfoldable pub send :
      (transport.Net → Outcome (Reply transport.Net (TxError transport.Error) Unit))
      → Raw
      → Outcome (Result Unit)
  unfolding get handle_tx
  send packet r = elim (get r.n) [
    | refused e ↦ returned (error r disconnected)
    | net s ↦ (do x ← packet s; packet_sent r x)
  ]

  unfoldable pub flush : Raw → Outcome (Result Unit)
  unfolding get handle_tx from_write
  flush r = elim (get r.n) [
    | refused e ↦ returned (error r disconnected)
    | net s ↦ flushed r (transport.flush s)
  ]
