-- ===== src/Raw/Net.antt =====
-- src/client/raw/net.rs and src/client/raw/err.rs: the state of the network connection, and the errors
-- the client sees.
use rust_mqtt.Prelude.{Bool, true, false, Option, none, some, List, ℕ}
use rust_mqtt.Types.ReasonCode.{ReasonCode, implementation_specific_error, topic_name_invalid}
use rust_mqtt.Wire.Transport.{Io, Reader, Writer}
use rust_mqtt.Packets.RxError.{RxError, TxError, write, write_zero}

-- `Transport`, a `Read` and a `Write` of embedded-io whose errors have a kind.
pub record Transport : Type 1 where
  pub Net : Type 0
  pub Error : Type 0
  pub ErrorKind : Type 0
  pub read : Net → (len : ℕ) → Net × Io Error (List ℕ)
  pub write : Net → List ℕ → Net × Io Error ℕ
  pub flush : Net → Net × Io Error Unit
  pub kind : Error → ErrorKind
  pub write_zero_kind : ErrorKind
  pub not_connected_kind : ErrorKind

abbrev pub reader_of : Transport → Reader
reader_of n = record { Stream = n.Net; Error = n.Error; read = n.read }

abbrev pub writer_of : Transport → Writer
writer_of n = record { Sink = n.Net; Error = n.Error; write = n.write }

-- `NetState`
pub data NetState (N : Type 0) : Type 0 where
  ok : N → NetState N
  faulted : N → ReasonCode → NetState N
  terminated : NetState N

-- `NetStateError`, with the network that `get` borrows otherwise
pub data NetStateError : Type 0 where
  faulted terminated : NetStateError

pub data Borrowed (N : Type 0) : Type 0 where
  net : N → Borrowed N
  refused : NetStateError → Borrowed N

unfoldable pub is_ok : {N : Type 0} → NetState N → Bool
is_ok (NetState.ok n) = true
is_ok (NetState.faulted n r) = false
is_ok NetState.terminated = false

unfoldable pub get : {N : Type 0} → NetState N → Borrowed N
get (NetState.ok n) = net n
get (NetState.faulted n r) = refused NetStateError.faulted
get NetState.terminated = refused NetStateError.terminated

unfoldable pub fail : {N : Type 0} → ReasonCode → NetState N → NetState N
fail c (NetState.ok n) = NetState.faulted n c
fail c (NetState.faulted n r) = NetState.faulted n c
fail c NetState.terminated = NetState.terminated

-- The state is left terminated.
unfoldable pub terminate : {N : Type 0} → NetState N → Option N
terminate (NetState.ok n) = some n
terminate (NetState.faulted n r) = some n
terminate NetState.terminated = none

-- `RawError`
pub data RawError (K B : Type 0) : Type 0 where
  network : K → RawError K B
  disconnected : RawError K B
  alloc : B → RawError K B
  server : RawError K B

module _ (transport : Transport) {B : Type 0} where
  -- `From<TxError>`
  unfoldable pub from_tx : TxError transport.Error → RawError transport.ErrorKind B
  from_tx write_zero = network transport.write_zero_kind
  from_tx (write e) = network (transport.kind e)

  -- `From<RxError>`, the error and the reason code.
  unfoldable pub from_rx :
      RxError transport.Error B → RawError transport.ErrorKind B × Option ReasonCode
  from_rx (RxError.read e) = (network (transport.kind e), none)
  from_rx (RxError.buffer b) = (alloc b, some implementation_specific_error)
  from_rx RxError.unexpected_eof = (network transport.not_connected_kind, none)
  from_rx RxError.malformed_packet = (server, some ReasonCode.malformed_packet)
  from_rx RxError.protocol_error = (server, some ReasonCode.protocol_error)
  from_rx RxError.invalid_topic_name = (server, some topic_name_invalid)
