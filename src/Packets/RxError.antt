-- ===== src/Packets/RxError.antt =====
-- src/packet/rx.rs, src/packet/tx.rs and src/v5/property/mod.rs: the errors of receiving and sending a
-- packet, and the conversions `?` makes to them.
use rust_mqtt.Wire.Transport.{ReadError, WriteError}
use rust_mqtt.Wire.Transport
use rust_mqtt.Wire.Body.{BodyReadError}
use rust_mqtt.Wire.Body

pub data RxError (E B : Type 0) : Type 0 where
  read : E → RxError E B
  buffer : B → RxError E B
  unexpected_eof malformed_packet protocol_error invalid_topic_name : RxError E B

-- `From<BodyReadError>`
unfoldable pub from_body : {E B : Type 0} → BodyReadError E B → RxError E B
from_body (Body.read e) = read e
from_body (Body.buffer b) = buffer b
from_body Body.unexpected_eof = unexpected_eof
from_body Body.insufficient_remaining_len = malformed_packet
from_body Body.malformed_packet = malformed_packet
from_body Body.protocol_error = protocol_error
from_body Body.invalid_topic_name = invalid_topic_name

-- `From<ReadError<BodyReadError>>`
unfoldable pub from_read : {E B : Type 0} → ReadError (BodyReadError E B) → RxError E B
unfolding from_body
from_read (Transport.read_error e) = from_body e
from_read Transport.unexpected_eof = unexpected_eof
from_read Transport.malformed_packet = malformed_packet
from_read Transport.protocol_error = protocol_error
from_read Transport.invalid_topic_name = invalid_topic_name

-- `From<ReadError>`
unfoldable pub from_header : {E B : Type 0} → ReadError E → RxError E B
from_header (Transport.read_error e) = read e
from_header Transport.unexpected_eof = unexpected_eof
from_header Transport.malformed_packet = malformed_packet
from_header Transport.protocol_error = protocol_error
from_header Transport.invalid_topic_name = invalid_topic_name

-- `AtMostOncePropertyError`, of a reader on a body, and its conversion
pub data AtMostOnceError (E : Type 0) : Type 0 where
  read : E → AtMostOnceError E
  already_set : AtMostOnceError E

unfoldable pub from_at_most_once :
    {E B : Type 0} → AtMostOnceError (ReadError (BodyReadError E B)) → RxError E B
unfolding from_read
from_at_most_once (AtMostOnceError.read e) = from_read e
from_at_most_once already_set = protocol_error

pub data TxError (E : Type 0) : Type 0 where
  write : E → TxError E
  write_zero : TxError E

-- `From<WriteError>`
unfoldable pub from_write : {E : Type 0} → WriteError E → TxError E
from_write Transport.write_zero = write_zero
from_write (Transport.write_error e) = write e
