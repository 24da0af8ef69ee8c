-- ===== src/Packets/Disconnect.antt =====
-- src/v5/packet/disconnect.rs: sending a DISCONNECT packet; and the writer of its session expiry
-- interval in src/v5/property/values.rs.
use rust_mqtt.Prelude.{ℕ, ◌+◌, ◌%◌, ◌^◌, Option, none, some, List, Outcome, returned, ◌>>=◌}
use rust_mqtt.Types.ReasonCode.{ReasonCode}
use rust_mqtt.Wire.Transport.{Writer, WriteError, Reply, ok}
use rust_mqtt.Wire.Feed.{and_then, map_err}
use rust_mqtt.Wire.Ints.{write_int, u8_len, u32_len}
use rust_mqtt.Wire.VarByteInt.{VarByteInt, new_unchecked}
use rust_mqtt.Wire.VarByteInt
use rust_mqtt.Wire.Header.{write}
use rust_mqtt.Wire.Header
use rust_mqtt.Wire.Strings.{StringPair, binary_len, write_binary}
use rust_mqtt.Packets.RxError.{TxError, from_write}
use rust_mqtt.Packets.PropertyType.{
  session_expiry_interval, server_reference, type_len, write_property_type,
}
use rust_mqtt.Packets.AckType.{new_header}
use rust_mqtt.Packets.PubackSend.{
  reason_string_len, user_properties_len, var_len, write_reason_code, write_reason_string,
  write_user_properties,
}

-- `SessionExpiryInterval`; the seconds are a nonzero u32.
pub data SessionExpiryInterval : Type 0 where
  end_on_disconnect never_end : SessionExpiryInterval
  seconds : ℕ → SessionExpiryInterval

pub record DisconnectPacket : Type 0 where
  pub reason_code : ReasonCode
  pub session_expiry : Option SessionExpiryInterval
  pub reason_string : Option (List ℕ)
  pub user_properties : List StringPair
  pub server : Option (List ℕ)

-- `new`
abbrev pub new :
    ReasonCode → Option SessionExpiryInterval → Option (List ℕ) → List StringPair → DisconnectPacket
new code expiry reason user = record {
  reason_code = code;
  session_expiry = expiry;
  reason_string = reason;
  user_properties = user;
  server = none;
}

-- The number that is written.
unfoldable pub interval_value : SessionExpiryInterval → ℕ
interval_value end_on_disconnect = 0
interval_value never_end = 4294967295
interval_value (seconds s) = s

unfoldable pub interval_len : Option SessionExpiryInterval → ℕ
interval_len none = 0
interval_len (some i) = type_len + u32_len

unfoldable pub server_reference_len : Option (List ℕ) → ℕ
server_reference_len none = 0
server_reference_len (some s) = type_len + binary_len s

unfoldable pub properties_length : DisconnectPacket → Outcome VarByteInt
unfolding interval_len reason_string_len user_properties_len server_reference_len new_unchecked
properties_length p = new_unchecked (
    (interval_len p.session_expiry
      + reason_string_len p.reason_string
      + user_properties_len p.user_properties
      + server_reference_len p.server)
    % 2 ^ 32)

unfoldable pub remaining_len : DisconnectPacket → Outcome VarByteInt
unfolding properties_length var_len new_unchecked
remaining_len p = do
  l ← properties_length p
  n ← var_len l
  new_unchecked ((u8_len + (l + n)) % 2 ^ 32)

module _ (w : Writer) where
  abbrev WriteReply : Type 0
  WriteReply = Outcome (Reply w.Sink (WriteError w.Error) Unit)

  unfoldable pub write_interval : w.Sink → Option SessionExpiryInterval → WriteReply
  unfolding write_property_type write_int interval_value
  write_interval s none = returned (ok s tt)
  write_interval s (some i) =
      and_then (write_property_type w s session_expiry_interval)
        (λ s' _. write_int w 4 s' (interval_value i))

  unfoldable pub write_server_reference : w.Sink → Option (List ℕ) → WriteReply
  unfolding write_property_type write_binary
  write_server_reference s none = returned (ok s tt)
  write_server_reference s (some v) =
      and_then (write_property_type w s server_reference) (λ s' _. write_binary w s' v)

  -- The fields after the fixed header, the property length being `l`.
  unfoldable pub write_fields : w.Sink → VarByteInt → DisconnectPacket → WriteReply
  unfolding write_reason_code write_interval write_reason_string write_user_properties
      write_server_reference
  write_fields s l p = and_then (write_reason_code w s p.reason_code) (λ s1 _.
      and_then (VarByteInt.write w s1 l) (λ s2 _.
        and_then (write_interval s2 p.session_expiry) (λ s3 _.
          and_then (write_reason_string w s3 p.reason_string) (λ s4 _.
            and_then (write_user_properties w s4 p.user_properties)
              (λ s5 _. write_server_reference s5 p.server)))))

  -- `send`
  unfoldable pub send : w.Sink → DisconnectPacket → Outcome (Reply w.Sink (TxError w.Error) Unit)
  unfolding new_header write remaining_len properties_length write_fields from_write
  send s p = do
    total ← remaining_len p
    l ← properties_length p
    map_err from_write (
        and_then (write w s (new_header Header.disconnect 0x00 total))
          (λ s' _. write_fields s' l p))
