-- ===== src/Types/AckMode.antt =====
-- src/client/options/ack.rs: how the acknowledgements of a publication are sent.
use rust_mqtt.Prelude.{Bool, true, false}

pub data AckMode : Type 0 where
  automatic manual : AckMode

unfoldable pub is_automatic : AckMode → Bool
is_automatic automatic = true
is_automatic manual = false

unfoldable pub is_manual : AckMode → Bool
is_manual automatic = false
is_manual manual = true
