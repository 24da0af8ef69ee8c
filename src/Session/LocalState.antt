-- ===== src/Session/LocalState.antt =====
-- src/session/mod.rs: the states of a publication by the client that is not complete.
use rust_mqtt.Types.AckMode.{AckMode}
use rust_mqtt.Types.Qos.{Qos}

pub data LocalPublishState : Type 0 where
  due_publish_at_least_once : LocalPublishState
  due_publish_exactly_once : AckMode → LocalPublishState
  await_ack : LocalPublishState
  await_rec : AckMode → LocalPublishState
  due_rel : AckMode → LocalPublishState
  await_comp : AckMode → LocalPublishState

unfoldable pub reconnected : LocalPublishState → LocalPublishState
reconnected due_publish_at_least_once = due_publish_at_least_once
reconnected await_ack = due_publish_at_least_once
reconnected (due_publish_exactly_once mode) = due_publish_exactly_once mode
reconnected (await_rec mode) = due_publish_exactly_once mode
reconnected (due_rel mode) = due_rel mode
reconnected (await_comp mode) = due_rel mode

-- `impl From<LocalPublishState> for QoS`
unfoldable pub qos_of : LocalPublishState → Qos
qos_of due_publish_at_least_once = Qos.at_least_once
qos_of await_ack = Qos.at_least_once
qos_of (due_publish_exactly_once mode) = Qos.exactly_once
qos_of (await_rec mode) = Qos.exactly_once
qos_of (due_rel mode) = Qos.exactly_once
qos_of (await_comp mode) = Qos.exactly_once
