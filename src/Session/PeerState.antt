-- ===== src/Session/PeerState.antt =====
-- src/session/mod.rs: the states of a publication by the server that is not complete.
use rust_mqtt.Types.AckMode.{AckMode, manual}
use rust_mqtt.Types.Qos.{Qos}

pub data PeerPublishState : Type 0 where
  await_publish_at_least_once : PeerPublishState
  await_publish_exactly_once : AckMode → PeerPublishState
  due_ack : PeerPublishState
  due_rec : PeerPublishState
  await_rel : AckMode → PeerPublishState
  await_re_rel : PeerPublishState
  due_comp : PeerPublishState

unfoldable pub reconnected : PeerPublishState → PeerPublishState
reconnected await_publish_at_least_once = await_publish_at_least_once
reconnected due_ack = await_publish_at_least_once
reconnected (await_publish_exactly_once mode) = await_publish_exactly_once mode
reconnected due_rec = await_publish_exactly_once manual
reconnected (await_rel mode) = await_publish_exactly_once mode
reconnected await_re_rel = await_re_rel
reconnected due_comp = await_re_rel

-- `impl From<PeerPublishState> for QoS`
unfoldable pub qos_of : PeerPublishState → Qos
qos_of await_publish_at_least_once = Qos.at_least_once
qos_of due_ack = Qos.at_least_once
qos_of (await_publish_exactly_once mode) = Qos.exactly_once
qos_of due_rec = Qos.exactly_once
qos_of (await_rel mode) = Qos.exactly_once
qos_of await_re_rel = Qos.exactly_once
qos_of due_comp = Qos.exactly_once
