-- ===== src/Session/Spec/Local.antt =====
-- The sender's side of a handshake: what the client's publication under one packet identifier is
-- after a packet, where `none` is an identifier that is not in use, and what the client answers.
use rust_mqtt.Prelude.{if◌then◌else◌, Option, none, some}
use rust_mqtt.Types.AckMode.{AckMode, automatic, manual}
use rust_mqtt.Types.Qos.{Qos}
use rust_mqtt.Types.ReasonCode.{
  ReasonCode, success, protocol_error, packet_identifier_not_found, is_erroneous, is_success,
}
use rust_mqtt.Session.LocalState.{
  LocalPublishState, due_publish_at_least_once, due_publish_exactly_once, await_ack, await_rec,
  due_rel, await_comp,
}
use rust_mqtt.Session.State.{
  Response, nothing, release, disconnect, Event, ignored, acknowledged, received, completed,
  rejected, server_error, Result, ok, err, packet_identifier_unused, qos_mismatched,
  handshake_state_mismatched,
}

abbrev pub Local : Type 0
Local = Option LocalPublishState

abbrev pub Reaction : Type 0
Reaction = Local × Response × Event

-- A packet that does not fit the handshake changes nothing and ends the connection.
abbrev refuse : LocalPublishState → Reaction
refuse st = (some st, disconnect protocol_error, server_error)

-- PUBACK ends a publication at level 1, and fits no other.
unfoldable pub on_puback : ReasonCode → Local → Reaction
on_puback rc none = (none, nothing, ignored)
on_puback rc (some due_publish_at_least_once) =
    (none, nothing, if is_success rc then acknowledged else rejected)
on_puback rc (some await_ack) = (none, nothing, if is_success rc then acknowledged else rejected)
on_puback rc (some st) = refuse st

-- The PUBREL that answers a PUBREC: sent at once, or left to the user.
received_by : AckMode → Reaction
received_by automatic = (some (await_comp automatic), release success, received automatic)
received_by manual = (some (due_rel manual), nothing, received manual)

received_again : AckMode → Reaction
received_again automatic = (some (await_comp automatic), release success, ignored)
received_again manual = (some (due_rel manual), nothing, ignored)

-- PUBREC: an error ends the publication unless its PUBREL is already sent.
unfoldable pub on_pubrec : ReasonCode → Local → Reaction
unfolding received_by received_again
on_pubrec rc none = (none, release packet_identifier_not_found, ignored)
on_pubrec rc (some due_publish_at_least_once) = refuse due_publish_at_least_once
on_pubrec rc (some await_ack) = refuse await_ack
on_pubrec rc (some (await_comp mode)) = (some (await_comp mode), release success, ignored)
on_pubrec rc (some (due_publish_exactly_once mode)) =
    if is_erroneous rc then (none, nothing, rejected) else received_by mode
on_pubrec rc (some (await_rec mode)) =
    if is_erroneous rc then (none, nothing, rejected) else received_by mode
on_pubrec rc (some (due_rel mode)) =
    if is_erroneous rc then (none, nothing, rejected) else received_again mode

-- PUBCOMP ends a publication whose PUBREC has been received.
unfoldable pub on_pubcomp : ReasonCode → Local → Reaction
on_pubcomp rc none = (none, nothing, ignored)
on_pubcomp rc (some (due_rel mode)) = (none, nothing, if is_success rc then completed else rejected)
on_pubcomp rc (some (await_comp mode)) =
    (none, nothing, if is_success rc then completed else rejected)
on_pubcomp rc (some st) = refuse st

-- The user's retransmission of the PUBLISH after a reconnection, and PUBREL.
unfoldable pub on_republish : Qos → Local → Local × Result
on_republish qos none = (none, err packet_identifier_unused)
on_republish Qos.at_least_once (some due_publish_at_least_once) = (some await_ack, ok)
on_republish Qos.at_least_once (some await_ack) = (some await_ack, err handshake_state_mismatched)
on_republish Qos.at_least_once (some st) = (some st, err qos_mismatched)
on_republish Qos.exactly_once (some (due_publish_exactly_once mode)) = (some (await_rec mode), ok)
on_republish Qos.exactly_once (some due_publish_at_least_once) =
    (some due_publish_at_least_once, err qos_mismatched)
on_republish Qos.exactly_once (some await_ack) = (some await_ack, err qos_mismatched)
on_republish qos (some st) = (some st, err handshake_state_mismatched)

unfoldable pub on_send_pubrel : Local → Local × Result
on_send_pubrel none = (none, err packet_identifier_unused)
on_send_pubrel (some (due_rel mode)) = (some (await_comp mode), ok)
on_send_pubrel (some due_publish_at_least_once) =
    (some due_publish_at_least_once, err qos_mismatched)
on_send_pubrel (some await_ack) = (some await_ack, err qos_mismatched)
on_send_pubrel (some st) = (some st, err handshake_state_mismatched)
