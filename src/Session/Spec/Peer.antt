-- ===== src/Session/Spec/Peer.antt =====
-- The receiver's side of a handshake: what the server's publication under one packet identifier is
-- after a packet, where `none` is an identifier that is not in use, and what the client answers.
use rust_mqtt.Prelude.{Bool, true, false, if◌then◌else◌, Option, none, some}
use rust_mqtt.Types.AckMode.{AckMode, automatic, manual}
use rust_mqtt.Types.Qos.{Qos}
use rust_mqtt.Types.ReasonCode.{
  ReasonCode, success, protocol_error, quota_exceeded, packet_identifier_not_found, is_erroneous,
}
use rust_mqtt.Session.PeerState.{
  PeerPublishState, await_publish_at_least_once, await_publish_exactly_once, due_ack, due_rec,
  await_rel, await_re_rel, due_comp,
}
use rust_mqtt.Session.State.{
  Response, nothing, acknowledge, receive, complete, disconnect, Event, publish, duplicate, ignored,
  released, aborted, server_error, Result, ok, err, packet_identifier_unused, qos_mismatched,
  handshake_state_mismatched,
}

abbrev pub Peer : Type 0
Peer = Option PeerPublishState

abbrev pub Reaction : Type 0
Reaction = Peer × Response × Event

-- A packet that does not fit the handshake changes nothing and ends the connection.
abbrev refuse : PeerPublishState → Reaction
refuse st = (some st, disconnect protocol_error, server_error)

-- A new publication. Only an automatic acknowledgement at level 1 leaves nothing to track.
new_publish : Qos → AckMode → Reaction
new_publish Qos.at_most_once mode = (none, nothing, publish)
new_publish Qos.at_least_once automatic = (none, acknowledge success, publish)
new_publish Qos.at_least_once manual = (some due_ack, nothing, publish)
new_publish Qos.exactly_once automatic = (some (await_rel automatic), receive success, publish)
new_publish Qos.exactly_once manual = (some due_rec, nothing, publish)

-- Another PUBLISH of a tracked publication, at level 1 (left) or 2 (right).
publish_again : Qos → PeerPublishState → Reaction
publish_again Qos.at_least_once await_publish_at_least_once = (some due_ack, nothing, publish)
publish_again Qos.at_least_once due_ack = (some due_ack, nothing, publish)
publish_again Qos.exactly_once (await_publish_exactly_once automatic) =
    (some (await_rel automatic), receive success, duplicate automatic)
publish_again Qos.exactly_once (await_publish_exactly_once manual) =
    (some due_rec, nothing, duplicate manual)
publish_again Qos.exactly_once due_rec = (some due_rec, nothing, duplicate manual)
publish_again Qos.exactly_once (await_rel mode) =
    (some (await_rel mode), receive success, duplicate mode)
publish_again qos st = refuse st

-- PUBLISH at a level above 0, while there is room for a new publication or not.
unfoldable pub on_publish : Bool → Qos → AckMode → Peer → Reaction
unfolding new_publish publish_again
on_publish room qos mode (some st) = publish_again qos st
on_publish true qos mode none = new_publish qos mode
on_publish false qos mode none = (none, disconnect quota_exceeded, server_error)

-- PUBREL once the publication is received: it completes an automatic handshake and leaves the
-- PUBCOMP of a manual one to the user.
release_by : AckMode → Reaction
release_by automatic = (none, complete success, released automatic)
release_by manual = (some due_comp, nothing, released manual)

unfoldable pub on_pubrel : ReasonCode → Peer → Reaction
unfolding release_by
on_pubrel rc none = (none, complete packet_identifier_not_found, ignored)
on_pubrel rc (some await_publish_at_least_once) = refuse await_publish_at_least_once
on_pubrel rc (some due_ack) = refuse due_ack
on_pubrel rc (some await_re_rel) = release_by manual
on_pubrel rc (some (await_publish_exactly_once mode)) =
    if is_erroneous rc then (none, complete success, aborted) else release_by mode
on_pubrel rc (some (await_rel mode)) =
    if is_erroneous rc then (none, complete success, aborted) else release_by mode
on_pubrel rc (some due_rec) =
    if is_erroneous rc then (none, complete success, aborted) else release_by manual
on_pubrel rc (some due_comp) =
    if is_erroneous rc then (none, complete success, aborted) else (some due_comp, nothing, ignored)

-- The user's PUBACK, PUBREC and PUBCOMP.
unfoldable pub on_send_puback : Peer → Peer × Result
on_send_puback none = (none, err packet_identifier_unused)
on_send_puback (some due_ack) = (none, ok)
on_send_puback (some await_publish_at_least_once) =
    (some await_publish_at_least_once, err handshake_state_mismatched)
on_send_puback (some st) = (some st, err qos_mismatched)

unfoldable pub on_send_pubrec : ReasonCode → Peer → Peer × Result
on_send_pubrec rc none = (none, err packet_identifier_unused)
on_send_pubrec rc (some due_rec) = (if is_erroneous rc then none else some (await_rel manual), ok)
on_send_pubrec rc (some await_publish_at_least_once) =
    (some await_publish_at_least_once, err qos_mismatched)
on_send_pubrec rc (some due_ack) = (some due_ack, err qos_mismatched)
on_send_pubrec rc (some st) = (some st, err handshake_state_mismatched)

unfoldable pub on_send_pubcomp : Peer → Peer × Result
on_send_pubcomp none = (none, err packet_identifier_unused)
on_send_pubcomp (some due_comp) = (none, ok)
on_send_pubcomp (some await_publish_at_least_once) =
    (some await_publish_at_least_once, err qos_mismatched)
on_send_pubcomp (some due_ack) = (some due_ack, err qos_mismatched)
on_send_pubcomp (some st) = (some st, err handshake_state_mismatched)
