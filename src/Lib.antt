-- ===== src/Lib.antt =====
-- A verification library for rust-mqtt, an MQTT client for embedded systems.
--
-- The client (src/client/mod.rs) drives a session (src/session). The session remembers which packet
-- identifiers are in use and how far each publication has come in its handshake, on the side that
-- the client sends (LocalPublishState) and on the side that the server sends (PeerPublishState).
-- Every packet of the server and every request of the user is first handled by the session, which
-- answers with the packet to send and the event to report. This library models the session in full,
-- the client's calls of it, the values of src/types that they exchange, the wire from its integers
-- and strings up to most packets of version 5, the connection that sends and receives them, and the
-- bump buffer that they are received into.
--
-- - Prelude: native numbers with their Boolean tests, lists, and Outcome, where panicked stands for
--   a failed debug assertion, an unwrap of nothing, an index out of bounds or an unreachable
--   branch.
-- - Vec: heapless::Vec, which is not part of the repository, as a record of operations with the
--   laws that the crate documents; Vec/OnLists is one such vector, for the examples.
-- - Keyed: the search of a slice by key and a write through an index, with their lemmas.
-- - Topics: src/types/topic.rs. Name and Filter are the tests of topic names and filters, Levels
--   describes filters by their levels, Parts, Scan and Shared compare the two, and Subscription is
--   the options byte with src/client/options/subscribe.rs.
-- - Types: src/types/pid.rs (Pid), src/types/qos.rs (Qos), src/types/reason_code.rs (ReasonCode)
--   and src/client/options/ack.rs (AckMode).
-- - Wire/Transport: the transports of embedded-io, which are not part of the repository, as records
--   with the laws that their traits document, and the loop of src/io/write.rs that writes a slice.
--   Wire/VarByteInt: src/types/int.rs with its reader and writer in src/io. Wire/Header:
--   src/header.rs, src/client/raw/header.rs and the loop of recv_header in src/client/raw/mod.rs.
--   Wire/Encoding, WriteVar, ReadVar, Receive and RoundTrip: what they encode, write and read.
-- - Wire/Feed, Ints, Body and Strings: the rest of src/io with src/types/binary.rs and
--   src/types/string.rs. Feed has the transports that deliver given bytes in parts of their own
--   choice, Ints the integers, Body the reader of a packet's body, which is a reader itself, and
--   Strings the strings. Wire/BodyFeed, StringRound and Compose: what they read and write, and how
--   readers and writers follow each other. Wire/Lists: transports for the tests.
-- - Packets: src/packet and src/v5. PropertyType is src/v5/property/types.rs, RxError the errors of
--   src/packet, Property how a property is read and written (src/v5/property), AckType, Puback and
--   PubackSend are src/v5/packet/pubacks, Publish and PublishSend src/v5/packet/publish.rs, Suback
--   src/v5/packet/subacks, Connack src/v5/packet/connack.rs with the values of
--   src/v5/property/values.rs in Values, Subscribe and Unsubscribe the files of these names there,
--   Disconnect and DisconnectReceive the two halves of src/v5/packet/disconnect.rs, Counted the
--   loop over properties that PUBLISH, SUBACK and UNSUBACK share, and Whole the loop of the other
--   packets. Their proofs: PubackBytes, PubackWrite, PubackRead, PubackRound and PubackErrors;
--   PropertyBytes, Reads, WholeRead and CountedRead, how properties are read part by part;
--   FieldsRead, how other fields are read; PublishBytes, PropertyWrite, PublishLimits,
--   PublishWrite, PublishRead, PublishParts and PublishRound; SubackRead, SubscribeWrite and
--   UnsubscribeWrite; ValuesRead, ConnackProperty, ConnackRead, ConnackAgain and ConnackRound;
--   DisconnectRead.
-- - Raw: src/client/raw, the network state and errors (Net) and the methods of the connection
--   (Connection), which are given the reader or the writer of a packet. Raw/Channel: the connection
--   with the PUBLISH packets. Raw/Laws, Answers and Abort: what they leave of the connection.
-- - Buffer: src/buffer.rs, the bump buffer (Bump), and the slices it hands out (Slices).
-- - Session/LocalState, PeerState, State and Ops: src/session/mod.rs. Session/FreeHandle,
--   InboundHandle and OutboundHandle: src/session/handle.rs. A function here has the name of its
--   method there; a handle, which borrows the session, holds it, and a method that consumes the
--   handle returns the session.
-- - Session/View and Effects: the invariant IsValid of a session and the effect of each change on
--   lookups. Session/Spec: the two sides of the handshakes as functions of one publication.
--   Session/Refine: the operations implement them. Session/Free: the search for a packet
--   identifier.
-- - Session/Calls, Step and Run: the calls of src/client/mod.rs on the session and histories of
--   them. Session/Ledger: what a call does to the count of messages that the session lets be handed
--   over; Session/Release: what becomes of a received publication.
-- - Client/Poll: the arms of poll_body in src/client/mod.rs for the packets of a handshake, from
--   the session's reply on; whether the transport takes a packet is a parameter. The events of
--   src/client/event.rs are kept for their debug assertions on the reason code only. Client/Total:
--   which of them return. Client/Ledger: how often a message reaches the user. Client/Rerelease and
--   Released: the method rerelease, which sends PUBRELs again.
-- - Client/Examples, Session/Examples, Wire/Examples, Topics/Examples, Packets/Examples,
--   Packets/PublishExamples, Packets/SubscribeExamples, Packets/ConnackExamples,
--   Packets/DisconnectExamples, Raw/Examples, Raw/ChannelExamples, Buffer/Examples: concrete
--   sessions, values and transports.
--
-- A packet identifier is its number, since every nonzero 16-bit number is one. The search for an
-- unused identifier is a loop without a bound in the source; here it has fuel for 65535 rounds, one
-- for each identifier, and is shown never to run out. The loops that write and read a variable byte
-- integer and a header have fuel for the rounds that their lengths allow: a number has at most four
-- bytes and a header one more. Running out of fuel counts as a panic. The vectors' capacities are
-- the const generics of Session (Limits) and arbitrary.
--
-- A body reader's loops have fuel for one byte in each round, since a call that succeeds reads at
-- least one. Native ints are unbounded; where the source converts or shifts, the width is written
-- out.
--
-- Not modelled: CONNECT and the packets of a ping, the allocating buffer, the client's options and
-- negotiated limits, timers and logging. A packet of the server stands for the fields that the
-- session is given.
pub mod Prelude
pub mod Vec
pub mod Keyed
pub mod Types
pub mod Topics
pub mod Wire
pub mod Packets
pub mod Buffer
pub mod Raw
pub mod Session
pub mod Client
