-- ===== src/Raw/Channel.antt =====
-- src/client/raw/mod.rs with src/v5/packet/publish.rs: PUBLISH packets that one connection sends are
-- received in order by another that is given the bytes.
use rust_mqtt.Prelude.{
  ℕ, zero, suc, ◌≡◌, refl, sym, subst, ◌∙◌, Bool, List, [], ◌∷◌, ◌++◌, length, All, Outcome,
  returned, ◌>>=◌,
}
use mathlib.Core.List.{append-nil, append_assoc}
use rust_mqtt.Wire.Transport.{IsOpen, ok}
use rust_mqtt.Wire.Encoding.{encoding}
use rust_mqtt.Wire.Header.{FixedHeader, publish}
use rust_mqtt.Wire.Header
use rust_mqtt.Wire.Feed.{IsFed, feed-Delivers}
use rust_mqtt.Wire.Body.{BufferProvider, Body}
use rust_mqtt.Wire.BodyFeed.{HasRoom}
use rust_mqtt.Wire.Receive.{Receives-encoding}
use rust_mqtt.Packets.AckType.{new_header}
use rust_mqtt.Packets.Publish.{PublishPacket, receive}
use rust_mqtt.Packets.PublishSend
use rust_mqtt.Packets.PublishBytes.{IsPublish, fields_bytes}
use rust_mqtt.Packets.PublishWrite.{publish_header, packet_bytes, send-takes}
use rust_mqtt.Packets.PublishRound.{publish_header-type, receive-feed}
use rust_mqtt.Raw.Net.{Transport, reader_of, writer_of, NetState}
use rust_mqtt.Raw.Connection.{Raw, Result, value, error, with_net, send, recv_header, recv_body}

-- A connection that is up, at the start of a header.
abbrev pub ready :
    (transport : Transport) (provider : BufferProvider)
    → transport.Net
    → provider.State
    → List ℕ
    → Raw transport provider
ready transport provider s buf buffer = record {
  n = NetState.ok s;
  buf = buf;
  header = record { buffer = buffer; read = 0 };
}

abbrev pub all_bytes : List PublishPacket → List ℕ
all_bytes [] = []
all_bytes (p ∷ ps) = packet_bytes p ++ all_bytes ps

-- Calls of `send`, one for each packet, until one fails.
unfoldable pub send_all :
    (transport : Transport) (provider : BufferProvider)
    → List PublishPacket
    → Raw transport provider
    → Outcome (Result transport provider Unit)
send_all transport provider [] r = returned (value r tt)
send_all transport provider (p ∷ ps) r =
    send transport provider (λ s. PublishSend.send (writer_of transport) s p) r >>= λ x. elim x [
      | value r' _ ↦ send_all transport provider ps r'
      | error r' e ↦ returned (error r' e)
    ]

module _ (utf8 : List ℕ → Bool) (transport : Transport) (provider : BufferProvider)
    (max_subscription_identifiers max_user_properties : ℕ) where
  -- `recv_header`, then `recv_body` for a PUBLISH packet.
  unfoldable pub recv_publish :
      Raw transport provider → Outcome (Result transport provider PublishPacket)
  recv_publish r = recv_header transport provider r >>= λ x. elim x [
    | value r' h ↦
        recv_body transport provider
          (receive utf8 (reader_of transport) provider max_subscription_identifiers
            max_user_properties)
          h r'
    | error r' e ↦ returned (error r' e)
  ]

  -- So many packets, until one fails.
  unfoldable pub recv_all :
      ℕ → Raw transport provider → Outcome (Result transport provider (List PublishPacket))
  unfolding recv_publish
  recv_all zero r = returned (value r [])
  recv_all (suc k) r = recv_publish r >>= λ x. elim x [
    | error r' e ↦ returned (error r' e)
    | value r' p ↦ recv_all k r' >>= λ y. elim y [
      | error r2 e ↦ returned (error r2 e)
      | value r2 ps ↦ returned (value r2 (p ∷ ps))
    ]
  ]

  module _ (holds : transport.Net → List ℕ → Type 0) (fed : IsFed (reader_of transport) holds)
      (room : HasRoom (reader_of transport) provider holds []) where
    recv_header-bytes :
        (s s1 : transport.Net) (buf : provider.State) (buffer buffer' : List ℕ) (h : FixedHeader)
        → Header.recv_header (reader_of transport) (record { buffer = buffer; read = 0 }) s
          ≡ returned (record { buffer = buffer'; read = 0 }, ok s1 h)
        → recv_header transport provider (ready transport provider s buf buffer)
          ≡ returned (value (ready transport provider s1 buf buffer') h)
    unfolding recv_header
    recv_header-bytes s s1 buf buffer buffer' h e = rw (e) refl

    recv_body-bytes :
        (p : PublishPacket) (s : transport.Net) (b : Body (reader_of transport) provider)
        (buf : provider.State) (buffer : List ℕ) (h : FixedHeader)
        → receive utf8
            (reader_of transport)
            provider
            max_subscription_identifiers
            max_user_properties
            h
            (record { r = s; buffer = buf; remaining_len = h.remaining_len })
          ≡ returned (ok b p)
        → recv_body transport provider
            (receive utf8
              (reader_of transport)
              provider
              max_subscription_identifiers
              max_user_properties)
            h
            (ready transport provider s buf buffer)
          ≡ returned (value (ready transport provider b.r b.buffer buffer) p)
    unfolding recv_body
    recv_body-bytes p s b buf buffer h e = rw (e) refl

    recv_publish-bytes :
        (p : PublishPacket) (s : transport.Net) (buf : provider.State) (buffer after : List ℕ)
        → IsPublish utf8 max_user_properties p
        → length buffer ≡ 5
        → holds s (packet_bytes p ++ after)
        → (s' : transport.Net) × (buf' : provider.State) × (buffer' : List ℕ) × (length buffer' ≡ 5)
          × (recv_publish (ready transport provider s buf buffer)
              ≡ returned (value (ready transport provider s' buf' buffer') p))
          × holds s' after
    unfolding recv_publish new_header
    recv_publish-bytes p s buf buffer after valid five held =
        let r = reader_of transport in
        let kind = (publish_header p).type_and_flags in
        let number = encoding (length (fields_bytes p)) in
        let (s1, d, h1) =
          feed-Delivers r holds fed (kind ∷ number) (fields_bytes p ++ after) s
            (subst (holds s) (append_assoc (kind ∷ number) (fields_bytes p) after) held) in
        let (buffer', five', e1) =
          Receives-encoding r buffer five s s1 kind (length (fields_bytes p)) publish
            (publish_header-type p) valid.fits d in
        let (b, e2, h2) =
          receive-feed r provider holds after fed room utf8 max_subscription_identifiers
            max_user_properties p valid
            (record { r = s1; buffer = buf; remaining_len = length (fields_bytes p) }) (h1, refl) in
        (
          b.r,
          b.buffer,
          buffer',
          five',
          rw
              (
                recv_header-bytes s s1 buf buffer buffer' (publish_header p) e1,
                recv_body-bytes p s1 b buf buffer' (publish_header p) e2,
              )
              refl,
          h2.0,
        )

    -- The packets come in order, and what comes after them is left.
    pub recv_all-bytes :
        (ps : List PublishPacket) (s : transport.Net) (buf : provider.State) (buffer after : List ℕ)
        → All (IsPublish utf8 max_user_properties) ps
        → length buffer ≡ 5
        → holds s (all_bytes ps ++ after)
        → (s' : transport.Net) × (buf' : provider.State) × (buffer' : List ℕ) × (recv_all
              (length ps)
              (ready transport provider s buf buffer)
            ≡ returned (value (ready transport provider s' buf' buffer') ps))
          × holds s' after
    unfolding recv_all
    recv_all-bytes [] s buf buffer after valid five held = (s, buf, buffer, refl, held)
    recv_all-bytes (p ∷ ps) s buf buffer after (first, others) five held =
        let (s1, buf1, buffer1, five1, e1, h1) =
          recv_publish-bytes p s buf buffer (all_bytes ps ++ after) first five
            (subst (holds s) (append_assoc (packet_bytes p) (all_bytes ps) after) held) in
        let (s2, buf2, buffer2, e2, h2) = recv_all-bytes ps s1 buf1 buffer1 after others five1 h1 in
        (s2, buf2, buffer2, rw (e1, e2) refl, h2)

module _ (transport : Transport) (provider : BufferProvider) (contents : transport.Net → List ℕ)
    (open_sink : IsOpen (writer_of transport) contents) (utf8 : List ℕ → Bool)
    (max_user_properties : ℕ) where
  pub send_all-bytes :
      (ps : List PublishPacket) (r : Raw transport provider) (s : transport.Net)
      → All (IsPublish utf8 max_user_properties) ps
      → (s' : transport.Net) × (send_all transport provider ps
            (with_net transport provider (NetState.ok s) r)
          ≡ returned (value (with_net transport provider (NetState.ok s') r) tt))
        × (contents s' ≡ contents s ++ all_bytes ps)
  unfolding send_all send
  send_all-bytes [] r s valid = (s, refl, sym (append-nil (contents s)))
  send_all-bytes (p ∷ ps) r s (first, others) =
      let (s1, e1, c1) =
        send-takes (writer_of transport) contents open_sink utf8 max_user_properties p first s in
      let (s2, e2, c2) = send_all-bytes ps r s1 others in
      (s2, rw (e1) e2, c2 ∙ rw (c1, append_assoc (contents s) (packet_bytes p) (all_bytes ps)) refl)

-- A connection that is up, on a transport that takes all bytes, sends every one of any number of
-- PUBLISH packets that can be sent, in order; and a connection that is up, at the start of a
-- header, on a transport that delivers the bytes sent in any parts, with a buffer that has room,
-- receives all of these packets, unchanged and in order, with recv_header and recv_body, and leaves
-- what comes after for the next header.
pub channel :
    (utf8 : List ℕ → Bool) (max_subscription_identifiers max_user_properties : ℕ)
    (ps : List PublishPacket)
    → All (IsPublish utf8 max_user_properties) ps
    → (out : Transport) (provider : BufferProvider) (contents : out.Net → List ℕ)
      (open_sink : IsOpen (writer_of out) contents) (r : Raw out provider) (s : out.Net)
      (inward : Transport) (holds : inward.Net → List ℕ → Type 0)
    → IsFed (reader_of inward) holds
    → HasRoom (reader_of inward) provider holds []
    → (t : inward.Net) (buf : provider.State) (buffer after : List ℕ) → length buffer ≡ 5
    → holds t (all_bytes ps ++ after)
    → ((s' : out.Net) × (send_all out provider ps (with_net out provider (NetState.ok s) r)
          ≡ returned (value (with_net out provider (NetState.ok s') r) tt))
        × (contents s' ≡ contents s ++ all_bytes ps))
      × ((t' : inward.Net) × (buf' : provider.State) × (buffer' : List ℕ) × (recv_all utf8 inward
              provider max_subscription_identifiers max_user_properties
              (length ps)
              (ready inward provider t buf buffer)
            ≡ returned (value (ready inward provider t' buf' buffer') ps))
          × holds t' after)
channel utf8 max_subscription_identifiers max_user_properties ps valid out provider contents
      open_sink r s inward holds fed room t buf buffer after five held =
    (
      send_all-bytes out provider contents open_sink utf8 max_user_properties ps r s valid,
      recv_all-bytes utf8 inward provider max_subscription_identifiers max_user_properties holds fed
          room ps t buf buffer after valid five held,
    )
