-- ===== src/Packets/ConnackProperty.antt =====
-- src/v5/packet/connack.rs: the properties of a CONNACK packet, one by one, as a server may send them.
use rust_mqtt.Prelude.{
  ℕ, ◌≤◌, ◌<◌, ◌≡◌, Bool, true, false, Option, none, some, List, [], ◌∷◌, ◌++◌, length, ltb,
  if◌then◌else◌,
}
use rust_mqtt.Types.Qos.{Qos, level}
use rust_mqtt.Wire.Ints.{to_be_bytes}
use rust_mqtt.Wire.Strings.{StringPair, max_length}
use rust_mqtt.Wire.StringRound.{binary_bytes, pair_bytes, IsString, IsPair}
use rust_mqtt.Packets.PropertyType.{
  PropertyType, identifier, session_expiry_interval, receive_maximum, maximum_qos, retain_available,
  maximum_packet_size, assigned_client_identifier, topic_alias_maximum, reason_string,
  user_property, wildcard_subscription_available, subscription_identifier_available,
  shared_subscription_available, server_keep_alive, response_information, server_reference,
  authentication_method, authentication_data,
}
use rust_mqtt.Packets.Disconnect.{SessionExpiryInterval, interval_value}
use rust_mqtt.Packets.Values.{KeepAlive, limit, as_u16}
use rust_mqtt.Packets.ValuesRead.{IsKeepAlive, IsInterval}
use rust_mqtt.Packets.PublishBytes.{bool_bytes}
use rust_mqtt.Packets.Connack.{Negotiated}

unfoldable pub is_some : {A : Type 0} → Option A → Bool
is_some none = false
is_some (some v) = true

pub data ConnackProperty : Type 0 where
  expiry : SessionExpiryInterval → ConnackProperty
  receive_limit packet_size aliases : ℕ → ConnackProperty
  qos : Qos → ConnackProperty
  retain wildcards identifiers shared : Bool → ConnackProperty
  client reason response server method data_bytes : List ℕ → ConnackProperty
  user : StringPair → ConnackProperty
  keep_alive : KeepAlive → ConnackProperty

unfoldable pub type_of : ConnackProperty → PropertyType
type_of (expiry v) = session_expiry_interval
type_of (receive_limit v) = receive_maximum
type_of (packet_size v) = maximum_packet_size
type_of (aliases v) = topic_alias_maximum
type_of (qos v) = maximum_qos
type_of (retain v) = retain_available
type_of (wildcards v) = wildcard_subscription_available
type_of (identifiers v) = subscription_identifier_available
type_of (shared v) = shared_subscription_available
type_of (client v) = assigned_client_identifier
type_of (reason v) = reason_string
type_of (response v) = response_information
type_of (server v) = server_reference
type_of (method v) = authentication_method
type_of (data_bytes v) = authentication_data
type_of (user v) = user_property
type_of (keep_alive v) = server_keep_alive

-- The bytes of the value.
unfoldable pub value_bytes : ConnackProperty → List ℕ
value_bytes (expiry v) = to_be_bytes 4 (interval_value v)
value_bytes (receive_limit v) = to_be_bytes 2 v
value_bytes (packet_size v) = to_be_bytes 4 v
value_bytes (aliases v) = to_be_bytes 2 v
value_bytes (qos v) = level v ∷ []
value_bytes (retain v) = bool_bytes v
value_bytes (wildcards v) = bool_bytes v
value_bytes (identifiers v) = bool_bytes v
value_bytes (shared v) = bool_bytes v
value_bytes (client v) = binary_bytes v
value_bytes (reason v) = binary_bytes v
value_bytes (response v) = binary_bytes v
value_bytes (server v) = binary_bytes v
value_bytes (method v) = binary_bytes v
value_bytes (data_bytes v) = binary_bytes v
value_bytes (user v) = pair_bytes v
value_bytes (keep_alive v) = to_be_bytes 2 (as_u16 v)

-- What the client keeps of it: no more user properties than there is room for, and nothing of
-- authentication.
unfoldable pub keep : (max_user_properties : ℕ) → ConnackProperty → Negotiated → Negotiated
keep max (expiry v) ps = record ps { expiry = some v }
keep max (receive_limit v) ps = record ps { receive_limit = some v }
keep max (packet_size v) ps = record ps { packet_size = some (limit v) }
keep max (aliases v) ps = record ps { aliases = some v }
keep max (qos v) ps = record ps { qos = some v }
keep max (retain v) ps = record ps { retain = some v }
keep max (wildcards v) ps = record ps { wildcards = some v }
keep max (identifiers v) ps = record ps { identifiers = some v }
keep max (shared v) ps = record ps { shared = some v }
keep max (client v) ps = record ps { client = some v }
keep max (reason v) ps = record ps { reason = some v }
keep max (response v) ps = record ps { response = some v }
keep max (server v) ps = record ps { server = some v }
keep max (method v) ps = record ps { method_seen = true }
keep max (data_bytes v) ps = record ps { data_seen = true }
keep max (user v) ps = record ps {
  user = if ltb (length ps.user) max then ps.user ++ (v ∷ []) else ps.user;
}
keep max (keep_alive v) ps = record ps { keep_alive = some v }

-- The property has come before.
unfoldable pub has_come : ConnackProperty → Negotiated → Bool
unfolding is_some
has_come (expiry v) ps = is_some ps.expiry
has_come (receive_limit v) ps = is_some ps.receive_limit
has_come (packet_size v) ps = is_some ps.packet_size
has_come (aliases v) ps = is_some ps.aliases
has_come (qos v) ps = is_some ps.qos
has_come (retain v) ps = is_some ps.retain
has_come (wildcards v) ps = is_some ps.wildcards
has_come (identifiers v) ps = is_some ps.identifiers
has_come (shared v) ps = is_some ps.shared
has_come (client v) ps = is_some ps.client
has_come (reason v) ps = is_some ps.reason
has_come (response v) ps = is_some ps.response
has_come (server v) ps = is_some ps.server
has_come (method v) ps = ps.method_seen
has_come (data_bytes v) ps = ps.data_seen
has_come (user v) ps = false
has_come (keep_alive v) ps = is_some ps.keep_alive

module _ (utf8 : List ℕ → Bool) where
  -- The protocol allows the value.
  unfoldable pub IsValue : ConnackProperty → Type 0
  IsValue (expiry v) = IsInterval v
  IsValue (receive_limit v) = (0 < v) × (v < 65536)
  IsValue (packet_size v) = (0 < v) × (v < 4294967296)
  IsValue (aliases v) = v < 65536
  IsValue (qos v) = Unit
  IsValue (retain v) = Unit
  IsValue (wildcards v) = Unit
  IsValue (identifiers v) = Unit
  IsValue (shared v) = Unit
  IsValue (client v) = IsString utf8 v
  IsValue (reason v) = IsString utf8 v
  IsValue (response v) = IsString utf8 v
  IsValue (server v) = IsString utf8 v
  IsValue (method v) = length v ≤ max_length
  IsValue (data_bytes v) = length v ≤ max_length
  IsValue (user v) = IsPair utf8 v
  IsValue (keep_alive v) = IsKeepAlive v

  -- All values are allowed, and no property but that of the user comes twice.
  abbrev pub AreNew : (max_user_properties : ℕ) → List ConnackProperty → Negotiated → Type 0
  AreNew max [] ps = Unit {0}
  AreNew max (i ∷ is) ps = IsValue i × (has_come i ps ≡ false) × AreNew max is (keep max i ps)

abbrev pub keep_all : (max_user_properties : ℕ) → List ConnackProperty → Negotiated → Negotiated
keep_all max [] ps = ps
keep_all max (i ∷ is) ps = keep_all max is (keep max i ps)

unfoldable pub all_bytes : List ConnackProperty → List ℕ
unfolding value_bytes type_of identifier
all_bytes [] = []
all_bytes (i ∷ is) = ((identifier (type_of i) ∷ []) ++ value_bytes i) ++ all_bytes is
