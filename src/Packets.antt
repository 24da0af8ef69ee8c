-- ===== src/Packets.antt =====
-- src/v5 and src/packet: the properties of version 5 packets, and the packets that are made of them.
pub mod RxError
pub mod PropertyType
pub mod Property
pub mod PropertyBytes
pub mod Whole
pub mod Reads
pub mod FieldsRead
pub mod WholeRead
pub mod AckType
pub mod Puback
pub mod PubackSend
pub mod PubackBytes
pub mod PubackWrite
pub mod PubackRead
pub mod PubackRound
pub mod PubackErrors
pub mod Disconnect
pub mod DisconnectReceive
pub mod Counted
pub mod CountedRead
pub mod Publish
pub mod PublishSend
pub mod PublishBytes
pub mod PropertyWrite
pub mod PublishLimits
pub mod PublishWrite
pub mod PublishRead
pub mod PublishParts
pub mod PublishRound
pub mod Suback
pub mod SubackRead
pub mod Subscribe
pub mod Unsubscribe
pub mod SubscribeWrite
pub mod UnsubscribeWrite
pub mod Values
pub mod ValuesRead
pub mod Connack
pub mod ConnackProperty
pub mod ConnackRead
pub mod ConnackAgain
pub mod ConnackRound
pub mod DisconnectRead
pub mod Examples
pub mod PublishExamples
pub mod SubscribeExamples
pub mod ConnackExamples
pub mod DisconnectExamples
