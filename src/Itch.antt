-- ===== src/Itch.antt =====
-- include/itch_parser.h: the binary protocol, its parser and its message builders.
pub mod Bytes
pub mod Messages
pub mod Parser
pub mod Build
pub mod Stock
pub mod Lanes
pub mod RoundTrip
pub mod Stream
pub mod Local
