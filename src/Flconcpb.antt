-- ===== src/Flconcpb.antt =====
-- flconc/net/flconcpb: the package struct, its codec, the dispatcher and the channels.
pub mod Word
pub mod Data
pub mod Encode
pub mod Decode
pub mod Stages
pub mod Fields
pub mod Progress
pub mod Scan
pub mod RoundTrip
pub mod Dispatch
pub mod Controller
pub mod Channel
pub mod AsyncChannel
