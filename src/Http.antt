-- ===== src/Http.antt =====
-- flconc/net/http: the header map, the messages, their codec and the dispatcher of servlets.
pub mod Header
pub mod Message
pub mod Codec
pub mod Dispatch
