-- ===== src/Ws.antt =====
-- src/ws: the subscribers of the update stream, and the detection of webhook triggers.
pub mod Registry
pub mod UpdateRouter
pub mod UpdatesWs
pub mod Message
pub mod OwnerMention
