-- ===== src/Bridge.antt =====
-- src/bridge: requests to TDLib and the table of those in flight.
pub mod RequestId
pub mod CorrelationMap
pub mod TdBridge
pub mod MessageSendTracker
