-- ===== src/Events.antt =====
-- src/events: the events for Kafka.
pub mod KafkaSink
