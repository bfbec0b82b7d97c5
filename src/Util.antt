-- ===== src/Util.antt =====
-- src/util: codecs.
pub mod Base64
pub mod AwsSigv4
