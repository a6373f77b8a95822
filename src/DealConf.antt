-- ===== src/DealConf.antt =====
-- src/dealConf.c: reading and parsing the configuration, the tag extractor, the check of a packet's
-- shape, and addresses as text.
pub mod Extract
pub mod Spec
pub mod Content
pub mod Kept
pub mod Refine
pub mod LongNames
pub mod Config
pub mod Settings
pub mod Address
pub mod Legal
