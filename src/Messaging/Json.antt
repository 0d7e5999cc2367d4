-- ===== src/Messaging/Json.antt =====
-- The module json, as far as common/messaging.py uses it.
pub mod Characters
pub mod Writing
pub mod Reading
pub mod Texts
pub mod Numbers
pub mod Envelopes
