-- ===== src/Protocol.antt =====
-- The envelopes of paid responses: src/oathcast/protocol.py.
pub mod Envelope
pub mod Faithful
