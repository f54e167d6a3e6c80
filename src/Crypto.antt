-- ===== src/Crypto.antt =====
-- internal/crypto: sealing with associated data, base64 and the envelopes of a field. Texts are
-- bytes here.
pub mod Values
pub mod Aead
pub mod Base64
pub mod Envelope
pub mod Framed
mod Tests
