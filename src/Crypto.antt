-- ===== src/Crypto.antt =====
-- src/crypto: SHA-1, the hash interface with HMAC, and PBKDF2.
pub mod Compress
pub mod Sha1
pub mod Hash
pub mod Pbkdf2
pub mod Password
mod Runs
