-- ===== src/Auth.antt =====
-- internal/auth: secrets, their hashes and their encryption.
pub mod Crypto
pub mod Generate
