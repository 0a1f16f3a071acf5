-- ===== src/Crypto.antt =====
-- The password helpers of code/model.cc: SHA-256, SM4, Base64 and SM3 over strings of the
-- characters 0 and 1. A `std::string` is the list of its bytes.
pub mod Words
pub mod Strings
pub mod Sha256
pub mod Sm4
pub mod Base64
pub mod Sm3
pub mod Password
mod Tests
