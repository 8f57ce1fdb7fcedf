-- ===== src/Auth.antt =====
-- packages/auth: device ids, one-time codes, the challenge transcript and the identity binding.
pub mod Crypto
pub mod DeviceId
pub mod Otp
pub mod Transcript
pub mod Hex
pub mod Identity
