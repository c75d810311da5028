-- ===== src/Sms.antt =====
-- The short message codec and assembler of gateway/internal/sms.
pub mod Gsm7
pub mod Pack
pub mod Utf16
pub mod Hex
pub mod Address
pub mod Split
pub mod Submit
pub mod Decode
pub mod Multipart
pub mod Engine
mod Tests
