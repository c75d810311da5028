-- ===== src/Sip.antt =====
-- gateway/internal/sip: the registrar, and a call with its media.
pub mod Registrar
pub mod Media
pub mod Session
mod Tests
