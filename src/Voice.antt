-- ===== src/Voice.antt =====
-- gateway/internal/voice: PCM frames and the bridge.
pub mod Pcm
pub mod Bridge
mod Tests
