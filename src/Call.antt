-- ===== src/Call.antt =====
-- The single-line call controller of gateway/internal/call/state.go.
pub mod Defs
pub mod Changes
pub mod Controller
pub mod Mutate
pub mod Ops
pub mod Emergency
pub mod Invariant
pub mod Replay
pub mod Recovery
pub mod Line
pub mod Rollback
pub mod Refusal
mod Tests
