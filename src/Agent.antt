-- ===== src/Agent.antt =====
-- module-agent: the event journal.
pub mod Journal
pub mod SmsPdu
mod Tests
