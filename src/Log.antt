-- ===== src/Log.antt =====
-- hoarder-log.
pub mod FmtBuf
pub mod Line
pub mod Logger
pub mod Delivery
mod Tests
