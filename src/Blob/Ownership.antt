-- ===== src/Blob/Ownership.antt =====
-- hoarder-blob/src: which connection has which buffer, over whole runs of the executor. In a debug
-- build, whose generations never come back.
pub mod Books
pub mod Release
pub mod Holding
pub mod Receiving
pub mod Handler
pub mod Slots
pub mod Listener
pub mod Intents
pub mod Events
pub mod Runs
pub mod Boot
pub mod Isolation
pub mod Progress
