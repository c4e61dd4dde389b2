-- ===== src/Log/Logger.antt =====
-- hoarder-log/src/lib.rs, `Logger`, `Producer` and `Consumer`: two buffers that a producer fills and
-- a consumer swaps and reads, under one atomic word.
pub mod Defs
pub mod Inv
pub mod Pushing
pub mod Consuming
pub mod System
pub mod Races
pub mod Alone
pub mod Flush
pub mod Rounds
pub mod Start
