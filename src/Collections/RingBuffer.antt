-- ===== src/Collections/RingBuffer.antt =====
-- hoarder-collections/src/collections.rs, `RingBuffer<T>`: its operations, and the bounded queue
-- that they implement.
pub mod Defs
mod Window
pub mod Refine
pub mod Posts
pub mod Construct
pub mod Trace
