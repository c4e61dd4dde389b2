-- ===== src/Collections/GenAlloc.antt =====
-- hoarder-collections/src/alloc.rs, `GenAlloc`: indices are handed out with a generation, and an id
-- whose generation has passed is refused.
pub mod Defs
mod Pigeon
pub mod Invariant
pub mod Laws
pub mod Construct
pub mod Reach
pub mod Safety
pub mod Stale
pub mod View
