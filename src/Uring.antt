-- ===== src/Uring.antt =====
-- hoarder-io/src/lib.rs: `UringIO`, over a ring of the io_uring crate.
pub mod Defs
pub mod Laws
mod Tests
