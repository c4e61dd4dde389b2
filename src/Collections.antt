-- ===== src/Collections.antt =====
-- hoarder-collections: the containers of collections.rs and the allocators of alloc.rs.
pub mod Array
pub mod RingBuffer
pub mod AlignedBuffers
pub mod GenAlloc
pub mod BufferPool
pub mod ObjectPool
mod Tests
pub mod PoolTests
pub mod ObjectHandle
