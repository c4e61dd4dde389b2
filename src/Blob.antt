-- ===== src/Blob.antt =====
-- hoarder-blob/src: the executor's protocol, its state machines and its loop.
pub mod Protocol
pub mod ConnHandler
pub mod TcpServer
pub mod Executor
pub mod Ownership
pub mod Tests
pub mod ExecutorTests
mod MemoryTests
mod QueueTests
mod ErrnoTests
pub mod StartTests
mod OwnershipTests
