-- ===== src/Blob/Executor.antt =====
-- hoarder-blob/src/executor/mod.rs: the loop that owns the pools, delivers events to the state
-- machines and carries out their intents.
-- Parameters: the IO that the executor is generic over (the trait of hoarder-io/src/lib.rs), the
-- network calls of the listener, zerocopy's `read_from_bytes`, and the memory, which the kernel
-- writes and which is therefore a part of the IO's state. The log lines are left out.
pub mod Defs
pub mod Dispatch
pub mod Loop
pub mod Crashes
pub mod Unready
pub mod Accept
pub mod Start
pub mod Intents
pub mod Requests
pub mod Queued
pub mod Drain
pub mod Completions
pub mod Turn
pub mod Construct
pub mod Setup
