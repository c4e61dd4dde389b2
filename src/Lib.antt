-- ===== src/Lib.antt =====
-- Hoarder is a single-threaded network server on io_uring. Its executor owns pools of state machines
-- and of buffers and two run queues. A turn of its loop pops the events of the current queue, gives
-- each to the machine that the event's handle names, and carries out the intents that the machine
-- submits: entries for io_uring, new machines, events. Then it waits for the IO, turns completions
-- into events of the other queue, and switches the queues. Log lines go through a buffer that a thread of
-- its own writes out.
--
-- The files, by the part of the program:
--   Base: names that all files share. Branch and Lists hold Boolean tests and list lemmas over the
--     native numbers; Fallible holds `Outcome`, in which a call returns a value, panics or has
--     undefined behaviour, the builds (debug panics on overflow, release wraps) and allocation; Int
--     holds signed 32-bit numbers; Bits the bit operations that the handles use; Slices prefixes of
--     memory; Post says what holds of the value of a call that returns one.
--   Error: hoarder-common/src/error.rs; Files and Network have the errno values that no code matches.
--   Collections/Array and Collections/RingBuffer: hoarder-collections/src/collections.rs. An array is
--     the list of its cells. A ring buffer's cell is `none` while it holds no value; RingBuffer/Refine
--     relates a buffer to the queue of its values, RingBuffer/Trace to sequences of calls.
--   Collections/AlignedBuffers, GenAlloc, BufferPool, ObjectPool, ObjectHandle:
--     hoarder-collections/src/alloc.rs. GenAlloc/Invariant states the books of an allocator, which
--     index is free and which is handed out under which generation; the pools' invariants build on
--     them. GenAlloc/View compares free lists without their order, in a quotient.
--   Blob/Protocol: hoarder-blob/src/protocol/mod.rs.
--   Blob/ConnHandler and Blob/TcpServer: hoarder-blob/src/state_machine. A handler takes the machine
--     and the context and returns both; `process_event` is the dispatch on event and state.
--     ConnHandler/Life follows a connection to its end, ConnHandler/InFlight one whose receive outlives it.
--   Blob/Executor: hoarder-blob/src/executor/mod.rs. Dispatch is one event, Loop the rest of `run`.
--     Intents, Requests and Queued bound what an event adds to the current queue, Drain and Completions
--     have the two inner loops, Turn a turn of the outer one; Construct, Start and Setup have what
--     comes before them, Accept an accepted connection, Crashes and Unready events that go wrong.
--   Blob/Ownership: which handler has which buffer, over whole runs in a debug build, whose generations
--     never come back. Books has owners against the books of a pool, Release, Holding, Receiving and
--     Handler what a handler does to them, Slots the handlers as the owners; Listener, Intents, Events,
--     Runs and Boot go through the executor's functions, Isolation and Progress have what follows. Owners
--     are handlers: a receive that the kernel still has in flight is not one (ConnHandler/InFlight).
--   Log: hoarder-log/src/lib.rs. FmtBuf is the formatting buffer, Line the macro `__hlog`. Logger/Defs
--     has the two buffers, the word and the steps of the threads in `push` and `consume`: a step is
--     one access to shared memory, and the copy of a text takes a step for each byte. Logger/Inv,
--     Pushing and Consuming have the invariant of one producer and the consumer and its preservation,
--     Logger/System the interleavings, Logger/Races two producers, Logger/Alone a push and a `consume`
--     that nobody interrupts, Logger/Rounds a `consume` at any moment, Logger/Flush `panic_flush`,
--     Logger/Start `Logger::new`. Delivery goes from the macro to the callback.
--   Uring: hoarder-io/src/lib.rs, `UringIO` over a ring; Uring/Laws makes the executor's IO of it.
--   Main: hoarder-blob/src/main.rs, what `main` builds behind its logger, up to the loop of `run`;
--     Main/Threads has the log's thread and the panic hook.
--   Tests, PoolTests, ExecutorTests, QueueTests, StartTests, ErrnoTests, MemoryTests, OwnershipTests: small
--     concrete runs.
--
-- A function has the name of its source function; helpers are named for the piece of its body that
-- they are. Functions that may panic or overflow take the build as an argument. Code outside of this
-- repository is a parameter: the allocator's answers (`none` for null), rustix's system calls and
-- address parsing, zerocopy's `read_from_bytes`, io_uring's `more`, the ring of the io_uring crate under
-- `UringIO`, and the executor's IO, given by the operations of the trait of hoarder-io/src/lib.rs, whose
-- state also holds the memory that the kernel writes: its bytes, and of which slices it is ready, all
-- initialised and written by nobody else. `get` of a buffer pool makes a slice, which is undefined
-- behaviour where the memory is not ready. What holds over whole runs has as a hypothesis, `IsReady`, that
-- it always is, which neither `alloc` nor the code sees to; Executor/Unready has what follows without it.
--
-- Fuel: `drain` of a ring buffer is the loop of `Drop`, and one round more than the number of values is
-- enough. `drain_queue` and `drain_completions` are the inner loops of `run` on fuel, with `none` when
-- it is used up: fuel above twice the number of events, and above the number of completions that the IO
-- has, is enough. `turns` is so many turns of the loop of `run`, which has no end.
--
-- The logger's accesses are sequentially consistent, which is stronger than the orderings that the source
-- names; a weak compare-and-exchange may fail for no reason. A loop of `push` or `consume` that waits is
-- a step that comes back to the head of the loop, so a run is a schedule of steps and needs no fuel.
-- `panic_flush` reads the offsets and the bytes at one moment.
--
-- Not modelled: the sleep of the log's thread and the default panic hook, that `main` makes the logger and
-- registers it, and which lines the entry point, the executor and the handlers log. Element types of size
-- zero are allocated as undefined behaviour, as `alloc` documents it. What holds over whole runs is stated for a debug build: in a release build a
-- generation that wraps around can make a stale handle valid again.
pub mod Base
pub mod Error
pub mod Collections
pub mod Blob
pub mod Log
pub mod Uring
pub mod Main
