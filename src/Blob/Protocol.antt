-- ===== src/Blob/Protocol.antt =====
-- hoarder-blob/src/protocol/mod.rs: the events that a state machine receives and the intents that it
-- submits.
use hoarder.Base.{
  ℕ, ℤ, ◌<◌, ◌≡◌, List, [], ◌∷◌, ◌++◌, length, ltb, lt→ltb, Outcome, done, assert, ◌>>◌,
}
use hoarder.Collections.BufferPool.{BufferHandle, BufferPool}

-- io_uring's `Fixed` (an index into the registered files) and `Fd`, as the sources build them.
pub record Fixed : Type 0 where
  pub slot : ℕ

pub record Fd : Type 0 where
  pub raw : ℤ

-- `IoCompleted(IoResult, IoFlag)`
pub data MachineEvent : Type 0 where
  spawned : MachineEvent
  io_completed : ℤ → ℕ → MachineEvent

pub data MachineIntent : Type 0 where
  retry terminate : MachineIntent
  close_fixed : Fixed → MachineIntent
  spawn_conn_handler : Fixed → MachineIntent
  submit_multishot_accept : Fd → MachineIntent
  submit_recv : Fixed → BufferHandle → ℕ → MachineIntent

-- The slots for intents are the list of those written so far, whose length is the source's `len`,
-- and their number. What lies in the slots past `len` is never read.
pub record ExecutorContext : Type 0 where
  pub slots : ℕ
  pub intents : List MachineIntent
  pub buffers : BufferPool

unfoldable pub submit_intent : ExecutorContext → MachineIntent → Outcome ExecutorContext
submit_intent ctx intent = do
  assert (ltb (length ctx.intents) ctx.slots)
  done (record ctx { intents = ctx.intents ++ (intent ∷ []) })

pub submit_intent_lem :
    (ctx : ExecutorContext) (intent : MachineIntent)
    → length ctx.intents < ctx.slots
    → submit_intent ctx intent ≡ done (record ctx { intents = ctx.intents ++ (intent ∷ []) })
unfolding submit_intent
submit_intent_lem ctx intent h = rw (lt→ltb (length ctx.intents) ctx.slots h)

-- `MsgHeader`: four bytes of magic and one of command, packed.
pub record MsgHeader : Type 0 where
  pub magic : ℕ
  pub cmd : ℕ

-- A header with a key, a checksum and a length.
pub record MsgHeaderLong : Type 0 where
  pub header : MsgHeader
  pub key : ℕ
  pub crc : ℕ
  pub len : ℕ

-- `size_of::<MsgHeader>()`
abbrev pub header_size : ℕ
header_size = 5
