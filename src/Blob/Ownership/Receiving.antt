-- ===== src/Blob/Ownership/Receiving.antt =====
-- hoarder-blob/src/state_machine/conn_handler.rs, `on_recv` and the methods that it calls: a handler that
-- receives keeps its buffer until it closes.
use hoarder.Base.{
  true, zero, suc, pos, negsuc, ◌+◌, ◌-◌, neg_i32, overflow, panic, unwrap, ◌==◌, ℕ, ℤ, ◌≡◌, refl,
  sym, ap, ◌∙◌, subst, Option, List, ltb, done, ◌>>=◌, debug, add_u32, is_zero, is_negative, as_u32,
  leb, if◌then◌else◌, ◌^◌,
}
use hoarder.Base.Post.{Safe, IsDefined, Safe-bind, Safe-after, Safe-if, unwrap-IsDefined}
use hoarder.Error.{Errno, from_raw_syscall_error, is_one_of}
use hoarder.Collections.GenAlloc.Invariant.{Book}
use hoarder.Collections.BufferPool
use hoarder.Collections.BufferPool.{Memory, Slice, BufferHandle, BufferPool}
use hoarder.Collections.BufferPool.Laws.{Holds}
use hoarder.Blob.Protocol.{ExecutorContext, MsgHeader, header_size}
use hoarder.Blob.ConnHandler.{ConnHandlerState, RecvPhase, ConnHandler, Step, buf_size, buf_align}
use hoarder.Blob.ConnHandler as Conn
use hoarder.Blob.Ownership.Release.{
  get-IsDefined, IsOut, Moves, unmoved, release-out, IsGentle, Further,
}
use hoarder.Blob.Ownership.Holding.{
  held_in, IsThere, IsRight, Kept, Stays, forget, buf_handle-IsDefined, recv-Further, closing-Kept,
}

errno-IsDefined : (res : ℤ) → IsDefined (from_raw_syscall_error debug res)
unfolding from_raw_syscall_error
errno-IsDefined (pos zero) = tt
errno-IsDefined (pos (suc n)) = tt
errno-IsDefined (negsuc n) =
    Safe-after (λ _. Unit) (neg_i32 debug (negsuc n)) _
      (Safe-if (λ _. Unit) (n == 2 ^ 31 - 1) (panic overflow) (done (pos (suc n))) tt tt) λ raw. tt

add-IsDefined : (a b : ℕ) → IsDefined (add_u32 debug a b)
unfolding add_u32
add-IsDefined a b = Safe-if (λ _. Unit) (ltb (a + b) (2 ^ 32)) (done (a + b)) (panic overflow) tt tt

prefix-IsDefined : (mem : Memory) (s : Slice) (n : ℕ) → IsDefined (Conn.prefix mem s n)
unfolding Conn.prefix
prefix-IsDefined mem s n = Safe-if (λ _. Unit) (leb n s.len) _ _ tt tt

parse-IsDefined :
    (ctx : ExecutorContext) {book : Book} (q : List ℕ)
    → Holds buf_size ctx.buffers q book
    → (read_header : List ℕ → Option MsgHeader) (mem : Memory) → ((x : Slice) → mem.ready x ≡ true)
    → (c : ConnHandler) → IsThere c.handle
    → IsDefined (Conn.parse_header debug read_header mem c ctx)
unfolding Conn.parse_header
parse-IsDefined ctx q hs read_header mem ready c there =
    Safe-after (λ _. Unit) (Conn.buf_handle c) _ (buf_handle-IsDefined c there)
      λ h.
        Safe-after (λ _. Unit) (BufferPool.get buf_size buf_align debug mem ctx.buffers h) _
          (get-IsDefined q hs mem ready h)
          λ found.
            Safe-after (λ _. Unit) (unwrap found) _ (unwrap-IsDefined found)
              λ slice.
                Safe-after (λ _. Unit) (Conn.prefix mem slice header_size) _
                  (prefix-IsDefined mem slice header_size)
                  λ bytes. unwrap-IsDefined (read_header bytes)

-- A handler that keeps its state and its handle, and a pool that stays.
module _ (book : Book) (q : List ℕ) (c : ConnHandler) (ctx : ExecutorContext)
    (hs : Holds buf_size ctx.buffers q book) (gs : IsGentle ctx.intents)
    (there : IsThere c.handle) where
  unchanged-Kept :
      (phase : RecvPhase) (s : ConnHandlerState) (c' : ConnHandler) (ctx' : ExecutorContext)
      → s ≡ Conn.receiving phase
      → c'.handle ≡ c.handle
      → Further ctx ctx'
      → Stays ctx.buffers book c.handle c.handle (c', ctx', s)
  unchanged-Kept phase s c' ctx' es eh (bufs, gs') = (
    eh,
    subst (λ b. Moves ctx.buffers book c.handle b (held_in s c'.handle)) (sym bufs)
        (unmoved book q hs (ap (λ x. held_in x c'.handle) es ∙ eh)),
    subst (λ x. IsRight ctx'.buffers.allocator x c'.handle) (sym es) (subst IsThere (sym eh) there),
    gs',
  )

  module _ (phase : RecvPhase) (same : c.state ≡ Conn.receiving phase)
      (out : IsOut book c.handle) where
    closes :
        Safe
          (Stays ctx.buffers book c.handle c.handle)
          (Conn.close debug c ctx >>= λ r. done (r.0, r.1, Conn.closing))
    closes = closing-Kept book q c ctx c.handle hs gs (release-out ctx book q hs c.handle out)

    dispatch_error-Kept :
        (e : Errno)
        → Safe (Stays ctx.buffers book c.handle c.handle) (Conn.dispatch_error debug c ctx e)
    unfolding Conn.dispatch_error
    dispatch_error-Kept e =
        Safe-if (Stays ctx.buffers book c.handle c.handle) (is_one_of e Conn.transient_errors) _ _
          (Safe-bind (Stays ctx.buffers book c.handle c.handle) (Further ctx) (Conn.recv c ctx) _
            (recv-Further book q c ctx there gs)
            λ ctx' f. unchanged-Kept phase c.state c ctx' same refl f)
          (Safe-if (Stays ctx.buffers book c.handle c.handle) (is_one_of e Conn.logical_errors) _ _
            tt
            (Safe-if (Stays ctx.buffers book c.handle c.handle) (is_one_of e Conn.connection_errors)
              _ _ closes (unchanged-Kept phase c.state c ctx same refl (refl, gs))))

    handle_io_error-Kept :
        (res : ℤ)
        → Safe (Stays ctx.buffers book c.handle c.handle) (Conn.handle_io_error debug c ctx res)
    unfolding Conn.handle_io_error
    handle_io_error-Kept res =
        Safe-after (Stays ctx.buffers book c.handle c.handle) (from_raw_syscall_error debug res) _
          (errno-IsDefined res) λ e. dispatch_error-Kept e

    module _ (read_header : List ℕ → Option MsgHeader) (mem : Memory)
        (ready : (x : Slice) → mem.ready x ≡ true) where
      received-Kept :
          (res : ℤ)
          → Safe
              (Stays ctx.buffers book c.handle c.handle)
              (Conn.received debug read_header mem c ctx res)
      unfolding Conn.received
      received-Kept res =
          Safe-after (Stays ctx.buffers book c.handle c.handle)
            (add_u32 debug c.offset (as_u32 res)) _ (add-IsDefined c.offset (as_u32 res))
            λ offset.
              Safe-if (Stays ctx.buffers book c.handle c.handle) (leb header_size offset) _ _
                (Safe-after (Stays ctx.buffers book c.handle c.handle)
                  (Conn.parse_header debug read_header mem (record c { offset = offset }) ctx) _
                  (parse-IsDefined ctx q hs read_header mem ready (record c { offset = offset })
                    there)
                  λ header.
                    unchanged-Kept (Conn.receiving_body header)
                      (Conn.receiving (Conn.receiving_body header)) (record c { offset = offset })
                      ctx refl refl (refl, gs))
                (unchanged-Kept Conn.receiving_header (Conn.receiving Conn.receiving_header)
                  (record c { offset = offset }) ctx refl refl (refl, gs))

      pub on_recv-Kept :
          (res : ℤ)
          → Safe (Kept ctx.buffers book c.handle) (Conn.on_recv debug read_header mem c ctx res)
      unfolding Conn.on_recv
      on_recv-Kept res =
          Safe-if (Kept ctx.buffers book c.handle) (is_zero res) _ _
            (forget ctx.buffers book c.handle c.handle _ closes)
            (Safe-bind (Kept ctx.buffers book c.handle) (Stays ctx.buffers book c.handle c.handle)
              (if is_negative res
                then Conn.handle_io_error debug c ctx res
                else Conn.received debug read_header mem c ctx res)
              _
              (Safe-if (Stays ctx.buffers book c.handle c.handle) (is_negative res) _ _
                (handle_io_error-Kept res) (received-Kept res))
              λ r (same', moves, right, gs').
                Safe-bind (Kept ctx.buffers book c.handle) (Further r.1) (Conn.recv r.0 r.1) _
                  (recv-Further book q r.0 r.1 (subst IsThere (sym same') there) gs')
                  λ ctx'' (bufs, gs''). (
                    subst (λ b. Moves ctx.buffers book c.handle b (held_in r.2 r.0.handle))
                        (sym bufs) moves,
                    subst (λ b. IsRight b.allocator r.2 r.0.handle) (sym bufs) right,
                    gs'',
                  ))
