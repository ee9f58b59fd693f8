-- ===== src/Owned.antt =====
-- The blocks of memory that belong to the contexts of threads (libscout.c): what
-- create_producer_thread_ctx, process_file_sym, the end of get_undefined_sym and
-- destroy_producer_thread_ctx allocate and free.
pub mod Frees
pub mod Created
pub mod Descr
pub mod Trees
pub mod Stores
use libscout.Prelude.{
  ℕ, suc, Bool, true, false, Option, none, some, List, [], ◌∷◌, ◌>>=◌, if◌then◌else◌, ℤ,
  exit_success, enomem,
}
use libscout.Cache.{put}

-- The addresses of live blocks; addresses are given out in order.
pub record Blocks : Type 0 where
  pub live : ℕ → Bool
  pub next : ℕ

-- `malloc` or `calloc`.
abbrev pub new : Bool → Blocks → Option ℕ × Blocks
new false b = (none, b)
new true b = (some b.next, record { live = put b.live b.next true; next = suc b.next })

-- `free`, of NULL too; `none` is a fault, such as a block that is freed twice.
unfoldable pub free : Option ℕ → Blocks → Option Blocks
free none b = some b
free (some p) b = if b.live p then some (record b { live = put b.live p false }) else none

unfoldable pub free_all : List (Option ℕ) → Blocks → Option Blocks
unfolding free
free_all [] b = some b
free_all (p ∷ ps) b = free p b >>= λ b'. free_all ps b'

-- `producer_thread_ctx_t`: the buffer's slots hold names, or NULL.
pub record OwnedCtx : Type 0 where
  pub ctx : ℕ
  pub buffer : ℕ
  pub slots : List (Option ℕ)
  pub user_data : Option ℕ

abbrev pub Created : Type 0
Created = ℤ × Option OwnedCtx × Blocks

abbrev pub with_buffer : ℕ → Option ℕ × Blocks → Option Created
with_buffer ctx (some buffer, b) =
    some
      (exit_success, some (record { ctx = ctx; buffer = buffer; slots = []; user_data = none }), b)
with_buffer ctx (none, b) = free (some ctx) b >>= λ b'. some (enomem, none, b')

-- `create_producer_thread_ctx`: the code, the context, and the blocks.
unfoldable pub create_ctx : Bool → Bool → Blocks → Option Created
unfolding free
create_ctx ctx_allocated buffer_allocated b = elim ctx_allocated [
  | false ↦ some (enomem, none, b)
  | true ↦ let (_, b1) = new true b in with_buffer b.next (new buffer_allocated b1)
]

-- `destroy_producer_thread_ctx`
unfoldable pub destroy_producer_thread_ctx : Option OwnedCtx → Blocks → Option Blocks
unfolding free_all
destroy_producer_thread_ctx none b = some b
destroy_producer_thread_ctx (some c) b = free_all c.slots b >>= λ b1.
    free (some c.buffer) b1 >>= λ b2. free c.user_data b2 >>= λ b3. free (some c.ctx) b3

-- What a producer thread is given.
pub record ProducerBlocks : Type 0 where
  pub producer_ctx : ℕ
  pub thread_user_data : ℕ
  pub file_name : ℕ
  pub lib_path : ℕ

-- Which of the allocations of `process_file_sym` succeed.
pub record SymAllocs : Type 0 where
  pub producer_ctx : Bool
  pub thread_user_data : Bool
  pub file_name : Bool
  pub lib_path : Bool

-- The end of `get_undefined_sym`.
unfoldable pub end_producer : ProducerBlocks → Blocks → Option Blocks
unfolding free_all
end_producer p b =
    free_all
      (some p.file_name ∷ some p.lib_path ∷ some p.thread_user_data ∷ some p.producer_ctx ∷ []) b

abbrev pub Started : Type 0
Started = ℤ × Option ProducerBlocks × Blocks

-- Behind `pthread_create`: `producer_ctx->buffer` is read, three times. `ended` says that the thread has
-- come to its end before the last of these reads; a freed context faults.
unfoldable pub read_ctx : Bool → ProducerBlocks → Blocks → Option Started
unfolding end_producer
read_ctx ended p b = (if ended then end_producer p b else some b) >>= λ b1.
    if b1.live p.producer_ctx then some (exit_success, some p, b1) else none

-- The allocations of `process_file_sym`, and the arguments of the thread if all succeed; `none` is the
-- store through a NULL context, or the read of one that has been freed.
unfoldable pub process_file_sym : SymAllocs → Bool → Blocks → Option Started
unfolding read_ctx
process_file_sym a ended b =
    let (_, b1) = new a.producer_ctx b in
    let (_, b2) = new a.thread_user_data b1 in
    let (_, b3) = new a.file_name b2 in
    let (_, b4) = new a.lib_path b3 in
    if a.producer_ctx
    then if a.thread_user_data
      then if a.file_name
        then if a.lib_path
          then read_ctx ended
              (record {
                producer_ctx = b.next;
                thread_user_data = b1.next;
                file_name = b2.next;
                lib_path = b3.next;
              })
              b4
          else some (enomem, none, b3)
        else some (enomem, none, b2)
      else some (enomem, none, b1)
    else none
