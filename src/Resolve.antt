-- ===== src/Resolve.antt =====
-- The resolver of libscout.c: the consumer thread `resolve_undefined_sym`, the producer threads
-- `get_undefined_sym` that it starts by `process_file_sym`, and the buffer between them.
pub mod Running
pub mod Counts
pub mod Outcome
pub mod Needs
pub mod Sound
pub mod Progress
pub mod Kept
pub mod Complete
pub mod Once
pub mod Liveness
pub mod EarlyExit
pub mod Stuck
pub mod Printed
pub mod Measure
pub mod Ends
use libscout.Prelude.{
  ℕ, zero, suc, ◌+◌, ◌*◌, Bool, true, false, ◌≡◌, ◌||◌, Option, none, some, List, [], ◌∷◌, ◌++◌,
  get_elem?, set, length, Name, leb, int_lt, int_eq, if◌then◌else◌, ℤ, pos, negsuc, exit_success,
  enomem, eexist, ebadmsg,
}
use libscout.Buffer.{MpscBuffer, new_buffer, send_sym_to_buffer, receive_sym, got, nothing}
use libscout.Avl.{SymAvl}

abbrev pub initial_producer_array_size : ℕ
initial_producer_array_size = 100

-- `producer_count++` and `producer_count--`.
abbrev pub inc : ℤ → ℤ
inc (pos n) = pos (suc n)
inc (negsuc zero) = pos 0
inc (negsuc (suc n)) = negsuc n

abbrev pub dec : ℤ → ℤ
dec (pos zero) = negsuc 0
dec (pos (suc n)) = pos n
dec (negsuc n) = negsuc (suc n)

-- The last section of `get_undefined_sym`: the producer signs off, and the one that brings the
-- count to zero or below says that no producer is left.
unfoldable pub finish_producer : MpscBuffer → MpscBuffer
finish_producer b = record b {
  producer_count = dec b.producer_count;
  producer_done = if int_lt (pos 0) (dec b.producer_count) then b.producer_done else true;
}

-- The section of `process_file_sym` that counts the new producer.
unfoldable pub count_producer : MpscBuffer → MpscBuffer
count_producer b = record b { producer_count = inc b.producer_count }

-- A producer thread: the file whose symbols it sends, and those not yet sent.
pub data ProducerState : Type 0 where
  running : List Name → ProducerState
  finished : ProducerState

pub record Producer : Type 0 where
  pub file : Name
  pub state : ProducerState

-- Where the consumer stands: at the head of its loop, before `pthread_create` for a file, between
-- `pthread_create` and `producer_count++`, or behind the loop with its return code. `holding` is the
-- early return behind a failed copy of a symbol, with the mutex still locked; `crashed` is a fault,
-- such as the use of a NULL pointer, which ends all threads; it holds the file whose producer has been
-- created and not counted, if there is one.
pub data Pc : Type 0 where
  looping : Pc
  creating : Name → Pc
  counting : Name → Pc
  exited : ℤ → Pc
  holding : ℤ → Pc
  crashed : Option Name → Pc

-- Nobody else enters a critical section any more.
abbrev pub is_locked : Pc → Bool
is_locked (holding _) = true
is_locked (crashed _) = true
is_locked _ = false

module _ (avl : SymAvl) where
  open avl use {Tree, init, search, insert}

  abbrev pub inserted : Tree → Option Tree → ℤ × Tree
  inserted tree (some t) = (exit_success, t)
  inserted tree none = (ebadmsg, tree)

  -- `add_sym_to_tree`; `allocated` says whether the `malloc` of the node succeeds.
  unfoldable pub add_sym_to_tree : Bool → Tree → Name → ℤ × Tree
  add_sym_to_tree allocated tree sym_name = elim (search tree sym_name) [
    | some _ ↦ (eexist, tree)
    | none ↦ if allocated then inserted tree (insert tree sym_name) else (enomem, tree)
  ]

  pub record Consumer : Type 0 where
    pub pc : Pc
    pub dependency : Tree
    pub undefined_sym : Tree
    pub number_of_producers : ℕ
    pub producer_arr_size : ℕ

  -- The growth of `producer_thread_arr` when it has no room for one more producer.
  abbrev pub grow : ℕ → ℕ → ℕ
  grow producers size = if leb size (producers + 1) then (size + 1) * 2 else size

  abbrev pub after_dependency : Consumer → Name → ℤ × Tree → Consumer
  after_dependency c lib (rc, t) =
      if int_eq rc exit_success
      then record c {
        pc = creating lib;
        dependency = t;
        producer_arr_size = grow c.number_of_producers c.producer_arr_size;
      }
      else if int_eq rc eexist
      then c
      else record c { pc = exited rc }

  abbrev pub after_undefined : Consumer → ℤ × Tree → Consumer
  after_undefined c (rc, t) =
      if int_eq rc exit_success || int_eq rc eexist
      then record c { undefined_sym = t }
      else record c { pc = exited rc }

  -- What the consumer does with a received symbol: `found` is the result of `check_sym_cache`.
  unfoldable pub handle_sym : Bool → Consumer → Name → Option Name → Consumer
  unfolding add_sym_to_tree
  handle_sym allocated c sym (some lib) =
      after_dependency c lib (add_sym_to_tree allocated c.dependency lib)
  handle_sym allocated c sym none =
      after_undefined c (add_sym_to_tree allocated c.undefined_sym sym)

  pub record System : Type 0 where
    pub buffer : MpscBuffer
    pub consumer : Consumer
    pub producers : List Producer

  -- Before the first `process_file_sym`, which is for the executable.
  abbrev pub start : Name → System
  start exe = record {
    buffer = new_buffer;
    consumer = record {
      pc = creating exe;
      dependency = init;
      undefined_sym = init;
      number_of_producers = 0;
      producer_arr_size = initial_producer_array_size;
    };
    producers = [];
  }

  -- `undefined_of f` are the names that the producer of file `f` sends, which are none if its
  -- `process_elf_file` fails, and `check` is
  -- `check_sym_cache` on the cache, which does not change any more.
  module _ (undefined_of : Name → List Name) (check : Name → Option Name) where
    -- One critical section, or one private step, of one thread.
    pub data Step (s : System) : System → Type 0 where
      send :
          (i : ℕ) {f sym : Name} {rest : List Name} {b : MpscBuffer}
          → is_locked s.consumer.pc ≡ false
          → get_elem? s.producers i ≡ some (record { file = f; state = running (sym ∷ rest) })
          → send_sym_to_buffer s.buffer sym ≡ some b
          → Step s (record s {
            buffer = b;
            producers = set s.producers i (record { file = f; state = running rest });
          })
      finish :
          (i : ℕ) {f : Name}
          → is_locked s.consumer.pc ≡ false
          → get_elem? s.producers i ≡ some (record { file = f; state = running [] })
          → Step s (record s {
            buffer = finish_producer s.buffer;
            producers = set s.producers i (record { file = f; state = finished });
          })
      -- The `malloc` of the node in `add_sym_to_tree` may fail.
      receive :
          (allocated : Bool) {sym : Name} {b : MpscBuffer}
          → s.consumer.pc ≡ looping
          → receive_sym s.buffer ≡ got sym b
          → Step s
              (record s { buffer = b; consumer = handle_sym allocated s.consumer sym (check sym) })
      -- The `malloc` of the symbol's copy fails.
      receive_fails :
          {sym : Name} {b : MpscBuffer}
          → s.consumer.pc ≡ looping
          → receive_sym s.buffer ≡ got sym b
          → Step s (record s { consumer = record s.consumer { pc = holding enomem } })
      leave :
          s.consumer.pc ≡ looping
          → receive_sym s.buffer ≡ nothing
          → s.buffer.producer_done ≡ true
          → Step s (record s { consumer = record s.consumer { pc = exited exit_success } })
      create :
          {f : Name}
          → s.consumer.pc ≡ creating f
          → Step s (record s {
            consumer = record s.consumer { pc = counting f };
            producers = s.producers ++ record { file = f; state = running (undefined_of f) } ∷ [];
          })
      -- An allocation of `process_file_sym` but the first, or the `realloc` before it, fails.
      create_fails :
          {f : Name}
          → s.consumer.pc ≡ creating f
          → Step s (record s { consumer = record s.consumer { pc = exited enomem } })
      -- The first allocation of `process_file_sym` fails, and the NULL context is written to.
      create_crashes :
          {f : Name}
          → s.consumer.pc ≡ creating f
          → Step s (record s { consumer = record s.consumer { pc = crashed none } })
      -- The new thread has signed off and freed its context before `producer_ctx->buffer` is read.
      count_crashes :
          (i : ℕ) {f g : Name}
          → s.consumer.pc ≡ counting f
          → suc i ≡ length s.producers
          → get_elem? s.producers i ≡ some (record { file = g; state = finished })
          → Step s (record s { consumer = record s.consumer { pc = crashed (some f) } })
      count :
          {f : Name}
          → s.consumer.pc ≡ counting f
          → Step s (record s {
            buffer = count_producer s.buffer;
            consumer = record s.consumer {
              pc = looping;
              number_of_producers = s.consumer.number_of_producers + 1;
            };
          })

    -- The states that some interleaving leads to.
    pub data Reach (exe : Name) : System → Type 0 where
      here : Reach exe (start exe)
      next : {s t : System} → Reach exe s → Step s t → Reach exe t
