-- ===== src/Buffer.antt =====
-- The bounded buffer of symbol names between the producer threads and the consumer:
-- `mpsc_buffer_t` of libscout.h, and the critical sections on it in libscout.c.
pub mod Represents
use Prim.Native.Nat.{ℕ, ◌+◌, ◌%◌}
use libscout.Prelude.{
  Bool, true, false, ◌≡◌, Option, none, some, List, replicate, set, get_elem?, Name, ◌==◌, ltb,
  if◌then◌else◌, ℤ, pos,
}

abbrev pub max_lib_entry : ℕ
max_lib_entry = 1024

-- `mpsc_buffer_t` without its mutex and condition variables: the functions below are the bodies of
-- its critical sections. A slot is NULL or points to a symbol's name.
pub record MpscBuffer : Type 0 where
  pub buffer : List (Option Name)
  pub head : ℕ
  pub tail : ℕ
  pub producer_count : ℤ
  pub producer_done : Bool

-- What `create_producer_thread_ctx` leaves: `calloc` gives NULL slots and a count of 0.
unfoldable pub new_buffer : MpscBuffer
new_buffer = record {
  buffer = replicate max_lib_entry none;
  head = 0;
  tail = 0;
  producer_count = pos 0;
  producer_done = false;
}

unfoldable pub buffer_is_empty : MpscBuffer → Bool
buffer_is_empty b = b.head == b.tail

unfoldable pub buffer_is_full : MpscBuffer → Bool
buffer_is_full b = (b.tail + 1) % max_lib_entry == b.head

-- How `head` and `tail` move on.
unfoldable pub next_index : ℕ → ℕ
next_index i = if ltb (i + 1) max_lib_entry then i + 1 else 0

-- `send_sym_to_buffer`; `none` while the thread has to wait for `not_full`.
unfoldable pub send_sym_to_buffer : MpscBuffer → Name → Option MpscBuffer
unfolding buffer_is_full next_index
send_sym_to_buffer b sym =
    if buffer_is_full b
    then none
    else some (record b { buffer = set b.buffer b.tail (some sym); tail = next_index b.tail })

-- What the consumer finds in the slot at `head`.
pub data Received : Type 0 where
  got : Name → MpscBuffer → Received
  -- `strlen` of a NULL slot, or a slot outside the array
  fault : Received
  nothing : Received

abbrev take_slot : MpscBuffer → Option (Option Name) → Received
take_slot b (some (some sym)) =
    got sym (record b { buffer = set b.buffer b.head none; head = next_index b.head })
take_slot b (some none) = fault
take_slot b none = fault

-- The consumer's section that takes a symbol: it copies the name, frees the slot and moves `head`.
unfoldable pub receive_sym : MpscBuffer → Received
unfolding buffer_is_empty next_index
receive_sym b = if buffer_is_empty b then nothing else take_slot b (get_elem? b.buffer b.head)
