-- ===== src/Resolve/Running.antt =====
-- How many producers are at work, and how the buffer's count of them changes.
use libscout.Prelude.{
  ℕ, zero, suc, ◌+◌, ◌<◌, false, ◌≡◌, some, List, [], ◌∷◌, ◌++◌, get_elem?, set, Name, ℤ, pos,
  arith,
}
use libscout.Buffer.{MpscBuffer, send_sym_to_buffer, receive_sym, got}
use libscout.Resolve.{
  inc, dec, finish_producer, Producer, running, finished, Pc, looping, creating, counting, crashed,
}

-- 1 for a producer that has not signed off.
abbrev pub weight : Producer → ℕ
weight p = elim p.state [ running _ ↦ 1 | finished ↦ 0 ]

unfoldable pub running_count : List Producer → ℕ
running_count [] = 0
running_count (p ∷ ps) = weight p + running_count ps

pub running_count-set :
    (ps : List Producer) (i : ℕ) (p p' : Producer)
    → get_elem? ps i ≡ some p
    → running_count (set ps i p') + weight p ≡ running_count ps + weight p'
unfolding running_count
running_count-set [] i p p' h = ground arith
running_count-set (x ∷ ps) zero p p' h = ground arith
running_count-set (x ∷ ps) (suc i) p p' h = omega (arith, running_count-set ps i p p' h)

pub running_count-snoc :
    (ps : List Producer) (p : Producer) → running_count (ps ++ p ∷ []) ≡ running_count ps + weight p
unfolding running_count
running_count-snoc [] p = omega arith
running_count-snoc (x ∷ ps) p = omega (arith, running_count-snoc ps p)

-- A producer that is created and not yet counted.
abbrev pub pending : Pc → ℕ
pending (counting _) = 1
pending (crashed (some _)) = 1
pending _ = 0

-- A slot of the thread array that is about to be written.
abbrev pub reserved : Pc → ℕ
reserved (creating _) = 1
reserved (counting _) = 1
reserved _ = 0

abbrev pub is_started : Pc → ℕ
is_started looping = 1
is_started (counting _) = 1
is_started _ = 0

-- The count `c` of `n` producers of which `k` are not counted yet.
abbrev pub CountedBy : ℕ → ℤ → ℕ → Type 0
CountedBy zero c n = c ≡ pos n
CountedBy (suc k) c n = inc c ≡ pos n

pub send-keeps :
    (b : MpscBuffer) (sym : Name) (b' : MpscBuffer)
    → send_sym_to_buffer b sym ≡ some b'
    → (b'.producer_count ≡ b.producer_count) × (b'.producer_done ≡ b.producer_done)
unfolding send_sym_to_buffer
send-keeps b sym b' e = ground arith

pub receive-keeps :
    (b : MpscBuffer) (sym : Name) (b' : MpscBuffer)
    → receive_sym b ≡ got sym b'
    → (b'.producer_count ≡ b.producer_count) × (b'.producer_done ≡ b.producer_done)
unfolding receive_sym
receive-keeps b sym b' e = ground arith

pub CountedBy-dec : (k : ℕ) (c : ℤ) (n : ℕ) → CountedBy k c (suc n) → CountedBy k (dec c) n
CountedBy-dec zero c n h = ground arith
CountedBy-dec (suc k) c n h = ground arith

pub finish-alive :
    (k : ℕ) (b : MpscBuffer) (n : ℕ)
    → CountedBy k (dec b.producer_count) n
    → (finish_producer b).producer_done ≡ false
    → 0 < n
unfolding finish_producer
finish-alive zero b n h e = ground arith
finish-alive (suc k) b n h e = ground arith
