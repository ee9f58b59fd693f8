-- ===== src/Buffer/Represents.antt =====
-- The buffer of libscout.c as a queue of names.
use libscout.Prelude.{
  ℕ, zero, suc, ◌+◌, ◌%◌, ◌<◌, true, false, ◌≡◌, ◌≢◌, ◌↔◌, ◌⊎◌, inl, inr, refl, ◌∙◌, Option, none,
  some, List, [], ◌∷◌, ◌++◌, length, get_elem?, set, length-set, length-append, length-replicate,
  get_elem?-set_self, get_elem?-set_ne, Name, Bool-cases, arith,
}
use libscout.Buffer.{
  MpscBuffer, max_lib_entry, new_buffer, buffer_is_empty, buffer_is_full, next_index,
  send_sym_to_buffer, got, nothing, receive_sym,
}

-- The names of `q`, oldest first, stand in the slots from `head` on, round the end of the array.
pub record Represents (b : MpscBuffer) (q : List Name) : Type 0 where
  pub slots : length b.buffer ≡ max_lib_entry
  pub head_in : b.head < max_lib_entry
  pub room : length q < max_lib_entry
  pub tail_at : b.tail ≡ (b.head + length q) % max_lib_entry
  pub stored :
      (k : ℕ) (sym : Name)
      → get_elem? q k ≡ some sym
      → get_elem? b.buffer ((b.head + k) % max_lib_entry) ≡ some (some sym)

get_elem?-lt {ℓ} :
    {A : Type ℓ} (xs : List A) (k : ℕ) {a : A} → get_elem? xs k ≡ some a → k < length xs
get_elem?-lt [] k h = ground arith
get_elem?-lt (x ∷ xs) zero h = omega arith
get_elem?-lt (x ∷ xs) (suc k) h = omega (arith, get_elem?-lt xs k h)

get_elem?-snoc {ℓ} :
    {A : Type ℓ} (xs : List A) (y : A) (k : ℕ) {a : A}
    → get_elem? (xs ++ y ∷ []) k ≡ some a
    → (get_elem? xs k ≡ some a) ⊎ ((k ≡ length xs) × (y ≡ a))
get_elem?-snoc [] y zero h = inr (refl, ground arith)
get_elem?-snoc [] y (suc k) h = ground arith
get_elem?-snoc (x ∷ xs) y zero h = inl h
get_elem?-snoc (x ∷ xs) y (suc k) h = elim (get_elem?-snoc xs y k h) [
  | inl p ↦ inl p
  | inr p ↦ inr (omega arith, p.1)
]

next_index_lem : (i : ℕ) → i < max_lib_entry → next_index i ≡ (i + 1) % max_lib_entry
unfolding next_index
next_index_lem i h = ground arith

-- A new buffer holds nothing.
pub new_buffer-Represents : Represents new_buffer []
unfolding new_buffer
new_buffer-Represents = record {
  slots = length-replicate {A = Option Name} max_lib_entry none;
  head_in = omega arith;
  room = omega arith;
  tail_at = omega arith;
  stored = λ k sym h. ground arith;
}

pub buffer_is_empty_iff :
    {b : MpscBuffer} {q : List Name} → Represents b q → (buffer_is_empty b ≡ true) ↔ (q ≡ [])
unfolding buffer_is_empty
buffer_is_empty_iff {b} {q = []} r = (λ _. refl, λ _. ground (arith, r.tail_at, r.head_in))
buffer_is_empty_iff {b} {q = x ∷ q} r =
    (λ h. ground (arith, r.tail_at, r.head_in, r.room), λ e. ground arith)

pub buffer_is_full_iff :
    {b : MpscBuffer} {q : List Name}
    → Represents b q
    → (buffer_is_full b ≡ true) ↔ (length q ≡ 1023)
unfolding buffer_is_full
buffer_is_full_iff {b} {q} r =
    (λ h. ground (arith, r.tail_at, r.head_in, r.room), λ h. ground (arith, r.tail_at, r.head_in))

stored-snoc :
    {b : MpscBuffer} {q : List Name} (sym : Name)
    → Represents b q
    → (k : ℕ) (s : Name) → get_elem? (q ++ sym ∷ []) k ≡ some s
    → get_elem? (set b.buffer b.tail (some sym)) ((b.head + k) % max_lib_entry) ≡ some (some s)
stored-snoc {b} {q} sym r k s h = elim (get_elem?-snoc q sym k h) [
  | inl p ↦ ground (
    arith,
    r.stored k s p,
    get_elem?-lt q k p,
    get_elem?-set_ne b.buffer b.tail ((b.head + k) % max_lib_entry) (some sym),
    r.tail_at,
    r.room,
    r.head_in,
  )
  | inr p ↦ ground (arith, get_elem?-set_self b.buffer b.tail (some sym), r.slots, r.tail_at)
]

-- The buffer after a name has been stored.
sent : MpscBuffer → Name → MpscBuffer
sent b sym = record b { buffer = set b.buffer b.tail (some sym); tail = next_index b.tail }

sent-Represents :
    {b : MpscBuffer} {q : List Name} (sym : Name)
    → Represents b q
    → length q < 1023
    → Represents (sent b sym) (q ++ sym ∷ [])
unfolding sent
sent-Represents {b} {q} sym r h = record {
  slots = length-set b.buffer b.tail (some sym) ∙ r.slots;
  head_in = r.head_in;
  room = omega (arith, length-append q (sym ∷ []));
  tail_at = omega (arith, next_index_lem b.tail, r.tail_at, length-append q (sym ∷ []));
  stored = stored-snoc sym r;
}

-- `send_sym_to_buffer` waits exactly when 1023 names are stored; otherwise it adds the name at the
-- end of the queue and leaves the producers' count and flag alone.
pub send_sym_to_buffer_lem :
    {b : MpscBuffer} {q : List Name} (sym : Name)
    → Represents b q
    → ((length q ≡ 1023) × (send_sym_to_buffer b sym ≡ none))
      ⊎ ((b' : MpscBuffer) × (length q < 1023)
          × (send_sym_to_buffer b sym ≡ some b')
          × Represents b' (q ++ sym ∷ [])
          × (b'.producer_count ≡ b.producer_count)
          × (b'.producer_done ≡ b.producer_done))
unfolding send_sym_to_buffer sent
send_sym_to_buffer_lem {b} {q} sym r = elim (Bool-cases (buffer_is_full b)) [
  | inl full ↦ inl ((buffer_is_full_iff r).0 full, rw full)
  | inr free ↦
      let few : length q < 1023 = ground (arith, (buffer_is_full_iff r).1, r.room) in
      inr (sent b sym, few, rw free, sent-Represents sym r few, refl, refl)
]

taken : MpscBuffer → MpscBuffer
taken b = record b { buffer = set b.buffer b.head none; head = next_index b.head }

stored-tail :
    {b : MpscBuffer} {sym : Name} {q : List Name}
    → Represents b (sym ∷ q)
    → (k : ℕ) (s : Name) → get_elem? q k ≡ some s
    → get_elem? (set b.buffer b.head none) ((next_index b.head + k) % max_lib_entry) ≡ some (some s)
stored-tail {b} {sym} {q} r k s h =
    let e : (next_index b.head + k) % max_lib_entry ≡ (b.head + suc k) % max_lib_entry =
      omega (arith, next_index_lem b.head, r.head_in) in
    let apart : b.head ≢ (b.head + suc k) % max_lib_entry =
      omega (arith, r.head_in, r.room, get_elem?-lt q k h) in
    rw (e, get_elem?-set_ne b.buffer b.head ((b.head + suc k) % max_lib_entry) none apart)
      (r.stored (suc k) s h)

taken-Represents :
    {b : MpscBuffer} {sym : Name} {q : List Name} → Represents b (sym ∷ q) → Represents (taken b) q
unfolding taken
taken-Represents {b} {sym} {q} r = record {
  slots = length-set b.buffer b.head none ∙ r.slots;
  head_in = omega (arith, next_index_lem b.head, r.head_in);
  room = omega (arith, r.room);
  tail_at = omega (arith, next_index_lem b.head, r.tail_at, r.head_in);
  stored = stored-tail r;
}

-- Where the queue is empty the consumer finds nothing; otherwise it receives the oldest name and
-- the buffer is left with the others, the producers' count and flag as they were. It never meets a
-- NULL slot.
pub receive_sym_lem :
    {b : MpscBuffer} (q : List Name)
    → Represents b q
    → ((q ≡ []) × (receive_sym b ≡ nothing))
      ⊎ ((sym : Name) × (rest : List Name) × (b' : MpscBuffer) × (q ≡ sym ∷ rest)
          × (receive_sym b ≡ got sym b')
          × Represents b' rest
          × (b'.producer_count ≡ b.producer_count)
          × (b'.producer_done ≡ b.producer_done))
unfolding receive_sym taken
receive_sym_lem {b} [] r = inl (refl, rw ((buffer_is_empty_iff r).1 refl))
receive_sym_lem {b} (sym ∷ q) r =
    inr (sym, q, taken b, refl, rw (more, here) refl, taken-Represents r, refl, refl)
  where
    more : buffer_is_empty b ≡ false
    more = ground (arith, (buffer_is_empty_iff r).0)

    here : get_elem? b.buffer b.head ≡ some (some sym)
    here =
        let e : (b.head + 0) % max_lib_entry ≡ b.head = omega (arith, r.head_in) in
        rw e at (r.stored 0 sym refl)

-- The two sections read off a call that went through.
pub sent_queue :
    {b b' : MpscBuffer} {q : List Name} (sym : Name)
    → Represents b q
    → send_sym_to_buffer b sym ≡ some b'
    → Represents b' (q ++ sym ∷ [])
sent_queue {b} {b'} {q} sym r e = elim (send_sym_to_buffer_lem sym r) [
  | inl full ↦ absurd (cc full.1)
  | inr ok ↦ let same : ok.0 ≡ b' = ground (arith, ok.2) in rw same at ok.3
]

pub received_queue :
    {b b' : MpscBuffer} {sym : Name} (q : List Name)
    → Represents b q
    → receive_sym b ≡ got sym b'
    → (rest : List Name) × (q ≡ sym ∷ rest) × Represents b' rest
received_queue {b} {b'} {sym} q r e = elim (receive_sym_lem q r) [
  | inl none_left ↦ absurd (cc none_left.1)
  | inr ok ↦
      let same : ok.2 ≡ b' = ground (arith, ok.4) in
      (ok.1, ground (arith, ok.3, ok.4), rw same at ok.5)
]
