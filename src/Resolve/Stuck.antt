-- ===== src/Resolve/Stuck.antt =====
-- The producers of libscout.c that are at work when the resolver has left its loop, and the
-- `pthread_join` that waits for them.
use libscout.Prelude.{
  ℕ, zero, suc, ◌<◌, ◌+◌, ◌≡◌, refl, ◌∙◌, inl, inr, Option, some, List, [], ◌∷◌, ◌++◌, get_elem?,
  get_elem?-none, get_elem?-set_self, get_elem?-set_ne, length, length-set, length-append, Name,
  exit_success, arith,
}
use libscout.Buffer.Represents.{Represents, send_sym_to_buffer_lem}
use libscout.Avl.{SymAvl}
use libscout.Resolve.{
  Producer, running, finished, exited, System, Step, send, finish, receive, receive_fails, leave,
  create, create_fails, create_crashes, count_crashes, count, next,
}
use libscout.Resolve.Running.{running_count}
use libscout.Resolve.EarlyExit.{lose, Reaches}

module _ (avl : SymAvl) (undefined_of : Name → List Name) (check : Name → Option Name) where
  -- The consumer has left, and the producer of `lib` has put `n` of its names into the buffer.
  record Filling (exe lib : Name) (n : ℕ) (s : System avl) : Type 0 where
    reached : Reaches avl undefined_of check exe s
    left : s.consumer.pc ≡ exited exit_success
    queue : List Name
    holds : Represents s.buffer queue
    stored : length queue ≡ n
    unsent : List Name
    total : n + length unsent ≡ length (undefined_of lib)
    sender : get_elem? s.producers 1 ≡ some (record { file = lib; state = running unsent })
    first : get_elem? s.producers 0 ≡ some (record { file = exe; state = finished })
    both : length s.producers ≡ 2

  fill_step :
      {exe lib : Name} {n : ℕ} {s : System avl}
      → n < 1023
      → n < length (undefined_of lib)
      → Filling exe lib n s
      → (s' : System avl) × Filling exe lib (suc n) s'
  fill_step {exe} {lib} {n} {s} h more w = go w.unsent w.sender w.total
    where
      go :
          (syms : List Name)
          → get_elem? s.producers 1 ≡ some (record { file = lib; state = running syms })
          → n + length syms ≡ length (undefined_of lib)
          → (s' : System avl) × Filling exe lib (suc n) s'
      go [] at e = absurd (omega arith)
      go (sym ∷ rest) at e = elim (send_sym_to_buffer_lem sym w.holds) [
        | inl full ↦ absurd (omega (arith, full.0, w.stored))
        | inr ok ↦
            let after : Producer = record { file = lib; state = running rest } in
            (
              _,
              record {
                reached = next w.reached (send 1 (let l = w.left in rw l) at ok.2);
                left = w.left;
                queue = w.queue ++ sym ∷ [];
                holds = ok.3;
                stored = omega (arith, length-append w.queue (sym ∷ []), w.stored);
                unsent = rest;
                total = omega arith;
                sender = get_elem?-set_self s.producers 1 after (omega (arith, w.both));
                first = get_elem?-set_ne s.producers 1 0 after (omega arith) ∙ w.first;
                both = length-set s.producers 1 after ∙ w.both;
              },
            )
      ]

  fill :
      {exe lib : Name} {s : System avl} (n : ℕ)
      → n < 1024
      → n < length (undefined_of lib)
      → Filling exe lib 0 s
      → (s' : System avl) × Filling exe lib n s'
  fill {s} zero h more w = (s, w)
  fill (suc n) h more w =
      let (s', w') = fill n (omega arith) (omega arith) w in
      fill_step (omega arith) (omega arith) w'

  full_stuck :
      {exe lib : Name} {s t : System avl}
      → 1023 < length (undefined_of lib)
      → Filling exe lib 1023 s
      → Step avl undefined_of check s t
      → ⊥
  full_stuck many w (send zero free at e) = cc (w.first)
  full_stuck many w (send (suc zero) {sym} free at e) = elim (send_sym_to_buffer_lem sym w.holds) [
    | inl full ↦ cc full.1
    | inr ok ↦ omega (arith, ok.1, w.stored)
  ]
  full_stuck {s} many w (send (suc (suc i)) free at e) =
      cc (get_elem?-none s.producers (suc (suc i)) (omega (arith, w.both)))
  full_stuck many w (finish zero free at) = cc w.first
  full_stuck many w (finish (suc zero) free at) =
      let e : length w.unsent ≡ 0 = ground (arith, w.sender) in omega (arith, w.total)
  full_stuck {s} many w (finish (suc (suc i)) free at) =
      cc (get_elem?-none s.producers (suc (suc i)) (omega (arith, w.both)))
  full_stuck many w (receive allocated at e) = cc w.left
  full_stuck many w (receive_fails at e) = cc w.left
  full_stuck many w (leave at e d) = cc w.left
  full_stuck many w (create at) = cc w.left
  full_stuck many w (create_fails at) = cc w.left
  full_stuck many w (create_crashes at) = cc w.left
  full_stuck many w (count_crashes i at last ended) = cc w.left
  full_stuck many w (count at) = cc w.left

  running_positive :
      (ps : List Producer) (i : ℕ) {f : Name} {syms : List Name}
      → get_elem? ps i ≡ some (record { file = f; state = running syms })
      → 0 < running_count ps
  unfolding running_count
  running_positive [] i h = absurd (cc h)
  running_positive (p ∷ ps) zero h = ground arith
  running_positive (p ∷ ps) (suc i) h = omega (arith, running_positive ps i h)

  -- The resolver may never end: where the executable's only undefined symbol is defined by a library
  -- that leaves more than 1023 symbols undefined, some interleaving leads to a state in which the
  -- consumer has left its loop, a producer has not signed off, and no thread can move.
  pub early_exit_deadlock :
      {exe sym lib : Name} {t : avl.Tree}
      → undefined_of exe ≡ sym ∷ []
      → check sym ≡ some lib
      → avl.insert avl.init lib ≡ some t
      → 1023 < length (undefined_of lib)
      → (s : System avl) × Reaches avl undefined_of check exe s
        × (s.consumer.pc ≡ exited exit_success)
        × (0 < running_count s.producers)
        × ((s' : System avl) → Step avl undefined_of check s s' → ⊥)
  early_exit_deadlock {exe} {sym} {lib} one e f many =
      let (s, l) = lose avl undefined_of check one e f in
      let begin : Filling exe lib 0 s = record {
        reached = l.reached;
        left = l.left;
        queue = [];
        holds = l.holds;
        stored = refl;
        unsent = undefined_of lib;
        total = omega arith;
        sender = l.unsent;
        first = l.first;
        both = l.both;
      } in
      let (s', w) = fill 1023 (omega arith) many begin in
      (
        s',
        w.reached,
        w.left,
        running_positive s'.producers 1 w.sender,
        λ x st. full_stuck many w st,
      )
