-- ===== src/Resolve/Liveness.antt =====
-- The resolver's loop in libscout.c and what it may wait for.
use libscout.Prelude.{
  ℕ, suc, ◌<◌, true, false, ◌≡◌, refl, inl, inr, Option, some, List, [], ◌∷◌, get_elem?, length,
  Name, Bool, Bool-cases, arith,
}
use libscout.Buffer.Represents.{Represents, send_sym_to_buffer_lem, receive_sym_lem}
use libscout.Avl.{SymAvl}
use libscout.Resolve.{
  Producer, ProducerState, running, finished, Pc, exited, holding, crashed, looping, creating,
  counting, System, Step, send, finish, receive, leave, create, count, Reach,
}
use libscout.Resolve.Running.{running_count, weight}
use libscout.Resolve.Counts.{Counts, Reach-Counts}
use libscout.Resolve.Sound.{reach_queue}

-- The consumer has not returned, and nothing has faulted.
abbrev pub is_running : Pc → Bool
is_running (exited _) = false
is_running (holding _) = false
is_running (crashed _) = false
is_running _ = true

-- A producer that has not signed off.
abbrev RunsIn : List Producer → Type 0
RunsIn ps =
    (i : ℕ) × (f : Name) × (syms : List Name) × (get_elem? ps i
      ≡ some (record { file = f; state = running syms }))

running_first :
    (p : Producer) (ps : List Producer) (st : ProducerState)
    → p.state ≡ st
    → (weight p ≡ 0 → RunsIn ps)
    → RunsIn (p ∷ ps)
running_first p ps (running syms) e rest = (0, p.file, syms, ground arith)
running_first p ps finished e rest = let (i, f, syms, at) = rest (rw e) in (suc i, f, syms, at)

running_at : (ps : List Producer) → 0 < running_count ps → RunsIn ps
unfolding running_count
running_at [] h = absurd (omega arith)
running_at (p ∷ ps) h = running_first p ps p.state refl (λ e. running_at ps (omega arith))

module _ (avl : SymAvl) (undefined_of : Name → List Name) (check : Name → Option Name) where
  producer-Step :
      {s : System avl} {f : Name} (i : ℕ) (syms : List Name)
      → s.consumer.pc ≡ looping
      → Represents s.buffer []
      → get_elem? s.producers i ≡ some (record { file = f; state = running syms })
      → (t : System avl) × Step avl undefined_of check s t
  producer-Step i [] at r e = (_, finish i (rw at) e)
  producer-Step i (sym ∷ rest) at r e = elim (send_sym_to_buffer_lem sym r) [
    | inl full ↦ absurd (omega (arith, full.0))
    | inr ok ↦ (_, send i (rw at) e ok.2)
  ]

  looping-Step :
      {s : System avl} (queue : List Name)
      → s.consumer.pc ≡ looping
      → Represents s.buffer queue
      → Counts avl s
      → (t : System avl) × Step avl undefined_of check s t
  looping-Step {s} queue at r c = elim (receive_sym_lem queue r) [
    | inr more ↦ (_, receive true at more.4)
    | inl empty ↦ elim (Bool-cases s.buffer.producer_done) [
      | inl done ↦ (_, leave at empty.1 done)
      | inr pending ↦
          let e = empty.0 in
          let begun : 0 < length s.producers = let q = c.started in ground (arith, at) in
          let some_left : 0 < running_count s.producers = ground (arith, c.alive pending) in
          let (i, f, syms, which) = running_at s.producers some_left in
          producer-Step i syms at (rw e at r) which
    ]
  ]

  -- No deadlock while the consumer is at work: until it has returned or has faulted, in every reachable state the
  -- consumer can move or a producer can, so it never waits for a signal that nobody is left to send.
  pub no_deadlock :
      {exe : Name} {s : System avl}
      → Reach avl undefined_of check exe s
      → is_running s.consumer.pc ≡ true
      → (t : System avl) × Step avl undefined_of check s t
  no_deadlock {exe} {s} r live = go s.consumer.pc refl
    where
      go : (pc : Pc) → s.consumer.pc ≡ pc → (t : System avl) × Step avl undefined_of check s t
      go looping e =
          let (queue, holds) = reach_queue avl undefined_of check exe r in
          looping-Step queue e holds (Reach-Counts avl undefined_of check r)
      go (creating f) e = (_, create e)
      go (counting f) e = (_, count e)
      go (exited rc) e = absurd (ground arith)
      go (holding rc) e = absurd (ground arith)
      go (crashed f) e = absurd (ground arith)
