-- ===== src/Resolve/Complete.antt =====
-- The undefined symbols of the files that the resolver of libscout.c has started producers for, up
-- to the end of its loop.
use libscout.Prelude.{
  true, false, ◌≡◌, refl, sym as flip, subst, inl, inr, Option, List, [], ◌∷◌, In, Name,
  exit_success, arith,
}
use libscout.Buffer.{buffer_is_empty}
use libscout.Buffer.Represents.{buffer_is_empty_iff}
use libscout.Avl.{SymAvl}
use libscout.Resolve.{
  Producer, exited, System, Step, send, finish, receive, receive_fails, leave, create, create_fails,
  create_crashes, count_crashes, count, Reach, here, next,
}
use libscout.Resolve.Running.{running_count}
use libscout.Resolve.Outcome.{handle_sym-Outcome}
use libscout.Resolve.Needs.{
  remaining, files, has_failed, Needs, root, dep, Wanted, Settled, resolved, unresolved, In-files,
}
use libscout.Resolve.Progress.{Outcome-Progress}
use libscout.Resolve.Kept.{
  Complete, count-Complete, create-Complete, finish-Complete, leave-Complete, receive-Complete,
  send-Complete, start-Complete,
}

none_remaining :
    (ps : List Producer) (p : Producer)
    → running_count ps ≡ 0
    → In p ps
    → (sym : Name) → In sym (remaining p)
    → ⊥
unfolding running_count
none_remaining [] p e m sym h = m
none_remaining (r ∷ ps) p e (inl same) sym h = ground arith
none_remaining (r ∷ ps) p e (inr m) sym h = none_remaining ps p (omega arith) m sym h

module _ (avl : SymAvl) (undefined_of : Name → List Name) (check : Name → Option Name)
    (exe : Name) where
  abbrev Live : System avl → Type 0
  Live s = has_failed s.consumer.pc ≡ false → Complete avl undefined_of check exe s

  Step-Live : {s t : System avl} → Step avl undefined_of check s t → Live s → Live t
  Step-Live (send i free at e) h live = send-Complete avl undefined_of check exe i at e (h live)
  Step-Live (finish i free at) h live = finish-Complete avl undefined_of check exe i at (h live)
  Step-Live {s} (receive allocated {sym} at e) h live =
      receive-Complete avl undefined_of check exe at e
        (Outcome-Progress avl check refl
          (handle_sym-Outcome avl allocated s.consumer sym (check sym)) live)
        (h (rw at))
  Step-Live (receive_fails at e) h live = absurd (cc live)
  Step-Live (leave at e d) h live = leave-Complete avl undefined_of check exe at (h (rw at))
  Step-Live (create at) h live = create-Complete avl undefined_of check exe at (h (rw at))
  Step-Live (create_fails at) h live = absurd (cc live)
  Step-Live (create_crashes at) h live = absurd (cc live)
  Step-Live (count_crashes i at last ended) h live = absurd (cc live)
  Step-Live (count at) h live = count-Complete avl undefined_of check exe at (h (rw at))

  Reach-Live : {s : System avl} → Reach avl undefined_of check exe s → Live s
  Reach-Live here live = start-Complete avl undefined_of check exe
  Reach-Live (next r st) live = Step-Live st (Reach-Live r) live

  -- The consumer has left its loop with success, each producer has signed off, and no symbol is
  -- left in the buffer.
  pub record IsQuiet (s : System avl) : Type 0 where
    pub left : s.consumer.pc ≡ exited exit_success
    pub signed_off : running_count s.producers ≡ 0
    pub drained : buffer_is_empty s.buffer ≡ true

  module _ {s : System avl} (r : Reach avl undefined_of check exe s) (quiet : IsQuiet s) where
    complete : Complete avl undefined_of check exe s
    complete = Reach-Live r (let e = quiet.left in rw e)

    Settled-file :
        (f sym : Name)
        → In f (files s.producers)
        → In sym (undefined_of f)
        → Settled avl check s.consumer sym
    Settled-file f sym m u =
        let (p, inside, e) = In-files s.producers m in
        elim (complete.kept p inside sym (subst (λ g. In sym (undefined_of g)) (flip e) u)) [
          | inl left ↦ absurd (none_remaining s.producers p quiet.signed_off inside sym left)
          | inr (inl queued) ↦
              absurd (subst (In sym) ((buffer_is_empty_iff complete.holds).0 quiet.drained) queued)
          | inr (inr done) ↦ done
        ]

    spawned_file : {f : Name} → Needs undefined_of check exe f → In f (files s.producers)
    spawned_file root = elim complete.exe_spawned [
      | inl m ↦ m
      | inr no_exe ↦ absurd (cc quiet.left)
    ]
    spawned_file (dep {f} {sym} {lib} n u e) = elim (Settled-file f sym (spawned_file n) u) [
      | resolved {lib = l} e' d ↦ elim (complete.spawned l d) [
        | inl m ↦ let same : l ≡ lib = cc in rw same at m
        | inr no_lib ↦ absurd (cc quiet.left)
      ]
      | unresolved e' d ↦ absurd (cc e)
    ]

  -- Where the consumer has left its loop with success, each producer has signed off and the buffer
  -- is empty, nothing is missing from the report: the library of each symbol that a needed file
  -- leaves undefined is among the dependencies, or no cached library defines the symbol and it is
  -- among the unresolved ones.
  pub report_complete :
      {s : System avl}
      → Reach avl undefined_of check exe s
      → IsQuiet s
      → (sym : Name) → Wanted undefined_of check exe sym
      → Settled avl check s.consumer sym
  report_complete r quiet sym (f, n, u) = Settled-file r quiet f sym (spawned_file r quiet n) u
