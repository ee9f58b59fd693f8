-- ===== src/Resolve/Ends.antt =====
-- How many steps the threads of libscout.c take at most, and where they end.
use libscout.Prelude.{
  ℕ, zero, suc, ◌+◌, ◌<◌, ◌≤◌, false, ◌≡◌, inl, inr, Option, some, List, [], ◌∷◌, In, Name,
  Bool-cases, arith,
}
use libscout.Buffer.Represents.{Represents, new_buffer-Represents}
use libscout.Avl.{SymAvl}
use libscout.Resolve.{System, start, Step, Reach, here, next}
use libscout.Resolve.Liveness.{is_running, no_deadlock}
use libscout.Resolve.Measure.{work, cost, unseen, measure, Step-Below}

module _ (avl : SymAvl) (undefined_of : Name → List Name) (check : Name → Option Name) where
  -- Every library that a lookup may give.
  module _ (libs : List Name) (listed : (sym lib : Name) → check sym ≡ some lib → In lib libs) where
    -- A state after `n` steps from the start.
    pub data StepsTo (exe : Name) : ℕ → System avl → Type 0 where
      none_yet : StepsTo exe 0 (start avl exe)
      one_more :
          {n : ℕ} {s t : System avl}
          → StepsTo exe n s
          → Step avl undefined_of check s t
          → StepsTo exe (suc n) t

    -- Some steps lead from one state to the other.
    pub data Leads : System avl → System avl → Type 0 where
      stop : {s : System avl} → Leads s s
      more : {s t u : System avl} → Step avl undefined_of check s t → Leads t u → Leads s u

    abbrev all_costs : List Name → ℕ
    all_costs [] = 0
    all_costs (l ∷ ls) = cost avl undefined_of check l + all_costs ls

    -- The number of steps for the executable and each library.
    abbrev pub bound : Name → ℕ
    bound exe = cost avl undefined_of check exe + all_costs libs

    unseen-all : (ls : List Name) (t : avl.Tree) → unseen avl undefined_of check ls t ≤ all_costs ls
    unfolding unseen
    unseen-all [] t = omega arith
    unseen-all (l ∷ ls) t = ground (arith, unseen-all ls t)

    steps-Below :
        {exe : Name} {n : ℕ} {s : System avl}
        → StepsTo exe n s
        → (queue : List Name) × Represents s.buffer queue
          × (n + measure avl undefined_of check libs listed queue s ≤ bound exe)
    unfolding measure work
    steps-Below none_yet = ([], new_buffer-Represents, omega (arith, unseen-all libs avl.init))
    steps-Below (one_more r st) =
        let (q, holds, few) = steps-Below r in
        let (q', holds', less) = Step-Below avl undefined_of check libs listed q holds st in
        (q', holds', omega arith)

    StepsTo-Reach :
        {exe : Name} {n : ℕ} {s : System avl} → StepsTo exe n s → Reach avl undefined_of check exe s
    StepsTo-Reach none_yet = here
    StepsTo-Reach (one_more r st) = next (StepsTo-Reach r) st

    return_reached :
        (m : ℕ) {exe : Name} {s : System avl} (queue : List Name)
        → Represents s.buffer queue
        → measure avl undefined_of check libs listed queue s < m
        → Reach avl undefined_of check exe s
        → (t : System avl) × Leads s t × (is_running t.consumer.pc ≡ false)
    return_reached zero queue holds few r = absurd (omega arith)
    return_reached (suc m) {exe} {s} queue holds few r =
        elim (Bool-cases (is_running s.consumer.pc)) [
          | inr returned ↦ (s, stop, returned)
          | inl live ↦
              let (t, st) = no_deadlock avl undefined_of check r live in
              let (q', holds', less) =
                Step-Below avl undefined_of check libs listed queue holds st in
              let (u, path, end) = return_reached m q' holds' (omega arith) (next r st) in
              (u, more st path, end)
        ]

    -- Where each lookup gives one of finitely many libraries, no interleaving has more steps than four
    -- for the executable, four for each library, and two for each symbol that one of them leaves
    -- undefined, whatever fails; and from every state on the way, some further steps lead to a
    -- return of the resolver from its loop, if it has not faulted before.
    pub resolver_ends :
        {exe : Name} {n : ℕ} {s : System avl}
        → StepsTo exe n s
        → (n ≤ bound exe) × ((t : System avl) × Leads s t × (is_running t.consumer.pc ≡ false))
    resolver_ends {s} r =
        let (q, holds, few) = steps-Below r in
        (
          omega arith,
          return_reached (suc (measure avl undefined_of check libs listed q s)) q holds
              (omega arith) (StepsTo-Reach r),
        )
