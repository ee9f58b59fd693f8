-- ===== src/Examples/Resolver.antt =====
-- The resolver on small programs.
use libscout.Prelude.{
  ◌⊎◌, ◌<◌, ◌≡◌, refl, true, false, inl, Option, none, some, List, [], ◌∷◌, In, length,
  length-replicate, replicate, Name, name_eq, if◌then◌else◌, exit_success, arith,
}
use libscout.Buffer.{new_buffer, buffer_is_empty, send_sym_to_buffer, receive_sym}
use libscout.Avl.{SymAvl, node_name}
use libscout.Resolve.{
  System, Step, send, finish, receive, leave, create, count, Reach, here, next, exited, looping,
  finish_producer, count_producer, handle_sym, add_sym_to_tree,
}
use libscout.Resolve.Running.{running_count}
use libscout.Resolve.Counts.{Counts, Reach-Counts}
use libscout.Resolve.Outcome.{has}
use libscout.Resolve.Once.{Launched, started_once}
use libscout.Resolve.Needs.{files, Needs, root, dep, Wanted, Settled}
use libscout.Resolve.Sound.{report_sound}
use libscout.Resolve.Complete.{IsQuiet, report_complete}
use libscout.Resolve.Liveness.{is_running, no_deadlock}
use libscout.Resolve.EarlyExit.{early_exit_loses}
use libscout.Resolve.Stuck.{early_exit_deadlock}
use libscout.Examples.ListTree.{list_tree, find_key, add_new}
use libscout.Examples.Data.{foo, bar}

abbrev trees : SymAvl
trees = list_tree node_name

-- The executable.
abbrev prog : Name
prog = 112 ∷ []

-- Two libraries.
abbrev lib_a : Name
lib_a = 97 ∷ []

abbrev lib_b : Name
lib_b = 98 ∷ []

-- The executable leaves `foo` undefined, and the first library `bar`.
undefined1 : Name → List Name
unfolding name_eq
undefined1 f = if name_eq f prog then foo ∷ [] else if name_eq f lib_a then bar ∷ [] else []

-- Only `foo` is defined in a library.
check1 : Name → Option Name
unfolding name_eq
check1 sym = if name_eq sym foo then some lib_a else none

-- One run to the end: `foo` is found in the first library, whose `bar` is found nowhere, and both
-- producers sign off before the loop is left.
quiet_run :
    (s : System trees) × Reach trees undefined1 check1 prog s
    × IsQuiet trees undefined1 check1 prog s
unfolding undefined1 check1 new_buffer buffer_is_empty send_sym_to_buffer receive_sym
    finish_producer count_producer handle_sym add_sym_to_tree find_key add_new running_count name_eq
quiet_run =
    let created = next (next here (create refl)) (count refl) in
    let sent = next created (send 0 refl refl refl) in
    let received = next sent (receive true refl refl) in
    let second = next (next received (create refl)) (count refl) in
    let finished =
      next (next (next second (send 1 refl refl refl)) (finish 0 refl refl)) (finish 1 refl refl) in
    (
      _,
      next (next finished (receive true refl refl)) (leave refl refl refl),
      record { left = refl; signed_off = refl; drained = refl },
    )

bar-Wanted : Wanted undefined1 check1 prog bar
unfolding undefined1 check1
bar-Wanted = (lib_a, dep {f = prog} {sym = foo} root (inl refl) refl, inl refl)

report_complete_example : Settled trees check1 quiet_run.0.consumer bar
report_complete_example =
    report_complete trees undefined1 check1 prog quiet_run.1 quiet_run.2 bar bar-Wanted

report_sound_example :
    ((lib : Name)
      → has trees quiet_run.0.consumer.dependency lib ≡ true
      → Needs undefined1 check1 prog lib)
    × ((sym : Name)
        → has trees quiet_run.0.consumer.undefined_sym sym ≡ true
        → Wanted undefined1 check1 prog sym × (check1 sym ≡ none))
report_sound_example = report_sound trees undefined1 check1 prog quiet_run.1

started_once_example :
    (files quiet_run.0.producers ≡ [])
    ⊎ Launched trees prog (files quiet_run.0.producers) quiet_run.0.consumer.dependency
started_once_example = started_once trees prog undefined1 check1 quiet_run.1

Reach-Counts_example : Counts trees quiet_run.0
Reach-Counts_example = Reach-Counts trees undefined1 check1 quiet_run.1

-- The producer of the executable has been counted, and has sent nothing.
counted_run : (s : System trees) × Reach trees undefined1 check1 prog s × (s.consumer.pc ≡ looping)
unfolding undefined1 new_buffer count_producer
counted_run = (_, next (next here (create refl)) (count refl), refl)

counted_runs : is_running counted_run.0.consumer.pc ≡ true
counted_runs = rw (counted_run.2) refl

no_deadlock_example : (t : System trees) × Step trees undefined1 check1 counted_run.0 t
no_deadlock_example = no_deadlock trees undefined1 check1 counted_run.1 counted_runs

-- `foo` is defined in the first library, and `bar`, which that one needs, in the second.
check2 : Name → Option Name
unfolding name_eq
check2 sym = if name_eq sym foo then some lib_a else if name_eq sym bar then some lib_b else none

abbrev with_a : trees.Tree
unfolding find_key
with_a = (lib_a ∷ [], (refl, tt))

undefined1-prog : undefined1 prog ≡ foo ∷ []
unfolding undefined1
undefined1-prog = refl

check2-foo : check2 foo ≡ some lib_a
unfolding check2
check2-foo = refl

insert_a : trees.insert trees.init lib_a ≡ some with_a
unfolding find_key add_new
insert_a = refl

bar_undefined : In bar (undefined1 lib_a)
unfolding undefined1
bar_undefined = inl refl

check2-bar : check2 bar ≡ some lib_b
unfolding check2
check2-bar = refl

a_is_not_b : name_eq lib_a lib_b ≡ false
unfolding name_eq
a_is_not_b = refl

early_exit_loses_example :
    (s : System trees) × Reach trees undefined1 check2 prog s
    × (s.consumer.pc ≡ exited exit_success)
    × Needs undefined1 check2 prog lib_b
    × (has trees s.consumer.dependency lib_b ≡ false)
early_exit_loses_example =
    early_exit_loses trees undefined1 check2 undefined1-prog check2-foo insert_a bar_undefined
      check2-bar a_is_not_b

-- The library leaves 1024 symbols undefined.
undefined3 : Name → List Name
unfolding name_eq
undefined3 f = if name_eq f prog then foo ∷ [] else replicate 1024 bar

undefined3-prog : undefined3 prog ≡ foo ∷ []
unfolding undefined3
undefined3-prog = refl

many_undefined : 1023 < length (undefined3 lib_a)
unfolding undefined3
many_undefined = omega (arith, length-replicate {A = Name} 1024 bar)

early_exit_deadlock_example :
    (s : System trees) × Reach trees undefined3 check2 prog s
    × (s.consumer.pc ≡ exited exit_success)
    × (0 < running_count s.producers)
    × ((s' : System trees) → Step trees undefined3 check2 s s' → ⊥)
early_exit_deadlock_example =
    early_exit_deadlock trees undefined3 check2 undefined3-prog check2-foo insert_a many_undefined
