-- ===== src/Examples/Whole.antt =====
-- The resolver on a parsed executable and a cache with one library.
use libscout.Prelude.{
  ◌≡◌, ◌≤◌, refl, Bool-cases, true, false, ◌⊎◌, inl, inr, some, List, [], ◌∷◌, In, Name, name_eq,
  if◌then◌else◌, ℤ, exit_success, einval,
}
use libscout.Buffer.{new_buffer, buffer_is_empty, send_sym_to_buffer, receive_sym}
use libscout.Elf.Descr.{ElfFileDescr}
use libscout.Cache.{
  SymCache, init_tree, store_sym, store_new_lib, store_sym_in_tree, check_nodes, check_sym_cache,
}
use libscout.Resolve.{
  System, send, finish, receive, leave, create, count, Reach, here, next, finish_producer,
  count_producer, handle_sym, add_sym_to_tree,
}
use libscout.Resolve.Liveness.{is_running}
use libscout.Resolve.Ends.{StepsTo, none_yet, one_more, Leads, bound, resolver_ends}
use libscout.Cache.Lookup.{lib_names, check_sym_cache-listed}
use libscout.Resolve.Running.{running_count}
use libscout.Resolve.Complete.{IsQuiet}
use libscout.Linked.{imports}
use libscout.Examples.ListTree.{find_key, add_new}
use libscout.Examples.Data.{bar, file64}
use libscout.Examples.Files.{imports_of_file64}
use libscout.Examples.Caches.{syms, libs, no_cache, all_ok, libc}

abbrev prog : Name
prog = 112 ∷ []

-- `bar` stored for the library.
cached :
    (c : SymCache syms libs) × (store_sym_in_tree syms libs all_ok no_cache libc bar
      ≡ some (exit_success, c))
unfolding store_sym_in_tree store_new_lib store_sym init_tree find_key add_new
cached = (_, refl)

-- Only the executable can be parsed.
parse : Name → ElfFileDescr ⊎ ℤ
unfolding name_eq
parse f = if name_eq f prog then inl file64 else inr einval

undefined_of : Name → List Name
unfolding name_eq
undefined_of f = if name_eq f prog then bar ∷ [] else []

sent : (f : Name) → imports (parse f) ≡ some (undefined_of f)
unfolding parse undefined_of
sent f = elim (Bool-cases (name_eq f prog)) [
  | inl hit ↦ rw hit imports_of_file64
  | inr miss ↦ rw miss refl
]

finds_bar : check_sym_cache syms libs cached.0 bar ≡ some libc
unfolding cached check_sym_cache check_nodes find_key name_eq
finds_bar = refl

-- `bar` is found in the library, whose producer sends nothing.
run :
    (s : System syms) × Reach syms undefined_of (check_sym_cache syms libs cached.0) prog s
    × IsQuiet syms undefined_of (check_sym_cache syms libs cached.0) prog s
unfolding undefined_of cached check_sym_cache check_nodes new_buffer buffer_is_empty
    send_sym_to_buffer receive_sym finish_producer count_producer handle_sym add_sym_to_tree
    find_key add_new running_count name_eq
run =
    let created = next (next here (create refl)) (count refl) in
    let received = next (next created (send 0 refl refl refl)) (receive true refl refl) in
    let second = next (next received (create refl)) (count refl) in
    let finished = next (next second (finish 0 refl refl)) (finish 1 refl refl) in
    (
      _,
      next finished (leave refl refl refl),
      record { left = refl; signed_off = refl; drained = refl },
    )

abbrev cached_libs : List Name
cached_libs = lib_names syms libs (libs.walk cached.0.cache)

listed : (sym lib : Name) → check_sym_cache syms libs cached.0 sym ≡ some lib → In lib cached_libs
listed = check_sym_cache-listed syms libs cached.0

-- The executable's producer has been created.
one_step :
    (s : System syms) × StepsTo syms undefined_of
      (check_sym_cache syms libs cached.0)
      cached_libs
      listed
      prog
      1
      s
one_step = (_, one_more none_yet (create refl))

resolver_ends_example :
    (1 ≤ bound syms undefined_of (check_sym_cache syms libs cached.0) cached_libs listed prog)
    × ((t : System syms) × Leads syms undefined_of
          (check_sym_cache syms libs cached.0)
          cached_libs
          listed
          one_step.0
          t
        × (is_running t.consumer.pc ≡ false))
resolver_ends_example =
    resolver_ends syms undefined_of (check_sym_cache syms libs cached.0) cached_libs listed
      one_step.1
