-- ===== src/Program.antt =====
-- The program: its options and its main thread (main.c). `getopt` is a parameter: what it returns,
-- call by call, with the argument of each option; so are `regcomp`, the search of the library path and
-- resolve_undefined_sym.
pub mod Options
pub mod Repeated
pub mod Start
use libscout.Prelude.{
  ℕ, Bool, Option, none, some, List, [], ◌∷◌, replicate, get_elem?, Name, ◌==◌, if◌then◌else◌,
  ◌>>=◌, ◌⊎◌, inl, inr, ℤ, exit_success, enomem, einval,
}
use libscout.Elf.Memory.{Region}
use libscout.Elf.Strings.Reads.{c_string}
use libscout.Elf.Cursor.{store}
use libscout.Cache.{path_max, init_tree, rc_is_success}

-- The two arrays of `main`.
pub record Paths : Type 0 where
  pub exec_file : Region
  pub lib_path : Region

abbrev pub no_paths : Paths
no_paths = record { exec_file = replicate path_max 0; lib_path = replicate path_max 0 }

-- A result of `getopt`, and `optarg`.
abbrev pub Opt : Type 0
Opt = ℕ × Name

abbrev pub opt_e : ℕ
opt_e = 101

abbrev pub opt_l : ℕ
opt_l = 108

abbrev pub opt_h : ℕ
opt_h = 104

-- One round of the `switch`: `memcpy` without a test of the length, or a return from `main`.
unfoldable pub read_option : Opt → Paths → Option (Paths ⊎ ℤ)
read_option (opt, optarg) p =
    if opt == opt_e
    then (store p.exec_file 0 optarg >>= λ r. some (inl (record p { exec_file = r })))
    else if opt == opt_l
    then (store p.lib_path 0 optarg >>= λ r. some (inl (record p { lib_path = r })))
    else if opt == opt_h
    then some (inl p)
    else some (inr einval)

unfoldable pub read_options : List Opt → Paths → Option (Paths ⊎ ℤ)
unfolding read_option
read_options [] p = some (inl p)
read_options (o ∷ os) p = elim (read_option o p) [
  | none ↦ none
  | some r ↦ elim r [ inl p' ↦ read_options os p' | inr rc ↦ some (inr rc) ]
]

-- The tests behind the loop, and the call of `main_thread`. An array without a NUL is read past its
-- end.
unfoldable pub run_with : (Name → Name → Option ℤ) → Paths → Option ℤ
run_with main_thread p = get_elem? p.exec_file 0 >>= λ e.
    if e == 0
    then some einval
    else (get_elem? p.lib_path 0 >>= λ l.
        if l == 0
        then some einval
        else (c_string p.exec_file >>= λ exec_file.
            c_string p.lib_path >>= λ lib_path. main_thread exec_file lib_path))

-- `main`
unfoldable pub main : (Name → Name → Option ℤ) → List Opt → Option ℤ
unfolding read_options run_with
main main_thread opts = elim (read_options opts no_paths) [
  | none ↦ none
  | some r ↦ elim r [ inl p ↦ run_with main_thread p | inr rc ↦ some rc ]
]

-- `create_producer_thread_ctx`: its return code, by whether its two allocations succeed.
unfoldable pub create_producer_thread_ctx : Bool → Bool → ℤ
create_producer_thread_ctx ctx buffer =
    if ctx then if buffer then exit_success else enomem else enomem

-- Which allocations of `main_thread` succeed. `stale` says that the memory of the new cache, which is
-- not cleared, holds another pointer than NULL for its tree.
pub record MainAllocs : Type 0 where
  pub cache : Bool
  pub stale : Bool
  pub tree : Bool
  pub avl_init : Option ℤ
  pub user_data : Bool
  pub file_name : Bool
  pub lib_path : Bool
  pub ctx : Bool
  pub buffer : Bool

-- What becomes of `main_thread`: it returns a code before the resolver is started, it has started
-- the resolver, with the cache and the two copied names, and returns its code, or waits for it for
-- ever; or it faults.
pub data MainEnd (S : Type 0) : Type 0 where
  returned : ℤ → MainEnd S
  joined : S × Name × Name → ℤ → MainEnd S
  waiting : S × Name × Name → MainEnd S
  faulted : MainEnd S

abbrev pub or_enomem : Bool → ℤ
or_enomem allocated = if allocated then exit_success else enomem

module _ {S : Type 0} where
  -- `if (rc == EXIT_SUCCESS)`, up to the end.
  abbrev pub then_go : ℤ → Option (MainEnd S) → Option (MainEnd S)
  then_go rc next = if rc_is_success rc then next else some (returned rc)

  -- `pthread_join`; `none` stands for a resolver that does not return.
  unfoldable pub join : S × Name × Name → Option ℤ → MainEnd S
  join call none = waiting call
  join call (some rc) = joined call rc

  -- The clean-up where `init_tree` has failed: the pointer to the tree has not been set.
  abbrev pub without_tree : Bool → ℤ → MainEnd S
  without_tree stale rc = if stale then faulted else returned rc

  -- `main_thread`; `none` stands for what the search does not return from.
  unfoldable pub main_thread :
      MainAllocs
      → ℤ
      → (Name → S → Option (ℤ × S))
      → (S → Name → Name → Option ℤ)
      → S
      → Name
      → Name
      → Option (MainEnd S)
  unfolding init_tree create_producer_thread_ctx join
  main_thread a regcomp search_for_lib resolve_undefined_sym cache fn lib_path =
      let init = init_tree a.tree a.avl_init in
      then_go (or_enomem a.cache) (
        if rc_is_success init
        then then_go regcomp (
            search_for_lib lib_path cache >>= λ found. then_go (found.0) (
              then_go (or_enomem a.user_data) (
                then_go (or_enomem a.file_name) (
                  then_go (or_enomem a.lib_path) (
                    then_go (create_producer_thread_ctx a.ctx a.buffer) (
                      some (
                        join (found.1, fn, lib_path)
                          (resolve_undefined_sym (found.1) fn lib_path))))))))
        else some (without_tree a.stale init))
