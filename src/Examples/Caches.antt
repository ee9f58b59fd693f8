-- ===== src/Examples/Caches.antt =====
-- The cache on two libraries, with list trees.
use libscout.Prelude.{
  true, false, ◌≡◌, refl, inl, Option, none, some, [], ◌∷◌, Name, name_eq, exit_success, enomem,
  arith,
}
use libscout.Avl.{SymAvl, node_name}
use libscout.Cache.{
  LibAvl, lib_key, Allocs, SymCache, init_tree, store_sym, store_new_lib, store_sym_in_tree,
  check_nodes, check_sym_cache,
}
use libscout.Cache.Valid.{Stored}
use libscout.Cache.Records.{store_sym_in_tree_lem, empty-IsValid}
use libscout.Cache.Lookup.{IsAnswer, check_sym_cache_lem}
use libscout.Cache.Populate.{get_sym, AllocsWork, InsertsWork, Extends, get_sym_lem}
use libscout.Examples.ListTree.{list_tree, find_key, add_new}
use libscout.Examples.Data.{foo, bar, file64}
use libscout.Examples.Files.{exports_of_file64}

abbrev pub syms : SymAvl
syms = list_tree node_name

abbrev pub libs : LibAvl
libs = list_tree lib_key

abbrev pub no_cache : SymCache syms libs
no_cache = record { cache = libs.init; heap = λ _. syms.init; next = 0 }

abbrev pub all_ok : Allocs
all_ok = record { sym_node = true; sym_name = true; lib_node = true; tree = true; avl_init = none }

abbrev pub libc : Name
libc = 99 ∷ []

-- `foo` stored for the library.
stored :
    (c : SymCache syms libs) × (store_sym_in_tree syms libs all_ok no_cache libc foo
      ≡ some (exit_success, c))
unfolding store_sym_in_tree store_new_lib store_sym init_tree find_key add_new
stored = (_, refl)

-- A failed `calloc` is reported, and nothing changes.
no_memory :
    store_sym_in_tree syms libs
      (record all_ok { sym_node = false; lib_node = false })
      no_cache
      libc
      foo
    ≡ some (enomem, no_cache)
unfolding store_sym_in_tree
no_memory = refl

store_sym_in_tree_lem_example : Stored syms libs no_cache libc foo exit_success stored.0
store_sym_in_tree_lem_example =
    store_sym_in_tree_lem syms libs all_ok no_cache libc foo
      (empty-IsValid syms libs (λ _. syms.init) 0) stored.1

finds_foo : check_sym_cache syms libs stored.0 foo ≡ some libc
unfolding stored check_sym_cache check_nodes find_key name_eq
finds_foo = refl

misses_bar : check_sym_cache syms libs stored.0 bar ≡ none
unfolding stored check_sym_cache check_nodes find_key name_eq
misses_bar = refl

check_sym_cache_lem_example :
    IsAnswer syms libs stored.0 foo (check_sym_cache syms libs stored.0 foo)
check_sym_cache_lem_example = check_sym_cache_lem syms libs stored.0 foo

add_new-some :
    {A : Type 0} (key : A → Name) (t : (list_tree key).Tree) (a : A) (o : Option A)
    (e : find_key key t.0 (key a) ≡ o)
    → o ≡ none
    → (t' : (list_tree key).Tree) × (add_new key t a o e ≡ some t')
unfolding add_new
add_new-some key t a none e h = (_, refl)
add_new-some key t a (some b) e h = absurd (cc h)

pub inserts : InsertsWork syms libs
inserts = record {
  sym_insert = λ t name new. add_new-some node_name t name (find_key node_name t.0 name) refl new;
  lib_insert = λ t n new. add_new-some lib_key t n (find_key lib_key t.0 n.lib_name) refl new;
}

pub allocs_work : AllocsWork syms libs (λ _. all_ok)
allocs_work k = (refl, refl, refl, refl, refl)

get_sym_lem_example :
    (c' : SymCache syms libs) × (get_sym syms libs (λ _. all_ok) no_cache libc (inl file64)
      ≡ some (exit_success, c'))
    × Extends syms libs no_cache libc (foo ∷ []) c'
get_sym_lem_example =
    get_sym_lem syms libs (λ _. all_ok) no_cache libc file64 (foo ∷ []) inserts allocs_work
      (omega arith) (empty-IsValid syms libs (λ _. syms.init) 0) exports_of_file64
