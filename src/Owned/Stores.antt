-- ===== src/Owned/Stores.antt =====
-- The blocks of store_sym and store_sym_in_tree (sym_cache.c), with init_tree (libscout.c).
pub mod Accounted
pub mod Whole
use libscout.Prelude.{
  ℕ, suc, Bool, true, false, Option, none, some, List, [], ◌∷◌, ◌>>=◌, if◌then◌else◌, ℤ,
  exit_success, enomem, efault,
}
use libscout.Cache.{Allocs, rc_is_success}
use libscout.Owned.{Blocks, new, free, free_all}

-- What the trees answer: whether the library and the symbol are found in them, and whether they can
-- be inserted.
pub record Answers : Type 0 where
  pub lib_found : Bool
  pub lib_inserted : Bool
  pub sym_found : Bool
  pub sym_inserted : Bool

-- A return code, the new blocks that a tree leads to, and the live ones; `none` is a fault.
abbrev pub Kept : Type 0
Kept = Option (ℤ × List (Option ℕ) × Blocks)

-- `store_sym`
unfoldable pub keep_sym : Allocs → Answers → Blocks → Kept
unfolding free free_all
keep_sym a t b =
    let (sym, b1) = new a.sym_node b in
    let (sym_name, b2) = new a.sym_name b1 in
    if a.sym_node
    then if a.sym_name
      then if t.sym_found
        then (free_all (sym_name ∷ sym ∷ []) b2 >>= λ b3. some (exit_success, [], b3))
        else if t.sym_inserted
        then some (exit_success, sym_name ∷ sym ∷ [], b2)
        else (free sym b2 >>= λ b3. some (efault, [], b3))
      else none
    else some (enomem, [], b)

-- `init_tree`: the code, the tree, and the blocks.
unfoldable pub with_tree : Option ℤ → Option ℕ × Blocks → Option (ℤ × Option ℕ × Blocks)
unfolding free
with_tree avl_init (none, b) = some (enomem, none, b)
with_tree none (some t, b) = some (exit_success, some t, b)
with_tree (some errno) (some t, b) =
    if rc_is_success errno
    then some (errno, some t, b)
    else (free (some t) b >>= λ b1. some (errno, none, b1))

unfoldable pub keep_tree : Allocs → Blocks → Option (ℤ × Option ℕ × Blocks)
unfolding with_tree
keep_tree a b = with_tree a.avl_init (new a.tree b)

-- The node of a library, with its tree, is inserted, and the symbol is stored.
unfoldable pub insert_lib : Allocs → Answers → Option ℕ → Option ℕ → Blocks → Kept
unfolding keep_sym free
insert_lib a t lib tree b =
    if t.lib_inserted
    then (keep_sym a t b >>= λ (rc, kept, b1). some (rc, lib ∷ tree ∷ kept, b1))
    else (free lib b >>= λ b1. some (efault, [], b1))

-- A library that is not in the tree, with the node that has been allocated for it.
unfoldable pub keep_new_lib : Allocs → Answers → Option ℕ → Blocks → Kept
unfolding insert_lib keep_tree
keep_new_lib a t lib b = keep_tree a b >>= λ (rc, tree, b1). elim (rc_is_success rc) [
  | false ↦ some (rc, [], b1)
  | true ↦ insert_lib a t lib tree b1
]

-- `store_sym_in_tree`, with a name of the library that fits into its array.
unfoldable pub with_lib_node : Allocs → Answers → Option ℕ × Blocks → Kept
unfolding keep_new_lib keep_sym free
with_lib_node a t (none, b) = some (enomem, [], b)
with_lib_node a t (some lib, b) =
    if t.lib_found
    then (keep_sym a t b >>= λ (rc, kept, b1). free (some lib) b1 >>= λ b2. some (rc, kept, b2))
    else keep_new_lib a t (some lib) b

unfoldable pub keep_sym_in_tree : Allocs → Answers → Blocks → Kept
unfolding with_lib_node
keep_sym_in_tree a t b = with_lib_node a t (new a.lib_node b)
