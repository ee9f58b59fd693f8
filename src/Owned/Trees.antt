-- ===== src/Owned/Trees.antt =====
-- The blocks of the trees: destroy_sym_node and destroy_cache_node (sym_cache.c), destroy_lib_node and
-- the clean-up of resolve_undefined_sym (libscout.c), and that of the cache in main_thread (main.c).
pub mod Each
pub mod Destroyed
use mathlib.Core.List.{Perm}
use libscout.Prelude.{ℕ, ◌≡◌, Option, none, some, List, [], ◌∷◌, ◌++◌, ◌>>=◌}
use libscout.Owned.{Blocks, free}

-- A function on the nodes, one after the other.
unfoldable pub for_each :
    {N : Type 0} → (N → Blocks → Option Blocks) → List N → Blocks → Option Blocks
for_each f [] b = some b
for_each f (n ∷ ns) b = f n b >>= λ b'. for_each f ns b'

-- `avl2_destroy` on a tree with these nodes: it calls the function for each node once, in an order
-- of its own. What it does with the nodes if it is given no function is left open.
pub record Avl2Destroy : Type 1 where
  pub destroy : {N : Type 0} → Option (N → Blocks → Option Blocks) → List N → Blocks → Option Blocks
  pub order : {N : Type 0} → List N → List N
  pub order-Perm : {N : Type 0} (ns : List N) → Perm (order ns) ns
  pub calls :
      {N : Type 0} (f : N → Blocks → Option Blocks) (ns : List N) (b : Blocks)
      → destroy (some f) ns b ≡ for_each f (order ns) b

-- `sym_node_t`, `lib_node_t` and `sym_cache_t`; a tree comes with its nodes.
pub record OwnedSym : Type 0 where
  pub node : ℕ
  pub sym_name : Option ℕ

abbrev pub SymTree : Type 0
SymTree = Option (ℕ × List OwnedSym)

pub record OwnedLib : Type 0 where
  pub node : ℕ
  pub defined : SymTree
  pub undefined : SymTree

pub record OwnedCache : Type 0 where
  pub cache : ℕ
  pub tree : Option (ℕ × List OwnedLib)

-- A node of the tree of dependencies: its name is not its own, but the array inside the node of a
-- library in the cache.
pub record Dependency : Type 0 where
  pub node : ℕ
  pub lib_node : ℕ

unfoldable pub destroy_sym_node : OwnedSym → Blocks → Option Blocks
destroy_sym_node n b = free n.sym_name b >>= λ b1. free (some n.node) b1

module _ (avl : Avl2Destroy) where
  -- A tree of symbols and its nodes, if there is one.
  unfoldable pub destroy_syms : SymTree → Blocks → Option Blocks
  unfolding destroy_sym_node
  destroy_syms none b = some b
  destroy_syms (some (tree, ns)) b =
      avl.destroy (some destroy_sym_node) ns b >>= λ b1. free (some tree) b1

  unfoldable pub destroy_cache_node : OwnedLib → Blocks → Option Blocks
  unfolding destroy_syms
  destroy_cache_node n b =
      destroy_syms n.defined b >>= λ b1. destroy_syms n.undefined b1 >>= λ b2. free (some n.node) b2

  unfoldable pub destroy_lib_node : Option OwnedLib → Blocks → Option Blocks
  unfolding destroy_syms
  destroy_lib_node none b = some b
  destroy_lib_node (some n) b =
      destroy_syms n.undefined b >>= λ b1. destroy_syms n.defined b1 >>= λ b2. free (some n.node) b2

  abbrev pub destroy_libs : Option (ℕ × List OwnedLib) → Blocks → Option Blocks
  destroy_libs none b = some b
  destroy_libs (some (tree, ns)) b =
      avl.destroy (some destroy_cache_node) ns b >>= λ b1. free (some tree) b1

  -- The end of `main_thread`: the cache.
  unfoldable pub destroy_cache : Option OwnedCache → Blocks → Option Blocks
  unfolding destroy_cache_node
  destroy_cache none b = some b
  destroy_cache (some c) b = destroy_libs c.tree b >>= λ b1. free (some c.cache) b1

  abbrev pub forget_libs : Option (ℕ × List Dependency) → Blocks → Option Blocks
  forget_libs none b = some b
  forget_libs (some (tree, ns)) b =
      avl.destroy {N = Dependency} none ns b >>= λ b1. free (some tree) b1

  -- The end of `resolve_undefined_sym`: the two trees, of which that of the dependencies is destroyed
  -- without a function for its nodes, and the array of producers.
  unfoldable pub cleanup :
      SymTree → Option (ℕ × List Dependency) → Option ℕ → Blocks → Option Blocks
  unfolding destroy_syms
  cleanup undefined_sym dependency producer_thread_arr b = destroy_syms undefined_sym b >>= λ b1.
      forget_libs dependency b1 >>= λ b2. free producer_thread_arr b2
