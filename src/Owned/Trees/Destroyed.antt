-- ===== src/Owned/Trees/Destroyed.antt =====
-- What the destructors of the trees (sym_cache.c, libscout.c, main.c) leave live.
use libscout.Prelude.{ℕ, refl, Option, none, some, List, [], ◌∷◌, ◌++◌, ◌>>=◌, arith}
use libscout.Owned.{free}
use libscout.Owned.Trees.{
  Avl2Destroy, OwnedSym, SymTree, OwnedLib, OwnedCache, destroy_sym_node, destroy_syms,
  destroy_cache_node, destroy_lib_node, destroy_cache, destroy_libs, forget_libs, Dependency,
  cleanup,
}
use libscout.Owned.Trees.Each.{
  Frees, times-append, free-Frees, nothing-Frees, then-Frees, same-Frees, all_blocks, destroy-Frees,
}

abbrev pub sym_blocks : OwnedSym → List (Option ℕ)
sym_blocks n = n.sym_name ∷ some n.node ∷ []

abbrev pub syms_blocks : SymTree → List (Option ℕ)
syms_blocks none = []
syms_blocks (some (tree, ns)) = all_blocks sym_blocks ns ++ some tree ∷ []

abbrev pub lib_blocks : OwnedLib → List (Option ℕ)
lib_blocks n = syms_blocks n.defined ++ (syms_blocks n.undefined ++ some n.node ∷ [])

abbrev pub libs_blocks : Option (ℕ × List OwnedLib) → List (Option ℕ)
libs_blocks none = []
libs_blocks (some (tree, ns)) = all_blocks lib_blocks ns ++ some tree ∷ []

-- All that the cache leads to: of each library the node, and its trees with their nodes and names.
abbrev pub cache_blocks : OwnedCache → List (Option ℕ)
cache_blocks c = libs_blocks c.tree ++ some c.cache ∷ []

destroy_sym_node-Frees : (n : OwnedSym) → Frees (destroy_sym_node n) (sym_blocks n)
unfolding destroy_sym_node
destroy_sym_node-Frees n =
    then-Frees (free (some n.node)) (free-Frees n.sym_name) (free-Frees (some n.node))

module _ (avl : Avl2Destroy) where
  destroy_syms-Frees : (t : SymTree) → Frees (destroy_syms avl t) (syms_blocks t)
  unfolding destroy_syms
  destroy_syms-Frees none = nothing-Frees
  destroy_syms-Frees (some (tree, ns)) =
      then-Frees (free (some tree))
        (destroy-Frees destroy_sym_node sym_blocks destroy_sym_node-Frees avl ns)
        (free-Frees (some tree))

  destroy_cache_node-Frees : (n : OwnedLib) → Frees (destroy_cache_node avl n) (lib_blocks n)
  unfolding destroy_cache_node
  destroy_cache_node-Frees n =
      then-Frees (λ b. destroy_syms avl n.undefined b >>= λ b2. free (some n.node) b2)
        (destroy_syms-Frees n.defined)
        (then-Frees (free (some n.node)) (destroy_syms-Frees n.undefined)
          (free-Frees (some n.node)))

  -- If all blocks that the cache leads to are live, and none is reached twice, the end of
  -- `main_thread` frees just these, each of them once, in whatever order the tree library takes the
  -- nodes of a tree.
  pub destroy_cache-Frees : (c : OwnedCache) → Frees (destroy_cache avl (some c)) (cache_blocks c)
  unfolding destroy_cache
  destroy_cache-Frees c = then-Frees (free (some c.cache)) (libs c.tree) (free-Frees (some c.cache))
    where
      libs : (t : Option (ℕ × List OwnedLib)) → Frees (destroy_libs avl t) (libs_blocks t)
      libs none = nothing-Frees
      libs (some (tree, ns)) =
          then-Frees (free (some tree))
            (destroy-Frees (destroy_cache_node avl) lib_blocks destroy_cache_node-Frees avl ns)
            (free-Frees (some tree))

  -- `destroy_lib_node` frees just what a node of the cache leads to.
  pub destroy_lib_node-Frees : (n : OwnedLib) → Frees (destroy_lib_node avl (some n)) (lib_blocks n)
  unfolding destroy_lib_node
  destroy_lib_node-Frees n =
      let d = syms_blocks n.defined in
      let u = syms_blocks n.undefined in
      same-Frees {ps = u ++ (d ++ some n.node ∷ [])} (λ b. refl)
        (λ q. omega (
          arith,
          times-append u (d ++ some n.node ∷ []) q,
          times-append d (some n.node ∷ []) q,
          times-append d (u ++ some n.node ∷ []) q,
          times-append u (some n.node ∷ []) q,
        ))
        (then-Frees (λ b. destroy_syms avl n.defined b >>= λ b2. free (some n.node) b2)
          (destroy_syms-Frees n.undefined)
          (then-Frees (free (some n.node)) (destroy_syms-Frees n.defined)
            (free-Frees (some n.node))))

  -- If `avl2_destroy` without a function frees some of the blocks, the clean-up of
  -- `resolve_undefined_sym` frees these, the two trees, the nodes and names of the undefined symbols,
  -- and the array, each of them once.
  pub cleanup-Frees :
      (undefined_sym : SymTree) (tree : ℕ) (ns : List Dependency) (arr : Option ℕ)
      (ps : List (Option ℕ))
      → Frees (avl.destroy none ns) ps
      → Frees
          (cleanup avl undefined_sym (some (tree, ns)) arr)
          (syms_blocks undefined_sym ++ ((ps ++ some tree ∷ []) ++ arr ∷ []))
  unfolding cleanup
  cleanup-Frees undefined_sym tree ns arr ps h =
      then-Frees (λ b1. forget_libs avl (some (tree, ns)) b1 >>= λ b2. free arr b2)
        (destroy_syms-Frees undefined_sym)
        (then-Frees (free arr) (then-Frees (free (some tree)) h (free-Frees (some tree)))
          (free-Frees arr))
