-- ===== src/Cache.antt =====
-- The symbol cache of sym_cache.c: a tree of libraries, each with a tree of the symbols that it
-- defines.
pub mod Valid
pub mod Records
pub mod Lookup
pub mod Populate
use libscout.Prelude.{
  ℕ, suc, Bool, true, false, Option, none, some, List, [], ◌∷◌, length, Name, leb, ◌==◌,
  if◌then◌else◌, ℤ, exit_success, enomem, efault, int_eq,
}
use libscout.Avl.{Avl, SymAvl, is_some}

-- PATH_MAX, the size of the array `lib_name`
abbrev pub path_max : ℕ
path_max = 4096

-- `lib_node_t`: `defined` is the address of the library's symbol tree. `undefined` is never set.
pub record LibNode : Type 0 where
  pub lib_name : Name
  pub defined : ℕ

abbrev pub lib_key : LibNode → Name
lib_key n = n.lib_name

abbrev pub LibAvl : Type 1
LibAvl = Avl lib_key

-- Which of the calls that allocate succeed, in one call of `store_sym_in_tree`.
pub record Allocs : Type 0 where
  pub sym_node : Bool  -- calloc of the `sym_node_t`
  pub sym_name : Bool  -- calloc of the copied name
  pub lib_node : Bool  -- calloc of the `lib_node_t`
  pub tree : Bool  -- calloc in `init_tree`
  pub avl_init : Option ℤ  -- the error of `avl2_init`, if it returns NULL

-- `init_tree`, with a non-NULL `tree`: its return code.
unfoldable pub init_tree : Bool → Option ℤ → ℤ
init_tree allocated avl_init =
    if allocated then elim avl_init [ none ↦ exit_success | some errno ↦ errno ] else enomem

abbrev pub put {ℓ} : {A : Type ℓ} → (ℕ → A) → ℕ → A → ℕ → A
put heap p v q = if p == q then v else heap q

abbrev pub rc_is_success : ℤ → Bool
rc_is_success rc = int_eq rc exit_success

module _ (sym_avl : SymAvl) (lib_avl : LibAvl) where
  -- The cache's tree, and the symbol trees at their addresses, which are given out in order.
  pub record SymCache : Type 0 where
    pub cache : lib_avl.Tree
    pub heap : ℕ → sym_avl.Tree
    pub next : ℕ

  -- A return code and the state; `none` is a fault.
  abbrev pub Result : Type 0
  Result = Option (ℤ × SymCache)

  abbrev pub insert_sym : SymCache → ℕ → Option sym_avl.Tree → Result
  insert_sym c tree (some t) = some (exit_success, record c { heap = put c.heap tree t })
  insert_sym c tree none = some (efault, c)

  -- `store_sym` on the tree at an address. The copy of the name is not checked for NULL.
  unfoldable pub store_sym : Allocs → SymCache → ℕ → Name → Result
  store_sym a c tree name =
      if a.sym_node
      then if a.sym_name
        then elim (sym_avl.search (c.heap tree) name) [
          | some _ ↦ some (exit_success, c)
          | none ↦ insert_sym c tree (sym_avl.insert (c.heap tree) name)
        ]
        else none
      else some (enomem, c)

  -- A new library: its tree is made, the node is inserted, and the symbol is stored.
  unfoldable pub store_new_lib : Allocs → SymCache → Name → Name → Result
  unfolding store_sym init_tree
  store_new_lib a c lib_name name =
      let rc = init_tree a.tree a.avl_init in
      let c' : SymCache = record c { heap = put c.heap c.next sym_avl.init; next = suc c.next } in
      elim (rc_is_success rc) [
        | false ↦ some (rc, c)
        | true ↦ elim (lib_avl.insert c.cache (record { lib_name = lib_name; defined = c.next })) [
          | none ↦ some (efault, c')
          | some t ↦ store_sym a (record c' { cache = t }) c.next name
        ]
      ]

  -- `store_sym_in_tree`. The library's name is copied into an array of PATH_MAX zero bytes, without
  -- a test of its length.
  unfoldable pub store_sym_in_tree : Allocs → SymCache → Name → Name → Result
  unfolding store_new_lib
  store_sym_in_tree a c lib_name name =
      if a.lib_node
      then if leb path_max (length lib_name) then none else elim (lib_avl.search c.cache lib_name) [
        | some node ↦ store_sym a c node.defined name
        | none ↦ store_new_lib a c lib_name name
      ]
      else some (enomem, c)

  -- The loop of `check_sym_cache` from a node on.
  unfoldable pub check_nodes : (ℕ → sym_avl.Tree) → List LibNode → Name → Option Name
  check_nodes heap [] sym = none
  check_nodes heap (n ∷ ns) sym =
      if is_some (sym_avl.search (heap n.defined) sym)
      then some n.lib_name
      else check_nodes heap ns sym

  -- `check_sym_cache` on an initialised cache: the name of the first library in the walk that
  -- defines the symbol.
  unfoldable pub check_sym_cache : SymCache → Name → Option Name
  unfolding check_nodes
  check_sym_cache c sym = check_nodes c.heap (lib_avl.walk c.cache) sym

  -- A library is recorded as defining a symbol.
  abbrev pub records_in : (ℕ → sym_avl.Tree) → Option LibNode → Name → Bool
  records_in heap none sym = false
  records_in heap (some n) sym = is_some (sym_avl.search (heap n.defined) sym)

  abbrev pub records : SymCache → Name → Name → Bool
  records c lib sym = records_in c.heap (lib_avl.search c.cache lib) sym
