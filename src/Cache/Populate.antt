-- ===== src/Cache/Populate.antt =====
-- `get_sym` and `populate_cache` (sym_cache.c) for one library.
use libscout.Prelude.{
  ℕ, suc, ◌<◌, Bool, true, false, ◌≡◌, refl, ◌&&◌, ◌||◌, ◌⊎◌, inl, inr, Option, none, some, List,
  [], ◌∷◌, length, leb, Name, name_eq, Option-cases, ◌>>=◌, ℤ, exit_success, einval, arith,
}
use libscout.Avl.{SymAvl}
use libscout.Elf.Descr.{ElfFileDescr}
use libscout.Elf.DynSym.{is_export, dynsym_names}
use libscout.Cache.{
  path_max, LibNode, LibAvl, Allocs, init_tree, put, SymCache, store_sym, store_new_lib,
  store_sym_in_tree, records,
}
use libscout.Cache.Valid.{IsValid}
use libscout.Cache.Records.{store_sym_in_tree_lem}

-- The name is among the names.
abbrev pub contains : List Name → Name → Bool
contains [] n = false
contains (x ∷ xs) n = name_eq x n || contains xs n

module _ (sym_avl : SymAvl) (lib_avl : LibAvl) where
  abbrev Cache : Type 0
  Cache = SymCache sym_avl lib_avl

  -- The calls of `store_sym_in_tree`, whose return code `get_sym` drops; the `k`th call allocates
  -- as `a k` says.
  unfoldable pub store_all : (ℕ → Allocs) → ℕ → Cache → Name → List Name → Option Cache
  store_all a k c fn [] = some c
  store_all a k c fn (name ∷ names) =
      store_sym_in_tree sym_avl lib_avl (a k) c fn name >>= λ r. store_all a (suc k) r.1 fn names

  -- `get_sym`; `parsed` is the result of `process_elf_file`, a return code or the descriptor.
  unfoldable pub get_sym : (ℕ → Allocs) → Cache → Name → ElfFileDescr ⊎ ℤ → Option (ℤ × Cache)
  unfolding store_all
  get_sym a c fn (inl d) = dynsym_names is_export d >>= λ names.
      store_all a 0 c fn names >>= λ c'. some (exit_success, c')
  get_sym a c fn (inr rc) = some (rc, c)

  -- `populate_cache`: NULL arguments are refused.
  unfoldable pub populate_cache :
      (ℕ → Allocs)
      → Option Cache
      → Option Name
      → (Name → ElfFileDescr ⊎ ℤ)
      → Option (ℤ × Option Cache)
  unfolding get_sym
  populate_cache a none fn parse = some (einval, none)
  populate_cache a (some c) none parse = some (einval, some c)
  populate_cache a (some c) (some fn) parse =
      get_sym a c fn (parse fn) >>= λ r. some (r.0, some r.1)

  -- Every allocation succeeds.
  abbrev pub AllocsWork : (ℕ → Allocs) → Type 0
  AllocsWork a =
      (k : ℕ)
      → ((a k).sym_node ≡ true)
        × ((a k).sym_name ≡ true)
        × ((a k).lib_node ≡ true)
        × ((a k).tree ≡ true)
        × ((a k).avl_init ≡ none)

  -- `avl2_insert` of a node with a new key succeeds.
  pub record InsertsWork : Type 0 where
    pub sym_insert :
        (t : sym_avl.Tree) (name : Name)
        → sym_avl.search t name ≡ none
        → (t' : sym_avl.Tree) × (sym_avl.insert t name ≡ some t')
    pub lib_insert :
        (t : lib_avl.Tree) (n : LibNode)
        → lib_avl.search t n.lib_name ≡ none
        → (t' : lib_avl.Tree) × (lib_avl.insert t n ≡ some t')

  module _ (inserts : InsertsWork) (a : Allocs)
      (ok : (a.sym_node ≡ true)
        × (a.sym_name ≡ true)
        × (a.lib_node ≡ true)
        × (a.tree ≡ true)
        × (a.avl_init ≡ none)) where
    store_sym_works :
        (c : Cache) (tree : ℕ) (name : Name)
        → (c' : Cache) × (store_sym sym_avl lib_avl a c tree name ≡ some (exit_success, c'))
    unfolding store_sym
    store_sym_works c tree name = elim (Option-cases (sym_avl.search (c.heap tree) name)) [
      | inl new ↦
          let (t, e) = inserts.sym_insert (c.heap tree) name new in
          (record c { heap = put c.heap tree t }, rw (ok.0, ok.1, new, e, store_sym) refl)
      | inr old ↦ let e = old.1 in (c, rw (ok.0, ok.1, e, store_sym) refl)
    ]

    store_works :
        (c : Cache) (fn name : Name)
        → length fn < path_max
        → (c' : Cache) × (store_sym_in_tree sym_avl lib_avl a c fn name ≡ some (exit_success, c'))
    unfolding store_sym_in_tree store_new_lib init_tree
    store_works c fn name h = elim (Option-cases (lib_avl.search c.cache fn)) [
      | inr old ↦
          let (node, e) = old in
          let (c', w) = store_sym_works c node.defined name in
          (c', rw (ok.2, fits, e, store_sym_in_tree) w)
      | inl new ↦
          let (t, e) =
            inserts.lib_insert c.cache (record { lib_name = fn; defined = c.next }) new in
          let (c', w) =
            store_sym_works
              (record { cache = t; heap = put c.heap c.next sym_avl.init; next = suc c.next })
              c.next name in
          (c', rw (ok.2, fits, new, store_sym_in_tree) (rw (ok.3, ok.4, e, store_new_lib) w))
    ]
      where
        fits : leb path_max (length fn) ≡ false
        fits = ground arith

  -- The cache `c'` has what `c` has, and the names for the library `fn`.
  pub record Extends (c : Cache) (fn : Name) (names : List Name) (c' : Cache) : Type 0 where
    pub valid : IsValid sym_avl lib_avl c'
    pub recorded :
        (l n : Name)
        → records sym_avl lib_avl c' l n
          ≡ ((name_eq fn l && contains names n) || records sym_avl lib_avl c l n)

  store_all-Extends :
      (a : ℕ → Allocs) (k : ℕ) (c : Cache) (fn : Name) (names : List Name)
      → InsertsWork
      → AllocsWork a
      → length fn < path_max
      → IsValid sym_avl lib_avl c
      → (c' : Cache) × (store_all a k c fn names ≡ some c') × Extends c fn names c'
  unfolding store_all
  store_all-Extends a k c fn [] ins ok h v =
      (c, refl, record { valid = v; recorded = λ l n. ground arith })
  store_all-Extends a k c fn (name ∷ names) ins ok h v =
      let (c1, e) = store_works ins (a k) (ok k) c fn name h in
      let s = store_sym_in_tree_lem sym_avl lib_avl (a k) c fn name v e in
      let (c2, run, x) = store_all-Extends a (suc k) c1 fn names ins ok h s.valid in
      (
        c2,
        rw e run,
        record {
          valid = x.valid;
          recorded = λ l n. ground (arith, x.recorded l n, s.recorded l n);
        },
      )

  -- Where nothing fails: `get_sym` of a parsed file whose name fits its array returns success, keeps
  -- the cache valid, and records for the file exactly its exported dynamic symbols, besides what was
  -- recorded before.
  pub get_sym_lem :
      (a : ℕ → Allocs) (c : Cache) (fn : Name) (d : ElfFileDescr) (names : List Name)
      → InsertsWork
      → AllocsWork a
      → length fn < path_max
      → IsValid sym_avl lib_avl c
      → dynsym_names is_export d ≡ some names
      → (c' : Cache) × (get_sym a c fn (inl d) ≡ some (exit_success, c')) × Extends c fn names c'
  unfolding get_sym
  get_sym_lem a c fn d names ins ok h v e =
      let (c', run, x) = store_all-Extends a 0 c fn names ins ok h v in (c', rw (e, run) refl, x)
