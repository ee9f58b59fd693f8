-- ===== src/Cache/Records.antt =====
-- `store_sym_in_tree` (sym_cache.c), for a new library and for a known one.
use libscout.Prelude.{
  ℕ, suc, true, false, ◌≡◌, refl, subst, inl, inr, Option, none, some, length, Name, name_eq,
  name_eq_refl, name_eq→eq, leb, ◌==◌, Bool-cases, Option-cases, if◌then◌else◌, ℤ, enomem, efault,
  arith,
}
use libscout.Avl.{SymAvl}
use libscout.Cache.{
  path_max, LibAvl, Allocs, init_tree, put, rc_is_success, SymCache, store_sym, store_new_lib,
  store_sym_in_tree, records,
}
use libscout.Cache.Valid.{IsValid, Stored, Ensures, nothing_new, store_sym-Ensures}

module _ (sym_avl : SymAvl) (lib_avl : LibAvl) where
  abbrev Cache : Type 0
  Cache = SymCache sym_avl lib_avl

  -- The cache after `avl2_insert` of a library with a tree of its own.
  with_lib : Cache → Name → lib_avl.Tree → Cache
  with_lib c lib t = record { cache = t; heap = put c.heap c.next sym_avl.init; next = suc c.next }

  search-with_lib :
      (c : Cache) (lib : Name) (t : lib_avl.Tree)
      → lib_avl.search c.cache lib ≡ none
      → lib_avl.insert c.cache (record { lib_name = lib; defined = c.next }) ≡ some t
      → (k : Name)
      → lib_avl.search t k ≡ (
          if name_eq lib k
          then some (record { lib_name = lib; defined = c.next })
          else lib_avl.search c.cache k)
  search-with_lib c lib t new e k = lib_avl.search-insert c.cache _ t k new e

  with_lib-IsValid :
      (c : Cache) (lib : Name) (t : lib_avl.Tree)
      → IsValid sym_avl lib_avl c
      → lib_avl.search c.cache lib ≡ none
      → lib_avl.insert c.cache (record { lib_name = lib; defined = c.next }) ≡ some t
      → IsValid sym_avl lib_avl (with_lib c lib t)
  unfolding with_lib
  with_lib-IsValid c lib t v new e = record {
    allocated = λ l n at. ground (arith, search-with_lib c lib t new e l, v.allocated l n);
    apart = λ l l' n n' at at' same. ground (
      arith,
      search-with_lib c lib t new e l,
      search-with_lib c lib t new e l',
      v.allocated l n,
      v.allocated l' n',
      v.apart l l' n n',
      name_eq→eq lib l,
      name_eq→eq lib l',
    );
  }

  records-with_lib :
      (c : Cache) (lib : Name) (t : lib_avl.Tree)
      → IsValid sym_avl lib_avl c
      → lib_avl.search c.cache lib ≡ none
      → lib_avl.insert c.cache (record { lib_name = lib; defined = c.next }) ≡ some t
      → (l n : Name)
      → records sym_avl lib_avl (with_lib c lib t) l n ≡ records sym_avl lib_avl c l n
  unfolding with_lib
  records-with_lib c lib t v new e l n = elim (Bool-cases (name_eq lib l)) [
    | inl same ↦
        let el = name_eq→eq lib l same in
        let none_before : lib_avl.search c.cache l ≡ none = rw el at new in
        let self : (c.next == c.next) ≡ true = ground arith in
        rw (search-with_lib c lib t new e l, same, none_before, self, sym_avl.search-init n) refl
    | inr other ↦ elim (Option-cases (lib_avl.search c.cache l)) [
      | inl absent ↦ rw (search-with_lib c lib t new e l, other, absent) refl
      | inr found ↦
          let (m, at) = found in
          let old : (c.next == m.defined) ≡ false = ground (arith, v.allocated l m) in
          rw (search-with_lib c lib t new e l, other, at, old) refl
    ]
  ]

  -- A tree that no library refers to changes nothing.
  orphan-Stored :
      {c : Cache} (lib name : Name)
      → IsValid sym_avl lib_avl c
      → Stored sym_avl lib_avl c lib name efault
          (record c { heap = put c.heap c.next sym_avl.init; next = suc c.next })
  orphan-Stored {c} lib name v = record {
    valid = record { allocated = λ l n at. omega (arith, v.allocated l n at); apart = v.apart };
    recorded = λ l n. elim (Option-cases (lib_avl.search c.cache l)) [
      | inl absent ↦ rw absent refl
      | inr found ↦
          let (m, at) = found in
          let old : (c.next == m.defined) ≡ false = ground (arith, v.allocated l m) in
          rw (at, old) refl
    ];
  }

  through :
      (c c1 : Cache) (lib name : Name) (r : Option (ℤ × Cache))
      → ((l n : Name) → records sym_avl lib_avl c1 l n ≡ records sym_avl lib_avl c l n)
      → Ensures sym_avl lib_avl c1 lib name r
      → Ensures sym_avl lib_avl c lib name r
  through c c1 lib name none same h = tt
  through c c1 lib name (some (rc, c')) same h = record {
    valid = h.valid;
    recorded = λ l n. rw (← same l n) (h.recorded l n);
  }

  store_new_lib-Ensures :
      (a : Allocs) (c : Cache) (lib name : Name)
      → IsValid sym_avl lib_avl c
      → lib_avl.search c.cache lib ≡ none
      → Ensures sym_avl lib_avl c lib name (store_new_lib sym_avl lib_avl a c lib name)
  unfolding with_lib store_new_lib
  store_new_lib-Ensures a c lib name v new =
      elim (Bool-cases (rc_is_success (init_tree a.tree a.avl_init))) [
        | inr failed ↦
            rw (failed, store_new_lib)
              (nothing_new sym_avl lib_avl lib name (init_tree a.tree a.avl_init) failed v)
        | inl made ↦
            elim (Option-cases
              (lib_avl.insert c.cache (record { lib_name = lib; defined = c.next }))) [
                | inl no_node ↦ rw (made, no_node, store_new_lib) (orphan-Stored lib name v)
                | inr node ↦
                    let (t, e) = node in
                    let found : lib_avl.search t lib
                        ≡ some (record { lib_name = lib; defined = c.next }) =
                      rw (search-with_lib c lib t new e lib, name_eq_refl lib) refl in
                    rw (made, e, store_new_lib)
                      (through c (with_lib c lib t) lib name
                        (store_sym sym_avl lib_avl a (with_lib c lib t) c.next name)
                        (records-with_lib c lib t v new e)
                        (store_sym-Ensures sym_avl lib_avl a (with_lib c lib t) lib
                          (record { lib_name = lib; defined = c.next }) name
                          (with_lib-IsValid c lib t v new e) found))
              ]
      ]

  ensured :
      {c : Cache} {lib name : Name} {rc : ℤ} {c' : Cache} {r : Option (ℤ × Cache)}
      → r ≡ some (rc, c')
      → Ensures sym_avl lib_avl c lib name r
      → Stored sym_avl lib_avl c lib name rc c'
  ensured {c} {lib} {name} e h = subst (Ensures sym_avl lib_avl c lib name) e h

  store_sym_in_tree-Ensures :
      (a : Allocs) (c : Cache) (lib name : Name)
      → IsValid sym_avl lib_avl c
      → Ensures sym_avl lib_avl c lib name (store_sym_in_tree sym_avl lib_avl a c lib name)
  unfolding store_sym_in_tree
  store_sym_in_tree-Ensures a c lib name v = elim (Bool-cases a.lib_node) [
    | inr no_node ↦
        rw (no_node, store_sym_in_tree) (nothing_new sym_avl lib_avl lib name enomem refl v)
    | inl ok ↦ elim (Bool-cases (leb path_max (length lib))) [
      | inl long ↦ rw (ok, long, store_sym_in_tree) tt
      | inr fits ↦ elim (Option-cases (lib_avl.search c.cache lib)) [
        | inl new ↦ rw (ok, fits, new, store_sym_in_tree) (store_new_lib-Ensures a c lib name v new)
        | inr old ↦
            let (node, e) = old in
            rw (ok, fits, e, store_sym_in_tree)
              (store_sym-Ensures sym_avl lib_avl a c lib node name v e)
      ]
    ]
  ]

  -- Whatever allocation fails: `store_sym_in_tree` keeps the cache valid. If it returns
  -- EXIT_SUCCESS the library is recorded as defining the symbol and every other record is as it was;
  -- with any other return code no record has changed.
  pub store_sym_in_tree_lem :
      (a : Allocs) (c : Cache) (lib name : Name) {rc : ℤ} {c' : Cache}
      → IsValid sym_avl lib_avl c
      → store_sym_in_tree sym_avl lib_avl a c lib name ≡ some (rc, c')
      → Stored sym_avl lib_avl c lib name rc c'
  store_sym_in_tree_lem a c lib name v e = ensured e (store_sym_in_tree-Ensures a c lib name v)

  -- An empty cache is valid.
  pub empty-IsValid :
      (heap : ℕ → sym_avl.Tree) (next : ℕ)
      → IsValid sym_avl lib_avl (record { cache = lib_avl.init; heap = heap; next = next })
  empty-IsValid heap next = record {
    allocated = λ l n at. absurd (cc (lib_avl.search-init l));
    apart = λ l l' n n' at at' e. absurd (cc (lib_avl.search-init l));
  }
