-- ===== src/Cache/Valid.antt =====
-- What it is for the cache of sym_cache.c to be valid, and for a call to have stored a symbol; and
-- `store_sym` on the tree of a library.
use libscout.Prelude.{
  ◌<◌, true, false, ◌≡◌, refl, ◌∙◌, sym as flip, ap, ◌&&◌, ◌||◌, inl, inr, Option, none, some, Name,
  name_eq, name_eq_refl, name_eq→eq, ◌==◌, Bool-cases, Option-cases, ℤ, exit_success, enomem,
  efault, arith,
}
use libscout.Avl.{SymAvl, is_some}
use libscout.Cache.{
  LibNode, LibAvl, Allocs, put, rc_is_success, SymCache, store_sym, records, records_in,
}

module _ (sym_avl : SymAvl) (lib_avl : LibAvl) where
  abbrev Cache : Type 0
  Cache = SymCache sym_avl lib_avl

  -- Each library's tree has been allocated, and two libraries have two trees.
  pub record IsValid (c : Cache) : Type 0 where
    pub allocated :
        (lib : Name) (n : LibNode) → lib_avl.search c.cache lib ≡ some n → n.defined < c.next
    pub apart :
        (lib lib' : Name) (n n' : LibNode)
        → lib_avl.search c.cache lib ≡ some n
        → lib_avl.search c.cache lib' ≡ some n'
        → n.defined ≡ n'.defined
        → lib ≡ lib'

  -- What a call that stores `name` for `lib` leaves: a valid cache in which that pair has been added
  -- if the call succeeded, and nothing else has changed.
  pub record Stored (c : Cache) (lib name : Name) (rc : ℤ) (c' : Cache) : Type 0 where
    pub valid : IsValid c'
    pub recorded :
        (l n : Name)
        → records sym_avl lib_avl c' l n
          ≡ (rc_is_success rc && (name_eq lib l && name_eq name n) || records sym_avl lib_avl c l n)

  has-insert :
      (t : sym_avl.Tree) (name : Name) {t' : sym_avl.Tree}
      → sym_avl.search t name ≡ none
      → sym_avl.insert t name ≡ some t'
      → (n : Name)
      → is_some (sym_avl.search t' n) ≡ (name_eq name n || is_some (sym_avl.search t n))
  has-insert t name {t'} new e n = elim (Bool-cases (name_eq name n)) [
    | inl same ↦ rw (sym_avl.search-insert t name t' n new e, same) refl
    | inr other ↦ rw (sym_avl.search-insert t name t' n new e, other) refl
  ]

  abbrev pub Ensures : Cache → Name → Name → Option (ℤ × Cache) → Type 0
  Ensures c lib name none = Unit
  Ensures c lib name (some (rc, c')) = Stored c lib name rc c'

  pub nothing_new :
      {c : Cache} (lib name : Name) (rc : ℤ)
      → rc_is_success rc ≡ false
      → IsValid c
      → Stored c lib name rc c
  nothing_new lib name rc e v = record { valid = v; recorded = λ l n. rw e refl }

  -- The symbol is in the library's tree already.
  present-Stored :
      {c : Cache} {lib name : Name} {node : LibNode}
      → IsValid c
      → lib_avl.search c.cache lib ≡ some node
      → is_some (sym_avl.search (c.heap node.defined) name) ≡ true
      → Stored c lib name exit_success c
  present-Stored {c} {lib} {name} {node} v at old = record {
    valid = v;
    recorded = λ l n. elim (Bool-cases (name_eq lib l && name_eq name n)) [
      | inl same ↦ rw same (known l n same)
      | inr other ↦ rw other refl
    ];
  }
    where
      known :
          (l n : Name)
          → (name_eq lib l && name_eq name n) ≡ true
          → records sym_avl lib_avl c l n ≡ true
      known l n h =
          let el : lib ≡ l = name_eq→eq lib l (ground arith) in
          let en : name ≡ n = name_eq→eq name n (ground arith) in rw (← el, ← en, at) old

  -- The symbol is added to the library's tree.
  added-Stored :
      {c : Cache} {lib name : Name} {node : LibNode} {t : sym_avl.Tree}
      → IsValid c
      → lib_avl.search c.cache lib ≡ some node
      → sym_avl.search (c.heap node.defined) name ≡ none
      → sym_avl.insert (c.heap node.defined) name ≡ some t
      → Stored c lib name exit_success (record c { heap = put c.heap node.defined t })
  added-Stored {c} {lib} {name} {node} {t} v at new e = record {
    valid = record { allocated = v.allocated; apart = v.apart };
    recorded = λ l n. case l n (lib_avl.search c.cache l) refl;
  }
    where
      case :
          (l n : Name) (o : Option LibNode)
          → lib_avl.search c.cache l ≡ o
          → records_in sym_avl lib_avl (put c.heap node.defined t) (lib_avl.search c.cache l) n ≡ (
              (name_eq lib l && name_eq name n)
              || records_in sym_avl lib_avl c.heap (lib_avl.search c.cache l) n)
      case l n none at' = elim (Bool-cases (name_eq lib l)) [
        | inl same ↦
            let el = name_eq→eq lib l same in
            absurd (cc (flip at ∙ ap (lib_avl.search c.cache) el ∙ at'))
        | inr other ↦ rw (at', other) refl
      ]
      case l n (some m) at' = elim (Bool-cases (node.defined == m.defined)) [
        | inl shared ↦
            let ed : node.defined ≡ m.defined = ground arith in
            let el : lib ≡ l = v.apart lib l node m at at' ed in
            let same : name_eq lib l ≡ true = rw (← el) (name_eq_refl lib) in
            rw (at', shared, same) (has-insert (c.heap node.defined) name new e n ∙ rw ed refl)
        | inr other ↦ elim (Bool-cases (name_eq lib l)) [
          | inl same ↦
              let el = name_eq→eq lib l same in
              let em : some node ≡ some m = flip at ∙ ap (lib_avl.search c.cache) el ∙ at' in
              absurd (ground arith)
          | inr apart ↦ rw (at', other, apart) refl
        ]
      ]

  -- `store_sym` on the tree of a library of the cache.
  pub store_sym-Ensures :
      (a : Allocs) (c : Cache) (lib : Name) (node : LibNode) (name : Name)
      → IsValid c
      → lib_avl.search c.cache lib ≡ some node
      → Ensures c lib name (store_sym sym_avl lib_avl a c node.defined name)
  unfolding store_sym
  store_sym-Ensures a c lib node name v at = elim (Bool-cases a.sym_node) [
    | inr no_node ↦ rw (no_node, store_sym) (nothing_new lib name enomem refl v)
    | inl ok ↦ elim (Bool-cases a.sym_name) [
      | inr no_name ↦ rw (ok, no_name, store_sym) tt
      | inl ok2 ↦ elim (Option-cases (sym_avl.search (c.heap node.defined) name)) [
        | inr old ↦ let e = old.1 in rw (ok, ok2, e, store_sym) (present-Stored v at (rw e))
        | inl new ↦ elim (Option-cases (sym_avl.insert (c.heap node.defined) name)) [
          | inl failed ↦ rw (ok, ok2, new, failed, store_sym) (nothing_new lib name efault refl v)
          | inr node' ↦ let e = node'.1 in rw (ok, ok2, new, e, store_sym) (added-Stored v at new e)
        ]
      ]
    ]
  ]
