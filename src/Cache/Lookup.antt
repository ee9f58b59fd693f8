-- ===== src/Cache/Lookup.antt =====
-- `check_sym_cache` (sym_cache.c) against the records of the cache.
use libscout.Prelude.{
  ℕ, Bool, true, false, ◌≡◌, refl, ap, subst, inl, inr, Option, none, some, List, [], ◌∷◌, In, Name,
  Bool-cases, Option-cases, arith,
}
use libscout.Avl.{SymAvl, is_some}
use libscout.Cache.{LibNode, LibAvl, SymCache, check_nodes, check_sym_cache, records}

module _ (sym_avl : SymAvl) (lib_avl : LibAvl) where
  abbrev defines : (ℕ → sym_avl.Tree) → LibNode → Name → Bool
  defines heap n sym = is_some (sym_avl.search (heap n.defined) sym)

  check_nodes-found :
      (heap : ℕ → sym_avl.Tree) (ns : List LibNode) (sym : Name) {lib : Name}
      → check_nodes sym_avl lib_avl heap ns sym ≡ some lib
      → (n : LibNode) × In n ns × (n.lib_name ≡ lib) × (defines heap n sym ≡ true)
  unfolding check_nodes
  check_nodes-found heap [] sym h = absurd (cc h)
  check_nodes-found heap (n ∷ ns) sym h = elim (Bool-cases (defines heap n sym)) [
    | inl hit ↦ (n, inl refl, ground arith, hit)
    | inr miss ↦ let (m, i, e, d) = check_nodes-found heap ns sym (ground arith) in (m, inr i, e, d)
  ]

  check_nodes-none :
      (heap : ℕ → sym_avl.Tree) (ns : List LibNode) (sym : Name)
      → check_nodes sym_avl lib_avl heap ns sym ≡ none
      → (n : LibNode) → In n ns
      → defines heap n sym ≡ false
  unfolding check_nodes
  check_nodes-none heap [] sym h n i = elim i [ ]
  check_nodes-none heap (m ∷ ns) sym h n (inl e) = ground arith
  check_nodes-none heap (m ∷ ns) sym h n (inr i) = check_nodes-none heap ns sym (ground arith) n i

  abbrev pub lib_names : List LibNode → List Name
  lib_names [] = []
  lib_names (n ∷ ns) = n.lib_name ∷ lib_names ns

  In-lib_names : (ns : List LibNode) (n : LibNode) → In n ns → In n.lib_name (lib_names ns)
  In-lib_names [] n m = elim m [ ]
  In-lib_names (x ∷ ns) n (inl e) = inl (ap (λ k. k.lib_name) e)
  In-lib_names (x ∷ ns) n (inr m) = inr (In-lib_names ns n m)

  -- A lookup gives one of the libraries in the cache.
  pub check_sym_cache-listed :
      (c : SymCache sym_avl lib_avl) (sym lib : Name)
      → check_sym_cache sym_avl lib_avl c sym ≡ some lib
      → In lib (lib_names (lib_avl.walk c.cache))
  unfolding check_sym_cache
  check_sym_cache-listed c sym lib h =
      let (n, i, e, d) = check_nodes-found c.heap (lib_avl.walk c.cache) sym h in
      subst (λ l. In l (lib_names (lib_avl.walk c.cache))) e
        (In-lib_names (lib_avl.walk c.cache) n i)

  -- The library that `check_sym_cache` names is recorded as defining the symbol.
  pub check_sym_cache_sound :
      (c : SymCache sym_avl lib_avl) (sym lib : Name)
      → check_sym_cache sym_avl lib_avl c sym ≡ some lib
      → records sym_avl lib_avl c lib sym ≡ true
  unfolding check_sym_cache
  check_sym_cache_sound c sym lib h =
      let (n, i, e, d) = check_nodes-found c.heap (lib_avl.walk c.cache) sym h in
      let at : lib_avl.search c.cache n.lib_name ≡ some n = lib_avl.walk-search c.cache n i in
      rw (← e, at) d

  -- Where `check_sym_cache` gives NULL, no library is recorded as defining the symbol.
  pub check_sym_cache_complete :
      (c : SymCache sym_avl lib_avl) (sym : Name)
      → check_sym_cache sym_avl lib_avl c sym ≡ none
      → (lib : Name) → records sym_avl lib_avl c lib sym ≡ false
  unfolding check_sym_cache
  check_sym_cache_complete c sym h lib = elim (Option-cases (lib_avl.search c.cache lib)) [
    | inl absent ↦ rw absent refl
    | inr found ↦
        let (n, at) = found in
        rw at (
          check_nodes-none c.heap (lib_avl.walk c.cache) sym h n
            (lib_avl.search-walk c.cache lib n at).0)
  ]

  -- What an answer says: the library is recorded as defining the symbol, or none is.
  abbrev pub IsAnswer : SymCache sym_avl lib_avl → Name → Option Name → Type 0
  IsAnswer c sym (some lib) = records sym_avl lib_avl c lib sym ≡ true
  IsAnswer c sym none = (lib : Name) → records sym_avl lib_avl c lib sym ≡ false

  -- A library that `check_sym_cache` names is recorded as defining the symbol; and where it gives
  -- NULL, no library is.
  pub check_sym_cache_lem :
      (c : SymCache sym_avl lib_avl) (sym : Name)
      → IsAnswer c sym (check_sym_cache sym_avl lib_avl c sym)
  check_sym_cache_lem c sym = answer (check_sym_cache sym_avl lib_avl c sym) refl
    where
      answer : (o : Option Name) → check_sym_cache sym_avl lib_avl c sym ≡ o → IsAnswer c sym o
      answer (some lib) e = check_sym_cache_sound c sym lib e
      answer none e = check_sym_cache_complete c sym e
