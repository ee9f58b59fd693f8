-- ===== src/Filled.antt =====
-- The cache that the search of the library path fills: search_for_lib (search_for_lib.c) with
-- populate_cache (sym_cache.c) on each file that it finds.
use libscout.Prelude.{
  ℕ, zero, suc, ◌<◌, ◌≤◌, true, false, ◌≡◌, refl, sym as flip, ◌∙◌, ap, subst, ◌⊎◌, inl, inr,
  Option, some, List, [], ◌∷◌, ◌++◌, In, length, take, Name, name_eq, name_eq→eq, name_eq_refl,
  Bool-cases, ◌>>=◌, ℤ, arith,
}
use libscout.Avl.{SymAvl}
use libscout.Elf.Descr.{ElfFileDescr}
use libscout.Elf.DynSym.{is_export, dynsym_names}
use libscout.Cache.{path_max, LibAvl, Allocs, SymCache, rc_is_success, records}
use libscout.Cache.Valid.{IsValid}
use libscout.Cache.Records.{empty-IsValid}
use libscout.Cache.Populate.{
  contains, get_sym, populate_cache, AllocsWork, InsertsWork, Extends, get_sym_lem,
}
use libscout.Search.{DirEntry, new_lib_path, search_for_lib}
use libscout.Search.Found.{populate_all, IsLibPath, in_dir, below, HasDepth, search_for_lib_lem}

-- What `get_sym` stores for a file, given what `process_elf_file` makes of it.
abbrev pub exports : ElfFileDescr ⊎ ℤ → Option (List Name)
exports (inl d) = dynsym_names is_export d
exports (inr rc) = some []

contains-In : (xs : List Name) (n : Name) → contains xs n ≡ true → In n xs
contains-In [] n h = absurd (cc h)
contains-In (x ∷ xs) n h = elim (Bool-cases (name_eq x n)) [
  | inl same ↦ inl (flip (name_eq→eq x n same))
  | inr other ↦ inr (contains-In xs n (ground arith))
]

In-contains : (xs : List Name) (n : Name) → In n xs → contains xs n ≡ true
In-contains (x ∷ xs) n (inl e) = let s = name_eq_refl x in rw e (rw s refl)
In-contains (x ∷ xs) n (inr m) = let r = In-contains xs n m in ground arith
In-contains [] n m = elim m [ ]

take_bound : (k : ℕ) (xs : List ℕ) → length (take k xs) ≤ k
take_bound zero xs = omega arith
take_bound (suc k) [] = omega arith
take_bound (suc k) (x ∷ xs) = omega (arith, take_bound k xs)

new_lib_path_bound : (dir name : Name) → length (new_lib_path dir name) < path_max
unfolding new_lib_path
new_lib_path_bound dir name = omega (arith, take_bound 4095 (dir ++ 47 ∷ name))

module _ (opendir : Name → List DirEntry ⊎ ℤ) (regexec : Name → ℤ) where
  path_bound : {dir p : Name} → IsLibPath opendir regexec dir p → length p < path_max
  path_bound {dir} (in_dir e o m lib q) = rw q (new_lib_path_bound dir e.d_name)
  path_bound (below e o m sub r) = path_bound r

module _ (sym_avl : SymAvl) (lib_avl : LibAvl) (a : ℕ → Allocs)
    (parse : Name → ElfFileDescr ⊎ ℤ) where
  abbrev Cache : Type 0
  Cache = SymCache sym_avl lib_avl

  -- A call of `populate_cache`, whose return code is dropped; `none` is a fault.
  abbrev pub populated : Option Cache → Name → Option Cache
  populated s fn = s >>= λ c. populate_cache sym_avl lib_avl a (some c) (some fn) parse >>= λ r. r.1

  module _ (ins : InsertsWork sym_avl lib_avl) (ok : AllocsWork sym_avl lib_avl a)
      (defined_by : Name → List Name)
      (stored : (f : Name) → exports (parse f) ≡ some (defined_by f)) where
    populated_case :
        (c : Cache) (fn : Name) (p : ElfFileDescr ⊎ ℤ)
        → parse fn ≡ p
        → length fn < path_max
        → IsValid sym_avl lib_avl c
        → (c' : Cache) × (populated (some c) fn ≡ some c')
          × Extends sym_avl lib_avl c fn (defined_by fn) c'
    unfolding populate_cache get_sym
    populated_case c fn (inl d) e h v =
        let (c', run, x) =
          get_sym_lem sym_avl lib_avl a c fn d (defined_by fn) ins ok h v (rw e at (stored fn)) in
        (c', rw (e, run) refl, x)
    populated_case c fn (inr rc) e h v =
        let nothing : defined_by fn ≡ [] = let s = rw e at (stored fn) in ground arith in
        (c, rw e refl, record { valid = v; recorded = λ l n. rw nothing (ground arith) })

    -- The records of a cache that has been populated from paths, beyond those of `c`.
    record Filled (c : Cache) (paths : List Name) (c' : Cache) : Type 0 where
      valid : IsValid sym_avl lib_avl c'
      only :
          (l n : Name)
          → records sym_avl lib_avl c' l n ≡ true
          → (In l paths × In n (defined_by l)) ⊎ (records sym_avl lib_avl c l n ≡ true)
      all :
          (l n : Name)
          → (In l paths × In n (defined_by l)) ⊎ (records sym_avl lib_avl c l n ≡ true)
          → records sym_avl lib_avl c' l n ≡ true

    fill_paths :
        (c : Cache) (paths : List Name)
        → ((p : Name) → In p paths → length p < path_max)
        → IsValid sym_avl lib_avl c
        → (c' : Cache) × (populate_all populated (some c) paths ≡ some c') × Filled c paths c'
    fill_paths c [] short v = (
      c,
      refl,
      record {
        valid = v;
        only = λ l n r. inr r;
        all = λ l n h. elim h [ inl m ↦ elim m.0 [ ] | inr r ↦ r ];
      },
    )
    fill_paths c (p ∷ ps) short v =
        let (c1, run, x) = populated_case c p (parse p) refl (short p (inl refl)) v in
        let (c2, run2, y) = fill_paths c1 ps (λ q m. short q (inr m)) x.valid in
        (
          c2,
          ap (λ s. populate_all populated s ps) run ∙ run2,
          record {
            valid = y.valid;
            only = λ l n r. elim (y.only l n r) [
              | inl later ↦ inl (inr later.0, later.1)
              | inr old ↦ first c c1 p ps x l n old
            ];
            all = λ l n h. y.all l n (elim h [
              | inl m ↦ elim m.0 [
                | inl here ↦ inr (added c c1 p x l n here m.1)
                | inr later ↦ inl (later, m.1)
              ]
              | inr old ↦ inr (let e = x.recorded l n in ground arith)
            ]);
          },
        )
      where
        first :
            (c c1 : Cache) (p : Name) (ps : List Name)
            → Extends sym_avl lib_avl c p (defined_by p) c1
            → (l n : Name) → records sym_avl lib_avl c1 l n ≡ true
            → (In l (p ∷ ps) × In n (defined_by l)) ⊎ (records sym_avl lib_avl c l n ≡ true)
        first c c1 p ps x l n r = elim (Bool-cases (records sym_avl lib_avl c l n)) [
          | inl old ↦ inr old
          | inr new ↦
              let e = x.recorded l n in
              let same : p ≡ l = name_eq→eq p l (ground arith) in
              let listed : In n (defined_by p) = contains-In (defined_by p) n (ground arith) in
              inl (inl (flip same), subst (λ k. In n (defined_by k)) same listed)
        ]

        added :
            (c c1 : Cache) (p : Name)
            → Extends sym_avl lib_avl c p (defined_by p) c1
            → (l n : Name) → l ≡ p
            → In n (defined_by l)
            → records sym_avl lib_avl c1 l n ≡ true
        added c c1 p x l n e m =
            let listed = In-contains (defined_by p) n (subst (λ k. In n (defined_by k)) e m) in
            let same : name_eq p l ≡ true = rw e (name_eq_refl p) in
            x.recorded l n ∙ rw (same, listed) refl

    abbrev pub no_cache : (ℕ → sym_avl.Tree) → ℕ → Cache
    no_cache heap next = record { cache = lib_avl.init; heap = heap; next = next }

    no_records :
        (heap : ℕ → sym_avl.Tree) (next : ℕ) (l n : Name)
        → records sym_avl lib_avl (no_cache heap next) l n ≡ false
    no_records heap next l n = rw (lib_avl.search-init l) refl

    -- The cache after a search of `dir` that returned `rc`.
    pub record FilledFrom (is_lib_path : Name → Type 0) (rc : ℤ) (c : Cache) : Type 0 where
      pub valid : IsValid sym_avl lib_avl c
      pub only :
          (l n : Name) → records sym_avl lib_avl c l n ≡ true → is_lib_path l × In n (defined_by l)
      pub all :
          rc_is_success rc ≡ true
          → (l n : Name) → is_lib_path l
          → In n (defined_by l)
          → records sym_avl lib_avl c l n ≡ true

    -- Where directories nest no deeper than the fuel, no call on a tree or for memory fails and no
    -- file faults: the search from an empty cache ends without a fault, with a valid cache that
    -- records of each library file below the directory only the dynamic symbols that it exports;
    -- with EXIT_SUCCESS, all of them.
    pub search_fills :
        (opendir : Name → List DirEntry ⊎ ℤ) (regexec : Name → ℤ) (heap : ℕ → sym_avl.Tree)
        (next fuel : ℕ) (dir : Name)
        → HasDepth opendir regexec fuel dir
        → (rc : ℤ) × (c : Cache) × (search_for_lib opendir regexec populated fuel dir
              (some (no_cache heap next))
            ≡ some (rc, some c))
          × FilledFrom (IsLibPath opendir regexec dir) rc c
    search_fills opendir regexec heap next fuel dir deep =
        let empty = no_cache heap next in
        let (rc, s, run, x) =
          search_for_lib_lem opendir regexec populated fuel dir (some empty) deep in
        let (c, filled, y) =
          fill_paths empty x.paths (λ p m. path_bound opendir regexec (x.sound p m))
            (empty-IsValid sym_avl lib_avl heap next) in
        (
          rc,
          c,
          run ∙ ap (λ k. some (rc, k)) (x.populated ∙ filled),
          record {
            valid = y.valid;
            only = λ l n r. elim (y.only l n r) [
              | inl m ↦ (x.sound l m.0, m.1)
              | inr old ↦ absurd (cc (flip old ∙ no_records heap next l n))
            ];
            all = λ ok l n p m. y.all l n (inl (x.complete ok l p, m));
          },
        )
