-- ===== src/Elf/DynSym/Listed.antt =====
-- The loops over the dynamic symbols (sym_cache.c, libscout.c) against the entries of the tables.
use libscout.Prelude.{
  ℕ, suc, true, false, ◌≡◌, ◌≢◌, refl, ◌∙◌, sym as flip, subst, ap, ◌↔◌, ◌⊎◌, inl, inr, none, some,
  List, [], ◌∷◌, ◌++◌, In, In-append, append-In, Name, ◌>>=◌, ℤ, to_u64, exit_success, Bool-cases,
  Option-cases, arith,
}
use libscout.Iter.{iterator_init, visit}
use libscout.Iter.Walk.{addresses, visit_all}
use libscout.Elf.Memory.{Region}
use libscout.Elf.Descr.{ElfFileDescr, ElfSymTbl}
use libscout.Elf.Symbol.{SymEntry, get_elf_sym_tab_entry_size, elf_sym_get_st_name}
use libscout.Elf.Strings.{Out, elf_sym_get_string}
use libscout.Elf.DynSym.{
  Keep, Names, kept_name, entry_name, entries, table_names, tables_names, dynsym_names,
}

module _ (keep : Keep) (d : ElfFileDescr) where
  -- The entry has a name that can be found and is not empty, and passes the test.
  pub record IsKept (entry : SymEntry) (n : Name) : Type 0 where
    pub st_name : ℤ
    pub at : elf_sym_get_st_name (some d) entry ≡ some st_name
    pub named : elf_sym_get_string true d true st_name ≡ some (exit_success, some n)
    pub not_empty : n ≢ []
    pub passes : keep d entry ≡ some true

  kept_name-In :
      (entry : SymEntry) (n : Name) (out : Out) (ns : List Name)
      → kept_name keep d entry out ≡ some ns
      → In n ns
      → (out ≡ (exit_success, some n)) × (n ≢ []) × (keep d entry ≡ some true)
  unfolding kept_name
  kept_name-In entry n (rc, none) ns e m = ground arith
  kept_name-In entry n (rc, some []) ns e m = ground arith
  kept_name-In entry n (rc, some (b ∷ bs)) [] e m = elim m [ ]
  kept_name-In entry n (rc, some (b ∷ bs)) (x ∷ []) e (inl q) =
      (ground arith, ground arith, ground arith)
  kept_name-In entry n (rc, some (b ∷ bs)) (x ∷ []) e (inr m) = elim m [ ]
  kept_name-In entry n (rc, some (b ∷ bs)) (x ∷ y ∷ ns) e m = ground arith

  In-kept_name :
      (entry : SymEntry) (n : Name) (ns : List Name)
      → kept_name keep d entry (exit_success, some n) ≡ some ns
      → n ≢ []
      → keep d entry ≡ some true
      → In n ns
  unfolding kept_name
  In-kept_name entry [] ns e ne k = absurd (ne refl)
  In-kept_name entry (b ∷ bs) [] e ne k = ground arith
  In-kept_name entry (b ∷ bs) (x ∷ ns) e ne k = inl (ground arith)

  entry_name_iff :
      (entry : SymEntry) (n : Name) {ns : List Name}
      → entry_name keep d entry ≡ some ns
      → In n ns ↔ IsKept entry n
  unfolding entry_name
  entry_name_iff entry n {ns} e = elim (Option-cases (elf_sym_get_st_name (some d) entry)) [
    | inl no_st ↦ absurd (ground arith)
    | inr found ↦
        let (st, at) = found in
        elim (Option-cases (elf_sym_get_string true d true st)) [
          | inl no_out ↦ absurd (ground arith)
          | inr got ↦
              let (out, named) = got in
              let e' : kept_name keep d entry out ≡ some ns = ground arith in
              (
                λ m.
                    let (a, b, c) = kept_name-In entry n out ns e' m in
                    record {
                      st_name = st;
                      at = at;
                      named = named ∙ ap some a;
                      not_empty = b;
                      passes = c;
                    },
                λ k.
                    let same : st ≡ k.st_name = let a = k.at in ground arith in
                    let same_out : out ≡ (exit_success, some n) = let a = k.named in ground arith in
                    In-kept_name entry n ns (rw same_out at e') k.not_empty k.passes,
              )
        ]
  ]

  -- An entry among the given offsets yields the name.
  abbrev Yields : Region → List ℕ → Name → Type 0
  Yields table offsets n = (o : ℕ) × In o offsets × IsKept (record { table = table; offset = o }) n

  append_parts :
      (a b : Names) {ns : List Name}
      → (a >>= λ x. b >>= λ y. some (x ++ y)) ≡ some ns
      → (x y : List Name) × (a ≡ some x) × (b ≡ some y) × (ns ≡ x ++ y)
  append_parts none b e = absurd (cc e)
  append_parts (some x) none e = absurd (cc e)
  append_parts (some x) (some y) e = (x, y, refl, refl, cc)

  entries_iff :
      (table : Region) (offsets : List ℕ) (n : Name) {ns : List Name}
      → entries keep d table offsets ≡ some ns
      → In n ns ↔ Yields table offsets n
  unfolding entries
  entries_iff table [] n e = (λ m. ground arith, λ y. elim (y.1) [ ])
  entries_iff table (o ∷ os) n {ns} e =
      let (x, y, ex, ey, split) =
        append_parts (entry_name keep d (record { table = table; offset = o }))
          (entries keep d table os) e in
      let first = entry_name_iff (record { table = table; offset = o }) n ex in
      let others = entries_iff table os n ey in
      (
        λ m. elim (append-In n x y (rw split at m)) [
          | inl here ↦ (o, inl refl, first.0 here)
          | inr later ↦ let (p, i, k) = others.0 later in (p, inr i, k)
        ],
        λ w. rw split (In-append n x y (pick w x y first.1 others.1)),
      )
    where
      pick :
          Yields table (o ∷ os) n
          → (x y : List Name) → (IsKept (record { table = table; offset = o }) n → In n x)
          → (Yields table os n → In n y)
          → In n x ⊎ In n y
      pick (p, inl q, k) x y f g =
          inl (f (subst (λ r. IsKept (record { table = table; offset = r }) n) q k))
      pick (p, inr i, k) x y f g = inr (g (p, i, k))

  -- A dynamic symbol table with its entries one after the other from its start on, one of which
  -- yields the name.
  pub record HoldsName (t : ElfSymTbl) (n : Name) : Type 0 where
    pub dynamic : t.is_dynamic ≡ true
    pub table : Region
    pub has_table : t.elf_sym_table ≡ some table
    pub yields :
        Yields table
          (addresses 0 (get_elf_sym_tab_entry_size d) 0 (to_u64 t.elf_sym_tbl_num_entry))
          n

  dynamic_names_iff :
      (t : ElfSymTbl) (n : Name) {ns : List Name}
      → t.is_dynamic ≡ true
      → table_names keep d t ≡ some ns
      → In n ns ↔ HoldsName t n
  unfolding table_names
  dynamic_names_iff t n {ns} dyn e = elim (Option-cases t.elf_sym_table) [
    | inl no_table ↦ absurd (ground arith)
    | inr got ↦
        let (table, has) = got in
        elim (Option-cases (
          iterator_init true (some 0) (get_elf_sym_tab_entry_size d)
            (to_u64 t.elf_sym_tbl_num_entry))) [
              | inl no_iter ↦ absurd (ground arith)
              | inr made ↦
                  let (iter, init) = made in
                  let number = to_u64 t.elf_sym_tbl_num_entry in
                  let all =
                    visit_all (suc number) 0 (get_elf_sym_tab_entry_size d) number init
                      (omega arith) in
                  let run : entries keep d table (visit (suc number) iter) ≡ some ns =
                    ground arith in
                  let each =
                    entries_iff table (addresses 0 (get_elf_sym_tab_entry_size d) 0 number) n
                      (rw all at run) in
                  (
                    λ m. record {
                      dynamic = dyn;
                      table = table;
                      has_table = has;
                      yields = each.0 m;
                    },
                    λ h.
                        let same : h.table ≡ table = let a = h.has_table in ground arith in
                        each.1 (rw same at h.yields),
                  )
            ]
  ]

  static_names :
      (t : ElfSymTbl) (ns : List Name)
      → t.is_dynamic ≡ false
      → table_names keep d t ≡ some ns
      → ns ≡ []
  unfolding table_names
  static_names t ns static e = ground arith

  table_names_iff :
      (t : ElfSymTbl) (n : Name) {ns : List Name}
      → table_names keep d t ≡ some ns
      → In n ns ↔ HoldsName t n
  table_names_iff t n {ns} e = elim (Bool-cases t.is_dynamic) [
    | inl dyn ↦ dynamic_names_iff t n dyn e
    | inr static ↦
        let none_listed : ns ≡ [] = static_names t ns static e in
        (λ m. elim (rw none_listed at m) [ ], λ h. absurd (cc (flip h.dynamic ∙ static)))
  ]

  tables_names_iff :
      (ts : List ElfSymTbl) (n : Name) {ns : List Name}
      → tables_names keep d ts ≡ some ns
      → In n ns ↔ ((t : ElfSymTbl) × In t ts × HoldsName t n)
  unfolding tables_names
  tables_names_iff [] n e = (λ m. ground arith, λ y. elim (y.1) [ ])
  tables_names_iff (t ∷ ts) n {ns} e =
      let (x, y, ex, ey, split) = append_parts (table_names keep d t) (tables_names keep d ts) e in
      let first = table_names_iff t n ex in
      let others = tables_names_iff ts n ey in
      (
        λ m. elim (append-In n x y (rw split at m)) [
          | inl here ↦ (t, inl refl, first.0 here)
          | inr later ↦ let (p, i, k) = others.0 later in (p, inr i, k)
        ],
        λ w. rw split (In-append n x y (pick w x y first.1 others.1)),
      )
    where
      pick :
          (r : ElfSymTbl) × In r (t ∷ ts) × HoldsName r n
          → (x y : List Name) → (HoldsName t n → In n x)
          → (((r : ElfSymTbl) × In r ts × HoldsName r n) → In n y)
          → In n x ⊎ In n y
      pick (p, inl q, k) x y f g = inl (f (subst (λ r. HoldsName r n) q k))
      pick (p, inr i, k) x y f g = inr (g (p, i, k))

  -- Where the loops end without a fault, a name is collected exactly if some entry of a dynamic
  -- symbol table of the file has it as a name that is not empty, and passes the client's test.
  pub dynsym_names_iff :
      (n : Name) {ns : List Name}
      → dynsym_names keep d ≡ some ns
      → In n ns ↔ ((t : ElfSymTbl) × In t d.elf_sym_tbls × HoldsName t n)
  unfolding dynsym_names
  dynsym_names_iff n e = tables_names_iff d.elf_sym_tbls n e
