-- ===== src/Linked.antt =====
-- The resolver on the files and the cache that it is run with: producers send the imported symbols
-- of parsed files, and symbols are looked up in the cache (libscout.c, sym_cache.c).
use libscout.Prelude.{
  ◌≡◌, true, false, refl, ◌⊎◌, inl, inr, Option, some, List, [], In, Name, ℤ, arith,
}
use libscout.Avl.{SymAvl}
use libscout.Elf.Descr.{ElfFileDescr, ElfSymTbl}
use libscout.Elf.DynSym.{is_import, dynsym_names}
use libscout.Elf.DynSym.Listed.{HoldsName, dynsym_names_iff}
use libscout.Cache.{LibAvl, SymCache, check_sym_cache, records}
use libscout.Cache.Lookup.{check_sym_cache_sound, check_sym_cache_complete}
use libscout.Resolve.{System, Reach}
use libscout.Resolve.Outcome.{has}
use libscout.Resolve.Needs.{Needs, root, dep, Wanted, resolved, unresolved}
use libscout.Resolve.Sound.{report_sound}
use libscout.Resolve.Complete.{IsQuiet, report_complete}

-- What the producer of a file sends, given what `process_elf_file` makes of the file: a descriptor
-- or a return code. `none` is a fault.
abbrev pub imports : ElfFileDescr ⊎ ℤ → Option (List Name)
imports (inl d) = dynsym_names is_import d
imports (inr rc) = some []

-- A parsed file has a symbol in a dynamic symbol table that is global and not defined.
pub record Imports (parsed : ElfFileDescr ⊎ ℤ) (n : Name) : Type 0 where
  pub descr : ElfFileDescr
  pub is_parsed : parsed ≡ inl descr
  pub symtab : ElfSymTbl
  pub in_file : In symtab descr.elf_sym_tbls
  pub holds : HoldsName is_import descr symtab n

imports-Imports :
    (parsed : ElfFileDescr ⊎ ℤ) (n : Name) {ns : List Name}
    → imports parsed ≡ some ns
    → In n ns
    → Imports parsed n
imports-Imports (inl d) n e i =
    let (t, m, h) = (dynsym_names_iff is_import d n e).0 i in
    record { descr = d; is_parsed = refl; symtab = t; in_file = m; holds = h }
imports-Imports (inr rc) n {ns} e i = absurd (ground arith)

Imports-imports :
    (parsed : ElfFileDescr ⊎ ℤ) (n : Name) {ns : List Name}
    → imports parsed ≡ some ns
    → Imports parsed n
    → In n ns
Imports-imports parsed n e i =
    let p = i.is_parsed in
    (dynsym_names_iff is_import i.descr n (rw p at e)).1 (i.symtab, i.in_file, i.holds)

module _ (sym_avl : SymAvl) (lib_avl : LibAvl) (c : SymCache sym_avl lib_avl)
    (parse : Name → ElfFileDescr ⊎ ℤ) (undefined_of : Name → List Name) (exe : Name)
    (sent : (f : Name) → imports (parse f) ≡ some (undefined_of f)) where
  abbrev pub Reachable : System sym_avl → Type 0
  Reachable = Reach sym_avl undefined_of (check_sym_cache sym_avl lib_avl c) exe

  abbrev pub IsNeeded : Name → Type 0
  IsNeeded = Needs undefined_of (check_sym_cache sym_avl lib_avl c) exe

  -- A library of the cache defines the symbol, and is among the dependencies.
  abbrev pub Found : System sym_avl → Name → Type 0
  Found s n =
      (lib : Name) × (records sym_avl lib_avl c lib n ≡ true)
      × (has sym_avl s.consumer.dependency lib ≡ true)

  -- No library of the cache defines the symbol, and it is among the unresolved symbols.
  abbrev pub Missed : System sym_avl → Name → Type 0
  Missed s n =
      ((lib : Name) → records sym_avl lib_avl c lib n ≡ false)
      × (has sym_avl s.consumer.undefined_sym n ≡ true)

  -- Where no file faults, and the consumer has left its loop with success, each producer has
  -- signed off and the buffer is empty: each symbol that a needed file imports is defined by a
  -- cached library among the dependencies, or is defined by no cached library and among the
  -- unresolved symbols.
  pub run_complete :
      {s : System sym_avl}
      → Reachable s
      → IsQuiet sym_avl undefined_of (check_sym_cache sym_avl lib_avl c) exe s
      → (f n : Name) → IsNeeded f
      → Imports (parse f) n
      → Found s n ⊎ Missed s n
  run_complete r quiet f n need i =
      let wanted : Wanted undefined_of (check_sym_cache sym_avl lib_avl c) exe n =
        (f, need, Imports-imports (parse f) n (sent f) i) in
      elim (report_complete sym_avl undefined_of (check_sym_cache sym_avl lib_avl c) exe r quiet n
        wanted) [
          | resolved {lib} e d ↦ inl (lib, check_sym_cache_sound sym_avl lib_avl c n lib e, d)
          | unresolved e u ↦ inr (check_sym_cache_complete sym_avl lib_avl c n e, u)
        ]

  -- A needed file imports a symbol that the library defines.
  abbrev pub Uses : Name → Type 0
  Uses lib =
      (f n : Name) × IsNeeded f × Imports (parse f) n × (records sym_avl lib_avl c lib n ≡ true)

  needed_lib : (lib : Name) → IsNeeded lib → (lib ≡ exe) ⊎ Uses lib
  needed_lib lib root = inl refl
  needed_lib lib (dep {f} {sym = n} need i e) = inr (
    f,
    n,
    need,
    imports-Imports (parse f) n (sent f) i,
    check_sym_cache_sound sym_avl lib_avl c n lib e,
  )

  -- Where no file faults, in every interleaving and whatever allocation fails: each dependency is
  -- the executable, or defines, by the cache, a symbol that a needed file imports; and each
  -- unresolved symbol is imported by a needed file and defined by no cached library.
  pub run_sound :
      {s : System sym_avl}
      → Reachable s
      → ((lib : Name) → has sym_avl s.consumer.dependency lib ≡ true → (lib ≡ exe) ⊎ Uses lib)
        × ((n : Name)
            → has sym_avl s.consumer.undefined_sym n ≡ true
            → ((f : Name) × IsNeeded f × Imports (parse f) n)
              × ((lib : Name) → records sym_avl lib_avl c lib n ≡ false))
  run_sound r =
      let (deps, missing) =
        report_sound sym_avl undefined_of (check_sym_cache sym_avl lib_avl c) exe r in
      (
        λ lib h. needed_lib lib (deps lib h),
        λ n h.
            let ((f, need, i), e) = missing n h in
            (
              (f, need, imports-Imports (parse f) n (sent f) i),
              check_sym_cache_complete sym_avl lib_avl c n e,
            ),
      )
