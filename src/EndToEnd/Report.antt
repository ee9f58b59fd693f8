-- ===== src/EndToEnd/Report.antt =====
-- The dependencies and the unresolved symbols that the resolver (libscout.c) reports, against the
-- symbols of the files.
use libscout.Prelude.{
  Option, [], ap, ℕ, ◌≡◌, refl, ◌∙◌, sym as flip, subst, ◌⊎◌, inl, inr, true, none, some, List, In,
  Name, ℤ, done, arith,
}
use libscout.Avl.{SymAvl}
use libscout.Elf.Descr.{ElfFileDescr}
use libscout.Elf.Cursor.{Disk, Mem}
use libscout.Elf.Cursor.Gets.{EnoughMem}
use libscout.Elf.DynSym.Exact.{Symbol, exported, imported, all_names}
use libscout.Elf.DynSym.Named.{HasSymbol, all_names_iff}
use libscout.Elf.File.{process_elf_file}
use libscout.Cache.{LibAvl, Allocs, SymCache, rc_is_success, check_sym_cache}
use libscout.Cache.Lookup.{check_sym_cache_sound, check_sym_cache_complete}
use libscout.Cache.Populate.{AllocsWork, InsertsWork}
use libscout.Search.{DirEntry, search_for_lib}
use libscout.Search.Found.{IsLibPath, HasDepth}
use libscout.Resolve.{System, Reach}
use libscout.Resolve.Printed.{Lists, print_lists, walk_iff, printed_lists}
use libscout.Resolve.Needs.{Needs, root, dep, resolved, unresolved}
use libscout.Resolve.Sound.{report_sound}
use libscout.Resolve.Complete.{IsQuiet, report_complete}
use libscout.Filled.{populated, FilledFrom, search_fills}
use libscout.Linked.{imports}
use libscout.EndToEnd.{HasMem, MemOrError, Says, Collects, symbols_collected}

module _ (sym_avl : SymAvl) (lib_avl : LibAvl) (ins : InsertsWork sym_avl lib_avl) (a : ℕ → Allocs)
    (ok : AllocsWork sym_avl lib_avl a) (mem : Name → Mem) (enough : (f : Name) → EnoughMem (mem f))
    (note_mem : (f : Name) (k : ℕ) → (mem f).note_allocs k ≡ (true, true))
    (open_file : Name → Disk ⊎ ℤ) (symbols : Name → List (List Symbol))
    (says : (f : Name) → Says open_file f (symbols f)) (parse : Name → ElfFileDescr ⊎ ℤ)
    (parses : (f : Name) → process_elf_file (mem f) open_file (some f) ≡ done (parse f))
    (thread_mem : Name → Mem) (parsed : Name → ElfFileDescr ⊎ ℤ)
    (thread_parses : (f : Name)
      → process_elf_file (thread_mem f) open_file (some f) ≡ done (parsed f))
    (mem_or_error : (f : Name) → MemOrError (thread_mem f) (parsed f)) where
  abbrev pub Exports : Name → Name → Type 0
  Exports f n = HasSymbol exported (symbols f) n

  abbrev pub Imports : Name → Name → Type 0
  Imports f n = HasSymbol imported (symbols f) n

  abbrev pub defined_by : Name → List Name
  defined_by f = all_names exported (symbols f)

  abbrev or_none : Option (List Name) → List Name
  or_none none = []
  or_none (some ns) = ns

  -- What the producer of a file sends: what it collects of the file, if `process_elf_file` succeeds in
  -- its thread.
  abbrev pub undefined_of : Name → List Name
  undefined_of f = or_none (imports (parsed f))

  collects_in :
      (m : Mem) (h : EnoughMem m) (k : (k : ℕ) → m.note_allocs k ≡ (true, true)) (f : Name)
      (q : ElfFileDescr ⊎ ℤ)
      → process_elf_file m open_file (some f) ≡ done q
      → Collects m h k open_file q (symbols f)
  collects_in m h k f q e =
      let (p, run, c) = symbols_collected m h k open_file f (symbols f) (says f) in
      let same : p ≡ q = let both = flip run ∙ e in ground arith in
      subst (λ x. Collects m h k open_file x (symbols f)) same c

  collects : (f : Name) → Collects (mem f) (enough f) (note_mem f) open_file (parse f) (symbols f)
  collects f = collects_in (mem f) (enough f) (note_mem f) f (parse f) (parses f)

  -- A producer that has memory sends the names of all symbols that its file imports, and any
  -- producer only such names.
  sends_all : (f : Name) → HasMem (thread_mem f) → undefined_of f ≡ all_names imported (symbols f)
  sends_all f (h, k) =
      ap or_none ((collects_in (thread_mem f) h k f (parsed f) (thread_parses f)).1)

  sends_only : (f n : Name) → In n (undefined_of f) → Imports f n
  sends_only f n i = elim (mem_or_error f) [
    | inl has ↦ (all_names_iff imported (symbols f) n).0 (subst (In n) (sends_all f has) i)
    | inr failed ↦
        let (rc, e) = failed in
        let empty : undefined_of f ≡ [] = ap (λ p. or_none (imports p)) e in
        absurd (subst (In n) empty i)
  ]

  -- A search of a library path that succeeded, from an empty cache.
  module _ (opendir : Name → List DirEntry ⊎ ℤ) (regexec : Name → ℤ) (heap : ℕ → sym_avl.Tree)
      (next fuel : ℕ) (dir : Name) (deep : HasDepth opendir regexec fuel dir) (rc : ℤ)
      (c : SymCache sym_avl lib_avl)
      (searched : search_for_lib opendir regexec
          (populated sym_avl lib_avl a parse)
          fuel
          dir
          (some (record { cache = lib_avl.init; heap = heap; next = next }))
        ≡ some (rc, some c))
      (success : rc_is_success rc ≡ true) (exe : Name) where
    abbrev pub IsLib : Name → Type 0
    IsLib = IsLibPath opendir regexec dir

    abbrev pub IsNeeded : Name → Type 0
    IsNeeded = Needs undefined_of (check_sym_cache sym_avl lib_avl c) exe

    abbrev pub Reachable : System sym_avl → Type 0
    Reachable = Reach sym_avl undefined_of (check_sym_cache sym_avl lib_avl c) exe

    -- The cache records just what the library files export.
    recorded : FilledFrom sym_avl lib_avl a parse ins ok defined_by (λ f. (collects f).0) IsLib rc c
    recorded =
        let (rc', c', run, filled) =
          search_fills sym_avl lib_avl a parse ins ok defined_by (λ f. (collects f).0) opendir
            regexec heap next fuel dir deep in
        let same : ◌≡◌ {A = ℤ × SymCache sym_avl lib_avl} (rc', c') (rc, c) =
          let e = flip run ∙ searched in ground arith in
        subst
          (λ x.
            FilledFrom sym_avl lib_avl a parse ins ok defined_by (λ f. (collects f).0) IsLib x.0
              x.1)
          same filled

    -- A library file below the directory defines the symbol, and is listed as a dependency.
    abbrev pub Found : Lists → Name → Type 0
    Found l n = (lib : Name) × IsLib lib × Exports lib n × In lib l.dependencies

    -- None does, and the symbol is listed as unresolved.
    abbrev pub Missed : Lists → Name → Type 0
    Missed l n = ((lib : Name) → IsLib lib → Exports lib n → ⊥) × In n l.unresolved

    found_in :
        (n lib : Name) → check_sym_cache sym_avl lib_avl c n ≡ some lib → IsLib lib × Exports lib n
    found_in n lib e =
        let (is, m) = recorded.only lib n (check_sym_cache_sound sym_avl lib_avl c n lib e) in
        (is, (all_names_iff exported (symbols lib) n).0 m)

    not_exported :
        (n : Name)
        → check_sym_cache sym_avl lib_avl c n ≡ none
        → (lib : Name) → IsLib lib
        → Exports lib n
        → ⊥
    not_exported n e lib is x =
        let there = recorded.all success lib n is ((all_names_iff exported (symbols lib) n).1 x) in
        cc (flip there ∙ check_sym_cache_complete sym_avl lib_avl c n e lib)

    -- Where each file is an ELF file with the symbols it says, or cannot be opened, nothing fails to
    -- be allocated while the cache is filled, the process_elf_file of each producer gets the memory
    -- that it asks for or fails, names can be copied, and the search of the library path
    -- succeeded: once the consumer has left its loop with success, each producer has signed off and
    -- the buffer is empty, the two lists are printed, and for each symbol that a needed file imports
    -- whose producer got its memory, they have among the dependencies a library file below the
    -- directory that exports it, or no such file exports it and they have it among the unresolved
    -- symbols. (A file is needed if it is the executable, or a library found for a symbol that the
    -- producer of a needed file sends.)
    pub reported_complete :
        {s : System sym_avl}
        → Reachable s
        → IsQuiet sym_avl undefined_of (check_sym_cache sym_avl lib_avl c) exe s
        → (l : Lists) × (print_lists sym_avl s.consumer ≡ some l)
          × ((f n : Name)
              → IsNeeded f
              → HasMem (thread_mem f)
              → Imports f n
              → Found l n ⊎ Missed l n)
    unfolding print_lists
    reported_complete {s} r quiet = (
      record {
        dependencies = sym_avl.walk s.consumer.dependency;
        unresolved = sym_avl.walk s.consumer.undefined_sym;
      },
      let left = quiet.left in rw left refl,
      λ f n need has i.
          elim (report_complete sym_avl undefined_of (check_sym_cache sym_avl lib_avl c) exe r quiet
            n
            (
              f,
              need,
              subst (In n) (flip (sends_all f has)) ((all_names_iff imported (symbols f) n).1 i),
            )) [
              | resolved {lib} e d ↦
                  let (is, x) = found_in n lib e in
                  inl (lib, is, x, (walk_iff sym_avl s.consumer.dependency lib).1 d)
              | unresolved e u ↦
                  inr (not_exported n e, (walk_iff sym_avl s.consumer.undefined_sym n).1 u)
            ],
    )

    -- A library file below the directory that exports a symbol which a needed file imports.
    abbrev pub Uses : Name → Type 0
    Uses lib = IsLib lib × ((f n : Name) × IsNeeded f × Imports f n × Exports lib n)

    needed_lib : (lib : Name) → IsNeeded lib → (lib ≡ exe) ⊎ Uses lib
    needed_lib lib root = inl refl
    needed_lib lib (dep {f} {sym = n} need i e) =
        let (is, x) = found_in n lib e in inr (is, (f, n, need, sends_only f n i, x))

    -- Under the same conditions on the files, the cache, the producers' memory and the search, in
    -- every interleaving, whatever the consumer fails to allocate and whichever producers fail in
    -- process_elf_file: of the lists that are printed, each dependency is the
    -- executable, or a library file below the directory that exports a symbol which a needed file
    -- imports; and each unresolved symbol is imported by a needed file and exported by none of the
    -- library files.
    pub reported_sound :
        {s : System sym_avl} (l : Lists)
        → Reachable s
        → print_lists sym_avl s.consumer ≡ some l
        → ((lib : Name) → In lib l.dependencies → (lib ≡ exe) ⊎ Uses lib)
          × ((n : Name)
              → In n l.unresolved
              → ((f : Name) × IsNeeded f × Imports f n)
                × ((lib : Name) → IsLib lib → Exports lib n → ⊥))
    reported_sound {s} l r printed =
        let (deps, missing) =
          report_sound sym_avl undefined_of (check_sym_cache sym_avl lib_avl c) exe r in
        let both = printed_lists sym_avl s.consumer l printed in
        (
          λ lib m. needed_lib lib (
              deps lib (
                (walk_iff sym_avl s.consumer.dependency lib).0
                  (subst (λ k. In lib k.dependencies) both m))),
          λ n m.
              let ((f, need, i), e) = missing n (
                (walk_iff sym_avl s.consumer.undefined_sym n).0
                  (subst (λ k. In n k.unresolved) both m)) in
              ((f, need, sends_only f n i), not_exported n e),
        )
