-- ===== src/Elf/DynSym/Collected.antt =====
-- What the loops over the dynamic symbols (sym_cache.c, libscout.c) collect, against the symbols that
-- the tables hold.
use libscout.Prelude.{
  ℕ, suc, ◌+◌, ◌<◌, ◌≡◌, refl, ◌∙◌, ap, Bool, true, false, ◌&&◌, some, List, [], ◌∷◌, length, Name,
  if◌then◌else◌, Bool-cases, inl, inr, pos, exit_success, arith,
}
use libscout.Iter.{Iterator, iterator_init}
use libscout.Iter.Walk.{addresses, visit_all}
use libscout.Elf.Memory.{Region}
use libscout.Elf.Descr.{ElfFileDescr, ElfSymTbl}
use libscout.Elf.Symbol.{SymEntry, get_elf_sym_tab_entry_size}
use libscout.Elf.Strings.{str_from, elf_sym_get_string}
use libscout.Elf.Strings.Reads.{get_elf_str_from_table_lem}
use libscout.Elf.DynSym.{
  Keep, kept_name, entry_name, entries, table_names, tables_names, dynsym_names,
}
use libscout.Elf.DynSym.Exact.{
  Symbol, has_name, names_of, all_names, IsSymbol, HasDynstr, Entries, DynTable, Tables, Tests,
}

some_entry_size : (d : ElfFileDescr) → 0 < get_elf_sym_tab_entry_size d
unfolding get_elf_sym_tab_entry_size
some_entry_size d = positive d.is_64bit
  where
    positive : (b : Bool) → 0 < (elim b as (λ _. ℕ) [ true ↦ 24 | false ↦ 16 ])
    positive true = omega arith
    positive false = omega arith

module _ (keep : Keep) (wanted : Symbol → Bool) (tests : Tests keep wanted) (d : ElfFileDescr)
    (strings : Region) (h : HasDynstr d strings) where
  -- The name of the symbol is found.
  string_found :
      (entry : SymEntry) (s : Symbol) (i : IsSymbol d strings entry s)
      → elf_sym_get_string true d true (pos i.at) ≡ some (exit_success, some s.name)
  unfolding elf_sym_get_string str_from
  string_found entry s i =
      rw (h.found, h.is_tbl, h.table, h.sized, elf_sym_get_string)
        (get_elf_str_from_table_lem true strings i.at ∙ rw (i.named) refl)

  kept_one :
      (entry : SymEntry) (s : Symbol)
      → IsSymbol d strings entry s
      → kept_name keep d entry (exit_success, some s.name)
        ≡ some (if has_name s.name && wanted s then s.name ∷ [] else [])
  unfolding kept_name
  kept_one entry s i = go s.name (tests d strings entry s i)
    where
      go :
          (n : Name)
          → keep d entry ≡ some (wanted s)
          → kept_name keep d entry (exit_success, some n)
            ≡ some (if has_name n && wanted s then n ∷ [] else [])
      go [] e = refl
      go (b ∷ bs) e = rw (e, kept_name) refl

  entry_name-found :
      (entry : SymEntry) (s : Symbol)
      → IsSymbol d strings entry s
      → entry_name keep d entry ≡ some (if has_name s.name && wanted s then s.name ∷ [] else [])
  unfolding entry_name
  entry_name-found entry s i =
      rw (i.st_name, string_found entry s i, entry_name) (kept_one entry s i)

  entries-found :
      (table : Region) (i : ℕ) (ss : List Symbol)
      → Entries d strings table i ss
      → entries keep d table (addresses 0 (get_elf_sym_tab_entry_size d) i (length ss))
        ≡ some (names_of wanted ss)
  unfolding entries
  entries-found table i [] holds = refl
  entries-found table i (s ∷ ss) (first, others) =
      rw (entry_name-found _ s first, entries-found table (i + 1) ss others, entries)
        (elim (Bool-cases (has_name s.name && wanted s)) [
          | inl kept ↦ rw kept refl
          | inr dropped ↦ rw dropped refl
        ])

  table_names-found :
      (t : ElfSymTbl) (ss : List Symbol)
      → DynTable d strings t ss
      → table_names keep d t ≡ some (names_of wanted ss)
  unfolding table_names iterator_init
  table_names-found t ss x =
      let size = get_elf_sym_tab_entry_size d in
      let positive = some_entry_size d in
      let any = x.any in
      let iter : Iterator = record {
        base_address = 0;
        element_size = size;
        total_number = length ss;
        current_index = 0;
      } in
      let made : iterator_init true (some 0) size (length ss) ≡ some iter = ground arith in
      rw (x.dynamic, x.has_table, x.counted, table_names)
        (rw (made, table_names)
          (ap (entries keep d x.table)
              (visit_all (suc (length ss)) 0 size (length ss) made (omega arith))
            ∙ entries-found x.table 0 ss x.holds))

  tables_names-found :
      (ts : List ElfSymTbl) (sss : List (List Symbol))
      → Tables d strings ts sss
      → tables_names keep d ts ≡ some (all_names wanted sss)
  unfolding tables_names table_names
  tables_names-found [] [] x = refl
  tables_names-found [] (ss ∷ sss) x = elim x [ ]
  tables_names-found (t ∷ ts) [] (static, x) =
      rw (static, tables_names-found ts [] x, tables_names, table_names) refl
  tables_names-found (t ∷ ts) (ss ∷ sss) x = elim (Bool-cases t.is_dynamic) [
    | inl dynamic ↦
        let (first, others) = rw dynamic at x in
        rw (table_names-found t ss first, tables_names-found ts sss others, tables_names) refl
    | inr static ↦
        rw (static, tables_names-found ts (ss ∷ sss) (rw static at x), tables_names, table_names)
          refl
  ]

  -- Where the dynamic symbol tables of a descriptor hold given symbols, each with a name in its
  -- ".dynstr" table, the loops end without a fault, and collect the names of just the symbols that
  -- pass the test of the client and have a name that is not empty, in order.
  pub dynsym_names_lem :
      (sss : List (List Symbol))
      → Tables d strings d.elf_sym_tbls sss
      → dynsym_names keep d ≡ some (all_names wanted sss)
  unfolding dynsym_names
  dynsym_names_lem sss x = tables_names-found d.elf_sym_tbls sss x
