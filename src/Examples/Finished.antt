-- ===== src/Examples/Finished.antt =====
-- The search of a directory with one library file, and a run of the resolver after it.
use libscout.Prelude.{
  ◌≡◌, refl, true, some, ◌⊎◌, inl, inr, List, [], ◌∷◌, In, Name, name_eq, ℤ, exit_success, subst,
}
use libscout.Buffer.{new_buffer, buffer_is_empty, send_sym_to_buffer, receive_sym}
use libscout.Iter.{iterator_init, iterator_next, visit}
use libscout.Elf.Memory.{load, load_field}
use libscout.Elf.Symbol.{
  get_elf_sym_tab_entry_size, elf_sym_get_st_name, elf_sym_get_st_info, elf_sym_is_local,
  elf_sym_is_global, elf_sym_is_defined, has_binding,
}
use libscout.Elf.Strings.{
  get_elf_strtab_indx, elf_sym_get_string, str_from, get_elf_str_from_table, string_end, scan_table,
}
use libscout.Elf.DynSym.{
  is_export, is_import, kept_name, entry_name, entries, table_names, tables_names, dynsym_names,
}
use libscout.Cache.{
  SymCache, init_tree, store_sym, store_new_lib, store_sym_in_tree, check_nodes, check_sym_cache,
}
use libscout.Cache.Populate.{store_all, get_sym, populate_cache}
use libscout.Search.{DirEntry, new_lib_path, visit_file, visit_entry, read_entries, search_for_lib}
use libscout.Search.Found.{IsSubdir, IsLibPath, HasDepth, readable}
use libscout.Resolve.{
  System, send, finish, receive, leave, create, count, Reach, here, next, finish_producer,
  count_producer, handle_sym, add_sym_to_tree,
}
use libscout.Resolve.Running.{running_count}
use libscout.Resolve.Printed.{Lists, print_lists}
use libscout.Resolve.Needs.{Needs}
use libscout.Resolve.Complete.{IsQuiet}
use libscout.Filled.{populated}
use libscout.EndToEnd.{HasMem, MemOrError}
use libscout.EndToEnd.Report.{undefined_of, reported_complete, reported_sound}
use libscout.Elf.DynSym.Exact.{exported, imported}
use libscout.Elf.DynSym.Named.{HasSymbol}
use libscout.Examples.ListTree.{find_key, add_new}
use libscout.Examples.Data.{foo}
use libscout.Examples.Image.{enough_mem}
use libscout.Examples.Caches.{syms, libs, all_ok, inserts, allocs_work}
use libscout.Examples.Reads.{enough_mem-EnoughMem}
use libscout.Examples.Reported.{lib_a, prog, open_file, symbols, parse, says, parses}

abbrev top : Name
top = 108 ∷ []

abbrev entry : DirEntry
entry = record { d_type = 8; d_name = 97 ∷ [] }

abbrev opendir : Name → List DirEntry ⊎ ℤ
opendir p = inl (entry ∷ [])

abbrev regexec : Name → ℤ
regexec n = exit_success

top-HasDepth : HasDepth opendir regexec 1 top
top-HasDepth = readable refl no_subdir
  where
    no_subdir :
        (e : DirEntry)
        → In e (entry ∷ [])
        → IsSubdir e
        → HasDepth opendir regexec 0 (new_lib_path top e.d_name)
    no_subdir e (inl q) s = absurd (let f = subst IsSubdir q s in cc f.0)
    no_subdir e (inr m) s = elim m [ ]

-- The cache after the search has the library with `foo`.
searched :
    (c : SymCache syms libs) × (search_for_lib opendir regexec
        (populated syms libs (λ _. all_ok) parse)
        1
        top
        (some (record { cache = libs.init; heap = λ _. syms.init; next = 0 }))
      ≡ some (exit_success, some c))
unfolding search_for_lib read_entries visit_entry visit_file new_lib_path populate_cache get_sym
    store_all store_sym_in_tree store_new_lib store_sym init_tree find_key add_new parse name_eq
    dynsym_names tables_names table_names entries entry_name kept_name is_export elf_sym_get_string
    str_from get_elf_str_from_table string_end scan_table get_elf_strtab_indx elf_sym_get_st_name
    elf_sym_get_st_info elf_sym_is_local elf_sym_is_defined has_binding get_elf_sym_tab_entry_size
    iterator_init iterator_next visit load load_field
searched = (_, refl)

has_mem : (f : Name) → MemOrError enough_mem (parse f)
has_mem f = inl (enough_mem-EnoughMem, λ k. refl)

abbrev undefined : Name → List Name
undefined =
    undefined_of syms libs inserts (λ _. all_ok) allocs_work (λ f. enough_mem)
      (λ f. enough_mem-EnoughMem) (λ f k. refl) open_file symbols says parse parses
      (λ f. enough_mem) parse parses has_mem

finds_foo : check_sym_cache syms libs searched.0 foo ≡ some lib_a
unfolding searched check_sym_cache check_nodes find_key name_eq
finds_foo = refl

-- `foo` is found in the library, whose producer sends nothing.
run :
    (s : System syms) × Reach syms undefined (check_sym_cache syms libs searched.0) prog s
    × IsQuiet syms undefined (check_sym_cache syms libs searched.0) prog s
unfolding symbols searched check_sym_cache check_nodes new_buffer buffer_is_empty send_sym_to_buffer
    receive_sym finish_producer count_producer handle_sym add_sym_to_tree find_key add_new
    running_count name_eq parse dynsym_names tables_names table_names entries entry_name kept_name
    is_import elf_sym_get_string str_from get_elf_str_from_table string_end scan_table
    get_elf_strtab_indx elf_sym_get_st_name elf_sym_get_st_info elf_sym_is_global elf_sym_is_defined
    has_binding get_elf_sym_tab_entry_size iterator_init iterator_next visit load load_field
run =
    let created = next (next here (create refl)) (count refl) in
    let received = next (next created (send 0 refl refl refl)) (receive true refl refl) in
    let second = next (next received (create refl)) (count refl) in
    let finished = next (next second (finish 0 refl refl)) (finish 1 refl refl) in
    (
      _,
      next finished (leave refl refl refl),
      record { left = refl; signed_off = refl; drained = refl },
    )

-- The library is listed for `foo`.
abbrev lists : Lists
lists = record {
  dependencies = syms.walk run.0.consumer.dependency;
  unresolved = syms.walk run.0.consumer.undefined_sym;
}

reported_complete_example :
    (l : Lists) × (print_lists syms run.0.consumer ≡ some l)
    × ((f n : Name)
        → Needs undefined (check_sym_cache syms libs searched.0) prog f
        → HasMem enough_mem
        → HasSymbol imported (symbols f) n
        → ((lib : Name) × IsLibPath opendir regexec top lib
            × HasSymbol exported (symbols lib) n
            × In lib l.dependencies)
          ⊎ (((lib : Name)
                → IsLibPath opendir regexec top lib
                → HasSymbol exported (symbols lib) n
                → ⊥)
              × In n l.unresolved))
reported_complete_example =
    reported_complete syms libs inserts (λ _. all_ok) allocs_work (λ f. enough_mem)
      (λ f. enough_mem-EnoughMem) (λ f k. refl) open_file symbols says parse parses
      (λ f. enough_mem) parse parses has_mem opendir regexec (λ _. syms.init) 0 1 top top-HasDepth
      exit_success searched.0 searched.1 refl prog run.1 run.2

printed : print_lists syms run.0.consumer ≡ some lists
unfolding run print_lists
printed = refl

-- They are the executable's library, and no symbol.
lists_lem : lists ≡ record { dependencies = lib_a ∷ []; unresolved = [] }
unfolding run symbols searched check_sym_cache check_nodes new_buffer send_sym_to_buffer receive_sym
    handle_sym add_sym_to_tree find_key add_new name_eq parse dynsym_names tables_names table_names
    entries entry_name kept_name is_import elf_sym_get_string str_from get_elf_str_from_table
    string_end scan_table get_elf_strtab_indx elf_sym_get_st_name elf_sym_get_st_info
    elf_sym_is_global elf_sym_is_defined has_binding get_elf_sym_tab_entry_size iterator_init
    iterator_next visit load load_field
lists_lem = refl

reported_sound_example :
    ((lib : Name)
      → In lib lists.dependencies
      → (lib ≡ prog)
        ⊎ (IsLibPath opendir regexec top lib
            × ((f n : Name) × Needs undefined (check_sym_cache syms libs searched.0) prog f
                × HasSymbol imported (symbols f) n
                × HasSymbol exported (symbols lib) n)))
    × ((n : Name)
        → In n lists.unresolved
        → ((f : Name) × Needs undefined (check_sym_cache syms libs searched.0) prog f
            × HasSymbol imported (symbols f) n)
          × ((lib : Name)
              → IsLibPath opendir regexec top lib
              → HasSymbol exported (symbols lib) n
              → ⊥))
reported_sound_example =
    reported_sound syms libs inserts (λ _. all_ok) allocs_work (λ f. enough_mem)
      (λ f. enough_mem-EnoughMem) (λ f k. refl) open_file symbols says parse parses
      (λ f. enough_mem) parse parses has_mem opendir regexec (λ _. syms.init) 0 1 top top-HasDepth
      exit_success searched.0 searched.1 refl prog lists run.1 printed
