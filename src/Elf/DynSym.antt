-- ===== src/Elf/DynSym.antt =====
-- The loops of `get_sym` (sym_cache.c) and `get_undefined_sym` (libscout.c) over the dynamic symbols
-- of a file.
pub mod Listed
pub mod Exact
pub mod Named
pub mod Collected
use libscout.Prelude.{
  ℕ, suc, Bool, true, false, not, Option, none, some, List, [], ◌∷◌, ◌++◌, Name, if◌then◌else◌,
  ◌>>=◌, ℤ, int_eq, to_u64, exit_success,
}
use libscout.Iter.{Iterator, iterator_init, visit}
use libscout.Elf.Memory.{Region}
use libscout.Elf.Descr.{ElfFileDescr, ElfSymTbl}
use libscout.Elf.Symbol.{
  SymEntry, get_elf_sym_tab_entry_size, elf_sym_is_local, elf_sym_is_global, elf_sym_is_defined,
  elf_sym_get_st_name,
}
use libscout.Elf.Strings.{Out, elf_sym_get_string}

-- A client's test on a named symbol.
abbrev pub Keep : Type 0
Keep = ElfFileDescr → SymEntry → Option Bool

-- `get_sym` caches what is not local and is defined.
unfoldable pub is_export : Keep
is_export d entry = elf_sym_is_local (some d) entry >>= λ local.
    if local then some false else elf_sym_is_defined (some d) entry

-- `get_undefined_sym` sends what is global and is not defined.
unfoldable pub is_import : Keep
is_import d entry = elf_sym_is_global (some d) entry >>= λ global.
    if global
    then (elf_sym_is_defined (some d) entry >>= λ defined. some (not defined))
    else some false

-- The names are collected in the order of the calls that store or send them; `none` is a fault.
abbrev pub Names : Type 0
Names = Option (List Name)

-- A symbol whose name cannot be found, or is empty, is passed over.
unfoldable pub kept_name : Keep → ElfFileDescr → SymEntry → Out → Names
kept_name keep d entry (rc, none) = some []
kept_name keep d entry (rc, some []) = some []
kept_name keep d entry (rc, some (b ∷ bs)) =
    if int_eq rc exit_success
    then (keep d entry >>= λ k. some (if k then (b ∷ bs) ∷ [] else []))
    else some []

unfoldable pub entry_name : Keep → ElfFileDescr → SymEntry → Names
unfolding kept_name
entry_name keep d entry = elf_sym_get_st_name (some d) entry >>= λ st_name.
    elf_sym_get_string true d true st_name >>= λ out. kept_name keep d entry out

-- The rounds of the loop, for the entries at the given offsets.
unfoldable pub entries : Keep → ElfFileDescr → Region → List ℕ → Names
unfolding entry_name
entries keep d table [] = some []
entries keep d table (offset ∷ offsets) =
    let rest = entries keep d table offsets in
    entry_name keep d (record { table = table; offset = offset }) >>= λ first.
    rest >>= λ others. some (first ++ others)

-- One symbol table. `iterator_next` is called on the result of `iterator_init` without a test, so an
-- empty or missing table faults.
unfoldable pub table_names : Keep → ElfFileDescr → ElfSymTbl → Names
unfolding entries
table_names keep d t = elim t.is_dynamic [
  | false ↦ some []
  | true ↦ t.elf_sym_table >>= λ table.
      iterator_init true (some 0) (get_elf_sym_tab_entry_size d) (to_u64 t.elf_sym_tbl_num_entry)
      >>= λ iter. entries keep d table (visit (suc (to_u64 t.elf_sym_tbl_num_entry)) iter)
]

unfoldable pub tables_names : Keep → ElfFileDescr → List ElfSymTbl → Names
unfolding table_names
tables_names keep d [] = some []
tables_names keep d (t ∷ ts) =
    let rest = tables_names keep d ts in
    table_names keep d t >>= λ first. rest >>= λ others. some (first ++ others)

unfoldable pub dynsym_names : Keep → ElfFileDescr → Names
unfolding tables_names
dynsym_names keep d = tables_names keep d d.elf_sym_tbls
