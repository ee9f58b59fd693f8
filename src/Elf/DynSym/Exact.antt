-- ===== src/Elf/DynSym/Exact.antt =====
-- The loops over the dynamic symbols (sym_cache.c, libscout.c) on a descriptor whose dynamic symbol
-- tables hold given symbols: no read faults, and the names of just the symbols wanted are collected.
use libscout.Prelude.{
  ℕ, ◌+◌, ◌*◌, ◌/◌, ◌<◌, ◌≡◌, refl, Bool, true, false, not, ◌&&◌, ◌==◌, some, List, [], ◌∷◌, ◌++◌,
  length, get_elem?, drop, Name, if◌then◌else◌, pos, to_int, exit_success, arith,
}
use libscout.Elf.Memory.{Region, load_field, st_info, st_shndx}
use libscout.Elf.Descr.{ElfFileDescr, ElfStrTbl, ElfSymTbl}
use libscout.Elf.Symbol.{
  SymEntry, stb_local, stb_global, shn_undef, get_elf_sym_tab_entry_size, elf_sym_get_st_name,
  elf_sym_get_st_info, elf_sym_is_local, elf_sym_is_global, elf_sym_is_defined, has_binding,
}
use libscout.Elf.Strings.{dynstr, get_elf_strtab_indx}
use libscout.Elf.Strings.Reads.{c_string}
use libscout.Elf.DynSym.{Keep, is_export, is_import}

-- A symbol as the file has it.
pub record Symbol : Type 0 where
  pub name : Name
  pub info : ℕ
  pub shndx : ℕ

abbrev pub binding : Symbol → ℕ
binding s = s.info / 16

abbrev pub is_defined : Symbol → Bool
is_defined s = not (s.shndx == shn_undef)

abbrev pub exported : Symbol → Bool
exported s = not (binding s == stb_local) && is_defined s

abbrev pub imported : Symbol → Bool
imported s = binding s == stb_global && not (is_defined s)

abbrev pub has_name : Name → Bool
has_name [] = false
has_name (b ∷ bs) = true

-- The names, as far as they are not empty, of the symbols that are wanted.
abbrev pub names_of : (Symbol → Bool) → List Symbol → List Name
names_of wanted [] = []
names_of wanted (s ∷ ss) =
    let rest = names_of wanted ss in if has_name s.name && wanted s then s.name ∷ rest else rest

abbrev pub all_names : (Symbol → Bool) → List (List Symbol) → List Name
all_names wanted [] = []
all_names wanted (ss ∷ tables) = names_of wanted ss ++ all_names wanted tables

-- The entry is that of the symbol, whose name lies in the table of strings.
pub record IsSymbol (d : ElfFileDescr) (strings : Region) (entry : SymEntry) (s : Symbol)
    : Type 0 where
  pub at : ℕ
  pub st_name : elf_sym_get_st_name (some d) entry ≡ some (pos at)
  pub named : c_string (drop at strings) ≡ some s.name
  pub info : load_field d.is_64bit st_info entry.table entry.offset ≡ some s.info
  pub one_byte : s.info < 256
  pub shndx : load_field d.is_64bit st_shndx entry.table entry.offset ≡ some s.shndx

-- The first string table named ".dynstr".
pub record HasDynstr (d : ElfFileDescr) (strings : Region) : Type 0 where
  pub indx : ℕ
  pub found : get_elf_strtab_indx d.elf_str_tbls dynstr 0 ≡ some (exit_success, indx)
  pub tbl : ElfStrTbl
  pub is_tbl : get_elem? d.elf_str_tbls indx ≡ some tbl
  pub table : tbl.elf_str_table ≡ some strings
  pub sized : tbl.elf_str_tbl_size ≡ pos (length strings)

module _ (d : ElfFileDescr) (strings : Region) where
  -- The entries from the `i`th on.
  abbrev pub Entries : Region → ℕ → List Symbol → Type 0
  Entries table i [] = Unit
  Entries table i (s ∷ ss) =
      IsSymbol d strings (record { table = table; offset = 0 + get_elf_sym_tab_entry_size d * i }) s
      × Entries table (i + 1) ss

  -- A dynamic table that is not empty.
  pub record DynTable (t : ElfSymTbl) (ss : List Symbol) : Type 0 where
    pub dynamic : t.is_dynamic ≡ true
    pub table : Region
    pub has_table : t.elf_sym_table ≡ some table
    pub counted : t.elf_sym_tbl_num_entry ≡ pos (length ss)
    pub any : 0 < length ss
    pub holds : Entries table 0 ss

  -- The dynamic tables among the given ones, in order.
  abbrev pub Tables : List ElfSymTbl → List (List Symbol) → Type 0
  Tables [] [] = Unit
  Tables [] (ss ∷ sss) = ⊥
  Tables (t ∷ ts) [] = (t.is_dynamic ≡ false) × Tables ts []
  Tables (t ∷ ts) (ss ∷ sss) = elim t.is_dynamic [
    | true ↦ DynTable t ss × Tables ts sss
    | false ↦ Tables ts (ss ∷ sss)
  ]

-- The client's test is that on the symbol.
abbrev pub Tests : Keep → (Symbol → Bool) → Type 0
Tests keep wanted =
    (d : ElfFileDescr) (strings : Region) (entry : SymEntry) (s : Symbol)
    → IsSymbol d strings entry s
    → keep d entry ≡ some (wanted s)

defined_test :
    (d : ElfFileDescr) (strings : Region) (entry : SymEntry) (s : Symbol)
    → IsSymbol d strings entry s
    → elf_sym_is_defined (some d) entry ≡ some (is_defined s)
unfolding elf_sym_is_defined
defined_test d strings entry s h = rw (h.shndx, elf_sym_is_defined) refl

binding_test :
    (d : ElfFileDescr) (strings : Region) (entry : SymEntry) (s : Symbol) (b : ℕ)
    → IsSymbol d strings entry s
    → has_binding b (some d) entry ≡ some (binding s == b)
unfolding has_binding elf_sym_get_st_info
binding_test d strings entry s b h =
    let small = h.one_byte in
    let int : to_int s.info ≡ pos s.info = ground arith in
    rw (h.info, int, has_binding, elf_sym_get_st_info) (ground arith)

pub is_export-Tests : Tests is_export exported
unfolding is_export elf_sym_is_local
is_export-Tests d strings entry s h =
    rw (binding_test d strings entry s stb_local h, defined_test d strings entry s h, is_export)
      (ground arith)

pub is_import-Tests : Tests is_import imported
unfolding is_import elf_sym_is_global
is_import-Tests d strings entry s h =
    rw (binding_test d strings entry s stb_global h, defined_test d strings entry s h, is_import)
      (ground arith)
