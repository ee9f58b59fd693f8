-- ===== src/EndToEnd.antt =====
-- The whole way from the bytes of the files to the report: process_elf_file (elf_lib_funcs.c), the
-- loops over the dynamic symbols (sym_cache.c, libscout.c), the search of the library path
-- (search_for_lib.c) and the resolver (libscout.c).
pub mod Report
use libscout.Prelude.{
  ◌≡◌, ◌≢◌, refl, ◌∙◌, sym as flip, ap, subst, ◌↔◌, ◌⊎◌, inl, inr, Bool, true, false, ◌&&◌,
  Bool-cases, Option, some, List, [], ◌∷◌, ◌++◌, In, In-append, append-In, Name, ℤ, pos,
  if◌then◌else◌, done, ℕ, arith,
}
use libscout.Elf.Memory.{Region}
use libscout.Elf.Descr.{ElfFileDescr}
use libscout.Elf.Cursor.{Disk, Mem}
use libscout.Elf.Cursor.Gets.{IsImage, EnoughMem}
use libscout.Elf.DynSym.{is_export, is_import, dynsym_names}
use libscout.Elf.DynSym.Exact.{
  Symbol, has_name, exported, imported, names_of, all_names, HasDynstr, Tables, is_export-Tests,
  is_import-Tests,
}
use libscout.Elf.DynSym.Collected.{dynsym_names_lem}
use libscout.Elf.File.{process_elf_file}
use libscout.Elf.File.Succeeds.{IsElfFile, process_elf_file_reads}
use libscout.Filled.{exports}
use libscout.Linked.{imports}

-- The file is a whole ELF file, whose dynamic symbol tables hold the symbols.
pub record HoldsSymbols (open_file : Name → Disk ⊎ ℤ) (f : Name) (sss : List (List Symbol))
    : Type 0 where
  pub disk : Disk
  pub opened : open_file f ≡ inl disk
  pub image : Region
  pub is : IsImage disk image
  pub descr : ElfFileDescr
  pub elf : IsElfFile image descr
  pub strings : Region
  pub names : HasDynstr descr strings
  pub holds : Tables descr strings descr.elf_sym_tbls sss

-- Or it cannot be opened, and has none.
abbrev pub Says : (Name → Disk ⊎ ℤ) → Name → List (List Symbol) → Type 0
Says open_file f sss =
    HoldsSymbols open_file f sss ⊎ ((errno : ℤ) × (open_file f ≡ inr errno) × (sss ≡ []))

-- `process_elf_file` gets all the memory that it asks for.
abbrev pub HasMem : Mem → Type 0
HasMem mem = EnoughMem mem × ((k : ℕ) → mem.note_allocs k ≡ (true, true))

-- It does, or it fails.
abbrev pub MemOrError : Mem → ElfFileDescr ⊎ ℤ → Type 0
MemOrError mem parsed = HasMem mem ⊎ ((rc : ℤ) × (parsed ≡ inr rc))

module _ (mem : Mem) (enough : EnoughMem mem)
    (note_mem : (k : ℕ) → mem.note_allocs k ≡ (true, true)) (open_file : Name → Disk ⊎ ℤ) where
  -- What the two clients collect of a file, given what `process_elf_file` makes of it.
  abbrev pub Collects : ElfFileDescr ⊎ ℤ → List (List Symbol) → Type 0
  Collects p sss =
      (exports p ≡ some (all_names exported sss)) × (imports p ≡ some (all_names imported sss))

  -- A file that holds given symbols, or that cannot be opened, is parsed to a descriptor or an errno;
  -- and of that, the one client collects the names of just the symbols that the file exports, and
  -- the other those of just the symbols that it imports, in order, if no allocation fails.
  pub symbols_collected :
      (f : Name) (sss : List (List Symbol))
      → Says open_file f sss
      → (p : ElfFileDescr ⊎ ℤ) × (process_elf_file mem open_file (some f) ≡ done p) × Collects p sss
  unfolding process_elf_file
  symbols_collected f sss (inl h) = (
    inl h.descr,
    process_elf_file_reads mem open_file f h.disk h.image h.descr enough note_mem h.opened h.is
        h.elf,
    (
      dynsym_names_lem is_export exported is_export-Tests h.descr h.strings h.names sss h.holds,
      dynsym_names_lem is_import imported is_import-Tests h.descr h.strings h.names sss h.holds,
    ),
  )
  symbols_collected f sss (inr (errno, closed, empty)) =
      (inr errno, rw (closed, process_elf_file) refl, (rw empty refl, rw empty refl))
