-- ===== src/Elf/Symbol/Binding.antt =====
-- The tests on a symbol (elf_lib_funcs.c) against its `st_info` and `st_shndx`.
use libscout.Prelude.{
  ℕ, zero, suc, ◌+◌, ◌/◌, ◌≤◌, ◌<◌, ◌≡◌, refl, Bool, true, false, not, some, [], ◌∷◌, length, ◌==◌,
  pos, to_int, arith,
}
use libscout.Elf.Memory.{Region, load, load_field, load_field_total, st_info, st_shndx}
use libscout.Elf.Descr.{ElfFileDescr}
use libscout.Elf.Symbol.{
  SymEntry, elf_sym_is_defined, elf_sym_get_st_info, elf_sym_is_weak, elf_sym_is_local,
  elf_sym_is_global, get_elf_sym_tab_entry_size,
}

abbrev pub IsBytes : Region → Type 0
IsBytes [] = Unit
IsBytes (b ∷ bs) = (b < 256) × IsBytes bs

byte_lt : (r : Region) (off : ℕ) → IsBytes r → {v : ℕ} → load r off 1 ≡ some v → v < 256
unfolding load
byte_lt [] off h e = ground arith
byte_lt (b ∷ r) zero h e = ground arith
byte_lt (b ∷ r) (suc off) h e = byte_lt r off h.1 (ground arith)

small_to_int : (v : ℕ) → v < 256 → to_int v ≡ pos v
small_to_int v h = ground arith

-- The entry lies inside the symbol table.
abbrev pub Fits : ElfFileDescr → SymEntry → Type 0
Fits d entry = entry.offset + get_elf_sym_tab_entry_size d ≤ length entry.table

info_at :
    (d : ElfFileDescr) (entry : SymEntry)
    → IsBytes entry.table
    → Fits d entry
    → (info : ℕ) × (info < 256) × (elf_sym_get_st_info (some d) entry ≡ some (pos info))
unfolding elf_sym_get_st_info get_elf_sym_tab_entry_size load_field
info_at d entry bytes fits = go d.is_64bit refl
  where
    go :
        (b : Bool)
        → d.is_64bit ≡ b
        → (info : ℕ) × (info < 256) × (elf_sym_get_st_info (some d) entry ≡ some (pos info))
    go true e =
        let (v, at) = load_field_total true st_info entry.table entry.offset (ground arith) in
        (
          v,
          byte_lt entry.table (entry.offset + 4) bytes at,
          rw
              (
                e,
                at,
                small_to_int v (omega (arith, byte_lt entry.table (entry.offset + 4) bytes at)),
              )
              refl,
        )
    go false e =
        let (v, at) = load_field_total false st_info entry.table entry.offset (ground arith) in
        (
          v,
          byte_lt entry.table (entry.offset + 12) bytes at,
          rw
              (
                e,
                at,
                small_to_int v (omega (arith, byte_lt entry.table (entry.offset + 12) bytes at)),
              )
              refl,
        )

shndx_at :
    (d : ElfFileDescr) (entry : SymEntry)
    → Fits d entry
    → (v : ℕ) × (load_field d.is_64bit st_shndx entry.table entry.offset ≡ some v)
unfolding get_elf_sym_tab_entry_size
shndx_at d entry fits = go d.is_64bit refl
  where
    go :
        (b : Bool)
        → d.is_64bit ≡ b
        → (v : ℕ) × (load_field d.is_64bit st_shndx entry.table entry.offset ≡ some v)
    go true e = rw e (load_field_total true st_shndx entry.table entry.offset (ground arith))
    go false e = rw e (load_field_total false st_shndx entry.table entry.offset (ground arith))

-- For an entry inside a table of bytes, in both classes of files, no test reads outside the table;
-- the three tests of the binding compare the high half of `st_info` with 0, 1 and 2, so at most one
-- of them holds, and a symbol is defined exactly if its section index is not 0.
symbol_tests :
    (d : ElfFileDescr) (entry : SymEntry)
    → IsBytes entry.table
    → Fits d entry
    → (info shndx : ℕ) × (elf_sym_get_st_info (some d) entry ≡ some (pos info))
      × (load_field d.is_64bit st_shndx entry.table entry.offset ≡ some shndx)
      × (elf_sym_is_local (some d) entry ≡ some (info / 16 == 0))
      × (elf_sym_is_global (some d) entry ≡ some (info / 16 == 1))
      × (elf_sym_is_weak (some d) entry ≡ some (info / 16 == 2))
      × (elf_sym_is_defined (some d) entry ≡ some (not (shndx == 0)))
unfolding elf_sym_is_local elf_sym_is_global elf_sym_is_weak elf_sym_is_defined
symbol_tests d entry bytes fits =
    let (info, small, at) = info_at d entry bytes fits in
    let (shndx, sat) = shndx_at d entry fits in (info, shndx, at, sat, rw at, rw at, rw at, rw sat)
