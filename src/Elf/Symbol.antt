-- ===== src/Elf/Symbol.antt =====
-- The accessors of symbol table entries, and the tests on a symbol (elf_lib_funcs.c).
pub mod Binding
use libscout.Prelude.{
  ℕ, ◌+◌, ◌*◌, ◌/◌, ◌^◌, ◌≤◌, ◌<◌, ◌≡◌, refl, ◌⊎◌, inl, inr, Bool, true, false, not, ◌&&◌, Option,
  none, some, ◌>>=◌, ◌==◌, ℤ, pos, negsuc, int_eq, to_int, arith,
}
use libscout.Elf.Memory.{Region, load_field, st_name, st_info, st_shndx}
use libscout.Elf.Descr.{ElfFileDescr}

-- A pointer to an entry: the symbol table's object and the entry's offset in it.
pub record SymEntry : Type 0 where
  pub table : Region
  pub offset : ℕ

abbrev pub stb_local : ℕ
stb_local = 0

abbrev pub stb_global : ℕ
stb_global = 1

abbrev pub stb_weak : ℕ
stb_weak = 2

abbrev pub shn_undef : ℕ
shn_undef = 0

-- `get_elf_sym_tab_entry_size`, and `entry_size` of the loops over symbols
unfoldable pub get_elf_sym_tab_entry_size : ElfFileDescr → ℕ
get_elf_sym_tab_entry_size d = elim d.is_64bit [ true ↦ 24 | false ↦ 16 ]

unfoldable pub elf_sym_is_defined : Option ElfFileDescr → SymEntry → Option Bool
elf_sym_is_defined none entry = some false
elf_sym_is_defined (some d) entry =
    load_field d.is_64bit st_shndx entry.table entry.offset >>= λ v. some (not (v == shn_undef))

unfoldable pub elf_sym_get_st_name : Option ElfFileDescr → SymEntry → Option ℤ
elf_sym_get_st_name none entry = some (negsuc 0)
elf_sym_get_st_name (some d) entry =
    load_field d.is_64bit st_name entry.table entry.offset >>= λ v. some (to_int v)

unfoldable pub elf_sym_get_st_info : Option ElfFileDescr → SymEntry → Option ℤ
elf_sym_get_st_info none entry = some (negsuc 0)
elf_sym_get_st_info (some d) entry =
    load_field d.is_64bit st_info entry.table entry.offset >>= λ v. some (to_int v)

-- `x >> 4` on an `int`, as gcc defines it for negative values.
abbrev pub shift_right4 : ℤ → ℤ
shift_right4 (pos n) = pos (n / 16)
shift_right4 (negsuc n) = negsuc (n / 16)

unfoldable pub has_binding : ℕ → Option ElfFileDescr → SymEntry → Option Bool
unfolding elf_sym_get_st_info
has_binding b none entry = some false
has_binding b (some d) entry =
    elf_sym_get_st_info (some d) entry >>= λ info. some (int_eq (shift_right4 info) (pos b))

unfoldable pub elf_sym_is_weak : Option ElfFileDescr → SymEntry → Option Bool
unfolding has_binding
elf_sym_is_weak d entry = has_binding stb_weak d entry

unfoldable pub elf_sym_is_local : Option ElfFileDescr → SymEntry → Option Bool
unfolding has_binding
elf_sym_is_local d entry = has_binding stb_local d entry

unfoldable pub elf_sym_is_global : Option ElfFileDescr → SymEntry → Option Bool
unfolding has_binding
elf_sym_is_global d entry = has_binding stb_global d entry
