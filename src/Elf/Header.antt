-- ===== src/Elf/Header.antt =====
-- The accessors of the ELF header (elf_lib_funcs.c). The result `none` is a read outside the
-- header's object.
use libscout.Prelude.{
  ℕ, ◌+◌, ◌≤◌, ◌≡◌, Option, none, some, length, ◌>>=◌, ℤ, pos, negsuc, to_int, arith,
}
use libscout.Elf.Memory.{
  Region, Field, load_field, load_total, e_phoff, e_shoff, e_phentsize, e_phnum, e_shentsize,
  e_shnum, e_shstrndx, field_offset, field_width,
}
use libscout.Elf.Descr.{ElfFileDescr}

-- The common shape: a default for a NULL descriptor or header, and a field converted to `int`.
unfoldable pub hdr_field : Field → ℤ → Option ElfFileDescr → Option ℤ
hdr_field f otherwise none = some otherwise
hdr_field f otherwise (some d) = elim d.elf_hdr [
  | none ↦ some otherwise
  | some hdr ↦ load_field d.is_64bit f hdr 0 >>= λ v. some (to_int v)
]

unfoldable pub get_elf_hdr_phoff : Option ElfFileDescr → Option ℤ
unfolding hdr_field
get_elf_hdr_phoff d = hdr_field e_phoff (pos 0) d

unfoldable pub get_elf_hdr_phnum : Option ElfFileDescr → Option ℤ
unfolding hdr_field
get_elf_hdr_phnum d = hdr_field e_phnum (pos 0) d

unfoldable pub get_elf_hdr_phentsize : Option ElfFileDescr → Option ℤ
unfolding hdr_field
get_elf_hdr_phentsize d = hdr_field e_phentsize (pos 0) d

unfoldable pub get_elf_hdr_shoff : Option ElfFileDescr → Option ℤ
unfolding hdr_field
get_elf_hdr_shoff d = hdr_field e_shoff (pos 0) d

unfoldable pub get_elf_hdr_shnum : Option ElfFileDescr → Option ℤ
unfolding hdr_field
get_elf_hdr_shnum d = hdr_field e_shnum (pos 0) d

unfoldable pub get_elf_hdr_shentsize : Option ElfFileDescr → Option ℤ
unfolding hdr_field
get_elf_hdr_shentsize d = hdr_field e_shentsize (pos 0) d

unfoldable pub get_elf_hdr_shstrndx : Option ElfFileDescr → Option ℤ
unfolding hdr_field
get_elf_hdr_shstrndx d = hdr_field e_shstrndx (pos 0) d

unfoldable pub get_elf_sec_hdr_strndx : Option ElfFileDescr → Option ℤ
unfolding hdr_field
get_elf_sec_hdr_strndx d = hdr_field e_shstrndx (negsuc 0) d

-- The number of program headers and of section headers, as the loops over them read it.
pub hdr_field_in :
    (f : Field) (otherwise : ℤ) (d : ElfFileDescr) (hdr : Region)
    → d.elf_hdr ≡ some hdr
    → field_offset d.is_64bit f + field_width d.is_64bit f ≤ length hdr
    → (v : ℕ) × (load_field d.is_64bit f hdr 0 ≡ some v)
      × (hdr_field f otherwise (some d) ≡ some (to_int v))
unfolding hdr_field load_field
hdr_field_in f otherwise d hdr e h =
    let (v, at) =
      load_total hdr (0 + field_offset d.is_64bit f) (field_width d.is_64bit f) (omega arith) in
    (v, at, ground arith)
