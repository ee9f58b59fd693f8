-- ===== src/Elf/Tables.antt =====
-- The accessors of the program headers and of the section headers (elf_lib_funcs.c).
pub mod Bounds
pub mod Ints
use libscout.Prelude.{
  ℕ, ◌+◌, ◌*◌, Bool, true, false, Option, none, some, ◌>>=◌, ℤ, pos, negsuc, int_lt, to_int,
  if◌then◌else◌,
}
use libscout.Elf.Memory.{
  Region, Field, load_field, p_type, p_vaddr, p_offset, p_filesz, sh_type, sh_addr, sh_size,
  sh_offset, sh_name,
}
use libscout.Elf.Descr.{ElfFileDescr, sizeof_pg_hdr, sizeof_sec_hdr}
use libscout.Elf.Header.{get_elf_hdr_phnum, get_elf_hdr_shnum}

-- `table[indx].field`: an element of an array of unions of `stride` bytes. A negative index lies
-- outside the array.
unfoldable pub element_field : Bool → Field → ℕ → Region → ℤ → Option ℤ
unfolding load_field
element_field is_64bit f stride table (negsuc n) = none
element_field is_64bit f stride table (pos i) =
    load_field is_64bit f table (stride * i) >>= λ v. some (to_int v)

unfoldable pub checked_field :
    Bool → Field → ℕ → Option ℤ → Option Region → Option Region → ℤ → Option ℤ
unfolding element_field
checked_field is_64bit f stride number none table indx = some (negsuc 0)
checked_field is_64bit f stride number (some hdr) none indx = some (negsuc 0)
checked_field is_64bit f stride number (some hdr) (some table) indx = number >>= λ n.
    if int_lt indx n then element_field is_64bit f stride table indx else some (negsuc 0)

unfoldable pub pg_field : Field → Option ElfFileDescr → ℤ → Option ℤ
unfolding checked_field get_elf_hdr_phnum
pg_field f none indx = some (negsuc 0)
pg_field f (some d) indx =
    checked_field d.is_64bit f sizeof_pg_hdr (get_elf_hdr_phnum (some d)) d.elf_hdr d.elf_pg_hdr
      indx

unfoldable pub sec_field : Field → Option ElfFileDescr → ℤ → Option ℤ
unfolding checked_field get_elf_hdr_shnum
sec_field f none indx = some (negsuc 0)
sec_field f (some d) indx =
    checked_field d.is_64bit f sizeof_sec_hdr (get_elf_hdr_shnum (some d)) d.elf_hdr d.elf_sec_hdr
      indx

unfoldable pub get_elf_pg_hdr_type : Option ElfFileDescr → ℤ → Option ℤ
unfolding pg_field
get_elf_pg_hdr_type d indx = pg_field p_type d indx

unfoldable pub get_elf_pg_hdr_vaddr : Option ElfFileDescr → ℤ → Option ℤ
unfolding pg_field
get_elf_pg_hdr_vaddr d indx = pg_field p_vaddr d indx

unfoldable pub get_elf_pg_offset : Option ElfFileDescr → ℤ → Option ℤ
unfolding pg_field
get_elf_pg_offset d indx = pg_field p_offset d indx

unfoldable pub get_elf_pg_size : Option ElfFileDescr → ℤ → Option ℤ
unfolding pg_field
get_elf_pg_size d indx = pg_field p_filesz d indx

unfoldable pub get_elf_sec_hdr_type : Option ElfFileDescr → ℤ → Option ℤ
unfolding sec_field
get_elf_sec_hdr_type d indx = sec_field sh_type d indx

unfoldable pub get_elf_sec_hdr_addr : Option ElfFileDescr → ℤ → Option ℤ
unfolding sec_field
get_elf_sec_hdr_addr d indx = sec_field sh_addr d indx

unfoldable pub get_elf_sec_size : Option ElfFileDescr → ℤ → Option ℤ
unfolding sec_field
get_elf_sec_size d indx = sec_field sh_size d indx

unfoldable pub get_elf_sec_offset : Option ElfFileDescr → ℤ → Option ℤ
unfolding sec_field
get_elf_sec_offset d indx = sec_field sh_offset d indx

unfoldable pub get_elf_sec_name_indx : Option ElfFileDescr → ℤ → Option ℤ
unfolding sec_field
get_elf_sec_name_indx d indx = sec_field sh_name d indx
