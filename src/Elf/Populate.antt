-- ===== src/Elf/Populate.antt =====
-- The string tables and symbol tables of a file: get_elf_sec_data, elf_populate_str_table,
-- elf_populate_sym_table, populate_string_table and populate_sym_table (elf_lib_funcs.c).
pub mod Loaded
pub mod Image
pub mod Succeeds
pub mod Grows
use libscout.Prelude.{
  ℕ, zero, suc, ◌+◌, ◌*◌, ◌/◌, Bool, true, false, not, ◌||◌, Option, none, some, List, [], ◌∷◌,
  ◌++◌, length, Name, name_eq, if◌then◌else◌, ℤ, pos, negsuc, int_lt, int_eq, to_u64, enomem,
  einval,
}
use libscout.Elf.Memory.{Region}
use libscout.Elf.Descr.{ElfFileDescr, ElfStrTbl, ElfSymTbl}
use libscout.Elf.Header.{get_elf_hdr_shnum}
use libscout.Elf.Tables.{get_elf_sec_offset, get_elf_sec_size}
use libscout.Elf.Symbol.{get_elf_sym_tab_entry_size}
use libscout.Elf.Strings.{Out, get_elf_sec_name}
use libscout.Elf.Cursor.{
  Disk, Mem, Load, pure, fail, fault, from_option, ◌>>=◌, malloc, try_malloc, seek, read_into,
}

-- sizeof(elf_str_tbl_t) and sizeof(elf_sym_tbl_t)
abbrev pub sizeof_str_tbl : ℕ
sizeof_str_tbl = 32

abbrev pub sizeof_sym_tbl : ℕ
sizeof_sym_tbl = 40

-- `/` on `int`s, for a positive divisor.
abbrev pub int_div : ℤ → ℕ → ℤ
int_div (pos n) k = pos (n / k)
int_div (negsuc n) k = elim ((n + 1) / k) [ zero ↦ pos 0 | suc q ↦ negsuc q ]

-- ".dynsym"
abbrev pub dynsym : Name
dynsym = 46 ∷ 100 ∷ 121 ∷ 110 ∷ 115 ∷ 121 ∷ 109 ∷ []

module _ (mem : Mem) (disk : Disk) where
  -- `get_elf_sec_data`: the contents of `buf` afterwards. A section without an offset or a size leaves
  -- them as they were.
  unfoldable pub get_elf_sec_data : ElfFileDescr → ℤ → Region → Load Region
  get_elf_sec_data d indx buf = from_option (get_elf_hdr_shnum (some d)) >>= λ shnum.
      if int_lt shnum indx
      then fail einval
      else (from_option (get_elf_sec_offset (some d) indx) >>= λ offset.
          from_option (get_elf_sec_size (some d) indx) >>= λ size.
          if not (int_lt (pos 0) offset) || not (int_lt (pos 0) size)
          then pure buf
          else (seek disk offset >>= λ _. read_into disk buf 0 (to_u64 size)))

  -- The comparison of the return code of `get_elf_sec_name` with -1.
  abbrev pub name_or_fail : Out → Load (Option Name)
  name_or_fail (rc, name) = if int_eq rc (negsuc 0) then fail einval else pure name

  -- A call of `get_elf_sec_name`: what is stored through `name`.
  unfoldable pub sec_name : ElfFileDescr → ℤ → Load (Option Name)
  sec_name d indx = try_malloc mem 1 >>= λ allocated.
      from_option (get_elf_sec_name allocated d indx) >>= λ out. name_or_fail out

  -- `elf_populate_str_table` for the next free entry, which exists.
  unfoldable pub elf_populate_str_table : ElfFileDescr → ℤ → Load ElfFileDescr
  unfolding get_elf_sec_data sec_name
  elf_populate_str_table d sec_indx = from_option (get_elf_sec_size (some d) sec_indx) >>= λ size.
      malloc mem (to_u64 size) >>= λ buf. get_elf_sec_data d sec_indx buf >>= λ table.
      let t : ElfStrTbl = record {
        sec_indx = sec_indx;
        elf_str_tbl_name = none;
        elf_str_tbl_size = size;
        elf_str_table = some table;
      } in
      sec_name (record d { elf_str_tbls = d.elf_str_tbls ++ t ∷ [] }) sec_indx >>= λ name.
      pure (record d { elf_str_tbls = d.elf_str_tbls ++ record t { elf_str_tbl_name = name } ∷ [] })

  -- `elf_populate_sym_table` for the next free entry, which exists; `strcmp` faults on a NULL name.
  unfoldable pub elf_populate_sym_table : ElfFileDescr → ℤ → Load ElfFileDescr
  unfolding get_elf_sec_data sec_name
  elf_populate_sym_table d sec_indx = from_option (get_elf_sec_size (some d) sec_indx) >>= λ size.
      malloc mem (to_u64 size) >>= λ buf. get_elf_sec_data d sec_indx buf >>= λ table.
      sec_name d sec_indx >>= λ found. from_option found >>= λ name. pure (record d {
        elf_sym_tbls =
            d.elf_sym_tbls
            ++ record {
              sec_indx = sec_indx;
              elf_sym_table = some table;
              elf_sym_tbl_size = size;
              elf_sym_tbl_name = some name;
              elf_sym_tbl_num_entry = int_div size (get_elf_sym_tab_entry_size d);
              is_dynamic = name_eq name dynsym;
            }
              ∷ [];
      })

  -- `populate_string_table`: the array of tables is made, or grown by one.
  unfoldable pub populate_string_table : ElfFileDescr → ℤ → Load ElfFileDescr
  unfolding elf_populate_str_table
  populate_string_table d indx = malloc mem (sizeof_str_tbl * (length d.elf_str_tbls + 1)) >>= λ _.
      elf_populate_str_table d indx

  -- The first symbol table: the pointer that is tested for NULL is that of the string tables, and the
  -- new one is written through untested.
  unfoldable pub first_sym_table : ElfFileDescr → ℤ → Bool → List ElfStrTbl → Load ElfFileDescr
  unfolding elf_populate_sym_table
  first_sym_table d indx allocated [] = fail enomem
  first_sym_table d indx false (t ∷ ts) = fault
  first_sym_table d indx true (t ∷ ts) = elf_populate_sym_table d indx

  -- `populate_sym_table`
  unfoldable pub populate_sym_table : ElfFileDescr → ℤ → Load ElfFileDescr
  unfolding first_sym_table
  populate_sym_table d indx = elim d.elf_sym_tbls [
    | [] ↦ try_malloc mem sizeof_sym_tbl >>= λ allocated.
        first_sym_table d indx allocated d.elf_str_tbls
    | u ∷ us ↦ malloc mem (sizeof_sym_tbl * (length d.elf_sym_tbls + 1)) >>= λ _.
        elf_populate_sym_table d indx
  ]
