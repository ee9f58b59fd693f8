-- ===== src/Elf/Descr.antt =====
-- The descriptor of an ELF file: `elf_file_descr_t` and its tables (elflib.h).
use libscout.Prelude.{ℕ, Bool, Option, List, Name, ℤ}
use libscout.Elf.Memory.{Region}

-- Sizes of the unions of elflib.h, which are the strides of the arrays of them.
abbrev pub sizeof_hdr : ℕ
sizeof_hdr = 64

abbrev pub sizeof_pg_hdr : ℕ
sizeof_pg_hdr = 56

abbrev pub sizeof_sec_hdr : ℕ
sizeof_sec_hdr = 64

-- `elf_sym_tbl_t`. A NULL pointer is `none`, here and below.
pub record ElfSymTbl : Type 0 where
  pub sec_indx : ℤ
  pub elf_sym_table : Option Region
  pub elf_sym_tbl_size : ℤ
  pub elf_sym_tbl_name : Option Name
  pub elf_sym_tbl_num_entry : ℤ
  pub is_dynamic : Bool

-- `elf_str_tbl_t`
pub record ElfStrTbl : Type 0 where
  pub sec_indx : ℤ
  pub elf_str_tbl_name : Option Name
  pub elf_str_tbl_size : ℤ
  pub elf_str_table : Option Region

-- `elf_file_descr_t`: the numbers of tables are the lengths of the lists.
pub record ElfFileDescr : Type 0 where
  pub is_64bit : Bool
  pub elf_hdr : Option Region
  pub elf_pg_hdr : Option Region
  pub elf_sec_hdr : Option Region
  pub elf_sym_tbls : List ElfSymTbl
  pub elf_str_tbls : List ElfStrTbl
  pub at_base : ℕ
