-- ===== src/Examples/Data.antt =====
-- A small 64-bit file with one loadable segment, two section headers and three dynamic symbols, and
-- a 32-bit file with three program headers.
use libscout.Prelude.{true, false, none, some, [], ◌∷◌, ◌++◌, replicate, Name, pos}
use libscout.Elf.Memory.{Region}
use libscout.Elf.Descr.{ElfFileDescr, ElfSymTbl, ElfStrTbl}
use libscout.Elf.Strings.{dynstr}
use libscout.Elf.Symbol.{SymEntry}

abbrev pub foo : Name
foo = 102 ∷ 111 ∷ 111 ∷ []

abbrev pub bar : Name
bar = 98 ∷ 97 ∷ 114 ∷ []

-- e_phnum = 1, e_shnum = 2
abbrev pub header64 : Region
header64 = replicate 56 0 ++ (1 ∷ 0 ∷ 0 ∷ 0 ∷ 2 ∷ 0 ∷ 0 ∷ 0 ∷ [])

-- p_type = PT_LOAD, p_vaddr = 0x400000
abbrev pub segments64 : Region
segments64 = 1 ∷ replicate 17 0 ++ (0x40 ∷ replicate 37 0)

-- The same at 0x1_0000_0000.
abbrev pub high_segments64 : Region
high_segments64 = 1 ∷ replicate 19 0 ++ (1 ∷ replicate 35 0)

abbrev pub sections64 : Region
sections64 = replicate 128 0

-- No name; a global function `foo` in section 5; a global undefined symbol `bar`.
abbrev pub symbols64 : Region
symbols64 =
    replicate 24 0
    ++ ((1 ∷ 0 ∷ 0 ∷ 0 ∷ 0x12 ∷ 0 ∷ 5 ∷ 0 ∷ replicate 16 0)
        ++ (5 ∷ 0 ∷ 0 ∷ 0 ∷ 0x10 ∷ 0 ∷ 0 ∷ 0 ∷ replicate 16 0))

abbrev pub strings64 : Region
strings64 = 0 ∷ 102 ∷ 111 ∷ 111 ∷ 0 ∷ 98 ∷ 97 ∷ 114 ∷ 0 ∷ []

abbrev pub dynsym64 : ElfSymTbl
dynsym64 = record {
  sec_indx = pos 1;
  elf_sym_table = some symbols64;
  elf_sym_tbl_size = pos 72;
  elf_sym_tbl_name = none;
  elf_sym_tbl_num_entry = pos 3;
  is_dynamic = true;
}

abbrev pub dynstr64 : ElfStrTbl
dynstr64 = record {
  sec_indx = pos 2;
  elf_str_tbl_name = some dynstr;
  elf_str_tbl_size = pos 9;
  elf_str_table = some strings64;
}

abbrev pub file64 : ElfFileDescr
file64 = record {
  is_64bit = true;
  elf_hdr = some header64;
  elf_pg_hdr = some segments64;
  elf_sec_hdr = some sections64;
  elf_sym_tbls = dynsym64 ∷ [];
  elf_str_tbls = dynstr64 ∷ [];
  at_base = 0;
}

abbrev pub high_file64 : ElfFileDescr
high_file64 = record file64 { elf_pg_hdr = some high_segments64 }

-- e_phnum = 3
abbrev pub header32 : Region
header32 = replicate 44 0 ++ (3 ∷ replicate 19 0)

abbrev pub segments32 : Region
segments32 = replicate 96 0

abbrev pub file32 : ElfFileDescr
file32 = record {
  is_64bit = false;
  elf_hdr = some header32;
  elf_pg_hdr = some segments32;
  elf_sec_hdr = none;
  elf_sym_tbls = [];
  elf_str_tbls = [];
  at_base = 0;
}

abbrev pub foo_entry : SymEntry
foo_entry = record { table = symbols64; offset = 24 }
