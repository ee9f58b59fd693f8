-- ===== src/Examples/Shared.antt =====
-- A 64-bit shared object with a segment of notes, a dynamic symbol `foo` and its strings, byte by byte.
use libscout.Prelude.{ℕ, true, none, some, List, [], ◌∷◌, ◌++◌, replicate, pos}
use libscout.Elf.Memory.{Region}
use libscout.Elf.Bytes.{bytes}
use libscout.Elf.Descr.{ElfFileDescr}
use libscout.Elf.Populate.{dynsym}
use libscout.Elf.Populate.Succeeds.{Section}
use libscout.Elf.Strings.{dynstr}
use libscout.Elf.File.NoteSegments.{Segment}
use libscout.Elf.Notes.Walk.{Note}
use libscout.Elf.DynSym.Exact.{Symbol}
use libscout.Examples.Image.{section_header, shstrtab}
use libscout.Examples.Data.{foo}

-- e_phoff = 64, e_shoff = 244, e_phentsize = 56, e_phnum = 1, e_shentsize = 64, e_shnum = 4,
-- e_shstrndx = 3
abbrev header : Region
header =
    0x7f ∷ 69 ∷ 76 ∷ 70 ∷ 2 ∷ 1 ∷ replicate 26 0
    ++ (bytes 8 64
        ++ (bytes 8 244
            ++ (replicate 6 0
                ++ (bytes 2 56 ++ (bytes 2 1 ++ (bytes 2 64 ++ (bytes 2 4 ++ bytes 2 3)))))))

-- PT_NOTE, 44 bytes from 120 on.
abbrev program_header : Region
program_header =
    bytes 4 4 ++ (bytes 4 0 ++ (bytes 8 120 ++ (replicate 16 0 ++ (bytes 8 44 ++ replicate 16 0))))

-- An auxiliary vector with AT_BASE.
abbrev vector : Region
vector = bytes 8 7 ++ (bytes 8 4096 ++ replicate 16 0)

abbrev pub notes : List Note
notes = record { type = 6; name = []; descr = vector } ∷ []

abbrev note_bytes : Region
note_bytes = bytes 4 0 ++ (bytes 4 32 ++ (bytes 4 6 ++ vector))

-- No name; a global function `foo` in the section `s`.
abbrev symbol_bytes : ℕ → Region
symbol_bytes s = replicate 24 0 ++ (1 ∷ 0 ∷ 0 ∷ 0 ∷ 0x12 ∷ 0 ∷ s ∷ 0 ∷ replicate 16 0)

abbrev pub strings : Region
strings = 0 ∷ foo ++ (0 ∷ [])

abbrev pub names : Region
names = 0 ∷ dynsym ++ (0 ∷ dynstr ++ (0 ∷ shstrtab ++ (0 ∷ [])))

abbrev section_headers : Region
section_headers =
    replicate 64 0
    ++ (section_header 1 11 164 48 ++ (section_header 9 3 212 5 ++ section_header 17 3 217 27))

abbrev pub object : ℕ → Region
object s =
    header
    ++ (program_header
        ++ (note_bytes ++ (symbol_bytes s ++ (strings ++ (names ++ section_headers)))))

abbrev pub segment : Segment
segment = record { type = 4; offset = 120; notes = notes }

abbrev pub names_section : Section
names_section = record { type = pos 3; name = shstrtab; offset = 217; size = 27 }

abbrev pub sections : List Section
sections =
    record { type = pos 0; name = []; offset = 0; size = 0 }
    ∷ record { type = pos 11; name = dynsym; offset = 164; size = 48 }
    ∷ record { type = pos 3; name = dynstr; offset = 212; size = 5 }
    ∷ names_section
    ∷ []

abbrev pub header_descr : ElfFileDescr
header_descr = record {
  is_64bit = true;
  elf_hdr = some header;
  elf_pg_hdr = none;
  elf_sec_hdr = none;
  elf_sym_tbls = [];
  elf_str_tbls = [];
  at_base = 0;
}

abbrev pub segments_descr : ElfFileDescr
segments_descr = record header_descr { elf_pg_hdr = some program_header; at_base = 4096 }

abbrev pub headers_descr : ElfFileDescr
headers_descr = record segments_descr { elf_sec_hdr = some section_headers }

abbrev pub object_descr : ℕ → ElfFileDescr
object_descr s = record headers_descr {
  elf_sym_tbls =
      record {
        sec_indx = pos 1;
        elf_sym_table = some (symbol_bytes s);
        elf_sym_tbl_size = pos 48;
        elf_sym_tbl_name = some dynsym;
        elf_sym_tbl_num_entry = pos 2;
        is_dynamic = true;
      }
      ∷ [];
  elf_str_tbls =
      record {
        sec_indx = pos 3;
        elf_str_tbl_name = some shstrtab;
        elf_str_tbl_size = pos 27;
        elf_str_table = some names;
      }
      ∷ record {
        sec_indx = pos 2;
        elf_str_tbl_name = some dynstr;
        elf_str_tbl_size = pos 5;
        elf_str_table = some strings;
      }
      ∷ [];
}

abbrev pub object_symbols : ℕ → List (List Symbol)
object_symbols s =
    (record { name = []; info = 0; shndx = 0 } ∷ record { name = foo; info = 0x12; shndx = s } ∷ [])
    ∷ []
