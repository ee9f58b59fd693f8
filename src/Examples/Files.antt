-- ===== src/Examples/Files.antt =====
-- The ELF reader at the files of `Data`.
use libscout.Prelude.{
  ◌≡◌, ◌≢◌, refl, name_eq, true, none, some, [], ◌∷◌, drop, ◌>>=◌, pos, exit_success, arith, ◌>>>◌,
  ◌++◌, done,
}
use libscout.Iter.{iterator_init, visit}
use libscout.Elf.Memory.{load, load_field, sh_type, sh_addr, sh_size, sh_offset, sh_name}
use libscout.Elf.Header.{get_elf_hdr_phnum, get_elf_hdr_shnum}
use libscout.Elf.Tables.{
  get_elf_sec_hdr_type, get_elf_sec_hdr_addr, get_elf_sec_size, get_elf_sec_offset,
  get_elf_sec_name_indx, get_elf_pg_hdr_type, get_elf_pg_hdr_vaddr,
}
use libscout.Elf.Tables.Bounds.{
  IsTable, HasSections, HasSegments, SecReads, section_accessors, segment_type_overrun,
}
use libscout.Elf.Symbol.{
  get_elf_sym_tab_entry_size, elf_sym_is_local, elf_sym_is_global, elf_sym_is_defined,
  elf_sym_get_st_name,
}
use libscout.Elf.Strings.{dynstr, get_elf_str_from_table, elf_sym_get_string}
use libscout.Elf.Strings.Reads.{c_string, get_elf_str_from_table_lem}
use libscout.Elf.Lookup.{get_els_exec_link_time_base_addr}
use libscout.Elf.Lookup.BaseAddr.{IsFirstLoad, low_half, base_addr_exact, base_addr_truncated}
use libscout.Elf.DynSym.{dynsym_names, is_export, is_import}
use libscout.Elf.Print.{heading, print_str_table}
use libscout.Elf.Print.Overrun.{encode_strings, outcome, print_str_table_lem}
use libscout.Examples.Data.{
  dynstr64, foo, bar, header64, segments64, high_segments64, sections64, strings64, file64,
  high_file64, header32, segments32, file32,
}

pub exports_of_file64 : dynsym_names is_export file64 ≡ some (foo ∷ [])
unfolding dynsym_names is_export elf_sym_is_local elf_sym_is_defined elf_sym_get_st_name
    elf_sym_get_string load_field load iterator_init visit get_elf_sym_tab_entry_size name_eq
exports_of_file64 = refl

pub imports_of_file64 : dynsym_names is_import file64 ≡ some (bar ∷ [])
unfolding dynsym_names is_import elf_sym_is_global elf_sym_is_defined elf_sym_get_st_name
    elf_sym_get_string load_field load iterator_init visit get_elf_sym_tab_entry_size name_eq
imports_of_file64 = refl

sections_of_file64 : HasSections file64 2
unfolding get_elf_hdr_shnum load_field load
sections_of_file64 = record {
  counted = refl;
  header = header64;
  has_header = refl;
  elements = sections64;
  has_elements = refl;
  sized = refl;
}

segments_of_file64 : HasSegments file64 1
unfolding get_elf_hdr_phnum load_field load
segments_of_file64 = record {
  counted = refl;
  header = header64;
  has_header = refl;
  elements = segments64;
  has_elements = refl;
  sized = refl;
}

section_accessors_example :
    let t = sections_of_file64 in
    SecReads file64 2 1 sh_type t.elements (get_elf_sec_hdr_type (some file64) (pos 1))
    × SecReads file64 2 1 sh_addr t.elements (get_elf_sec_hdr_addr (some file64) (pos 1))
    × SecReads file64 2 1 sh_size t.elements (get_elf_sec_size (some file64) (pos 1))
    × SecReads file64 2 1 sh_offset t.elements (get_elf_sec_offset (some file64) (pos 1))
    × SecReads file64 2 1 sh_name t.elements (get_elf_sec_name_indx (some file64) (pos 1))
section_accessors_example = section_accessors file64 2 1 sections_of_file64

segments_of_file32 : IsTable (get_elf_hdr_phnum (some file32)) file32.elf_hdr file32.elf_pg_hdr 32 3
unfolding get_elf_hdr_phnum load_field load
segments_of_file32 = record {
  counted = refl;
  header = header32;
  has_header = refl;
  elements = segments32;
  has_elements = refl;
  sized = refl;
}

segment_type_overrun_example : get_elf_pg_hdr_type (some file32) (pos 2) ≡ none
segment_type_overrun_example = segment_type_overrun file32 0 refl segments_of_file32

first_load64 : IsFirstLoad file64 1 0
unfolding get_elf_pg_hdr_type get_elf_hdr_phnum load_field load
first_load64 = record { below = omega arith; loads = refl; others = λ j h. absurd (omega arith) }

base_addr_exact_example :
    get_els_exec_link_time_base_addr file64 ≡ some (exit_success, some 0x400000)
unfolding load_field load segments_of_file64
base_addr_exact_example =
    base_addr_exact file64 1 0 0x400000 segments_of_file64 first_load64 refl (omega arith)

high_segments_of_file64 : HasSegments high_file64 1
unfolding get_elf_hdr_phnum load_field load
high_segments_of_file64 = record {
  counted = refl;
  header = header64;
  has_header = refl;
  elements = high_segments64;
  has_elements = refl;
  sized = refl;
}

high_first_load64 : IsFirstLoad high_file64 1 0
unfolding get_elf_pg_hdr_type get_elf_hdr_phnum load_field load
high_first_load64 = record {
  below = omega arith;
  loads = refl;
  others = λ j h. absurd (omega arith);
}

base_addr_truncated_example :
    (get_els_exec_link_time_base_addr high_file64 ≡ some (low_half 0x1_0000_0000))
    × (low_half 0x1_0000_0000 ≢ (exit_success, some 0x1_0000_0000))
unfolding load_field load high_segments_of_file64
base_addr_truncated_example =
    base_addr_truncated high_file64 1 0 0x1_0000_0000 high_segments_of_file64 high_first_load64 refl
      (omega arith) (omega arith)

-- The base address of the high file is reported as 0.
base_addr_of_high_file : get_els_exec_link_time_base_addr high_file64 ≡ some (exit_success, some 0)
unfolding get_els_exec_link_time_base_addr get_elf_pg_hdr_type get_elf_pg_hdr_vaddr
    get_elf_hdr_phnum load_field load
base_addr_of_high_file = refl

get_elf_str_from_table_example :
    get_elf_str_from_table true strings64 (pos 9) (pos 5)
    ≡ (c_string (drop 5 strings64) >>= λ s. some (exit_success, some s))
get_elf_str_from_table_example = get_elf_str_from_table_lem true strings64 5

-- Without a terminator behind the start the loop reads past the table.
unterminated_faults : get_elf_str_from_table true (102 ∷ 111 ∷ []) (pos 2) (pos 1) ≡ none
unfolding get_elf_str_from_table
unterminated_faults = refl

-- The table of `file64`, with the strings `foo` and `bar`, is read beyond its end.
print_str_table_lem_example : print_str_table (λ y k. true) 0 (dynstr64 ∷ []) ≡ (
    outcome (foo ∷ bar ∷ []) [] >>> λ l.
    print_str_table (λ y k. true) 1 [] >>> λ others. done ((heading dynstr (pos 2) ∷ l) ++ others))
unfolding encode_strings
print_str_table_lem_example =
    print_str_table_lem (λ y k. true) dynstr64 [] dynstr (foo ∷ bar ∷ []) [] (λ k. refl)
      (record { named = refl; has_table = refl; sized = refl })
      ((refl, (refl, (refl, tt))), ((refl, (refl, (refl, tt))), tt)) tt
