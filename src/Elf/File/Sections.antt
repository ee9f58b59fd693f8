-- ===== src/Elf/File/Sections.antt =====
-- The loops over the sections in process_elf_file (elf_lib_funcs.c), and what they keep.
use libscout.Prelude.{
  ℕ, zero, suc, ◌+◌, ◌*◌, ◌≡◌, refl, ◌∙◌, ap, Bool, true, false, ◌&&◌, ◌||◌, some, List, [], ◌∷◌,
  length, ℤ, pos, negsuc, int_lt, int_eq, enomem, arith,
}
use libscout.Elf.Memory.{Region}
use libscout.Elf.Descr.{ElfFileDescr, ElfStrTbl, sizeof_sec_hdr}
use libscout.Elf.Header.{
  get_elf_hdr_shnum, get_elf_hdr_shoff, get_elf_hdr_shentsize, get_elf_sec_hdr_strndx,
}
use libscout.Elf.Tables.{get_elf_sec_hdr_type}
use libscout.Elf.Cursor.{Disk, Mem, Load, ◌>>=◌, malloc, try_malloc}
use libscout.Elf.Cursor.Holds.{
  Holds, Holds-map, >>=-Holds, if-Holds, read-Holds, pure-Holds, fail-Holds, fault-Holds, IsBlock,
  malloc-Holds, try_malloc-Holds, calloc-Holds, seek-Holds,
}
use libscout.Elf.Populate.{
  sizeof_str_tbl, sizeof_sym_tbl, elf_populate_str_table, elf_populate_sym_table,
  populate_string_table, first_sym_table, populate_sym_table,
}
use libscout.Elf.File.{
  sht_symtab, sht_strtab, sht_dynsym, process_section, process_sections, load_shstrtab, count,
  load_sections,
}
use libscout.Elf.File.Steps.{read_sec_hdrs-Holds}

-- A property that a further table does not change.
module _ (mem : Mem) (disk : Disk) (P : ElfFileDescr → Type 0)
    (str : (d : ElfFileDescr) (i : ℤ) → P d → Holds P (elf_populate_str_table mem disk d i))
    (sym : (d : ElfFileDescr) (i : ℤ) → P d → Holds P (elf_populate_sym_table mem disk d i)) where
  populate_string_table-Holds :
      (d : ElfFileDescr) (i : ℤ) → P d → Holds P (populate_string_table mem disk d i)
  unfolding populate_string_table
  populate_string_table-Holds d i h =
      >>=-Holds (IsBlock (sizeof_str_tbl * (length d.elf_str_tbls + 1))) (malloc-Holds mem _)
        (λ _ _. str d i h)

  first_sym_table-Holds :
      (d : ElfFileDescr) (i : ℤ) (allocated : Bool) (ts : List ElfStrTbl)
      → P d
      → Holds P (first_sym_table mem disk d i allocated ts)
  unfolding first_sym_table
  first_sym_table-Holds d i allocated [] h = fail-Holds enomem
  first_sym_table-Holds d i false (t ∷ ts) h = fault-Holds
  first_sym_table-Holds d i true (t ∷ ts) h = sym d i h

  populate_sym_table-Holds :
      (d : ElfFileDescr) (i : ℤ) → P d → Holds P (populate_sym_table mem disk d i)
  unfolding populate_sym_table
  populate_sym_table-Holds d i h =
      elim (d.elf_sym_tbls)
        as (λ us. Holds P (elim us as (λ x. Load ElfFileDescr) [
          | [] ↦ try_malloc mem sizeof_sym_tbl >>= λ allocated.
              first_sym_table mem disk d i allocated d.elf_str_tbls
          | u ∷ us ↦ malloc mem (sizeof_sym_tbl * (length d.elf_sym_tbls + 1)) >>= λ _.
              elf_populate_sym_table mem disk d i
        ])) [
          | [] ↦
              >>=-Holds (λ _. Unit) (try_malloc-Holds mem sizeof_sym_tbl)
                (λ allocated _. first_sym_table-Holds d i allocated d.elf_str_tbls h)
          | u ∷ us ↦
              >>=-Holds (IsBlock (sizeof_sym_tbl * (length d.elf_sym_tbls + 1)))
                (malloc-Holds mem _) (λ _ _. sym d i h)
        ]

  process_section-Holds :
      (d : ElfFileDescr) (strndx type i : ℤ)
      → P d
      → Holds P (process_section mem disk d strndx type i)
  unfolding process_section
  process_section-Holds d strndx type i h =
      if-Holds (int_eq type sht_symtab || int_eq type sht_dynsym)
        (λ _. populate_sym_table-Holds d i h)
        (λ _.
          if-Holds (int_eq type sht_strtab)
            (λ _.
              if-Holds (int_eq i strndx) (λ _. pure-Holds d h)
                (λ _. populate_string_table-Holds d i h))
            (λ _. pure-Holds d h))

  process_sections-Holds :
      (strndx : ℤ) (left : ℕ) (d : ElfFileDescr) (i : ℕ)
      → P d
      → Holds P (process_sections mem disk strndx left d i)
  unfolding process_sections
  process_sections-Holds strndx zero d i h = pure-Holds d h
  process_sections-Holds strndx (suc left) d i h =
      read-Holds (get_elf_sec_hdr_type (some d) (pos i)) (λ type _.
        >>=-Holds P (process_section-Holds d strndx type (pos i) h)
          (λ d' h'. process_sections-Holds strndx left d' (i + 1) h'))

  load_shstrtab-Holds :
      (d : ElfFileDescr) (strndx : ℤ) → P d → Holds P (load_shstrtab mem disk d strndx)
  unfolding load_shstrtab
  load_shstrtab-Holds d strndx h =
      if-Holds (int_eq strndx (pos 0)) (λ _. fault-Holds)
        (λ _.
          >>=-Holds (IsBlock sizeof_str_tbl) (calloc-Holds mem sizeof_str_tbl)
            (λ _ _. str d strndx h))

counted_pos : (n : ℤ) → int_lt (pos 0) n ≡ true → n ≡ pos (count n)
counted_pos (pos n) e = refl
counted_pos (negsuc n) e = absurd (ground arith)

-- With section headers, what holds when they have been read and is not changed by a table; without
-- them, what holds of the descriptor as it is.
pub load_sections-Keeps :
    (mem : Mem) (disk : Disk) (d : ElfFileDescr) (P : Region → ElfFileDescr → Type 0)
    (Q : ElfFileDescr → Type 0)
    → ((table : Region) (d : ElfFileDescr) (i : ℤ)
        → P table d
        → Holds (P table) (elf_populate_str_table mem disk d i))
    → ((table : Region) (d : ElfFileDescr) (i : ℤ)
        → P table d
        → Holds (P table) (elf_populate_sym_table mem disk d i))
    → ((shnum : ℤ) (table : Region)
        → get_elf_hdr_shnum (some d) ≡ some (pos (count shnum))
        → length table ≡ count shnum * sizeof_sec_hdr
        → P table (record d { elf_sec_hdr = some table })
          × ((d' : ElfFileDescr) → P table d' → Q d'))
    → Q d
    → Holds Q (load_sections mem disk d)
unfolding load_sections
load_sections-Keeps mem disk d P Q str sym start otherwise =
    read-Holds (get_elf_hdr_shnum (some d)) (λ shnum counted.
      read-Holds (get_elf_hdr_shoff (some d)) (λ shoff _.
        read-Holds (get_elf_hdr_shentsize (some d)) (λ shentsize _.
          read-Holds (get_elf_sec_hdr_strndx (some d)) (λ strndx _.
            if-Holds (int_lt (pos 0) shnum && int_lt (pos 0) shoff)
              (λ some_sections.
                >>=-Holds (IsBlock (count shnum * sizeof_sec_hdr)) (calloc-Holds mem _)
                  (λ table block.
                    >>=-Holds (λ _. Unit) (seek-Holds disk shoff)
                      (λ _ _.
                        >>=-Holds (λ r. length r ≡ length table)
                          (read_sec_hdrs-Holds mem disk _ (count shnum) table 0)
                          (λ table' same.
                            let (first, last) =
                              start shnum table'
                                (counted ∙ ap some (counted_pos shnum (ground arith)))
                                (same ∙ block.0) in
                            >>=-Holds (P table')
                              (load_shstrtab-Holds mem disk (P table') (str table') (sym table') _
                                strndx first)
                              (λ d' h'. Holds-map (P table') Q last (
                                process_sections-Holds mem disk (P table') (str table') (sym table')
                                  strndx (count shnum) d' 0 h'))))))
              (λ _. pure-Holds d otherwise)))))
