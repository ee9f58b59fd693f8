-- ===== src/Elf/File.antt =====
-- process_elf_file (elf_lib_funcs.c), with process_elf_pg_hdr_pt_note: from an open file to its
-- descriptor.
pub mod Steps
pub mod Headers
pub mod Described
pub mod Readable
pub mod NoteSegments
pub mod Succeeds
pub mod Segments
pub mod Sections
pub mod Loaded
pub mod Symbols
pub mod Contents
pub mod Rejects
use libscout.Prelude.{
  ℕ, zero, suc, ◌+◌, ◌*◌, Bool, true, false, not, ◌&&◌, ◌||◌, ◌⊎◌, inl, inr, Option, none, some,
  List, [], ◌∷◌, take, get_elem?, replicate, Name, name_eq, ◌==◌, if◌then◌else◌, ℤ, pos, negsuc,
  int_lt, int_eq, to_int, to_u64, exit_success, einval, enomem, Run, done, crash, out_of_fuel,
}
use libscout.Iter.{Iterator, iterator_init, visit}
use libscout.Elf.Memory.{Region, load_field, p_type, p_offset, p_filesz}
use libscout.Elf.Descr.{ElfFileDescr, sizeof_hdr, sizeof_sec_hdr}
use libscout.Elf.Header.{
  get_elf_hdr_phoff, get_elf_hdr_phnum, get_elf_hdr_phentsize, get_elf_hdr_shoff, get_elf_hdr_shnum,
  get_elf_hdr_shentsize, get_elf_sec_hdr_strndx,
}
use libscout.Elf.Tables.{get_elf_sec_hdr_type}
use libscout.Elf.Notes.{walk_notes}
use libscout.Elf.Cursor.{
  Disk, Mem, Cursor, Load, pure, fail, fault, from_option, from_run, ◌>>=◌, malloc, calloc,
  try_malloc, seek, read_into,
}
use libscout.Elf.Populate.{
  sizeof_str_tbl, elf_populate_str_table, populate_string_table, populate_sym_table,
}

-- sizeof(elf_file_descr_t)
abbrev pub sizeof_file_descr : ℕ
sizeof_file_descr = 72

-- ELFMAG
abbrev pub elfmag : Region
elfmag = 0x7f ∷ 69 ∷ 76 ∷ 70 ∷ []

-- The byte of `e_ident` is one of the two values.
abbrev pub ident_is : Region → ℕ → ℕ → ℕ → Bool
ident_is hdr i a b = elim (get_elem? hdr i) [ none ↦ false | some v ↦ v == a || v == b ]

-- EI_CLASS is ELFCLASS64.
abbrev pub is_class64 : Region → Bool
is_class64 hdr = elim (get_elem? hdr 4) [ none ↦ false | some v ↦ v == 2 ]

-- The three tests of the header: ELFMAG, EI_DATA, EI_CLASS.
unfoldable pub is_elf : Region → Bool
is_elf hdr = name_eq (take 4 hdr) elfmag && (ident_is hdr 5 1 2 && ident_is hdr 4 1 2)

abbrev pub empty_descr : Region → ElfFileDescr
empty_descr hdr = record {
  is_64bit = is_class64 hdr;
  elf_hdr = some hdr;
  elf_pg_hdr = none;
  elf_sec_hdr = none;
  elf_sym_tbls = [];
  elf_str_tbls = [];
  at_base = 0;
}

abbrev pub pt_note : ℤ
pt_note = pos 4

-- The section types that are looked at.
abbrev pub sht_symtab : ℤ
sht_symtab = pos 2

abbrev pub sht_strtab : ℤ
sht_strtab = pos 3

abbrev pub sht_dynsym : ℤ
sht_dynsym = pos 11

abbrev pub count : ℤ → ℕ
count (pos n) = n
count (negsuc n) = 0

module _ (mem : Mem) (disk : Disk) where
  abbrev pub note_result : ElfFileDescr → ℤ × ℕ → Load ElfFileDescr
  note_result d (rc, at_base) =
      if int_eq rc exit_success then pure (record d { at_base = at_base }) else fail rc

  -- `get_elf_pg_data`: the contents of `buf` afterwards.
  unfoldable pub get_elf_pg_data : ℤ → ℤ → Region → Load Region
  get_elf_pg_data size offset buf = seek disk offset >>= λ _. read_into disk buf 0 (to_u64 size)

  -- `process_elf_pg_hdr_pt_note` for the program header at an offset of the table.
  unfoldable pub process_elf_pg_hdr_pt_note : ElfFileDescr → Region → ℕ → Load ElfFileDescr
  unfolding get_elf_pg_data
  process_elf_pg_hdr_pt_note d table entry =
      from_option (load_field d.is_64bit p_filesz table entry) >>= λ filesz.
      from_option (load_field d.is_64bit p_offset table entry) >>= λ offset.
      if int_eq (to_int filesz) (pos 0)
      then pure d
      else (malloc mem (to_u64 (to_int filesz)) >>= λ buf.
          get_elf_pg_data (to_int filesz) (to_int offset) buf >>= λ segment.
          from_run (walk_notes d.is_64bit segment (to_int filesz) mem.note_allocs d.at_base)
          >>= λ r. note_result d r)

  -- The offsets that an iterator over the program headers visits. `iterator_next` is called on the
  -- result of `iterator_init` without a test.
  unfoldable pub pg_entries : ℕ → ℕ → Load (List ℕ)
  pg_entries phentsize phnum = try_malloc mem 32 >>= λ allocated.
      from_option (iterator_init allocated (some 0) phentsize phnum) >>= λ iter.
      pure (visit (suc phnum) iter)

  -- The loop that reads the program headers.
  unfoldable pub read_pg_hdrs : ℕ → Region → List ℕ → Load Region
  read_pg_hdrs phentsize table [] = pure table
  read_pg_hdrs phentsize table (entry ∷ entries) =
      read_into disk table entry phentsize >>= λ table'. read_pg_hdrs phentsize table' entries

  -- The loop over their types, of which only PT_NOTE does something.
  unfoldable pub process_pg_hdrs : ElfFileDescr → Region → List ℕ → Load ElfFileDescr
  unfolding process_elf_pg_hdr_pt_note
  process_pg_hdrs d table [] = pure d
  process_pg_hdrs d table (entry ∷ entries) =
      from_option (load_field d.is_64bit p_type table entry) >>= λ type.
      (if int_eq (to_int type) pt_note then process_elf_pg_hdr_pt_note d table entry else pure d)
      >>= λ d'. process_pg_hdrs d' table entries

  -- The part of `process_elf_file` for the program headers.
  unfoldable pub load_pg_hdrs : ElfFileDescr → Load ElfFileDescr
  unfolding pg_entries read_pg_hdrs process_pg_hdrs
  load_pg_hdrs d = from_option (get_elf_hdr_phoff (some d)) >>= λ phoff.
      from_option (get_elf_hdr_phnum (some d)) >>= λ phnum.
      from_option (get_elf_hdr_phentsize (some d)) >>= λ phentsize.
      if int_lt (pos 0) phoff
      then (calloc mem (to_u64 phnum * to_u64 phentsize) >>= λ table. seek disk phoff >>= λ _.
          pg_entries (to_u64 phentsize) (to_u64 phnum) >>= λ entries.
          read_pg_hdrs (to_u64 phentsize) table entries >>= λ table'.
          pg_entries (to_u64 phentsize) (to_u64 phnum) >>= λ entries'.
          process_pg_hdrs (record d { elf_pg_hdr = some table' }) table' entries')
      else pure d

  -- The loop that reads the section headers, for the last `left` of them.
  unfoldable pub read_sec_hdrs : ℕ → ℕ → Region → ℕ → Load Region
  read_sec_hdrs shentsize zero table i = pure table
  read_sec_hdrs shentsize (suc left) table i =
      read_into disk table (sizeof_sec_hdr * i) shentsize >>= λ table'.
      read_sec_hdrs shentsize left table' (i + 1)

  -- The `switch` for section `i`.
  unfoldable pub process_section : ElfFileDescr → ℤ → ℤ → ℤ → Load ElfFileDescr
  unfolding populate_sym_table populate_string_table
  process_section d strndx type i =
      if int_eq type sht_symtab || int_eq type sht_dynsym
      then populate_sym_table mem disk d i
      else if int_eq type sht_strtab
      then (if int_eq i strndx then pure d else populate_string_table mem disk d i)
      else pure d

  -- The loop over the sections, for the last `left` of them.
  unfoldable pub process_sections : ℤ → ℕ → ElfFileDescr → ℕ → Load ElfFileDescr
  unfolding process_section
  process_sections strndx zero d i = pure d
  process_sections strndx (suc left) d i =
      from_option (get_elf_sec_hdr_type (some d) (pos i)) >>= λ type.
      process_section d strndx type (pos i) >>= λ d'. process_sections strndx left d' (i + 1)

  -- The table of the section names. Without such a section no entry is allocated for it, and the
  -- store into the entry faults.
  unfoldable pub load_shstrtab : ElfFileDescr → ℤ → Load ElfFileDescr
  unfolding elf_populate_str_table
  load_shstrtab d strndx =
      if int_eq strndx (pos 0)
      then fault
      else (calloc mem sizeof_str_tbl >>= λ _. elf_populate_str_table mem disk d strndx)

  -- The part for the section headers.
  unfoldable pub load_sections : ElfFileDescr → Load ElfFileDescr
  unfolding read_sec_hdrs process_sections load_shstrtab
  load_sections d = from_option (get_elf_hdr_shnum (some d)) >>= λ shnum.
      from_option (get_elf_hdr_shoff (some d)) >>= λ shoff.
      from_option (get_elf_hdr_shentsize (some d)) >>= λ shentsize.
      from_option (get_elf_sec_hdr_strndx (some d)) >>= λ strndx.
      if int_lt (pos 0) shnum && int_lt (pos 0) shoff
      then (calloc mem (count shnum * sizeof_sec_hdr) >>= λ table. seek disk shoff >>= λ _.
          read_sec_hdrs (to_u64 shentsize) (count shnum) table 0 >>= λ table'.
          load_shstrtab (record d { elf_sec_hdr = some table' }) strndx >>= λ d'.
          process_sections strndx (count shnum) d' 0)
      else pure d

  -- `process_elf_file` from the allocation of the descriptor on.
  unfoldable pub load_file : Load ElfFileDescr
  unfolding is_elf load_pg_hdrs load_sections
  load_file = calloc mem sizeof_file_descr >>= λ _. calloc mem sizeof_hdr >>= λ zeros.
      read_into disk zeros 0 sizeof_hdr >>= λ hdr.
      if is_elf hdr then (load_pg_hdrs (empty_descr hdr) >>= λ d. load_sections d) else fail einval

-- The result of a call: a return code, or the descriptor that is stored through the argument.
abbrev pub loaded : Run ((ElfFileDescr × Cursor) ⊎ ℤ) → Run (ElfFileDescr ⊎ ℤ)
loaded (done (inl (d, c))) = done (inl d)
loaded (done (inr rc)) = done (inr rc)
loaded crash = crash
loaded out_of_fuel = out_of_fuel

-- `process_elf_file`; `open` gives the file, or an `errno`.
unfoldable pub process_elf_file : Mem → (Name → Disk ⊎ ℤ) → Option Name → Run (ElfFileDescr ⊎ ℤ)
unfolding load_file
process_elf_file mem open_file none = done (inr einval)
process_elf_file mem open_file (some fn) = elim (open_file fn) [
  | inr errno ↦ done (inr errno)
  | inl disk ↦ loaded (load_file mem disk (record { at = 0; blocks = 0 }))
]
