-- ===== src/Elf/Tables/Bounds.antt =====
-- The accessors of program headers and section headers (elf_lib_funcs.c) against the elements of
-- their arrays.
use libscout.Prelude.{
  ℕ, ◌+◌, ◌*◌, ◌≤◌, ◌<◌, ◌≡◌, inl, inr, refl, ◌∙◌, if◌then◌else◌, Bool, true, false, Option, none,
  some, length, ℤ, pos, negsuc, int_lt, to_int, arith, Bool-cases,
}
use libscout.Elf.Memory.{
  Region, Field, load_field, load_field_total, load_field_outside, field_offset, field_width,
  sh_type, sh_addr, sh_size, sh_offset, sh_name, p_type, p_vaddr, p_offset, p_filesz,
}
use libscout.Elf.Descr.{ElfFileDescr, sizeof_pg_hdr, sizeof_sec_hdr}
use libscout.Elf.Header.{get_elf_hdr_phnum, get_elf_hdr_shnum}
use libscout.Elf.Tables.{
  element_field, checked_field, get_elf_sec_hdr_type, get_elf_sec_hdr_addr, get_elf_sec_size,
  get_elf_sec_offset, get_elf_sec_name_indx, get_elf_pg_hdr_type, get_elf_pg_hdr_vaddr,
  get_elf_pg_offset, get_elf_pg_size,
}

-- The header counts `n` elements and the array holds as many, each of `stride` bytes.
pub record IsTable (number : Option ℤ) (hdr table : Option Region) (stride n : ℕ) : Type 0 where
  pub counted : number ≡ some (pos n)
  pub header : Region
  pub has_header : hdr ≡ some header
  pub elements : Region
  pub has_elements : table ≡ some elements
  pub sized : length elements ≡ stride * n

-- What an accessor gives at index `i`: the field of element `i`, or -1 behind the last one.
pub data Reads (is_64bit : Bool) (f : Field) (stride n i : ℕ) (table : Region) (r : Option ℤ)
    : Type 0 where
  element :
      {v : ℕ}
      → i < n
      → load_field is_64bit f table (stride * i) ≡ some v
      → r ≡ some (to_int v)
      → Reads is_64bit f stride n i table r
  behind : n ≤ i → r ≡ some (negsuc 0) → Reads is_64bit f stride n i table r

inside : (stride n i e l : ℕ) → l ≡ stride * n → i < n → e ≤ stride → stride * i + e ≤ l
inside stride n i e l h lt fits = grind arith

checked_field-lookup :
    (is_64bit : Bool) (f : Field) (stride n i : ℕ) {number : Option ℤ} {hdr table : Option Region}
    → {size : ℕ} (t : IsTable number hdr table size n)
    → checked_field is_64bit f stride number hdr table (pos i) ≡ (
        if int_lt (pos i) (pos n)
        then element_field is_64bit f stride t.elements (pos i)
        else some (negsuc 0))
unfolding checked_field
checked_field-lookup is_64bit f stride n i {number} {hdr} {table} t =
    rw (t.has_header, t.has_elements, t.counted, checked_field) refl

checked_field-Reads :
    (is_64bit : Bool) (f : Field) (stride n i : ℕ) {number : Option ℤ} {hdr table : Option Region}
    → field_offset is_64bit f + field_width is_64bit f ≤ stride
    → (t : IsTable number hdr table stride n)
    → Reads is_64bit f stride n i t.elements
        (checked_field is_64bit f stride number hdr table (pos i))
unfolding element_field
checked_field-Reads is_64bit f stride n i fits t = elim (Bool-cases (int_lt (pos i) (pos n))) [
  | inl lt ↦
      let end = field_offset is_64bit f + field_width is_64bit f in
      let (v, at) =
        load_field_total is_64bit f t.elements (stride * i)
          (inside stride n i end (length t.elements) t.sized (ground arith) fits) in
      element {v = v} (ground arith) at
        (checked_field-lookup is_64bit f stride n i t ∙ rw (lt, at) refl)
  | inr ge ↦ behind (ground arith) (checked_field-lookup is_64bit f stride n i t ∙ rw ge refl)
]

-- A section header table of `n` elements, as `process_elf_file` allocates it.
abbrev pub HasSections : ElfFileDescr → ℕ → Type 0
HasSections d n = IsTable (get_elf_hdr_shnum (some d)) d.elf_hdr d.elf_sec_hdr sizeof_sec_hdr n

-- A program header table of `n` elements that are as large as the union.
abbrev pub HasSegments : ElfFileDescr → ℕ → Type 0
HasSegments d n = IsTable (get_elf_hdr_phnum (some d)) d.elf_hdr d.elf_pg_hdr sizeof_pg_hdr n

module _ (d : ElfFileDescr) (n i : ℕ) where
  abbrev pub SecReads : Field → Region → Option ℤ → Type 0
  SecReads f table r = Reads d.is_64bit f sizeof_sec_hdr n i table r

  abbrev pub PgReads : Field → Region → Option ℤ → Type 0
  PgReads f table r = Reads d.is_64bit f sizeof_pg_hdr n i table r

  fits_section :
      (f : Field)
      → f.off64 + f.width64 ≤ 64
      → f.off32 + f.width32 ≤ 64
      → field_offset d.is_64bit f + field_width d.is_64bit f ≤ sizeof_sec_hdr
  fits_section f a b = ground arith

  -- In a 64-bit or a 32-bit file, each accessor of a section header, at an index from 0 on, gives
  -- the field of that very element, converted to `int`, or -1 behind the last element, and never
  -- reads outside the table.
  pub section_accessors :
      (t : HasSections d n)
      → SecReads sh_type t.elements (get_elf_sec_hdr_type (some d) (pos i))
        × SecReads sh_addr t.elements (get_elf_sec_hdr_addr (some d) (pos i))
        × SecReads sh_size t.elements (get_elf_sec_size (some d) (pos i))
        × SecReads sh_offset t.elements (get_elf_sec_offset (some d) (pos i))
        × SecReads sh_name t.elements (get_elf_sec_name_indx (some d) (pos i))
  unfolding get_elf_sec_hdr_type get_elf_sec_hdr_addr get_elf_sec_size get_elf_sec_offset
      get_elf_sec_name_indx
  section_accessors t = (
    checked_field-Reads d.is_64bit sh_type sizeof_sec_hdr n i
        (fits_section sh_type (omega arith) (omega arith)) t,
    checked_field-Reads d.is_64bit sh_addr sizeof_sec_hdr n i
        (fits_section sh_addr (omega arith) (omega arith)) t,
    checked_field-Reads d.is_64bit sh_size sizeof_sec_hdr n i
        (fits_section sh_size (omega arith) (omega arith)) t,
    checked_field-Reads d.is_64bit sh_offset sizeof_sec_hdr n i
        (fits_section sh_offset (omega arith) (omega arith)) t,
    checked_field-Reads d.is_64bit sh_name sizeof_sec_hdr n i
        (fits_section sh_name (omega arith) (omega arith)) t,
  )

  fits_segment :
      (f : Field)
      → f.off64 + f.width64 ≤ 56
      → f.off32 + f.width32 ≤ 56
      → field_offset d.is_64bit f + field_width d.is_64bit f ≤ sizeof_pg_hdr
  fits_segment f a b = ground arith

  -- In a file whose program headers have the size of the union, as in a 64-bit file, each accessor
  -- of a program header, at an index from 0 on, gives the field of that very element, converted to
  -- `int`, or -1 behind the last element, and never reads outside the table.
  pub segment_accessors :
      (t : HasSegments d n)
      → PgReads p_type t.elements (get_elf_pg_hdr_type (some d) (pos i))
        × PgReads p_vaddr t.elements (get_elf_pg_hdr_vaddr (some d) (pos i))
        × PgReads p_offset t.elements (get_elf_pg_offset (some d) (pos i))
        × PgReads p_filesz t.elements (get_elf_pg_size (some d) (pos i))
  unfolding get_elf_pg_hdr_type get_elf_pg_hdr_vaddr get_elf_pg_offset get_elf_pg_size
  segment_accessors t = (
    checked_field-Reads d.is_64bit p_type sizeof_pg_hdr n i
        (fits_segment p_type (omega arith) (omega arith)) t,
    checked_field-Reads d.is_64bit p_vaddr sizeof_pg_hdr n i
        (fits_segment p_vaddr (omega arith) (omega arith)) t,
    checked_field-Reads d.is_64bit p_offset sizeof_pg_hdr n i
        (fits_segment p_offset (omega arith) (omega arith)) t,
    checked_field-Reads d.is_64bit p_filesz sizeof_pg_hdr n i
        (fits_segment p_filesz (omega arith) (omega arith)) t,
  )

-- A 32-bit file's program headers lie 32 bytes apart in the file and in the array that
-- `process_elf_file` allocates, but the accessors index an array of 56-byte unions: with three
-- headers or more the type of the last one is read outside the array.
pub segment_type_overrun :
    (d : ElfFileDescr) (k : ℕ)
    → d.is_64bit ≡ false
    → IsTable (get_elf_hdr_phnum (some d)) d.elf_hdr d.elf_pg_hdr 32 (k + 3)
    → get_elf_pg_hdr_type (some d) (pos (k + 2)) ≡ none
unfolding get_elf_pg_hdr_type element_field
segment_type_overrun d k e t =
    let lt : int_lt (pos (k + 2)) (pos (k + 3)) ≡ true = ground arith in
    let past =
      load_field_outside false p_type t.elements (sizeof_pg_hdr * (k + 2))
        (omega (arith, t.sized)) in
    checked_field-lookup d.is_64bit p_type sizeof_pg_hdr (k + 3) (k + 2) t ∙ rw (lt, e, past) refl
