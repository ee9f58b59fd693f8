-- ===== src/Elf/File/Succeeds.antt =====
-- process_elf_file (elf_lib_funcs.c) on a file that is what its headers say, where memory suffices.
use libscout.Prelude.{
  ℕ, ◌+◌, ◌≤◌, ◌≡◌, refl, ◌∙◌, sym as flip, ap, true, ◌⊎◌, inl, inr, some, List, [], length,
  length-take, take, drop, Name, ℤ, pos, negsuc, to_int, done, arith,
}
use libscout.Elf.Memory.{Region, Field}
use libscout.Elf.Descr.{ElfFileDescr, sizeof_hdr}
use libscout.Elf.Header.{
  hdr_field, hdr_field_in, get_elf_hdr_phoff, get_elf_hdr_phnum, get_elf_hdr_phentsize,
  get_elf_hdr_shoff, get_elf_hdr_shnum, get_elf_hdr_shentsize, get_elf_sec_hdr_strndx,
}
use libscout.Elf.Cursor.{Disk, Mem, Cursor, store}
use libscout.Elf.Cursor.Gets.{
  Gets, IsImage, EnoughMem, >>=-Gets, Gets-map, pure-Gets, read-Gets, then-Gets, calloc-Gets,
  read_into-Gets,
}
use libscout.Elf.Populate.Image.{store-whole}
use libscout.Elf.Populate.Succeeds.{Section, with_tables}
use libscout.Elf.File.Readable.{HasSecs, with_sections, load_sections-Gets}
use libscout.Elf.File.NoteSegments.{Segment, HasSegs, with_segments, load_pg_hdrs-Gets}
use libscout.Elf.File.{
  sizeof_file_descr, is_elf, empty_descr, load_pg_hdrs, load_sections, load_file, loaded,
  process_elf_file,
}

-- Without program headers the descriptor is the same; with some it has their table, and the base
-- address that the notes lead to.
abbrev pub SegmentsGive : Region → ElfFileDescr → ElfFileDescr → Type 0
SegmentsGive image d r =
    ((get_elf_hdr_phoff (some d) ≡ some (pos 0)) × (r ≡ d))
    ⊎ ((ss : List Segment) × (b : ℕ) × (h : HasSegs image d ss b) × (r
          ≡ with_segments image d ss b h))

-- Without sections the descriptor is the same; with some it has their headers and tables.
abbrev pub SectionsGive : Region → ElfFileDescr → ElfFileDescr → Type 0
SectionsGive image d r =
    ((get_elf_hdr_shnum (some d) ≡ some (pos 0)) × (r ≡ d))
    ⊎ ((ss : List Section) × (h : HasSecs image d ss) × (r ≡ with_sections image d ss h))

-- The file starts with an ELF header, and is read to a descriptor.
pub record IsElfFile (image : Region) (d : ElfFileDescr) : Type 0 where
  pub long : sizeof_hdr ≤ length image
  pub elf : is_elf (take sizeof_hdr image) ≡ true
  pub middle : ElfFileDescr
  pub segments : SegmentsGive image (empty_descr (take sizeof_hdr image)) middle
  pub sections : SectionsGive image middle d

-- A field of a whole header is read.
header_read :
    (f : Field) (otherwise : ℤ) (d : ElfFileDescr) (hdr : Region)
    → d.elf_hdr ≡ some hdr
    → length hdr ≡ sizeof_hdr
    → f.off64 + f.width64 ≤ 64
    → f.off32 + f.width32 ≤ 64
    → (v : ℤ) × (hdr_field f otherwise (some d) ≡ some v)
header_read f otherwise d hdr e len a b =
    let (v, _, at) = hdr_field_in f otherwise d hdr e (ground arith) in (to_int v, at)

module _ (mem : Mem) (enough : EnoughMem mem)
    (note_mem : (k : ℕ) → mem.note_allocs k ≡ (true, true)) (disk : Disk) (image : Region)
    (is : IsImage disk image) where
  segments-Gets :
      (hdr : Region) (r : ElfFileDescr) (c : Cursor)
      → length hdr ≡ sizeof_hdr
      → SegmentsGive image (empty_descr hdr) r
      → Gets c (λ d _. d ≡ r) (load_pg_hdrs mem disk (empty_descr hdr))
  unfolding load_pg_hdrs get_elf_hdr_phnum get_elf_hdr_phentsize
  segments-Gets hdr r c len (inl (missing, same)) =
      let d = empty_descr hdr in
      let (phnum, counted) = header_read _ (pos 0) d hdr refl len (omega arith) (omega arith) in
      let (phentsize, sized) = header_read _ (pos 0) d hdr refl len (omega arith) (omega arith) in
      read-Gets (get_elf_hdr_phoff (some d)) (pos 0) _ missing (
        read-Gets (get_elf_hdr_phnum (some d)) phnum _ counted
          (read-Gets (get_elf_hdr_phentsize (some d)) phentsize _ sized (pure-Gets d (flip same))))
  segments-Gets hdr r c len (inr (ss, b, h, same)) =
      Gets-map (λ d _ e. e ∙ flip same)
        (load_pg_hdrs-Gets mem enough note_mem disk image is (empty_descr hdr) ss b c h)

  sections-Gets :
      (d0 r : ElfFileDescr) (hdr : Region) (c : Cursor)
      → d0.elf_hdr ≡ some hdr
      → length hdr ≡ sizeof_hdr
      → SectionsGive image (with_tables d0 [] []) r
      → Gets c (λ d _. d ≡ r) (load_sections mem disk (with_tables d0 [] []))
  unfolding load_sections get_elf_hdr_shoff get_elf_hdr_shentsize get_elf_sec_hdr_strndx
  sections-Gets d0 r hdr c has len (inl (missing, same)) =
      let d : ElfFileDescr = with_tables d0 [] [] in
      let (shoff, at) = header_read _ (pos 0) d hdr has len (omega arith) (omega arith) in
      let (shentsize, sized) = header_read _ (pos 0) d hdr has len (omega arith) (omega arith) in
      let (strndx, names) = header_read _ (negsuc 0) d hdr has len (omega arith) (omega arith) in
      read-Gets (get_elf_hdr_shnum (some d)) (pos 0) _ missing (
        read-Gets (get_elf_hdr_shoff (some d)) shoff _ at (
          read-Gets (get_elf_hdr_shentsize (some d)) shentsize _ sized
            (read-Gets (get_elf_sec_hdr_strndx (some d)) strndx _ names (pure-Gets d (flip same)))))
  sections-Gets d0 r hdr c has len (inr (ss, h, same)) =
      Gets-map (λ d _ e. e ∙ flip same) (load_sections-Gets mem enough disk image is d0 ss c h)

  -- Both parts, where the first leaves a descriptor without tables.
  parts-Gets :
      (hdr : Region) (middle r : ElfFileDescr) (c : Cursor)
      → length hdr ≡ sizeof_hdr
      → SegmentsGive image (empty_descr hdr) middle
      → SectionsGive image middle r
      → Gets c (λ d _. d ≡ r) (load_sections mem disk middle)
  parts-Gets hdr middle r c len (inl (_, same)) secs =
      rw same (sections-Gets (empty_descr hdr) r hdr c refl len (rw same at secs))
  parts-Gets hdr middle r c len (inr (ss, b, h, same)) secs = rw same (
      sections-Gets (with_segments image (empty_descr hdr) ss b h) r hdr c refl len
        (rw same at secs))

  load_file-Gets :
      (d : ElfFileDescr) (blocks : ℕ)
      → IsElfFile image d
      → Gets (record { at = 0; blocks = blocks }) (λ r _. r ≡ d) (load_file mem disk)
  unfolding load_file
  load_file-Gets d blocks h =
      let hdr = take sizeof_hdr image in
      let len : length hdr ≡ sizeof_hdr = length-take sizeof_hdr image h.long in
      >>=-Gets (calloc-Gets mem enough sizeof_file_descr _ (omega arith)) (λ _ c1 (_, at1).
        >>=-Gets (calloc-Gets mem enough sizeof_hdr c1 (omega arith)) (λ zeros c2 (blank, at2).
          >>=-Gets
            (read_into-Gets disk image is zeros 0 sizeof_hdr c2 hdr (
              ap (λ k. store zeros 0 (take sizeof_hdr (drop k image))) (at2 ∙ at1)
              ∙ store-whole zeros hdr (len ∙ ap length (flip blank))))
            (λ r c3 (read, _). rw read (
              then-Gets (is_elf hdr) _ _ (h.elf) (
                >>=-Gets (segments-Gets hdr h.middle c3 len h.segments) (λ d' c4 made.
                  rw made (parts-Gets hdr h.middle d c4 len h.segments h.sections)))))))

-- A file that starts with an ELF header, and in which whatever its headers name lies where they say,
-- is read to just the descriptor that they describe, if no allocation fails: no step faults, and
-- none returns an error. The descriptor has the program headers and the base address that the notes
-- of its segments lead to, the section headers, a table with the names of the sections, and a
-- table with its name and contents for each other section of strings and for each section of
-- symbols, in the order of the sections.
pub process_elf_file_reads :
    (mem : Mem) (open_file : Name → Disk ⊎ ℤ) (fn : Name) (disk : Disk) (image : Region)
    (d : ElfFileDescr)
    → EnoughMem mem
    → ((k : ℕ) → mem.note_allocs k ≡ (true, true))
    → open_file fn ≡ inl disk
    → IsImage disk image
    → IsElfFile image d
    → process_elf_file mem open_file (some fn) ≡ done (inl d)
unfolding process_elf_file
process_elf_file_reads mem open_file fn disk image d enough note_mem opened is h =
    let g = load_file-Gets mem enough note_mem disk image is d 0 h in
    rw (opened, process_elf_file) (ap loaded g.run ∙ ap (λ r. done (inl r)) g.holds)
