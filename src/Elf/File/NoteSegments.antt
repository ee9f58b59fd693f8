-- ===== src/Elf/File/NoteSegments.antt =====
-- The part of process_elf_file (elf_lib_funcs.c) for the program headers, with
-- process_elf_pg_hdr_pt_note, on a file that has given segments.
use libscout.Prelude.{
  ℕ, suc, ◌+◌, ◌*◌, ◌^◌, ◌≤◌, ◌<◌, ◌≡◌, refl, ◌∙◌, sym as flip, ap, Bool, true, false, Bool-cases,
  inl, inr, ◌⊎◌, some, List, [], ◌∷◌, ◌++◌, length, take, drop, replicate, if◌then◌else◌, ℤ, pos,
  int_eq, int_lt, to_int, exit_success, Run, done, arith,
}
use libscout.Iter.{Iterator, iterator_init}
use libscout.Iter.Walk.{addresses, visit_all}
use libscout.Elf.Memory.{Region, load_field, p_type, p_offset, p_filesz}
use libscout.Elf.Descr.{ElfFileDescr}
use libscout.Elf.Header.{get_elf_hdr_phoff, get_elf_hdr_phnum, get_elf_hdr_phentsize}
use libscout.Elf.Tables.Ints.{hdr_field-IsInt}
use libscout.Elf.Notes.{walk_notes}
use libscout.Elf.Notes.Walk.{Note, encode_note, encode_notes, AllFull, handle_notes, walk_notes_lem}
use libscout.Elf.Cursor.{Disk, Mem, Cursor, pure, store}
use libscout.Elf.Cursor.Gets.{
  Gets, IsImage, EnoughMem, >>=-Gets, Gets-map, pure-Gets, read-Gets, run-Gets, then-Gets,
  else-Gets, malloc-Gets, calloc-Gets, try_malloc-Gets, seek-Gets, read_into-Gets,
}
use libscout.Elf.Populate.Image.{store-whole}
use libscout.Elf.File.Headers.{read_pg_hdrs-Gets}
use libscout.Elf.File.{
  pt_note, process_elf_pg_hdr_pt_note, get_elf_pg_data, pg_entries, process_pg_hdrs, load_pg_hdrs,
}

-- What a program header describes; the notes are those of a segment of notes.
pub record Segment : Type 0 where
  pub type : ℕ
  pub offset : ℕ
  pub notes : List Note

abbrev pub is_note : Segment → Bool
is_note s = int_eq (to_int s.type) pt_note

-- The program header at an offset of the table is that of a segment of these notes, which lies
-- inside the file.
pub record IsNotes (class : Bool) (image table : Region) (entry : ℕ) (s : Segment) : Type 0 where
  pub filesz : load_field class p_filesz table entry ≡ some (length (encode_notes s.notes))
  pub at_offset : load_field class p_offset table entry ≡ some s.offset
  pub small : length (encode_notes s.notes) < 2 ^ 31
  pub small_offset : s.offset < 2 ^ 31
  pub holds : take (length (encode_notes s.notes)) (drop s.offset image) ≡ encode_notes s.notes
  pub full : AllFull s.notes

-- A segment leaves the base address as it was, or its notes are handled.
abbrev pub handle_segment : Bool → Segment → ℕ → Run (ℤ × ℕ)
handle_segment class s b =
    if is_note s then handle_notes class s.notes b else done (exit_success, b)

-- The program headers from the `i`th on are those of the segments, which lead from one base address
-- to another.
abbrev pub Segments : Bool → Region → Region → ℕ → ℕ → List Segment → ℕ → ℕ → Type 0
Segments class image table size i [] b b' = b ≡ b'
Segments class image table size i (s ∷ ss) b b' =
    (load_field class p_type table (0 + size * i) ≡ some s.type)
    × (is_note s ≡ true → IsNotes class image table (0 + size * i) s)
    × ((m : ℕ) × (handle_segment class s b ≡ done (exit_success, m))
        × Segments class image table size (i + 1) ss m b')

to_int_small : (n : ℕ) → n < 2 ^ 31 → to_int n ≡ pos n
to_int_small n h = ground arith

-- Without a byte there is no note.
no_notes :
    (class : Bool) (ns : List Note) (b b' : ℕ)
    → length (encode_notes ns) ≡ 0
    → handle_notes class ns b ≡ done (exit_success, b')
    → b ≡ b'
unfolding encode_notes encode_note handle_notes
no_notes class [] b b' empty e = ground arith
no_notes class (n ∷ ns) b b' empty e = absurd (omega arith)

module _ (mem : Mem) (enough : EnoughMem mem)
    (note_mem : (k : ℕ) → mem.note_allocs k ≡ (true, true)) (disk : Disk) (image : Region)
    (is : IsImage disk image) where
  pg_data-Gets :
      (size offset : ℕ) (buf : Region) (c : Cursor)
      → length (take size (drop offset image)) ≡ size
      → length buf ≡ size
      → Gets c
          (λ r _. r ≡ take size (drop offset image))
          (get_elf_pg_data mem disk (pos size) (pos offset) buf)
  unfolding get_elf_pg_data
  pg_data-Gets size offset buf c full len = >>=-Gets (seek-Gets disk image is offset c) (λ _ c' at.
      Gets-map (λ r _ h. h.0)
        (read_into-Gets disk image is buf 0 size c' (take size (drop offset image)) (
          ap (λ k. store buf 0 (take size (drop k image))) at
          ∙ store-whole buf (take size (drop offset image)) (full ∙ flip len))))

  note-Gets :
      (d0 : ElfFileDescr) (table : Region) (entry b b' : ℕ) (s : Segment) (c : Cursor)
      → IsNotes d0.is_64bit image table entry s
      → handle_notes d0.is_64bit s.notes b ≡ done (exit_success, b')
      → Gets c
          (λ d _. d ≡ record d0 { at_base = b' })
          (process_elf_pg_hdr_pt_note mem disk (record d0 { at_base = b }) table entry)
  unfolding process_elf_pg_hdr_pt_note
  note-Gets d0 table entry b b' s c h e =
      let size = length (encode_notes s.notes) in
      let small = h.small in
      read-Gets (load_field d0.is_64bit p_filesz table entry) size _ h.filesz (
        read-Gets (load_field d0.is_64bit p_offset table entry) s.offset _ h.at_offset (
          rw (to_int_small size h.small, to_int_small s.offset h.small_offset)
            (elim (Bool-cases (int_eq (pos size) (pos 0))) [
              | inl empty ↦ then-Gets (int_eq (pos size) (pos 0)) _ _ empty (
                  pure-Gets _ (
                    ap (λ k. record d0 { at_base = k })
                      (no_notes d0.is_64bit s.notes b b' (ground arith) e)))
              | inr some_bytes ↦ else-Gets (int_eq (pos size) (pos 0)) _ _ some_bytes (
                  >>=-Gets (malloc-Gets mem enough size c (omega arith)) (λ buf c1 len.
                    >>=-Gets (pg_data-Gets size s.offset buf c1 (ap length h.holds) len)
                      (λ segment c2 read.
                        rw (read, h.holds)
                          (run-Gets
                            (walk_notes d0.is_64bit (encode_notes s.notes) (pos size)
                              mem.note_allocs b)
                            _ _
                            (walk_notes_lem d0.is_64bit s.notes mem.note_allocs b note_mem h.small
                                h.full
                              ∙ e)
                            (pure-Gets _ refl)))))
            ])))

  process_pg_hdrs-Gets :
      (d0 : ElfFileDescr) (table : Region) (size : ℕ) (ss : List Segment) (i b b' : ℕ) (c : Cursor)
      → Segments d0.is_64bit image table size i ss b b'
      → Gets c
          (λ d _. d ≡ record d0 { at_base = b' })
          (process_pg_hdrs mem disk
            (record d0 { at_base = b })
            table
            (addresses 0 size i (length ss)))
  unfolding process_pg_hdrs
  process_pg_hdrs-Gets d0 table size [] i b b' c h =
      pure-Gets _ (ap (λ k. record d0 { at_base = k }) h)
  process_pg_hdrs-Gets d0 table size (s ∷ ss) i b b' c (typed, good, (m, step, more)) =
      read-Gets (load_field d0.is_64bit p_type table (0 + size * i)) s.type _ typed (
        >>=-Gets (handled (Bool-cases (is_note s)))
          (λ d c' made. rw made (process_pg_hdrs-Gets d0 table size ss (i + 1) m b' c' more)))
    where
      handled :
          (is_note s ≡ true) ⊎ (is_note s ≡ false)
          → Gets c
              (λ d _. d ≡ record d0 { at_base = m })
              (if is_note s
                then process_elf_pg_hdr_pt_note mem disk
                    (record d0 { at_base = b })
                    table
                    (0 + size * i)
                else pure (record d0 { at_base = b }))
      handled (inl is_one) =
          then-Gets (is_note s) _ _ is_one
            (note-Gets d0 table (0 + size * i) b m s c (good is_one) (rw is_one at step))
      handled (inr other) = else-Gets (is_note s) _ _ other (
          pure-Gets _ (
            let same : b ≡ m = let e = rw other at step in ground arith in
            ap (λ k. record d0 { at_base = k }) same))

  -- The addresses of all the elements.
  entries-Gets :
      (size n : ℕ) (c : Cursor)
      → 0 < size
      → 0 < n
      → Gets c (λ es c'. (es ≡ addresses 0 size 0 n) × (c'.at ≡ c.at)) (pg_entries mem disk size n)
  unfolding pg_entries iterator_init
  entries-Gets size n c some_size some_n =
      let iter : Iterator = record {
        base_address = 0;
        element_size = size;
        total_number = n;
        current_index = 0;
      } in
      let made : iterator_init true (some 0) size n ≡ some iter = ground arith in
      >>=-Gets (try_malloc-Gets mem enough 32 c (omega arith)) (λ b c' (is_one, at). rw is_one (
        read-Gets (iterator_init true (some 0) size n) iter _ made
          (pure-Gets _ (visit_all (suc n) 0 size n made (omega arith), at))))

-- The file has just these segments, which lead to a base address: the header says where their program
-- headers are, and these describe them.
pub record HasSegs (image : Region) (d : ElfFileDescr) (ss : List Segment) (b : ℕ) : Type 0 where
  pub start : ℕ
  pub at_start : get_elf_hdr_phoff (some d) ≡ some (pos start)
  pub behind_header : 0 < start
  pub counted : get_elf_hdr_phnum (some d) ≡ some (pos (length ss))
  pub any : 0 < length ss
  pub size : ℕ
  pub sized : get_elf_hdr_phentsize (some d) ≡ some (pos size)
  pub not_empty : 0 < size
  pub inside_file : start + size * length ss ≤ length image
  pub described :
      Segments d.is_64bit image (take (size * length ss) (drop start image)) size 0 ss d.at_base b

-- The descriptor with those program headers and the base address.
abbrev pub with_segments :
    (image : Region) (d : ElfFileDescr) (ss : List Segment) (b : ℕ)
    → HasSegs image d ss b
    → ElfFileDescr
with_segments image d ss b h = record d {
  elf_pg_hdr = some (take (h.size * length ss) (drop h.start image));
  at_base = b;
}

small_product : (m n : ℕ) → m < 2 ^ 31 → n < 2 ^ 31 → m * n < 2 ^ 63
small_product m n hm hn = let a : m * n ≤ 2 ^ 31 * n = grind arith in omega arith

few_segments :
    (d : ElfFileDescr) (n size : ℕ)
    → get_elf_hdr_phnum (some d) ≡ some (pos n)
    → get_elf_hdr_phentsize (some d) ≡ some (pos size)
    → n * size < 2 ^ 63
unfolding get_elf_hdr_phnum get_elf_hdr_phentsize
few_segments d n size e e' =
    small_product n size (hdr_field-IsInt _ (pos 0) d (pos n) (omega arith) e)
      (hdr_field-IsInt _ (pos 0) d (pos size) (omega arith) e')

module _ (mem : Mem) (enough : EnoughMem mem)
    (note_mem : (k : ℕ) → mem.note_allocs k ≡ (true, true)) (disk : Disk) (image : Region)
    (is : IsImage disk image) where
  pub load_pg_hdrs-Gets :
      (d : ElfFileDescr) (ss : List Segment) (b : ℕ) (c : Cursor) (h : HasSegs image d ss b)
      → Gets c (λ r _. r ≡ with_segments image d ss b h) (load_pg_hdrs mem disk d)
  unfolding load_pg_hdrs
  load_pg_hdrs-Gets d ss b c h =
      let n = length ss in
      let table = take (h.size * n) (drop h.start image) in
      let behind = h.behind_header in
      read-Gets (get_elf_hdr_phoff (some d)) (pos h.start) _ h.at_start (
        read-Gets (get_elf_hdr_phnum (some d)) (pos n) _ h.counted (
          read-Gets (get_elf_hdr_phentsize (some d)) (pos h.size) _ h.sized (
            then-Gets (int_lt (pos 0) (pos h.start)) _ _ (ground arith) (
              >>=-Gets
                (calloc-Gets mem enough (n * h.size) c (few_segments d n h.size h.counted h.sized))
                (λ zeros c1 (blank, _). >>=-Gets (seek-Gets disk image is h.start c1) (λ _ c2 at.
                  >>=-Gets
                    (entries-Gets mem enough note_mem disk image is h.size n c2 h.not_empty h.any)
                    (λ es c3 (all, still).
                      let zero_table : zeros ≡ [] ++ replicate (h.size * n) 0 =
                        blank ∙ ap (λ k. replicate {A = ℕ} k 0) (omega arith) in
                      rw (zero_table, all)
                        (>>=-Gets
                          (read_pg_hdrs-Gets mem disk image is h.size n [] 0 h.start c3
                            (omega arith) (still ∙ at) h.inside_file)
                          (λ table' c4 read.
                            >>=-Gets
                              (entries-Gets mem enough note_mem disk image is h.size n c4
                                h.not_empty h.any)
                              (λ es' c5 (all', _).
                                rw (read, all')
                                  (process_pg_hdrs-Gets mem enough note_mem disk image is
                                    (record d { elf_pg_hdr = some table }) table h.size ss 0
                                    d.at_base b c5 h.described)))))))))))
