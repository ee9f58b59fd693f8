-- ===== src/Elf/File/Steps.antt =====
-- The steps of process_elf_file (elf_lib_funcs.c) that read headers and notes.
use libscout.Prelude.{
  ℕ, zero, suc, ◌+◌, ◌*◌, ◌≡◌, refl, subst, some, List, [], ◌∷◌, length, ℤ, pos, int_eq, to_int,
  to_u64, exit_success,
}
use libscout.Iter.{iterator_init}
use libscout.Elf.Memory.{Region, load_field, p_type, p_offset, p_filesz}
use libscout.Elf.Descr.{ElfFileDescr, sizeof_sec_hdr}
use libscout.Elf.Tables.Ints.{to_int-IsInt, to_int_bound}
use libscout.Elf.Notes.Fuel.{walk_notes-HasFuel}
use libscout.Elf.Cursor.{Disk, Mem}
use libscout.Elf.Cursor.Holds.{
  Holds, >>=-Holds, from_run-Holds, if-Holds, read-Holds, pure-Holds, fail-Holds, IsBlock,
  malloc-Holds, try_malloc-Holds, seek-Holds, read_into-Holds,
}
use libscout.Elf.Populate.Loaded.{exact_block}
use libscout.Elf.File.{
  pt_note, note_result, get_elf_pg_data, process_elf_pg_hdr_pt_note, pg_entries, read_pg_hdrs,
  process_pg_hdrs, read_sec_hdrs,
}

module _ (mem : Mem) (disk : Disk) where
  pg_data-Holds :
      (size offset : ℤ) (buf : Region)
      → Holds (λ r. length r ≡ length buf) (get_elf_pg_data mem disk size offset buf)
  unfolding get_elf_pg_data
  pg_data-Holds size offset buf =
      >>=-Holds (λ _. Unit) (seek-Holds disk offset)
        (λ _ _. read_into-Holds disk buf 0 (to_u64 size))

  -- What the notes may change of a descriptor is its `at_base`.
  module _ (P : ElfFileDescr → Type 0)
      (stable : (d : ElfFileDescr) (b : ℕ) → P d → P (record d { at_base = b })) where
    pub note_result-Holds :
        (d : ElfFileDescr) (r : ℤ × ℕ) → P d → Holds P (note_result mem disk d r)
    note_result-Holds d (rc, b) p =
        if-Holds (int_eq rc exit_success) (λ _. pure-Holds _ (stable d b p)) (λ _. fail-Holds rc)

    pub note_segment-Holds :
        (d : ElfFileDescr) (table : Region) (entry : ℕ)
        → P d
        → Holds P (process_elf_pg_hdr_pt_note mem disk d table entry)
    unfolding process_elf_pg_hdr_pt_note
    note_segment-Holds d table entry p =
        read-Holds (load_field d.is_64bit p_filesz table entry) (λ filesz _.
          read-Holds (load_field d.is_64bit p_offset table entry) (λ offset _.
            if-Holds (int_eq (to_int filesz) (pos 0)) (λ _. pure-Holds d p)
              (λ _. >>=-Holds (IsBlock (to_u64 (to_int filesz))) (malloc-Holds mem _) (λ buf block.
                >>=-Holds (λ r. length r ≡ length buf)
                  (pg_data-Holds (to_int filesz) (to_int offset) buf)
                  (λ segment same.
                    let exact =
                      exact_block (to_int filesz) buf segment (to_int-IsInt filesz) block same in
                    >>=-Holds (λ _. Unit)
                      (from_run-Holds _ (
                        rw exact (
                          walk_notes-HasFuel d.is_64bit segment mem.note_allocs d.at_base
                            (to_int_bound filesz (length segment) exact))))
                      (λ r _. note_result-Holds d r p))))))

    pub process_pg_hdrs-Holds :
        (d : ElfFileDescr) (table : Region) (entries : List ℕ)
        → P d
        → Holds P (process_pg_hdrs mem disk d table entries)
    unfolding process_pg_hdrs
    process_pg_hdrs-Holds d table [] p = pure-Holds d p
    process_pg_hdrs-Holds d table (entry ∷ entries) p =
        read-Holds (load_field d.is_64bit p_type table entry) (λ type _.
          >>=-Holds P
            (if-Holds (int_eq (to_int type) pt_note) (λ _. note_segment-Holds d table entry p)
              (λ _. pure-Holds d p))
            (λ d' p'. process_pg_hdrs-Holds d' table entries p'))

  pub pg_entries-Holds :
      (phentsize phnum : ℕ) → Holds (λ _. Unit) (pg_entries mem disk phentsize phnum)
  unfolding pg_entries
  pg_entries-Holds phentsize phnum =
      >>=-Holds (λ _. Unit) (try_malloc-Holds mem 32)
        (λ allocated _.
          read-Holds (iterator_init allocated (some 0) phentsize phnum) (λ iter _. pure-Holds _ tt))

  pub read_pg_hdrs-Holds :
      (phentsize : ℕ) (table : Region) (entries : List ℕ)
      → Holds (λ r. length r ≡ length table) (read_pg_hdrs mem disk phentsize table entries)
  unfolding read_pg_hdrs
  read_pg_hdrs-Holds phentsize table [] = pure-Holds table refl
  read_pg_hdrs-Holds phentsize table (entry ∷ entries) =
      >>=-Holds (λ r. length r ≡ length table) (read_into-Holds disk table entry phentsize)
        (λ table' e.
          subst (λ l. Holds (λ r. length r ≡ l) (read_pg_hdrs mem disk phentsize table' entries)) e
            (read_pg_hdrs-Holds phentsize table' entries))

  pub read_sec_hdrs-Holds :
      (shentsize left : ℕ) (table : Region) (i : ℕ)
      → Holds (λ r. length r ≡ length table) (read_sec_hdrs mem disk shentsize left table i)
  unfolding read_sec_hdrs
  read_sec_hdrs-Holds shentsize zero table i = pure-Holds table refl
  read_sec_hdrs-Holds shentsize (suc left) table i =
      >>=-Holds (λ r. length r ≡ length table)
        (read_into-Holds disk table (sizeof_sec_hdr * i) shentsize)
        (λ table' e.
          subst
            (λ l. Holds (λ r. length r ≡ l) (read_sec_hdrs mem disk shentsize left table' (i + 1)))
            e (read_sec_hdrs-Holds shentsize left table' (i + 1)))
