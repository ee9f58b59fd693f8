-- ===== src/Elf/File/Contents.antt =====
-- What the tables of a descriptor contain that process_elf_file (elf_lib_funcs.c) made.
use libscout.Prelude.{
  ◌≡◌, ◌∙◌, sym as flip, subst, ◌⊎◌, inl, inr, Option, some, In, length, Name, ℤ, einval, done,
}
use libscout.Elf.Memory.{Region}
use libscout.Elf.Descr.{ElfFileDescr, ElfStrTbl, ElfSymTbl, sizeof_hdr}
use libscout.Elf.Cursor.{Disk, Mem}
use libscout.Elf.Cursor.Holds.{
  Holds, >>=-Holds, if-Holds, fail-Holds, IsBlock, calloc-Holds, read_into-Holds,
}
use libscout.Elf.Populate.Loaded.{All-In}
use libscout.Elf.Cursor.Gets.{IsImage}
use libscout.Elf.Populate.Image.{
  StrFrom, SymFrom, AllFrom, elf_populate_str_table-Holds, elf_populate_sym_table-Holds,
}
use libscout.Elf.File.{sizeof_file_descr, is_elf, load_file, process_elf_file}
use libscout.Elf.File.Segments.{IsFresh, load_pg_hdrs-Holds}
use libscout.Elf.File.Sections.{load_sections-Keeps}
use libscout.Elf.File.Loaded.{Yields, opened-Yields}

fresh-AllFrom :
    (image hdr : Region) (sec : Option Region) (d : ElfFileDescr)
    → IsFresh hdr d
    → AllFrom image (record d { elf_sec_hdr = sec })
fresh-AllFrom image hdr sec d fresh = (rw fresh.no_strings tt, rw fresh.no_symbols tt)

load_file-AllFrom :
    (mem : Mem) (disk : Disk) (image : Region)
    → IsImage disk image
    → Holds (AllFrom image) (load_file mem disk)
unfolding load_file
load_file-AllFrom mem disk image is =
    >>=-Holds (IsBlock sizeof_file_descr) (calloc-Holds mem sizeof_file_descr) (λ _ _.
      >>=-Holds (IsBlock sizeof_hdr) (calloc-Holds mem sizeof_hdr) (λ zeros block.
        >>=-Holds (λ r. length r ≡ length zeros) (read_into-Holds disk zeros 0 sizeof_hdr)
          (λ hdr same.
            if-Holds (is_elf hdr)
              (λ elf. >>=-Holds (IsFresh hdr) (load_pg_hdrs-Holds mem disk hdr) (λ d fresh.
                load_sections-Keeps mem disk d (λ table. AllFrom image) (AllFrom image)
                  (λ table. elf_populate_str_table-Holds disk image is mem)
                  (λ table. elf_populate_sym_table-Holds disk image is mem)
                  (λ shnum table counted made.
                    (fresh-AllFrom image hdr (some table) d fresh, λ d' h. h))
                  (fresh-AllFrom image hdr d.elf_sec_hdr d fresh)))
              (λ _. fail-Holds einval))))

-- If the file is given by its bytes and process_elf_file makes a descriptor of it, every string table
-- and every symbol table of the descriptor holds the bytes of its section: where the section has an
-- offset and a size that are positive as `int`s and lies inside the file, the table is just that
-- part of the file.
pub loaded_contents :
    (mem : Mem) (open_file : Name → Disk ⊎ ℤ) (fn : Name) (disk : Disk) (image : Region)
    (d : ElfFileDescr)
    → open_file fn ≡ inl disk
    → IsImage disk image
    → process_elf_file mem open_file (some fn) ≡ done (inl d)
    → ((t : ElfStrTbl) → In t d.elf_str_tbls → StrFrom image d t)
      × ((u : ElfSymTbl) → In u d.elf_sym_tbls → SymFrom image d u)
unfolding process_elf_file
loaded_contents mem open_file fn disk image d opened is gives =
    let all : AllFrom image d = subst (Yields (AllFrom image)) gives (
      opened-Yields (AllFrom image) mem (open_file fn) (λ disk' e.
        load_file-AllFrom mem disk' image (subst (λ x. IsImageOf image x) (flip opened ∙ e) is))) in
    (
      λ t m. All-In (StrFrom image d) d.elf_str_tbls t all.0 m,
      λ u m. All-In (SymFrom image d) d.elf_sym_tbls u all.1 m,
    )
  where
    IsImageOf : Region → Disk ⊎ ℤ → Type 0
    IsImageOf image (inl disk) = IsImage disk image
    IsImageOf image (inr errno) = Unit
