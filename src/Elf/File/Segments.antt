-- ===== src/Elf/File/Segments.antt =====
-- The part of process_elf_file (elf_lib_funcs.c) for the program headers.
use libscout.Prelude.{
  ◌*◌, ◌≡◌, refl, ◌∙◌, ap, ◌⊎◌, inl, inr, none, some, [], length, ℤ, pos, int_lt, to_u64,
}
use libscout.Elf.Memory.{Region, Field}
use libscout.Elf.Descr.{ElfFileDescr}
use libscout.Elf.Header.{hdr_field, get_elf_hdr_phoff, get_elf_hdr_phnum, get_elf_hdr_phentsize}
use libscout.Elf.Cursor.{Disk, Mem}
use libscout.Elf.Cursor.Holds.{
  Holds, >>=-Holds, if-Holds, read-Holds, pure-Holds, IsBlock, calloc-Holds, seek-Holds,
}
use libscout.Elf.File.{is_class64, empty_descr, load_pg_hdrs}
use libscout.Elf.File.Steps.{process_pg_hdrs-Holds, pg_entries-Holds, read_pg_hdrs-Holds}

-- Two descriptors with the same header.
pub same_hdr_field :
    (f : Field) (otherwise : ℤ) (d d' : ElfFileDescr)
    → d'.elf_hdr ≡ d.elf_hdr
    → d'.is_64bit ≡ d.is_64bit
    → hdr_field f otherwise (some d') ≡ hdr_field f otherwise (some d)
unfolding hdr_field
same_hdr_field f otherwise d d' header class =
    ap (λ b. hdr_field f otherwise (some (record d' { is_64bit = b }))) class
    ∙ ap (λ h. hdr_field f otherwise (some (record d { elf_hdr = h }))) header

-- No program headers have been read, or as many bytes as the header says.
pub record PgHdrs (d : ElfFileDescr) : Type 0 where
  pub phnum : ℤ
  pub counted : get_elf_hdr_phnum (some d) ≡ some phnum
  pub phentsize : ℤ
  pub strided : get_elf_hdr_phentsize (some d) ≡ some phentsize
  pub table : Region
  pub has_table : d.elf_pg_hdr ≡ some table
  pub sized : length table ≡ to_u64 phnum * to_u64 phentsize

abbrev pub HasPgHdrs : ElfFileDescr → Type 0
HasPgHdrs d = (d.elf_pg_hdr ≡ none) ⊎ PgHdrs d

-- A descriptor before its sections are looked at.
pub record IsFresh (hdr : Region) (d : ElfFileDescr) : Type 0 where
  pub class : d.is_64bit ≡ is_class64 hdr
  pub header : d.elf_hdr ≡ some hdr
  pub segments : HasPgHdrs d
  pub no_sections : d.elf_sec_hdr ≡ none
  pub no_strings : d.elf_str_tbls ≡ []
  pub no_symbols : d.elf_sym_tbls ≡ []

module _ (d d' : ElfFileDescr) (header : d'.elf_hdr ≡ d.elf_hdr)
    (class : d'.is_64bit ≡ d.is_64bit) where
  pub same_PgHdrs : d'.elf_pg_hdr ≡ d.elf_pg_hdr → HasPgHdrs d → HasPgHdrs d'
  unfolding get_elf_hdr_phnum get_elf_hdr_phentsize
  same_PgHdrs pg (inl missing) = inl (pg ∙ missing)
  same_PgHdrs pg (inr h) = inr (record {
    phnum = h.phnum;
    counted = same_hdr_field _ (pos 0) d d' header class ∙ h.counted;
    phentsize = h.phentsize;
    strided = same_hdr_field _ (pos 0) d d' header class ∙ h.strided;
    table = h.table;
    has_table = pg ∙ h.has_table;
    sized = h.sized;
  })

module _ (mem : Mem) (disk : Disk) where
  pub load_pg_hdrs-Holds :
      (hdr : Region) → Holds (IsFresh hdr) (load_pg_hdrs mem disk (empty_descr hdr))
  unfolding load_pg_hdrs hdr_field get_elf_hdr_phnum get_elf_hdr_phentsize
  load_pg_hdrs-Holds hdr =
      let fresh : IsFresh hdr (empty_descr hdr) = record {
        class = refl;
        header = refl;
        segments = inl refl;
        no_sections = refl;
        no_strings = refl;
        no_symbols = refl;
      } in
      read-Holds (get_elf_hdr_phoff (some (empty_descr hdr))) (λ phoff _.
        read-Holds (get_elf_hdr_phnum (some (empty_descr hdr))) (λ phnum counted.
          read-Holds (get_elf_hdr_phentsize (some (empty_descr hdr))) (λ phentsize strided.
            if-Holds (int_lt (pos 0) phoff)
              (λ _.
                >>=-Holds (IsBlock (to_u64 phnum * to_u64 phentsize)) (calloc-Holds mem _)
                  (λ table block.
                    >>=-Holds (λ _. Unit) (seek-Holds disk phoff)
                      (λ _ _.
                        >>=-Holds (λ _. Unit) (pg_entries-Holds mem disk _ _)
                          (λ entries _.
                            >>=-Holds (λ r. length r ≡ length table)
                              (read_pg_hdrs-Holds mem disk _ table entries)
                              (λ table' same.
                                >>=-Holds (λ _. Unit) (pg_entries-Holds mem disk _ _)
                                  (λ entries' _.
                                    process_pg_hdrs-Holds mem disk (IsFresh hdr)
                                      (λ d b h. record {
                                        class = h.class;
                                        header = h.header;
                                        segments =
                                            same_PgHdrs d (record d { at_base = b }) refl refl refl
                                              h.segments;
                                        no_sections = h.no_sections;
                                        no_strings = h.no_strings;
                                        no_symbols = h.no_symbols;
                                      })
                                      _ table' entries'
                                      (record {
                                        class = refl;
                                        header = refl;
                                        segments = inr (record {
                                          phnum = phnum;
                                          counted = counted;
                                          phentsize = phentsize;
                                          strided = strided;
                                          table = table';
                                          has_table = refl;
                                          sized = same ∙ block.0;
                                        });
                                        no_sections = refl;
                                        no_strings = refl;
                                        no_symbols = refl;
                                      })))))))
              (λ _. pure-Holds _ fresh))))
