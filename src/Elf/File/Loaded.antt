-- ===== src/Elf/File/Loaded.antt =====
-- The descriptor that process_elf_file (elf_lib_funcs.c) makes.
use libscout.Prelude.{
  ℕ, ◌*◌, ◌≡◌, refl, ◌∙◌, sym as flip, true, ◌⊎◌, inl, inr, Option, none, some, [], length, Name, ℤ,
  pos, einval, Run, done, crash, out_of_fuel, arith,
}
use libscout.Elf.Memory.{Region}
use libscout.Elf.Descr.{ElfFileDescr, sizeof_hdr, sizeof_sec_hdr}
use libscout.Elf.Header.{get_elf_hdr_shnum}
use libscout.Elf.Symbol.{get_elf_sym_tab_entry_size}
use libscout.Elf.Tables.Bounds.{HasSections}
use libscout.Elf.Cursor.{Disk, Mem, Cursor}
use libscout.Elf.Cursor.Holds.{
  Gives, Holds, >>=-Holds, if-Holds, fail-Holds, IsBlock, calloc-Holds, read_into-Holds,
}
use libscout.Elf.Populate.Loaded.{
  All, IsStrTable, IsSymTable, HasTables, elf_populate_str_table-Holds,
  elf_populate_sym_table-Holds,
}
use libscout.Elf.File.{
  sizeof_file_descr, is_class64, is_elf, count, load_sections, load_file, loaded, process_elf_file,
}
use libscout.Elf.File.Sections.{load_sections-Keeps}
use libscout.Elf.File.Segments.{same_hdr_field, HasPgHdrs, IsFresh, same_PgHdrs, load_pg_hdrs-Holds}

-- No section headers have been read, and no tables; or there is one for each section that the
-- header counts.
abbrev pub HasSecHdrs : ElfFileDescr → Type 0
HasSecHdrs d =
    ((d.elf_sec_hdr ≡ none) × (d.elf_str_tbls ≡ []) × (d.elf_sym_tbls ≡ []))
    ⊎ ((n : ℕ) × HasSections d n)

-- What the accessors and the loops over symbols rely on.
pub record IsLoaded (d : ElfFileDescr) : Type 0 where
  pub hdr : Region
  pub header : d.elf_hdr ≡ some hdr
  pub sized : length hdr ≡ sizeof_hdr
  pub elf : is_elf hdr ≡ true
  pub class : d.is_64bit ≡ is_class64 hdr
  pub segments : HasPgHdrs d
  pub sections : HasSecHdrs d
  pub strings : All IsStrTable d.elf_str_tbls
  pub symbols : All (IsSymTable (get_elf_sym_tab_entry_size d)) d.elf_sym_tbls

module _ (mem : Mem) (disk : Disk) where
  -- What the loops over the sections keep, with what was known before them.
  tables-IsLoaded :
      (hdr : Region) (d d' : ElfFileDescr) (n : ℕ) (table : Region)
      → length hdr ≡ sizeof_hdr
      → is_elf hdr ≡ true
      → IsFresh hdr d
      → get_elf_hdr_shnum (some d) ≡ some (pos n)
      → length table ≡ n * sizeof_sec_hdr
      → HasTables d.is_64bit hdr d.elf_pg_hdr (some table) d'
      → IsLoaded d'
  unfolding get_elf_hdr_shnum
  tables-IsLoaded hdr d d' n table sized elf fresh counted made h =
      let header : d'.elf_hdr ≡ d.elf_hdr = h.header ∙ flip fresh.header in
      record {
        hdr = hdr;
        header = h.header;
        sized = sized;
        elf = elf;
        class = h.class ∙ fresh.class;
        segments = same_PgHdrs d d' header h.class h.segments fresh.segments;
        sections = inr (
          n,
          record {
            counted = same_hdr_field _ (pos 0) d d' header h.class ∙ counted;
            header = hdr;
            has_header = h.header;
            elements = table;
            has_elements = h.sections;
            sized = omega (arith, made);
          },
        );
        strings = h.strings;
        symbols = h.symbols;
      }

  fresh-IsLoaded :
      (hdr : Region) (d : ElfFileDescr)
      → length hdr ≡ sizeof_hdr
      → is_elf hdr ≡ true
      → IsFresh hdr d
      → IsLoaded d
  fresh-IsLoaded hdr d sized elf fresh = record {
    hdr = hdr;
    header = fresh.header;
    sized = sized;
    elf = elf;
    class = fresh.class;
    segments = fresh.segments;
    sections = inl (fresh.no_sections, fresh.no_strings, fresh.no_symbols);
    strings = rw fresh.no_strings tt;
    symbols = rw fresh.no_symbols tt;
  }

  load_sections-Holds :
      (hdr : Region) (d : ElfFileDescr)
      → length hdr ≡ sizeof_hdr
      → is_elf hdr ≡ true
      → IsFresh hdr d
      → Holds IsLoaded (load_sections mem disk d)
  load_sections-Holds hdr d sized elf fresh =
      load_sections-Keeps mem disk d (λ table. HasTables d.is_64bit hdr d.elf_pg_hdr (some table))
        IsLoaded
        (λ table. elf_populate_str_table-Holds mem disk d.is_64bit hdr d.elf_pg_hdr (some table))
        (λ table. elf_populate_sym_table-Holds mem disk d.is_64bit hdr d.elf_pg_hdr (some table))
        (λ shnum table counted made. (
          record {
            class = refl;
            header = fresh.header;
            segments = refl;
            sections = refl;
            strings = rw fresh.no_strings tt;
            symbols = rw fresh.no_symbols tt;
          },
          λ d' h. tables-IsLoaded hdr d d' (count shnum) table sized elf fresh counted made h,
        ))
        (fresh-IsLoaded hdr d sized elf fresh)

  load_file-Holds : Holds IsLoaded (load_file mem disk)
  unfolding load_file
  load_file-Holds =
      >>=-Holds (IsBlock sizeof_file_descr) (calloc-Holds mem sizeof_file_descr) (λ _ _.
        >>=-Holds (IsBlock sizeof_hdr) (calloc-Holds mem sizeof_hdr) (λ zeros block.
          >>=-Holds (λ r. length r ≡ length zeros) (read_into-Holds disk zeros 0 sizeof_hdr)
            (λ hdr same.
              if-Holds (is_elf hdr)
                (λ elf.
                  >>=-Holds (IsFresh hdr) (load_pg_hdrs-Holds mem disk hdr)
                    (λ d fresh. load_sections-Holds hdr d (same ∙ block.0) elf fresh))
                (λ _. fail-Holds einval))))

-- A call ends with a descriptor that has the property, with a return code, or in a fault, but it does
-- end.
abbrev pub Yields : (ElfFileDescr → Type 0) → Run (ElfFileDescr ⊎ ℤ) → Type 0
Yields P (done (inl d)) = P d
Yields P (done (inr rc)) = Unit
Yields P crash = Unit
Yields P out_of_fuel = ⊥

pub loaded-Yields :
    (P : ElfFileDescr → Type 0) (r : Run ((ElfFileDescr × Cursor) ⊎ ℤ))
    → Gives P r
    → Yields P (loaded r)
loaded-Yields P (done (inl (d, c))) h = h
loaded-Yields P (done (inr rc)) h = tt
loaded-Yields P crash h = tt
loaded-Yields P out_of_fuel h = h

pub opened-Yields :
    (P : ElfFileDescr → Type 0) (mem : Mem) (opened : Disk ⊎ ℤ)
    → ((disk : Disk) → opened ≡ inl disk → Holds P (load_file mem disk))
    → Yields P (elim opened as (λ x. Run (ElfFileDescr ⊎ ℤ)) [
      | inr errno ↦ done (inr errno)
      | inl disk ↦ loaded (load_file mem disk (record { at = 0; blocks = 0 }))
    ])
opened-Yields P mem (inr errno) h = tt
opened-Yields P mem (inl disk) h = loaded-Yields P _ ((h disk refl).gives _)

-- For every file, allocator and name, process_elf_file is never cut off by the fuel of the loops over
-- notes; and a descriptor that it gives has a header of 64 bytes that passes the three tests, the
-- class that the header names, program headers that are missing or of the size that the header
-- gives, a section header of 64 bytes for each section or neither section headers nor tables, and
-- only string tables and symbol tables whose contents have just the size that they say; a symbol
-- table has a name, as many entries as fit into its size, and is dynamic if that name is ".dynsym".
pub process_elf_file_lem :
    (mem : Mem) (open_file : Name → Disk ⊎ ℤ) (fn : Option Name)
    → Yields IsLoaded (process_elf_file mem open_file fn)
unfolding process_elf_file
process_elf_file_lem mem open_file none = tt
process_elf_file_lem mem open_file (some fn) =
    opened-Yields IsLoaded mem (open_file fn) (λ disk e. load_file-Holds mem disk)
