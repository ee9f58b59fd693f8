-- ===== src/Elf/Populate/Loaded.antt =====
-- The tables that elf_populate_str_table and elf_populate_sym_table (elf_lib_funcs.c) leave in a
-- descriptor.
use libscout.Prelude.{
  ℕ, ◌/◌, ◌≡◌, refl, sym as flip, ◌∙◌, ap, subst, Bool, not, ◌||◌, inl, inr, Option, some, List, [],
  ◌∷◌, ◌++◌, length, In, Name, name_eq, ℤ, pos, negsuc, int_lt, int_eq, to_u64, einval,
}
use libscout.Elf.Memory.{Region}
use libscout.Elf.Descr.{ElfFileDescr, ElfStrTbl, ElfSymTbl}
use libscout.Elf.Header.{get_elf_hdr_shnum}
use libscout.Elf.Tables.{get_elf_sec_offset, get_elf_sec_size}
use libscout.Elf.Symbol.{get_elf_sym_tab_entry_size}
use libscout.Elf.Strings.{Out, get_elf_sec_name}
use libscout.Elf.Tables.Ints.{IsInt, size-IsInt, block_size}
use libscout.Elf.Cursor.{Disk, Mem}
use libscout.Elf.Cursor.Holds.{
  Holds, >>=-Holds, if-Holds, read-Holds, pure-Holds, fail-Holds, IsBlock, malloc-Holds,
  try_malloc-Holds, seek-Holds, read_into-Holds,
}
use libscout.Elf.Populate.{
  int_div, dynsym, get_elf_sec_data, name_or_fail, sec_name, elf_populate_str_table,
  elf_populate_sym_table,
}

-- A string table has its bytes, just as many as its size says.
pub record IsStrTable (t : ElfStrTbl) : Type 0 where
  pub table : Region
  pub has_table : t.elf_str_table ≡ some table
  pub sized : t.elf_str_tbl_size ≡ pos (length table)

-- So has a symbol table; its entries fit, and it is taken for a dynamic one by its name.
pub record IsSymTable (entry_size : ℕ) (u : ElfSymTbl) : Type 0 where
  pub table : Region
  pub has_table : u.elf_sym_table ≡ some table
  pub sized : u.elf_sym_tbl_size ≡ pos (length table)
  pub entries : u.elf_sym_tbl_num_entry ≡ pos (length table / entry_size)
  pub name : Name
  pub named : u.elf_sym_tbl_name ≡ some name
  pub dynamic : u.is_dynamic ≡ name_eq name dynsym

abbrev pub All : {A : Type 0} → (A → Type 0) → List A → Type 0
All P [] = Unit
All P (x ∷ xs) = P x × All P xs

pub All-snoc :
    {A : Type 0} (P : A → Type 0) (xs : List A) (a : A) → All P xs → P a → All P (xs ++ a ∷ [])
All-snoc P [] a h p = (p, tt)
All-snoc P (x ∷ xs) a h p = (h.0, All-snoc P xs a h.1 p)

pub All-In : {A : Type 0} (P : A → Type 0) (xs : List A) (a : A) → All P xs → In a xs → P a
All-In P [] a h m = elim m [ ]
All-In P (x ∷ xs) a h (inl e) = subst P (flip e) h.0
All-In P (x ∷ xs) a h (inr m) = All-In P xs a h.1 m

-- A descriptor of a class, with a header and section headers, and well-formed tables.
pub record HasTables (is_64bit : Bool) (hdr : Region) (pg sec : Option Region) (d : ElfFileDescr)
    : Type 0 where
  pub class : d.is_64bit ≡ is_64bit
  pub header : d.elf_hdr ≡ some hdr
  pub segments : d.elf_pg_hdr ≡ pg
  pub sections : d.elf_sec_hdr ≡ sec
  pub strings : All IsStrTable d.elf_str_tbls
  pub symbols : All (IsSymTable (get_elf_sym_tab_entry_size d)) d.elf_sym_tbls

-- A size for which a block was had is not negative.
pub exact_block :
    (size : ℤ) (buf table : Region)
    → IsInt size
    → IsBlock (to_u64 size) buf
    → length table ≡ length buf
    → size ≡ pos (length table)
exact_block size buf table int block same =
    let (n, s) = block_size size int block.1 in s ∙ ap pos (flip (same ∙ block.0 ∙ ap to_u64 s))

module _ (mem : Mem) (disk : Disk) where
  sec_data-Holds :
      (d : ElfFileDescr) (i : ℤ) (buf : Region)
      → Holds (λ r. length r ≡ length buf) (get_elf_sec_data mem disk d i buf)
  unfolding get_elf_sec_data
  sec_data-Holds d i buf = read-Holds (get_elf_hdr_shnum (some d)) (λ shnum _.
      if-Holds (int_lt shnum i) (λ _. fail-Holds einval)
        (λ _. read-Holds (get_elf_sec_offset (some d) i) (λ offset _.
          read-Holds (get_elf_sec_size (some d) i) (λ size _.
            if-Holds (not (int_lt (pos 0) offset) || not (int_lt (pos 0) size))
              (λ _. pure-Holds buf refl)
              (λ _.
                >>=-Holds (λ _. Unit) (seek-Holds disk offset)
                  (λ _ _. read_into-Holds disk buf 0 (to_u64 size)))))))

  name_or_fail-Holds : (out : Out) → Holds (λ _. Unit) (name_or_fail mem disk out)
  name_or_fail-Holds (rc, name) =
      if-Holds (int_eq rc (negsuc 0)) (λ _. fail-Holds einval) (λ _. pure-Holds name tt)

  pub sec_name-Holds : (d : ElfFileDescr) (i : ℤ) → Holds (λ _. Unit) (sec_name mem disk d i)
  unfolding sec_name
  sec_name-Holds d i =
      >>=-Holds (λ _. Unit) (try_malloc-Holds mem 1)
        (λ allocated _.
          read-Holds (get_elf_sec_name allocated d i) (λ out _. name_or_fail-Holds out))

  sized_block :
      (d : ElfFileDescr) (i size : ℤ) (buf table : Region)
      → get_elf_sec_size (some d) i ≡ some size
      → IsBlock (to_u64 size) buf
      → length table ≡ length buf
      → size ≡ pos (length table)
  sized_block d i size buf table e = exact_block size buf table (size-IsInt d i size e)

  module _ (is_64bit : Bool) (hdr : Region) (pg sec : Option Region) where
    pub elf_populate_str_table-Holds :
        (d : ElfFileDescr) (i : ℤ)
        → HasTables is_64bit hdr pg sec d
        → Holds (HasTables is_64bit hdr pg sec) (elf_populate_str_table mem disk d i)
    unfolding elf_populate_str_table get_elf_sym_tab_entry_size
    elf_populate_str_table-Holds d i h = read-Holds (get_elf_sec_size (some d) i) (λ size e.
        >>=-Holds (IsBlock (to_u64 size)) (malloc-Holds mem (to_u64 size)) (λ buf block.
          >>=-Holds (λ r. length r ≡ length buf) (sec_data-Holds d i buf)
            (λ table same.
              >>=-Holds (λ _. Unit) (sec_name-Holds _ i)
                (λ name _. pure-Holds _ (record {
                  class = h.class;
                  header = h.header;
                  segments = h.segments;
                  sections = h.sections;
                  strings = All-snoc IsStrTable d.elf_str_tbls _ h.strings (record {
                    table = table;
                    has_table = refl;
                    sized = sized_block d i size buf table e block same;
                  });
                  symbols = h.symbols;
                })))))

    pub elf_populate_sym_table-Holds :
        (d : ElfFileDescr) (i : ℤ)
        → HasTables is_64bit hdr pg sec d
        → Holds (HasTables is_64bit hdr pg sec) (elf_populate_sym_table mem disk d i)
    unfolding elf_populate_sym_table get_elf_sym_tab_entry_size
    elf_populate_sym_table-Holds d i h = read-Holds (get_elf_sec_size (some d) i) (λ size e.
        >>=-Holds (IsBlock (to_u64 size)) (malloc-Holds mem (to_u64 size)) (λ buf block.
          >>=-Holds (λ r. length r ≡ length buf) (sec_data-Holds d i buf)
            (λ table same.
              >>=-Holds (λ _. Unit) (sec_name-Holds d i)
                (λ found _. read-Holds found (λ name _.
                  let exact : size ≡ pos (length table) =
                    sized_block d i size buf table e block same in
                  pure-Holds _ (record {
                    class = h.class;
                    header = h.header;
                    segments = h.segments;
                    sections = h.sections;
                    strings = h.strings;
                    symbols =
                        All-snoc (IsSymTable (get_elf_sym_tab_entry_size d)) d.elf_sym_tbls _
                          h.symbols
                          (record {
                            table = table;
                            has_table = refl;
                            sized = exact;
                            entries = ap (λ n. int_div n (get_elf_sym_tab_entry_size d)) exact;
                            name = name;
                            named = refl;
                            dynamic = refl;
                          });
                  }))))))
