-- ===== src/Elf/Populate/Succeeds.antt =====
-- elf_populate_str_table and elf_populate_sym_table (elf_lib_funcs.c) on sections whose headers
-- describe a part of the file.
use libscout.Prelude.{
  ℕ, ◌+◌, ◌^◌, ◌≤◌, ◌<◌, ◌≡◌, refl, ◌∙◌, sym as flip, ap, true, not, ◌||◌, none, some, List, [],
  ◌∷◌, ◌++◌, length, length-take, length-drop, take, drop, get_elem?, Name, name_eq, ℤ, pos, int_lt,
  exit_success, arith,
}
use libscout.Elf.Memory.{Region}
use libscout.Elf.Descr.{ElfFileDescr, ElfStrTbl, ElfSymTbl}
use libscout.Elf.Header.{hdr_field, get_elf_hdr_shnum}
use libscout.Elf.Tables.{sec_field, get_elf_sec_offset, get_elf_sec_size, get_elf_sec_name_indx}
use libscout.Elf.Tables.Ints.{size-IsInt}
use libscout.Elf.Strings.{str_from, get_elf_sec_name}
use libscout.Elf.Strings.Reads.{c_string, get_elf_str_from_table_lem}
use libscout.Elf.Cursor.{Disk, Mem, Cursor, store}
use libscout.Elf.Cursor.Gets.{
  Gets, IsImage, EnoughMem, >>=-Gets, Gets-map, pure-Gets, read-Gets, else-Gets, try_malloc-Gets,
  seek-Gets, read_into-Gets,
}
use libscout.Elf.Populate.Image.{store-whole}
use libscout.Elf.Populate.{int_div, dynsym, get_elf_sec_data, sec_name}

-- What the header of a section describes.
pub record Section : Type 0 where
  pub type : ℤ
  pub name : Name
  pub offset : ℕ
  pub size : ℕ

abbrev pub contents : Region → Section → Region
contents image s = take s.size (drop s.offset image)

-- Section `i` is not empty, lies inside the file and behind its start, and has a name that ends
-- within the table of names.
pub record IsGood (d1 : ElfFileDescr) (image names : Region) (i : ℕ) (s : Section) : Type 0 where
  pub sized : get_elf_sec_size (some d1) (pos i) ≡ some (pos s.size)
  pub at_offset : get_elf_sec_offset (some d1) (pos i) ≡ some (pos s.offset)
  pub not_empty : 0 < s.size
  pub behind_start : 0 < s.offset
  pub inside_file : s.offset + s.size ≤ length image
  pub at : ℕ
  pub indexed : get_elf_sec_name_indx (some d1) (pos i) ≡ some (pos at)
  pub inside : at < length names
  pub named : c_string (drop at names) ≡ some s.name

-- The table of strings, or of symbols, that stands for section `i`.
abbrev pub str_tbl : Region → ℕ → Section → ElfStrTbl
str_tbl image i s = record {
  sec_indx = pos i;
  elf_str_tbl_name = some s.name;
  elf_str_tbl_size = pos s.size;
  elf_str_table = some (contents image s);
}

abbrev pub sym_tbl : Region → ℕ → ℕ → Section → ElfSymTbl
sym_tbl image entry_size i s = record {
  sec_indx = pos i;
  elf_sym_table = some (contents image s);
  elf_sym_tbl_size = pos s.size;
  elf_sym_tbl_name = some s.name;
  elf_sym_tbl_num_entry = int_div (pos s.size) entry_size;
  is_dynamic = name_eq s.name dynsym;
}

abbrev pub with_tables : ElfFileDescr → List ElfStrTbl → List ElfSymTbl → ElfFileDescr
with_tables d1 strs syms = record d1 { elf_str_tbls = strs; elf_sym_tbls = syms }

abbrev pub unnamed : Region → ℕ → Section → ElfStrTbl
unnamed image i s = record (str_tbl image i s) { elf_str_tbl_name = none }

-- The first string table holds the names of the sections.
pub record HasNames (names : Region) (strs : List ElfStrTbl) : Type 0 where
  pub first : ElfStrTbl
  pub is_first : get_elem? strs 0 ≡ some first
  pub table : first.elf_str_table ≡ some names
  pub sized : first.elf_str_tbl_size ≡ pos (length names)

pub HasNames-snoc :
    {names : Region} {strs : List ElfStrTbl} (t : ElfStrTbl)
    → HasNames names strs
    → HasNames names (strs ++ t ∷ [])
HasNames-snoc {strs = []} t h = absurd (let e = h.is_first in ground arith)
HasNames-snoc {strs = x ∷ strs} t h = record {
  first = h.first;
  is_first = h.is_first;
  table = h.table;
  sized = h.sized;
}

pub length-contents :
    (image : Region) (s : Section)
    → s.offset + s.size ≤ length image
    → length (contents image s) ≡ s.size
length-contents image s h =
    length-take s.size (drop s.offset image) (omega (arith, length-drop s.offset image))

pub small_size :
    (d1 : ElfFileDescr) (i : ℤ) (n : ℕ) → get_elf_sec_size (some d1) i ≡ some (pos n) → n < 2 ^ 63
small_size d1 i n e = let h = size-IsInt d1 i (pos n) e in omega arith

module _ (mem : Mem) (enough : EnoughMem mem) (disk : Disk) (image : Region)
    (is : IsImage disk image) (d1 : ElfFileDescr) (names : Region) (n : ℕ)
    (counted : get_elf_hdr_shnum (some d1) ≡ some (pos n)) where
  pub sec_data-Gets :
      (strs : List ElfStrTbl) (syms : List ElfSymTbl) (i : ℕ) (s : Section) (buf : Region)
      (c : Cursor)
      → i ≤ n
      → IsGood d1 image names i s
      → length buf ≡ s.size
      → Gets c
          (λ r _. r ≡ contents image s)
          (get_elf_sec_data mem disk (with_tables d1 strs syms) (pos i) buf)
  unfolding get_elf_sec_data get_elf_sec_offset get_elf_sec_size sec_field get_elf_hdr_shnum
      hdr_field
  sec_data-Gets strs syms i s buf c le g size =
      let some_bytes = g.not_empty in
      let behind = g.behind_start in
      let inside = g.inside_file in
      read-Gets (get_elf_hdr_shnum (some d1)) (pos n) _ counted (
        else-Gets (int_lt (pos n) (pos i)) _ _ (ground arith) (
          read-Gets (get_elf_sec_offset (some d1) (pos i)) (pos s.offset) _ g.at_offset (
            read-Gets (get_elf_sec_size (some d1) (pos i)) (pos s.size) _ g.sized (
              else-Gets (not (int_lt (pos 0) (pos s.offset)) || not (int_lt (pos 0) (pos s.size))) _
                _ (ground arith)
                (>>=-Gets (seek-Gets disk image is s.offset c) (λ _ c' at.
                  Gets-map (λ r _ h. h.0)
                    (read_into-Gets disk image is buf 0 s.size c' (contents image s) (
                      ap (λ k. store buf 0 (take s.size (drop k image))) at
                      ∙ store-whole buf (contents image s)
                          (length-contents image s inside ∙ flip size)))))))))

  sec_name-found :
      (strs : List ElfStrTbl) (syms : List ElfSymTbl) (i : ℕ) (s : Section)
      → HasNames names strs
      → IsGood d1 image names i s
      → get_elf_sec_name true (with_tables d1 strs syms) (pos i) ≡ some (exit_success, some s.name)
  unfolding get_elf_sec_name get_elf_sec_name_indx str_from sec_field get_elf_hdr_shnum hdr_field
  sec_name-found strs syms i s r g =
      let fits : int_lt (pos g.at) (pos (length names)) ≡ true = let h = g.inside in ground arith in
      rw (g.indexed, r.is_first, r.sized, r.table, fits)
        (get_elf_str_from_table_lem true names g.at ∙ rw g.named refl)

  pub sec_name-Gets :
      (strs : List ElfStrTbl) (syms : List ElfSymTbl) (i : ℕ) (s : Section) (c : Cursor)
      → HasNames names strs
      → IsGood d1 image names i s
      → Gets c
          (λ found _. found ≡ some s.name)
          (sec_name mem disk (with_tables d1 strs syms) (pos i))
  unfolding sec_name
  sec_name-Gets strs syms i s c r g =
      >>=-Gets (try_malloc-Gets mem enough 1 c (omega arith)) (λ b c' h. rw (h.0) (
        read-Gets (get_elf_sec_name true (with_tables d1 strs syms) (pos i)) _ _
          (sec_name-found strs syms i s r g) (pure-Gets (some s.name) refl)))
