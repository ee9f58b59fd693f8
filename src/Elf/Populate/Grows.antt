-- ===== src/Elf/Populate/Grows.antt =====
-- The lists of tables after populate_string_table and populate_sym_table (elf_lib_funcs.c).
use libscout.Prelude.{
  ℕ, ◌+◌, ◌*◌, ◌^◌, ◌≤◌, ◌<◌, ◌≡◌, refl, some, List, [], ◌∷◌, ◌++◌, length, pos, arith,
}
use libscout.Elf.Memory.{Region}
use libscout.Elf.Descr.{ElfFileDescr, ElfStrTbl, ElfSymTbl}
use libscout.Elf.Header.{hdr_field, get_elf_hdr_shnum}
use libscout.Elf.Tables.{sec_field, get_elf_sec_size}
use libscout.Elf.Symbol.{get_elf_sym_tab_entry_size}
use libscout.Elf.Cursor.{Disk, Mem, Cursor}
use libscout.Elf.Cursor.Gets.{
  Gets, IsImage, EnoughMem, >>=-Gets, pure-Gets, read-Gets, malloc-Gets, try_malloc-Gets,
}
use libscout.Elf.Populate.Succeeds.{
  Section, IsGood, str_tbl, sym_tbl, unnamed, with_tables, HasNames, HasNames-snoc, small_size,
  sec_data-Gets, sec_name-Gets,
}
use libscout.Elf.Populate.{
  sizeof_str_tbl, sizeof_sym_tbl, elf_populate_str_table, elf_populate_sym_table,
  populate_string_table, first_sym_table, populate_sym_table,
}

module _ (mem : Mem) (enough : EnoughMem mem) (disk : Disk) (image : Region)
    (is : IsImage disk image) (d1 : ElfFileDescr) (names : Region) (n : ℕ)
    (counted : get_elf_hdr_shnum (some d1) ≡ some (pos n)) where
  abbrev entry_size : ℕ
  entry_size = get_elf_sym_tab_entry_size d1

  pub str_table-Gets :
      (strs : List ElfStrTbl) (syms : List ElfSymTbl) (i : ℕ) (s : Section) (c : Cursor)
      → i ≤ n
      → IsGood d1 image names i s
      → HasNames names (strs ++ unnamed image i s ∷ [])
      → Gets c
          (λ d _. d ≡ with_tables d1 (strs ++ str_tbl image i s ∷ []) syms)
          (elf_populate_str_table mem disk (with_tables d1 strs syms) (pos i))
  unfolding elf_populate_str_table get_elf_sec_size sec_field get_elf_hdr_shnum hdr_field
  str_table-Gets strs syms i s c le g h =
      read-Gets (get_elf_sec_size (some d1) (pos i)) (pos s.size) _ g.sized (
        >>=-Gets (malloc-Gets mem enough s.size c (small_size d1 (pos i) s.size g.sized))
          (λ buf c1 size.
            >>=-Gets
              (sec_data-Gets mem enough disk image is d1 names n counted strs syms i s buf c1 le g
                size)
              (λ table c2 same. rw same (
                >>=-Gets
                  (sec_name-Gets mem enough disk image is d1 names n counted
                    (strs ++ unnamed image i s ∷ []) syms i s c2 h g)
                  (λ name c3 found. rw found (pure-Gets _ refl))))))

  pub sym_table-Gets :
      (strs : List ElfStrTbl) (syms : List ElfSymTbl) (i : ℕ) (s : Section) (c : Cursor)
      → i ≤ n
      → IsGood d1 image names i s
      → HasNames names strs
      → Gets c
          (λ d _. d ≡ with_tables d1 strs (syms ++ sym_tbl image entry_size i s ∷ []))
          (elf_populate_sym_table mem disk (with_tables d1 strs syms) (pos i))
  unfolding elf_populate_sym_table get_elf_sec_size sec_field get_elf_hdr_shnum hdr_field
      get_elf_sym_tab_entry_size
  sym_table-Gets strs syms i s c le g h =
      read-Gets (get_elf_sec_size (some d1) (pos i)) (pos s.size) _ g.sized (
        >>=-Gets (malloc-Gets mem enough s.size c (small_size d1 (pos i) s.size g.sized))
          (λ buf c1 size.
            >>=-Gets
              (sec_data-Gets mem enough disk image is d1 names n counted strs syms i s buf c1 le g
                size)
              (λ table c2 same. rw same (
                >>=-Gets
                  (sec_name-Gets mem enough disk image is d1 names n counted strs syms i s c2 h g)
                  (λ found c3 e. read-Gets found s.name _ e (pure-Gets _ refl))))))

  pub string_table-Gets :
      (strs : List ElfStrTbl) (syms : List ElfSymTbl) (i : ℕ) (s : Section) (c : Cursor)
      → i ≤ n
      → length strs < 2 ^ 32
      → IsGood d1 image names i s
      → HasNames names strs
      → Gets c
          (λ d _. d ≡ with_tables d1 (strs ++ str_tbl image i s ∷ []) syms)
          (populate_string_table mem disk (with_tables d1 strs syms) (pos i))
  unfolding populate_string_table
  string_table-Gets strs syms i s c le few g h =
      >>=-Gets (malloc-Gets mem enough (sizeof_str_tbl * (length strs + 1)) c (omega arith))
        (λ _ c1 _. str_table-Gets strs syms i s c1 le g (HasNames-snoc (unnamed image i s) h))

  pub symbols_table-Gets :
      (strs : List ElfStrTbl) (syms : List ElfSymTbl) (i : ℕ) (s : Section) (c : Cursor)
      → i ≤ n
      → length syms < 2 ^ 32
      → IsGood d1 image names i s
      → HasNames names strs
      → Gets c
          (λ d _. d ≡ with_tables d1 strs (syms ++ sym_tbl image entry_size i s ∷ []))
          (populate_sym_table mem disk (with_tables d1 strs syms) (pos i))
  unfolding populate_sym_table first_sym_table
  symbols_table-Gets [] syms i s c le few g h = absurd (let e = h.is_first in ground arith)
  symbols_table-Gets (t ∷ ts) [] i s c le few g h =
      >>=-Gets (try_malloc-Gets mem enough sizeof_sym_tbl c (omega arith))
        (λ b c1 e. rw (e.0) (sym_table-Gets (t ∷ ts) [] i s c1 le g h))
  symbols_table-Gets (t ∷ ts) (u ∷ us) i s c le few g h =
      >>=-Gets (malloc-Gets mem enough (sizeof_sym_tbl * (length (u ∷ us) + 1)) c (omega arith))
        (λ _ c1 _. sym_table-Gets (t ∷ ts) (u ∷ us) i s c1 le g h)
