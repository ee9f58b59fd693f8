-- ===== src/Elf/File/Readable.antt =====
-- The part of process_elf_file (elf_lib_funcs.c) for the section headers, on a file that has them.
use libscout.Prelude.{
  ℕ, ◌+◌, ◌*◌, ◌^◌, ◌≤◌, ◌<◌, ◌≡◌, refl, ◌∙◌, sym as flip, ap, ◌&&◌, some, List, [], ◌∷◌, ◌++◌,
  length, replicate, pos, int_eq, int_lt, arith,
}
use libscout.Elf.Memory.{Region}
use libscout.Elf.Descr.{ElfFileDescr, sizeof_sec_hdr}
use libscout.Elf.Header.{
  hdr_field, get_elf_hdr_shoff, get_elf_hdr_shnum, get_elf_hdr_shentsize, get_elf_sec_hdr_strndx,
}
use libscout.Elf.Tables.Ints.{hdr_field-IsInt}
use libscout.Elf.Symbol.{get_elf_sym_tab_entry_size}
use libscout.Elf.Cursor.{Disk, Mem, Cursor}
use libscout.Elf.Cursor.Gets.{
  Gets, IsImage, EnoughMem, >>=-Gets, read-Gets, then-Gets, else-Gets, calloc-Gets, seek-Gets,
}
use libscout.Elf.Populate.Succeeds.{
  Section, contents, IsGood, str_tbl, unnamed, with_tables, HasNames, length-contents,
}
use libscout.Elf.Populate.Grows.{str_table-Gets}
use libscout.Elf.Populate.{sizeof_str_tbl}
use libscout.Elf.File.Headers.{sec_headers, read_sec_hdrs-Gets}
use libscout.Elf.File.Described.{Describe, str_tbls, sym_tbls, sections-Gets}
use libscout.Elf.File.{load_shstrtab, load_sections}

-- The file has just these sections: the header says where their headers are, the headers describe
-- them, and section `x`, which is not the first, holds their names.
pub record HasSecs (image : Region) (d : ElfFileDescr) (ss : List Section) : Type 0 where
  pub counted : get_elf_hdr_shnum (some d) ≡ some (pos (length ss))
  pub any : 0 < length ss
  pub start : ℕ
  pub at_start : get_elf_hdr_shoff (some d) ≡ some (pos start)
  pub behind_header : 0 < start
  pub size : ℕ
  pub sized : get_elf_hdr_shentsize (some d) ≡ some (pos size)
  pub fits : size ≤ sizeof_sec_hdr
  pub inside_file : start + size * length ss ≤ length image
  pub x : ℕ
  pub names_at : get_elf_sec_hdr_strndx (some d) ≡ some (pos x)
  pub not_first : 0 < x
  pub counted_in : x < length ss
  pub names : Section
  pub good_names :
      IsGood
        (record d { elf_sec_hdr = some (sec_headers image size start (length ss)) })
        image
        (contents image names)
        x
        names
  pub described :
      Describe
        (record d { elf_sec_hdr = some (sec_headers image size start (length ss)) })
        image
        (contents image names)
        0
        ss

-- The descriptor with the section headers and the tables of those sections.
abbrev pub with_sections :
    (image : Region) (d : ElfFileDescr) (ss : List Section) → HasSecs image d ss → ElfFileDescr
with_sections image d ss h = record d {
  elf_sec_hdr = some (sec_headers image h.size h.start (length ss));
  elf_str_tbls = str_tbl image h.x h.names ∷ str_tbls image h.x 0 ss;
  elf_sym_tbls = sym_tbls image (get_elf_sym_tab_entry_size d) 0 ss;
}

few_sections : (d : ElfFileDescr) (n : ℕ) → get_elf_hdr_shnum (some d) ≡ some (pos n) → n < 2 ^ 31
unfolding get_elf_hdr_shnum
few_sections d n e = hdr_field-IsInt _ (pos 0) d (pos n) (omega arith) e

module _ (mem : Mem) (enough : EnoughMem mem) (disk : Disk) (image : Region)
    (is : IsImage disk image) where
  first_names :
      (x : ℕ) (s : Section)
      → s.offset + s.size ≤ length image
      → HasNames (contents image s) (str_tbl image x s ∷ [])
  first_names x s inside = record {
    first = str_tbl image x s;
    is_first = refl;
    table = refl;
    sized = ap pos (flip (length-contents image s inside));
  }

  names_table :
      (d1 : ElfFileDescr) (x n : ℕ) (s : Section) (c' : Cursor)
      → get_elf_hdr_shnum (some d1) ≡ some (pos n)
      → 0 < x
      → x ≤ n
      → IsGood d1 image (contents image s) x s
      → Gets c'
          (λ d' _. d' ≡ with_tables d1 (str_tbl image x s ∷ []) [])
          (load_shstrtab mem disk (with_tables d1 [] []) (pos x))
  unfolding load_shstrtab
  names_table d1 x n s c' counted after_first below g =
      else-Gets (int_eq (pos x) (pos 0)) _ _ (ground arith) (
        >>=-Gets (calloc-Gets mem enough sizeof_str_tbl c' (omega arith)) (λ _ c'' _.
          str_table-Gets mem enough disk image is d1 (contents image s) n counted [] [] x s c''
            below g
            (record {
              first = unnamed image x s;
              is_first = refl;
              table = refl;
              sized = ap pos (flip (length-contents image s g.inside_file));
            })))

  pub load_sections-Gets :
      (d0 : ElfFileDescr) (ss : List Section) (c : Cursor)
      (h : HasSecs image (with_tables d0 [] []) ss)
      → Gets c
          (λ d _. d ≡ with_sections image (with_tables d0 [] []) ss h)
          (load_sections mem disk (with_tables d0 [] []))
  unfolding load_sections load_shstrtab get_elf_hdr_shnum hdr_field get_elf_sym_tab_entry_size
  load_sections-Gets d0 ss c h =
      let d : ElfFileDescr = with_tables d0 [] [] in
      let n = length ss in
      let table = sec_headers image h.size h.start n in
      let d1 : ElfFileDescr = record d { elf_sec_hdr = some table } in
      let few = few_sections d n h.counted in
      let some_sections = h.any in
      let behind = h.behind_header in
      let after_first = h.not_first in
      let below = h.counted_in in
      read-Gets (get_elf_hdr_shnum (some d)) (pos n) _ h.counted (
        read-Gets (get_elf_hdr_shoff (some d)) (pos h.start) _ h.at_start (
          read-Gets (get_elf_hdr_shentsize (some d)) (pos h.size) _ h.sized (
            read-Gets (get_elf_sec_hdr_strndx (some d)) (pos h.x) _ h.names_at (
              then-Gets (int_lt (pos 0) (pos n) && int_lt (pos 0) (pos h.start)) _ _ (ground arith)
                (>>=-Gets (calloc-Gets mem enough (n * sizeof_sec_hdr) c (omega arith))
                  (λ zeros c1 (blank, _). >>=-Gets (seek-Gets disk image is h.start c1) (λ _ c2 at.
                    let zero_table : zeros ≡ [] ++ replicate (sizeof_sec_hdr * n) 0 =
                      blank ∙ ap (λ k. replicate {A = ℕ} k 0) (omega arith) in
                    rw zero_table (
                      >>=-Gets
                        (read_sec_hdrs-Gets mem disk image is h.size n [] 0 h.start c2 h.fits
                          (omega arith) at h.inside_file)
                        (λ table' c3 read. rw read (
                          >>=-Gets
                            (names_table d1 h.x n h.names c3 h.counted (omega arith) (omega arith)
                              h.good_names)
                            (λ d' c4 made. rw made (
                              sections-Gets mem enough disk image is d1 (contents image h.names) n
                                h.counted h.x ss (str_tbl image h.x h.names ∷ []) [] 0 c4
                                (omega arith) (omega arith) (omega arith) h.described
                                (first_names h.x h.names (h.good_names.inside_file))))))))))))))
