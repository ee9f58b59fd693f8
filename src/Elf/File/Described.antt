-- ===== src/Elf/File/Described.antt =====
-- The loop of process_elf_file (elf_lib_funcs.c) over the sections, on a file that has given ones.
use mathlib.Core.List.{append_assoc, append-nil}
use libscout.Prelude.{
  ℕ, ◌+◌, ◌^◌, ◌≤◌, ◌<◌, ◌≡◌, refl, ◌∙◌, ap, Bool, true, false, ◌||◌, Bool-cases, inl, inr, some,
  List, [], ◌∷◌, ◌++◌, length, length-append, if◌then◌else◌, pos, int_eq, arith,
}
use libscout.Elf.Memory.{Region}
use libscout.Elf.Descr.{ElfFileDescr, ElfStrTbl, ElfSymTbl}
use libscout.Elf.Header.{hdr_field, get_elf_hdr_shnum}
use libscout.Elf.Tables.{sec_field, get_elf_sec_hdr_type}
use libscout.Elf.Symbol.{get_elf_sym_tab_entry_size}
use libscout.Elf.Cursor.{Disk, Mem, Cursor}
use libscout.Elf.Cursor.Gets.{Gets, IsImage, EnoughMem, >>=-Gets, Gets-map, pure-Gets, read-Gets}
use libscout.Elf.Populate.Succeeds.{
  Section, IsGood, str_tbl, sym_tbl, with_tables, HasNames, HasNames-snoc,
}
use libscout.Elf.Populate.Grows.{string_table-Gets, symbols_table-Gets}
use libscout.Elf.File.{sht_symtab, sht_strtab, sht_dynsym, process_section, process_sections}

-- The sections that a table of symbols, or of strings, is made for.
abbrev pub holds_symbols : Section → Bool
holds_symbols s = int_eq s.type sht_symtab || int_eq s.type sht_dynsym

abbrev pub holds_strings : Section → Bool
holds_strings s = int_eq s.type sht_strtab

-- The tables of the sections from the `i`th on, in order.
abbrev pub sym_tbls : Region → ℕ → ℕ → List Section → List ElfSymTbl
sym_tbls image entry_size i [] = []
sym_tbls image entry_size i (s ∷ ss) =
    let rest = sym_tbls image entry_size (i + 1) ss in
    if holds_symbols s then sym_tbl image entry_size i s ∷ rest else rest

-- The table of the section names, section `x`, is not made again.
abbrev pub str_tbls : Region → ℕ → ℕ → List Section → List ElfStrTbl
str_tbls image x i [] = []
str_tbls image x i (s ∷ ss) =
    let rest = str_tbls image x (i + 1) ss in
    if holds_strings s
    then (if int_eq (pos i) (pos x) then rest else str_tbl image i s ∷ rest)
    else rest

-- The headers from the `i`th on say what the list does.
abbrev pub Describe : ElfFileDescr → Region → Region → ℕ → List Section → Type 0
Describe d1 image names i [] = Unit
Describe d1 image names i (s ∷ ss) =
    (get_elf_sec_hdr_type (some d1) (pos i) ≡ some s.type)
    × (holds_symbols s || holds_strings s ≡ true → IsGood d1 image names i s)
    × Describe d1 image names (i + 1) ss

module _ (mem : Mem) (enough : EnoughMem mem) (disk : Disk) (image : Region)
    (is : IsImage disk image) (d1 : ElfFileDescr) (names : Region) (n : ℕ)
    (counted : get_elf_hdr_shnum (some d1) ≡ some (pos n)) (x : ℕ) where
  abbrev entry_size : ℕ
  entry_size = get_elf_sym_tab_entry_size d1

  section-Gets :
      (strs : List ElfStrTbl) (syms : List ElfSymTbl) (i : ℕ) (s : Section) (c : Cursor)
      → i ≤ n
      → length strs < 2 ^ 32
      → length syms < 2 ^ 32
      → (holds_symbols s || holds_strings s ≡ true → IsGood d1 image names i s)
      → HasNames names strs
      → Gets c
          (λ d _.
            d
            ≡ with_tables d1
                (strs ++ str_tbls image x i (s ∷ []))
                (syms ++ sym_tbls image entry_size i (s ∷ [])))
          (process_section mem disk (with_tables d1 strs syms) (pos x) s.type (pos i))
  unfolding process_section
  section-Gets strs syms i s c le few few' good h = elim (Bool-cases (holds_symbols s)) [
    | inl is_sym ↦
        let not_str : holds_strings s ≡ false = ground arith in
        rw (is_sym, not_str, append-nil strs)
          (symbols_table-Gets mem enough disk image is d1 names n counted strs syms i s c le few'
            (good (ground arith)) h)
    | inr no_sym ↦ elim (Bool-cases (holds_strings s)) [
      | inr no_str ↦ rw (no_sym, no_str, append-nil strs, append-nil syms) (pure-Gets _ refl)
      | inl is_str ↦ elim (Bool-cases (int_eq (pos i) (pos x))) [
        | inl same ↦ rw (no_sym, is_str, same, append-nil strs, append-nil syms) (pure-Gets _ refl)
        | inr other ↦
            rw (no_sym, is_str, other, append-nil syms)
              (string_table-Gets mem enough disk image is d1 names n counted strs syms i s c le few
                (good (ground arith)) h)
      ]
    ]
  ]

  str_tbls-append :
      (i : ℕ) (s : Section) (ss : List Section)
      → str_tbls image x i (s ∷ []) ++ str_tbls image x (i + 1) ss ≡ str_tbls image x i (s ∷ ss)
  str_tbls-append i s ss = elim (Bool-cases (holds_strings s)) [
    | inr no_str ↦ rw no_str refl
    | inl is_str ↦ elim (Bool-cases (int_eq (pos i) (pos x))) [
      | inl same ↦ rw (is_str, same) refl
      | inr other ↦ rw (is_str, other) refl
    ]
  ]

  sym_tbls-append :
      (i : ℕ) (s : Section) (ss : List Section)
      → sym_tbls image entry_size i (s ∷ []) ++ sym_tbls image entry_size (i + 1) ss
        ≡ sym_tbls image entry_size i (s ∷ ss)
  sym_tbls-append i s ss = elim (Bool-cases (holds_symbols s)) [
    | inl is_sym ↦ rw is_sym refl
    | inr no_sym ↦ rw no_sym refl
  ]

  -- One section adds one table at most.
  length-str_tbls : (i : ℕ) (s : Section) → length (str_tbls image x i (s ∷ [])) ≤ 1
  length-str_tbls i s = elim (Bool-cases (holds_strings s)) [
    | inr no_str ↦ rw no_str (omega arith)
    | inl is_str ↦ elim (Bool-cases (int_eq (pos i) (pos x))) [
      | inl same ↦ rw (is_str, same) (omega arith)
      | inr other ↦ rw (is_str, other) (omega arith)
    ]
  ]

  length-sym_tbls : (i : ℕ) (s : Section) → length (sym_tbls image entry_size i (s ∷ [])) ≤ 1
  length-sym_tbls i s = elim (Bool-cases (holds_symbols s)) [
    | inl is_sym ↦ rw is_sym (omega arith)
    | inr no_sym ↦ rw no_sym (omega arith)
  ]

  HasNames-str_tbls :
      (strs : List ElfStrTbl) (i : ℕ) (s : Section)
      → HasNames names strs
      → HasNames names (strs ++ str_tbls image x i (s ∷ []))
  HasNames-str_tbls strs i s h = elim (Bool-cases (holds_strings s)) [
    | inr no_str ↦ rw (no_str, append-nil strs) h
    | inl is_str ↦ elim (Bool-cases (int_eq (pos i) (pos x))) [
      | inl same ↦ rw (is_str, same, append-nil strs) h
      | inr other ↦ rw (is_str, other) (HasNames-snoc (str_tbl image i s) h)
    ]
  ]

  -- The loop ends, and makes just the tables of the sections that are left.
  pub sections-Gets :
      (ss : List Section) (strs : List ElfStrTbl) (syms : List ElfSymTbl) (i : ℕ) (c : Cursor)
      → i + length ss ≤ n
      → length strs + length ss < 2 ^ 32
      → length syms + length ss < 2 ^ 32
      → Describe d1 image names i ss
      → HasNames names strs
      → Gets c
          (λ d _.
            d
            ≡ with_tables d1
                (strs ++ str_tbls image x i ss)
                (syms ++ sym_tbls image entry_size i ss))
          (process_sections mem disk (pos x) (length ss) (with_tables d1 strs syms) i)
  unfolding process_sections get_elf_sec_hdr_type sec_field get_elf_hdr_shnum hdr_field
  sections-Gets [] strs syms i c le few few' described h =
      rw (append-nil strs, append-nil syms) (pure-Gets _ refl)
  sections-Gets (s ∷ ss) strs syms i c le few few' (typed, good, described) h =
      let one = str_tbls image x i (s ∷ []) in
      let one' = sym_tbls image entry_size i (s ∷ []) in
      read-Gets (get_elf_sec_hdr_type (some d1) (pos i)) s.type _ typed (
        >>=-Gets (section-Gets strs syms i s c (omega arith) (omega arith) (omega arith) good h)
          (λ d c' made. rw made (
            Gets-map
              (λ d' c'' e.
                e
                ∙ ap
                    (λ l. with_tables d1 l ((syms ++ one') ++ sym_tbls image entry_size (i + 1) ss))
                    (append_assoc strs one _ ∙ ap (λ l. strs ++ l) (str_tbls-append i s ss))
                ∙ ap (λ l. with_tables d1 (strs ++ str_tbls image x i (s ∷ ss)) l)
                    (append_assoc syms one' _ ∙ ap (λ l. syms ++ l) (sym_tbls-append i s ss)))
              (sections-Gets ss (strs ++ one) (syms ++ one') (i + 1) c' (omega arith)
                (omega (arith, length-append strs one, length-str_tbls i s))
                (omega (arith, length-append syms one', length-sym_tbls i s)) described
                (HasNames-str_tbls strs i s h)))))
