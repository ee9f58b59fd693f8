-- ===== src/Elf/Populate/Image.antt =====
-- The sections that elf_populate_str_table and elf_populate_sym_table (elf_lib_funcs.c) read from a
-- file of given bytes.
use libscout.Prelude.{
  ℕ, zero, suc, ◌+◌, ◌≤◌, ◌<◌, ◌≡◌, refl, ◌∙◌, sym as flip, ap, subst, true, not, ◌||◌, Bool-cases,
  leb, inl, inr, some, [], ◌∷◌, ◌++◌, length, take, drop, length-drop, length-take, ℤ, pos, negsuc,
  int_lt, to_u64, einval, if◌then◌else◌, arith,
}
use mathlib.Core.List.{append-nil}
use libscout.Elf.Memory.{Region}
use libscout.Elf.Descr.{ElfFileDescr, ElfStrTbl, ElfSymTbl}
use libscout.Elf.Header.{hdr_field, get_elf_hdr_shnum}
use libscout.Elf.Tables.{get_elf_sec_offset, get_elf_sec_size}
use libscout.Elf.Cursor.{Disk, Mem, ◌>>=◌, pure, store, seek, read_into}
use libscout.Elf.Cursor.Holds.{
  Gives, Holds, >>=-Holds, if-Holds, read-Holds, pure-Holds, fail-Holds, IsBlock, Holds-map,
  seek-Holds, read_into-Holds, malloc-Holds,
}
use libscout.Elf.Cursor.Gets.{IsImage}
use libscout.Elf.Cursor.Steps.{>>=-step, seek-step, read_into-step}
use libscout.Elf.Cursor.Zeros.{store-start}
use libscout.Elf.Populate.{get_elf_sec_data, elf_populate_str_table, elf_populate_sym_table}
use libscout.Elf.Populate.Loaded.{All, All-snoc, sec_name-Holds}

-- The contents of section `i`, where it has an offset and a size and lies inside the file.
abbrev pub IsSection : Region → ElfFileDescr → ℤ → Region → Type 0
IsSection image d i table =
    (o s : ℕ)
    → get_elf_sec_offset (some d) i ≡ some (pos o)
    → get_elf_sec_size (some d) i ≡ some (pos s)
    → 0 < o
    → 0 < s
    → o + s ≤ length image
    → table ≡ take s (drop o image)

drop-all : (n : ℕ) (r : Region) → length r ≡ n → drop n r ≡ []
drop-all zero [] h = refl
drop-all zero (b ∷ r) h = absurd (omega arith)
drop-all (suc n) [] h = refl
drop-all (suc n) (b ∷ r) h = drop-all n r (omega arith)

-- An object is overwritten by as many bytes as it has.
pub store-whole : (buf bs : Region) → length bs ≡ length buf → store buf 0 bs ≡ some bs
store-whole buf bs full =
    let whole : bs ++ drop (length bs) buf ≡ bs =
      ap (λ r. bs ++ r) (drop-all (length bs) buf (flip full)) ∙ append-nil bs in
    store-start buf bs (omega (arith, full)) ∙ ap some whole

module _ (disk : Disk) (image : Region) (is : IsImage disk image) where
  read_at :
      (o s : ℕ) (buf : Region)
      → length buf ≡ s
      → o + s ≤ length image
      → Holds (λ r. r ≡ take s (drop o image)) (seek disk (pos o) >>= λ _. read_into disk buf 0 s)
  read_at o s buf size inside = record {
    gives = λ c.
        let bs = take s (drop o image) in
        let full : length bs ≡ s =
          length-take s (drop o image) (omega (arith, length-drop o image)) in
        let stored = store-whole buf bs (full ∙ flip size) in
        let run =
          >>=-step (seek disk (pos o)) (λ _. read_into disk buf 0 s) c (record c { at = o }) tt
            (seek-step disk (pos o) c (is.seeks o))
          ∙ read_into-step disk buf 0 s (record c { at = o }) (is.reads o s) stored in
        subst (Gives (λ r. r ≡ bs)) (flip run) refl;
  }

  -- The branches of `get_elf_sec_data` behind its test of the index.
  read-IsSection :
      (d : ElfFileDescr) (i offset size : ℤ) (buf : Region)
      → get_elf_sec_offset (some d) i ≡ some offset
      → get_elf_sec_size (some d) i ≡ some size
      → length buf ≡ to_u64 size
      → Holds (IsSection image d i) (
          if not (int_lt (pos 0) offset) || not (int_lt (pos 0) size)
          then pure buf
          else (seek disk offset >>= λ _. read_into disk buf 0 (to_u64 size)))
  read-IsSection d i (negsuc k) size buf at sized len =
      pure-Holds buf (λ o s at' sized' po ps inside. absurd (ground arith))
  read-IsSection d i (pos o) (negsuc k) buf at sized len =
      if-Holds (not (int_lt (pos 0) (pos o)) || true)
        (λ _. pure-Holds buf (λ o' s' at' sized' po ps inside. absurd (ground arith)))
        (λ good. absurd (ground arith))
  read-IsSection d i (pos o) (pos s) buf at sized len =
      if-Holds (not (int_lt (pos 0) (pos o)) || not (int_lt (pos 0) (pos s)))
        (λ empty. pure-Holds buf (λ o' s' at' sized' po ps inside. absurd (ground arith)))
        (λ good. elim (Bool-cases (leb (o + s) (length image))) [
          | inl whole ↦
              Holds-map (λ r. r ≡ take s (drop o image)) (IsSection image d i)
                (λ r same o' s' at' sized' po ps inside.
                  let same_o : o ≡ o' = ground arith in
                  let same_s : s ≡ s' = ground arith in rw (← same_o, ← same_s) same)
                (read_at o s buf len (ground arith))
          | inr cut ↦
              >>=-Holds (λ _. Unit) (seek-Holds disk (pos o))
                (λ _ _.
                  Holds-map (λ r. length r ≡ length buf) (IsSection image d i)
                    (λ r _ o' s' at' sized' po ps inside. absurd (ground arith))
                    (read_into-Holds disk buf 0 s))
        ])

  module _ (mem : Mem) where
    sec_data-Holds :
        (d : ElfFileDescr) (i size : ℤ) (buf : Region)
        → get_elf_sec_size (some d) i ≡ some size
        → length buf ≡ to_u64 size
        → Holds (IsSection image d i) (get_elf_sec_data mem disk d i buf)
    unfolding get_elf_sec_data
    sec_data-Holds d i size buf e len = read-Holds (get_elf_hdr_shnum (some d)) (λ shnum _.
        if-Holds (int_lt shnum i) (λ _. fail-Holds einval)
          (λ _. read-Holds (get_elf_sec_offset (some d) i) (λ offset at.
            read-Holds (get_elf_sec_size (some d) i) (λ size' e'.
              let same : size ≡ size' = ground arith in
              read-IsSection d i offset size' buf at e' (len ∙ ap to_u64 same)))))

-- A table that holds the section it stands for.
abbrev pub StrFrom : Region → ElfFileDescr → ElfStrTbl → Type 0
StrFrom image d t =
    (table : Region) × (t.elf_str_table ≡ some table) × IsSection image d t.sec_indx table

abbrev pub SymFrom : Region → ElfFileDescr → ElfSymTbl → Type 0
SymFrom image d u =
    (table : Region) × (u.elf_sym_table ≡ some table) × IsSection image d u.sec_indx table

abbrev pub AllFrom : Region → ElfFileDescr → Type 0
AllFrom image d = All (StrFrom image d) d.elf_str_tbls × All (SymFrom image d) d.elf_sym_tbls

module _ (disk : Disk) (image : Region) (is : IsImage disk image) (mem : Mem) where
  pub elf_populate_str_table-Holds :
      (d : ElfFileDescr) (i : ℤ)
      → AllFrom image d
      → Holds (AllFrom image) (elf_populate_str_table mem disk d i)
  unfolding elf_populate_str_table get_elf_sec_offset get_elf_sec_size get_elf_hdr_shnum hdr_field
  elf_populate_str_table-Holds d i h = read-Holds (get_elf_sec_size (some d) i) (λ size e.
      >>=-Holds (IsBlock (to_u64 size)) (malloc-Holds mem (to_u64 size)) (λ buf block.
        >>=-Holds (IsSection image d i) (sec_data-Holds disk image is mem d i size buf e (block.0))
          (λ table from.
            >>=-Holds (λ _. Unit) (sec_name-Holds mem disk _ i)
              (λ name _.
                pure-Holds _
                  (All-snoc (StrFrom image d) d.elf_str_tbls _ h.0 (table, refl, from), h.1)))))

  pub elf_populate_sym_table-Holds :
      (d : ElfFileDescr) (i : ℤ)
      → AllFrom image d
      → Holds (AllFrom image) (elf_populate_sym_table mem disk d i)
  unfolding elf_populate_sym_table get_elf_sec_offset get_elf_sec_size get_elf_hdr_shnum hdr_field
  elf_populate_sym_table-Holds d i h = read-Holds (get_elf_sec_size (some d) i) (λ size e.
      >>=-Holds (IsBlock (to_u64 size)) (malloc-Holds mem (to_u64 size)) (λ buf block.
        >>=-Holds (IsSection image d i) (sec_data-Holds disk image is mem d i size buf e (block.0))
          (λ table from.
            >>=-Holds (λ _. Unit) (sec_name-Holds mem disk d i)
              (λ found _. read-Holds found (λ name _.
                pure-Holds _
                  (h.0, All-snoc (SymFrom image d) d.elf_sym_tbls _ h.1 (table, refl, from)))))))
