-- ===== src/Elf/File/Rejects.antt =====
-- The files that process_elf_file (elf_lib_funcs.c) does not take.
use libscout.Prelude.{
  ◌≡◌, refl, sym as flip, ◌∙◌, ap, Bool, true, false, ◌&&◌, ◌||◌, ◌==◌, ◌<◌, ℕ, Bool-cases, Option,
  none, [], ◌∷◌, suc, zero, take, get_elem?, name_eq, name_eq→eq, arith, ◌⊎◌, inl, inr, some,
  replicate, Name, ℤ, einval, Run, done,
}
use libscout.Elf.Memory.{Region}
use libscout.Elf.Descr.{ElfFileDescr, sizeof_hdr}
use libscout.Elf.Cursor.{Disk, Mem, Cursor, calloc, read_into}
use libscout.Elf.Cursor.Zeros.{over_zeros, store-zeros}
use libscout.Elf.Cursor.Steps.{>>=-step, calloc-step, read_into-step}
use libscout.Elf.File.{
  sizeof_file_descr, elfmag, ident_is, is_elf, loaded, load_file, process_elf_file,
}

-- The first four bytes are 0x7f, E, L and F, the class is 32 or 64 bit, and the byte order one of the
-- two.
pub record IsElfHeader (hdr : Region) : Type 0 where
  pub mag0 : get_elem? hdr 0 ≡ some 0x7f
  pub mag1 : get_elem? hdr 1 ≡ some 0x45
  pub mag2 : get_elem? hdr 2 ≡ some 0x4c
  pub mag3 : get_elem? hdr 3 ≡ some 0x46
  pub file_class : (get_elem? hdr 4 ≡ some 1) ⊎ (get_elem? hdr 4 ≡ some 2)
  pub byte_order : (get_elem? hdr 5 ≡ some 1) ⊎ (get_elem? hdr 5 ≡ some 2)

&&-true : (x y : Bool) → (x && y) ≡ true → (x ≡ true) × (y ≡ true)
&&-true true y e = (refl, e)
&&-true false y e = absurd (cc e)

one_of_two :
    (o : Option ℕ) (a b : ℕ)
    → (elim o as (λ _. Bool) [ none ↦ false | some v ↦ v == a || v == b ]) ≡ true
    → (o ≡ some a) ⊎ (o ≡ some b)
one_of_two none a b e = absurd (cc e)
one_of_two (some v) a b e = elim (Bool-cases (v == a)) [
  | inl same ↦ let x : v ≡ a = ground arith in inl (ap some x)
  | inr other ↦ let x : v ≡ b = ground arith in inr (ap some x)
]

one_of :
    (hdr : Region) (i a b : ℕ)
    → ident_is hdr i a b ≡ true
    → (get_elem? hdr i ≡ some a) ⊎ (get_elem? hdr i ≡ some b)
one_of hdr i a b e = one_of_two (get_elem? hdr i) a b e

get_elem?-take : (n : ℕ) (hdr : Region) (i : ℕ) → i < n → get_elem? (take n hdr) i ≡ get_elem? hdr i
get_elem?-take zero hdr i lt = absurd (omega arith)
get_elem?-take (suc n) [] i lt = refl
get_elem?-take (suc n) (b ∷ bs) zero lt = refl
get_elem?-take (suc n) (b ∷ bs) (suc i) lt = get_elem?-take n bs i (omega arith)

magic :
    (hdr : Region) → take 4 hdr ≡ elfmag → (i : ℕ) → i < 4 → get_elem? hdr i ≡ get_elem? elfmag i
magic hdr e i lt = flip (get_elem?-take 4 hdr i lt) ∙ ap (λ l. get_elem? l i) e

is_elf-IsElfHeader : (hdr : Region) → is_elf hdr ≡ true → IsElfHeader hdr
unfolding is_elf
is_elf-IsElfHeader hdr e =
    let (m, rest) = &&-true (name_eq (take 4 hdr) elfmag) _ e in
    let (d, c) = &&-true (ident_is hdr 5 1 2) _ rest in
    let same = name_eq→eq (take 4 hdr) elfmag m in
    record {
      mag0 = magic hdr same 0 (omega arith);
      mag1 = magic hdr same 1 (omega arith);
      mag2 = magic hdr same 2 (omega arith);
      mag3 = magic hdr same 3 (omega arith);
      file_class = one_of hdr 4 1 2 c;
      byte_order = one_of hdr 5 1 2 d;
    }

rejected_header : (hdr : Region) → (IsElfHeader hdr → ⊥) → is_elf hdr ≡ false
rejected_header hdr not_elf = elim (Bool-cases (is_elf hdr)) [
  | inl yes_elf ↦ absurd (not_elf (is_elf-IsElfHeader hdr yes_elf))
  | inr bad ↦ bad
]

rejected_load :
    (mem : Mem) (disk : Disk) (bs : Region) {r r' : Region}
    → mem.malloc 0 sizeof_file_descr ≡ some r
    → mem.malloc 1 sizeof_hdr ≡ some r'
    → disk.read 0 sizeof_hdr ≡ inl bs
    → is_elf (over_zeros sizeof_hdr bs) ≡ false
    → load_file mem disk (record { at = 0; blocks = 0 }) ≡ done (inr einval)
unfolding load_file
rejected_load mem disk bs descr hdr got bad =
    let start : Cursor = record { at = 0; blocks = 0 } in
    let stored = store-zeros sizeof_hdr bs (disk.length-read 0 sizeof_hdr bs got) in
    >>=-step (calloc mem sizeof_file_descr) _ start _ _
      (calloc-step mem sizeof_file_descr start descr)
    ∙ >>=-step (calloc mem sizeof_hdr) _ (record start { blocks = 1 }) _ _
        (calloc-step mem sizeof_hdr (record start { blocks = 1 }) hdr)
    ∙ >>=-step (read_into disk (replicate sizeof_hdr 0) 0 sizeof_hdr) _
        (record start { blocks = 2 }) _ _
        (read_into-step disk (replicate sizeof_hdr 0) 0 sizeof_hdr (record start { blocks = 2 }) got
          stored)
    ∙ rw bad refl

opened_load :
    (mem : Mem) {opened : Disk ⊎ ℤ} {disk : Disk} {r : Run (ElfFileDescr ⊎ ℤ)}
    → opened ≡ inl disk
    → loaded (load_file mem disk (record { at = 0; blocks = 0 })) ≡ r
    → elim opened as (λ x. Run (ElfFileDescr ⊎ ℤ)) [
      | inr errno ↦ done (inr errno)
      | inl disk ↦ loaded (load_file mem disk (record { at = 0; blocks = 0 }))
    ]
      ≡ r
opened_load mem e l = rw e l

-- A file that can be opened and read, but whose first 64 bytes, with zeros for those that it has not
-- got, do not begin with the four magic bytes, or have another class than 32 and 64 bit, or a byte
-- order that is neither of the two, is answered with EINVAL, if there is memory.
pub not_elf_rejected :
    (mem : Mem) (open_file : Name → Disk ⊎ ℤ) (fn : Name) (disk : Disk) (bs r r' : Region)
    → open_file fn ≡ inl disk
    → mem.malloc 0 sizeof_file_descr ≡ some r
    → mem.malloc 1 sizeof_hdr ≡ some r'
    → disk.read 0 sizeof_hdr ≡ inl bs
    → (IsElfHeader (over_zeros sizeof_hdr bs) → ⊥)
    → process_elf_file mem open_file (some fn) ≡ done (inr einval)
unfolding process_elf_file
not_elf_rejected mem open_file fn disk bs r r' opened descr hdr got not_elf =
    let bad = rejected_header (over_zeros sizeof_hdr bs) not_elf in
    opened_load mem opened (ap loaded (rejected_load mem disk bs descr hdr got bad))
