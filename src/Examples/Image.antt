-- ===== src/Examples/Image.antt =====
-- A 64-bit file of three sections, byte by byte, as an open file, and an allocator.
use libscout.Prelude.{
  ℕ, zero, suc, ◌≤◌, ◌<◌, ◌^◌, ◌≡◌, subst, true, ◌⊎◌, inl, inr, Option, none, some, [], ◌∷◌, ◌++◌,
  length, length-replicate, replicate, take, drop, ltb, if◌then◌else◌, Bool-cases, Name, ℤ, pos,
  negsuc, einval, arith,
}
use libscout.Elf.Memory.{Region}
use libscout.Elf.Bytes.{bytes}
use libscout.Elf.Descr.{ElfFileDescr, ElfSymTbl, ElfStrTbl}
use libscout.Elf.Populate.{dynsym}
use libscout.Elf.Cursor.{Disk, Mem}

-- e_shoff = 131, e_shentsize = 64, e_shnum = 3, e_shstrndx = 2
abbrev pub image_header : Region
image_header =
    0x7f ∷ 69 ∷ 76 ∷ 70 ∷ 2 ∷ 1 ∷ replicate 34 0
    ++ (bytes 8 131 ++ (replicate 10 0 ++ (bytes 2 64 ++ (bytes 2 3 ++ bytes 2 2))))

abbrev pub image_symbols : Region
image_symbols = replicate 24 0 ++ (1 ∷ 0 ∷ 0 ∷ 0 ∷ 0x12 ∷ 0 ∷ 5 ∷ 0 ∷ replicate 16 0)

-- ".shstrtab"
abbrev pub shstrtab : Name
shstrtab = 46 ∷ 115 ∷ 104 ∷ 115 ∷ 116 ∷ 114 ∷ 116 ∷ 97 ∷ 98 ∷ []

abbrev pub image_names : Region
image_names = 0 ∷ dynsym ++ (0 ∷ shstrtab ++ (0 ∷ []))

abbrev pub section_header : ℕ → ℕ → ℕ → ℕ → Region
section_header name type offset size =
    bytes 4 name
    ++ (bytes 4 type ++ (replicate 16 0 ++ (bytes 8 offset ++ (bytes 8 size ++ replicate 24 0))))

abbrev pub image_sections : Region
image_sections = replicate 64 0 ++ (section_header 1 11 64 48 ++ section_header 9 3 112 19)

abbrev pub image : Region
image = image_header ++ (image_symbols ++ (image_names ++ image_sections))

pub length-take_bound : (n : ℕ) (r : Region) → length (take n r) ≤ n
length-take_bound zero r = omega arith
length-take_bound (suc n) [] = omega arith
length-take_bound (suc n) (b ∷ r) = omega (arith, length-take_bound n r)

abbrev read_image : Region → ℕ → ℕ → Region ⊎ ℤ
read_image r at n = inl (take n (drop at r))

abbrev seek_image : ℤ → ℕ ⊎ ℤ
seek_image (pos n) = inl n
seek_image (negsuc n) = inr einval

abbrev bytes_of : Region ⊎ ℤ → Region
bytes_of (inl bs) = bs
bytes_of (inr errno) = []

abbrev pub disk_of : Region → Disk
disk_of r = record {
  read = read_image r;
  lseek = seek_image;
  length-read =
      λ at n bs e. subst (λ x. length (bytes_of x) ≤ n) e (length-take_bound n (drop at r));
}

abbrev zeros : ℕ → ℕ → Option Region
zeros k n = if ltb n (2 ^ 63) then some (replicate n 0) else none

pub length-zeros : (k n : ℕ) (r : Region) → zeros k n ≡ some r → length r ≡ n
length-zeros k n r e = elim (Bool-cases (ltb n (2 ^ 63))) [
  | inl small ↦ ground (arith, length-replicate {A = ℕ} n 0)
  | inr large ↦ absurd (ground arith)
]

pub zeros_bound : (k n : ℕ) (r : Region) → zeros k n ≡ some r → n < 2 ^ 63
zeros_bound k n r e = elim (Bool-cases (ltb n (2 ^ 63))) [
  | inl small ↦ ground arith
  | inr large ↦ absurd (ground arith)
]

abbrev pub enough_mem : Mem
enough_mem = record {
  malloc = zeros;
  note_allocs = λ k. (true, true);
  length-malloc = length-zeros;
  malloc_bound = zeros_bound;
}

abbrev pub image_symtab : ElfSymTbl
image_symtab = record {
  sec_indx = pos 1;
  elf_sym_table = some image_symbols;
  elf_sym_tbl_size = pos 48;
  elf_sym_tbl_name = some dynsym;
  elf_sym_tbl_num_entry = pos 2;
  is_dynamic = true;
}

abbrev pub image_strtab : ElfStrTbl
image_strtab = record {
  sec_indx = pos 2;
  elf_str_tbl_name = some shstrtab;
  elf_str_tbl_size = pos 19;
  elf_str_table = some image_names;
}

abbrev pub image_descr : ElfFileDescr
image_descr = record {
  is_64bit = true;
  elf_hdr = some image_header;
  elf_pg_hdr = none;
  elf_sec_hdr = some image_sections;
  elf_sym_tbls = image_symtab ∷ [];
  elf_str_tbls = image_strtab ∷ [];
  at_base = 0;
}
