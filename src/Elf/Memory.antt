-- ===== src/Elf/Memory.antt =====
-- Memory objects and the fields of the structs of <elf.h>, as a little-endian host reads them.
use libscout.Prelude.{
  ℕ, ◌+◌, ◌*◌, ◌≤◌, ◌<◌, ◌≡◌, Bool, true, false, Option, none, some, List, [], ◌∷◌, length, take,
  drop, leb, if◌then◌else◌, arith,
}

-- The bytes of one allocated object.
abbrev pub Region : Type 0
Region = List ℕ

abbrev pub little_endian : List ℕ → ℕ
little_endian [] = 0
little_endian (b ∷ bs) = b + 256 * little_endian bs

-- A load of `width` bytes at an offset; `none` outside the object.
unfoldable pub load : Region → ℕ → ℕ → Option ℕ
load r off width =
    if leb (off + width) (length r) then some (little_endian (take width (drop off r))) else none

-- Where a field lies in the 64-bit and in the 32-bit struct.
pub record Field : Type 0 where
  pub off64 : ℕ
  pub width64 : ℕ
  pub off32 : ℕ
  pub width32 : ℕ

abbrev pub field_offset : Bool → Field → ℕ
field_offset true f = f.off64
field_offset false f = f.off32

abbrev pub field_width : Bool → Field → ℕ
field_width true f = f.width64
field_width false f = f.width32

-- A field of the struct that starts at `base`, through the member of the union that the class of
-- the file selects.
unfoldable pub load_field : Bool → Field → Region → ℕ → Option ℕ
load_field is_64bit f r base = load r (base + field_offset is_64bit f) (field_width is_64bit f)

-- Elf64_Ehdr, Elf32_Ehdr
abbrev pub e_phoff : Field
e_phoff = record { off64 = 32; width64 = 8; off32 = 28; width32 = 4 }

abbrev pub e_shoff : Field
e_shoff = record { off64 = 40; width64 = 8; off32 = 32; width32 = 4 }

abbrev pub e_phentsize : Field
e_phentsize = record { off64 = 54; width64 = 2; off32 = 42; width32 = 2 }

abbrev pub e_phnum : Field
e_phnum = record { off64 = 56; width64 = 2; off32 = 44; width32 = 2 }

abbrev pub e_shentsize : Field
e_shentsize = record { off64 = 58; width64 = 2; off32 = 46; width32 = 2 }

abbrev pub e_shnum : Field
e_shnum = record { off64 = 60; width64 = 2; off32 = 48; width32 = 2 }

abbrev pub e_shstrndx : Field
e_shstrndx = record { off64 = 62; width64 = 2; off32 = 50; width32 = 2 }

-- Elf64_Phdr, Elf32_Phdr
abbrev pub p_type : Field
p_type = record { off64 = 0; width64 = 4; off32 = 0; width32 = 4 }

abbrev pub p_offset : Field
p_offset = record { off64 = 8; width64 = 8; off32 = 4; width32 = 4 }

abbrev pub p_vaddr : Field
p_vaddr = record { off64 = 16; width64 = 8; off32 = 8; width32 = 4 }

abbrev pub p_filesz : Field
p_filesz = record { off64 = 32; width64 = 8; off32 = 16; width32 = 4 }

-- Elf64_Shdr, Elf32_Shdr
abbrev pub sh_name : Field
sh_name = record { off64 = 0; width64 = 4; off32 = 0; width32 = 4 }

abbrev pub sh_type : Field
sh_type = record { off64 = 4; width64 = 4; off32 = 4; width32 = 4 }

abbrev pub sh_addr : Field
sh_addr = record { off64 = 16; width64 = 8; off32 = 12; width32 = 4 }

abbrev pub sh_offset : Field
sh_offset = record { off64 = 24; width64 = 8; off32 = 16; width32 = 4 }

abbrev pub sh_size : Field
sh_size = record { off64 = 32; width64 = 8; off32 = 20; width32 = 4 }

-- Elf64_Sym, Elf32_Sym
abbrev pub st_name : Field
st_name = record { off64 = 0; width64 = 4; off32 = 0; width32 = 4 }

abbrev pub st_info : Field
st_info = record { off64 = 4; width64 = 1; off32 = 12; width32 = 1 }

abbrev pub st_shndx : Field
st_shndx = record { off64 = 6; width64 = 2; off32 = 14; width32 = 2 }

-- A load inside the object goes through, and no other does.
pub load_total :
    (r : Region) (off width : ℕ) → off + width ≤ length r → (v : ℕ) × (load r off width ≡ some v)
unfolding load
load_total r off width h = (little_endian (take width (drop off r)), ground arith)

pub load_outside : (r : Region) (off width : ℕ) → length r < off + width → load r off width ≡ none
unfolding load
load_outside r off width h = ground arith

pub load_field_total :
    (is_64bit : Bool) (f : Field) (r : Region) (base : ℕ)
    → base + (field_offset is_64bit f + field_width is_64bit f) ≤ length r
    → (v : ℕ) × (load_field is_64bit f r base ≡ some v)
unfolding load_field
load_field_total is_64bit f r base h =
    load_total r (base + field_offset is_64bit f) (field_width is_64bit f) (omega arith)

pub load_field_outside :
    (is_64bit : Bool) (f : Field) (r : Region) (base : ℕ)
    → length r < base + (field_offset is_64bit f + field_width is_64bit f)
    → load_field is_64bit f r base ≡ none
unfolding load_field
load_field_outside is_64bit f r base h =
    load_outside r (base + field_offset is_64bit f) (field_width is_64bit f) (omega arith)
