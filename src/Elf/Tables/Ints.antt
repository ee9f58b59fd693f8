-- ===== src/Elf/Tables/Ints.antt =====
-- The values of the section headers' fields (elf_lib_funcs.c) as `int`s.
use libscout.Prelude.{
  ℕ, ◌*◌, ◌%◌, ◌^◌, ◌≤◌, ◌<◌, ◌≡◌, subst, Bool, inl, inr, Option, none, some, ◌>>=◌, Bool-cases, ℤ,
  pos, negsuc, int_lt, ltb, to_int, to_u64, refl, arith,
}
use libscout.Elf.Memory.{Region, load_field, Field, sh_size}
use libscout.Elf.Descr.{ElfFileDescr, sizeof_sec_hdr}
use libscout.Elf.Header.{hdr_field, get_elf_hdr_shnum}
use libscout.Elf.Tables.{sec_field, checked_field, element_field, get_elf_sec_size}

-- A value of type `int`.
abbrev pub IsInt : ℤ → Type 0
IsInt (pos n) = n < 2 ^ 31
IsInt (negsuc n) = n < 2 ^ 31

pub to_int-IsInt : (w : ℕ) → IsInt (to_int w)
to_int-IsInt w = elim (Bool-cases (ltb (w % 2 ^ 32) (2 ^ 31))) [
  | inl small ↦ rw small (ground arith)
  | inr large ↦ rw large (let least : 2 ^ 31 ≤ w % 2 ^ 32 = ground arith in omega arith)
]

pub to_int_bound : (w n : ℕ) → to_int w ≡ pos n → n < 2 ^ 31
to_int_bound w n e = elim (Bool-cases (ltb (w % 2 ^ 32) (2 ^ 31))) [
  | inl small ↦ ground arith
  | inr large ↦ ground arith
]

abbrev AllInts : Option ℤ → Type 0
AllInts none = Unit
AllInts (some v) = IsInt v

bind-AllInts : (o : Option ℕ) → AllInts (o >>= λ v. some (to_int v))
bind-AllInts none = tt
bind-AllInts (some v) = to_int-IsInt v

element_field-AllInts :
    (is_64bit : Bool) (f : Field) (stride : ℕ) (table : Region) (i : ℤ)
    → AllInts (element_field is_64bit f stride table i)
unfolding element_field
element_field-AllInts b f stride table (negsuc n) = tt
element_field-AllInts b f stride table (pos i) = bind-AllInts (load_field b f table (stride * i))

checked_field-AllInts :
    (is_64bit : Bool) (f : Field) (stride : ℕ) (number : Option ℤ) (hdr table : Option Region)
    (i : ℤ)
    → AllInts (checked_field is_64bit f stride number hdr table i)
unfolding checked_field
checked_field-AllInts b f stride number none table i = omega arith
checked_field-AllInts b f stride number (some hdr) none i = omega arith
checked_field-AllInts b f stride none (some hdr) (some table) i = tt
checked_field-AllInts b f stride (some n) (some hdr) (some table) i =
    elim (Bool-cases (int_lt i n)) [
      | inl inside ↦ rw inside (element_field-AllInts b f stride table i)
      | inr outside ↦ rw outside (omega arith)
    ]

pub size-IsInt : (d : ElfFileDescr) (i v : ℤ) → get_elf_sec_size (some d) i ≡ some v → IsInt v
unfolding get_elf_sec_size sec_field
size-IsInt d i v e = subst AllInts e (
    checked_field-AllInts d.is_64bit sh_size sizeof_sec_hdr (get_elf_hdr_shnum (some d)) d.elf_hdr
      d.elf_sec_hdr i)

pub block_size : (size : ℤ) → IsInt size → to_u64 size < 2 ^ 63 → (n : ℕ) × (size ≡ pos n)
block_size (pos n) h b = (n, refl)
block_size (negsuc n) h b = absurd (omega arith)

pub hdr_field-IsInt :
    (f : Field) (otherwise : ℤ) (d : ElfFileDescr) (v : ℤ)
    → IsInt otherwise
    → hdr_field f otherwise (some d) ≡ some v
    → IsInt v
unfolding hdr_field
hdr_field-IsInt f otherwise d v h e = subst AllInts e (header_int d.elf_hdr)
  where
    header_int :
        (hdr : Option Region)
        → AllInts (elim hdr as (λ _. Option ℤ) [
          | none ↦ some otherwise
          | some r ↦ (load_field d.is_64bit f r 0 >>= λ w. some (to_int w))
        ])
    header_int none = h
    header_int (some r) = bind-AllInts (load_field d.is_64bit f r 0)
