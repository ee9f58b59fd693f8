-- ===== src/Examples/Reported.antt =====
-- An executable that imports `foo`, and a library file that exports it, from their bytes to the report.
use libscout.Prelude.{
  ℕ, ◌≡◌, refl, ◌∙◌, ap, some, ◌⊎◌, inl, inr, Bool-cases, List, [], ◌∷◌, Name, name_eq,
  if◌then◌else◌, ℤ, done, einval, arith,
}
use libscout.Elf.Memory.{load, load_field}
use libscout.Elf.Descr.{ElfFileDescr}
use libscout.Elf.Symbol.{get_elf_sym_tab_entry_size, elf_sym_get_st_name}
use libscout.Elf.Strings.{get_elf_strtab_indx}
use libscout.Elf.Strings.Reads.{c_string}
use libscout.Elf.Cursor.{Disk}
use libscout.Elf.DynSym.{is_export, dynsym_names}
use libscout.Elf.DynSym.Exact.{Symbol, exported, HasDynstr, Tables, is_export-Tests, all_names}
use libscout.Elf.DynSym.Collected.{dynsym_names_lem}
use libscout.Elf.File.{process_elf_file}
use libscout.Elf.File.Succeeds.{process_elf_file_reads}
use libscout.EndToEnd.{HoldsSymbols, Says}
use libscout.Examples.Image.{disk_of, enough_mem}
use libscout.Examples.Shared.{strings, object, object_descr, object_symbols}
use libscout.Examples.Reads.{enough_mem-EnoughMem, disk_of-IsImage, object-IsElfFile}

object-HasDynstr : (s : ℕ) → HasDynstr (object_descr s) strings
unfolding get_elf_strtab_indx name_eq
object-HasDynstr s = record {
  indx = 1;
  found = refl;
  tbl = _;
  is_tbl = refl;
  table = refl;
  sized = refl;
}

object-Tables :
    (s : ℕ) → Tables (object_descr s) strings (object_descr s).elf_sym_tbls (object_symbols s)
unfolding load load_field get_elf_sym_tab_entry_size elf_sym_get_st_name c_string
object-Tables s = (
  record {
    dynamic = refl;
    table = _;
    has_table = refl;
    counted = refl;
    any = omega arith;
    holds = (
      record {
        at = 0;
        st_name = refl;
        named = refl;
        info = refl;
        one_byte = omega arith;
        shndx = refl;
      },
      (
        record {
          at = 1;
          st_name = refl;
          named = refl;
          info = refl;
          one_byte = omega arith;
          shndx = ap some (omega arith);
        },
        tt,
      ),
    );
  },
  tt,
)

dynsym_names_lem_example :
    dynsym_names is_export (object_descr 5) ≡ some (all_names exported (object_symbols 5))
dynsym_names_lem_example =
    dynsym_names_lem is_export exported is_export-Tests (object_descr 5) strings
      (object-HasDynstr 5) (object_symbols 5) (object-Tables 5)

-- The library file `l/a`, and the executable.
abbrev pub lib_a : Name
lib_a = 108 ∷ 47 ∷ 97 ∷ []

abbrev pub prog : Name
prog = 112 ∷ []

unfoldable pub open_file : Name → Disk ⊎ ℤ
unfolding name_eq
open_file f =
    if name_eq f lib_a
    then inl (disk_of (object 5))
    else if name_eq f prog
    then inl (disk_of (object 0))
    else inr einval

unfoldable pub symbols : Name → List (List Symbol)
unfolding name_eq
symbols f =
    if name_eq f lib_a then object_symbols 5 else if name_eq f prog then object_symbols 0 else []

unfoldable pub parse : Name → ElfFileDescr ⊎ ℤ
unfolding name_eq
parse f =
    if name_eq f lib_a
    then inl (object_descr 5)
    else if name_eq f prog
    then inl (object_descr 0)
    else inr einval

object-HoldsSymbols :
    (f : Name) (s : ℕ)
    → open_file f ≡ inl (disk_of (object s))
    → HoldsSymbols open_file f (object_symbols s)
object-HoldsSymbols f s e = record {
  disk = disk_of (object s);
  opened = e;
  image = object s;
  is = disk_of-IsImage (object s);
  descr = object_descr s;
  elf = object-IsElfFile s;
  strings = strings;
  names = object-HasDynstr s;
  holds = object-Tables s;
}

pub says : (f : Name) → Says open_file f (symbols f)
unfolding open_file symbols
says f = elim (Bool-cases (name_eq f lib_a)) [
  | inl lib ↦
      let e : open_file f ≡ inl (disk_of (object 5)) = rw lib refl in
      rw lib (inl (object-HoldsSymbols f 5 e))
  | inr other ↦ elim (Bool-cases (name_eq f prog)) [
    | inl exe ↦
        let e : open_file f ≡ inl (disk_of (object 0)) = rw (other, exe) refl in
        rw (other, exe) (inl (object-HoldsSymbols f 0 e))
    | inr closed ↦ rw (other, closed) (inr (einval, refl, refl))
  ]
]

pub parses : (f : Name) → process_elf_file enough_mem open_file (some f) ≡ done (parse f)
unfolding open_file parse process_elf_file
parses f = elim (Bool-cases (name_eq f lib_a)) [
  | inl lib ↦
      let e : open_file f ≡ inl (disk_of (object 5)) = rw lib refl in parsed f 5 e ∙ rw lib refl
  | inr other ↦ elim (Bool-cases (name_eq f prog)) [
    | inl exe ↦
        let e : open_file f ≡ inl (disk_of (object 0)) = rw (other, exe) refl in
        parsed f 0 e ∙ rw (other, exe) refl
    | inr closed ↦ rw (other, closed, process_elf_file) refl
  ]
]
  where
    parsed :
        (f : Name) (s : ℕ)
        → open_file f ≡ inl (disk_of (object s))
        → process_elf_file enough_mem open_file (some f) ≡ done (inl (object_descr s))
    parsed f s e =
        process_elf_file_reads enough_mem open_file f (disk_of (object s)) (object s)
          (object_descr s) enough_mem-EnoughMem (λ k. refl) e (disk_of-IsImage (object s))
          (object-IsElfFile s)
