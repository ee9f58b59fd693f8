-- ===== src/Elf/Print.antt =====
-- print_str_table and print_sym_table (elf_lib_funcs.c): what they print, as a list of lines.
pub mod Overrun
use libscout.Prelude.{
  ℕ, zero, suc, ◌+◌, ◌*◌, ◌-◌, ◌%◌, Bool, true, false, Option, none, some, List, [], ◌∷◌, ◌++◌,
  length, drop, Name, ◌>>=◌, ◌==◌, if◌then◌else◌, ℤ, pos, negsuc, int_eq, to_u64, exit_success, Run,
  done, crash, out_of_fuel, ◌>>>◌, or_crash,
}
use libscout.Iter.{iterator_init, visit}
use libscout.Elf.Memory.{Region}
use libscout.Elf.Descr.{ElfFileDescr, ElfStrTbl, ElfSymTbl}
use libscout.Elf.Symbol.{
  SymEntry, get_elf_sym_tab_entry_size, elf_sym_get_st_name, elf_sym_get_st_info,
}
use libscout.Elf.Strings.{Out, get_elf_str_from_table, elf_sym_get_string}

-- A heading with a name and an index, a string, or the message that one is not found.
pub data Line : Type 0 where
  heading : Name → ℤ → Line
  entry : Name → Line
  not_found : Line

-- The loop over the strings from `i` on, which stops behind an empty one; `allocs k` says whether the
-- `k`th string can be copied. A NULL string faults.
unfoldable pub print_strings : ℕ → (ℕ → Bool) → Region → ℤ → ℕ → ℕ → Run (List Line)
print_strings zero allocs table size k i = out_of_fuel
print_strings (suc fuel) allocs table size k i =
    elim (get_elf_str_from_table (allocs k) table size (pos i)) [
      | none ↦ crash
      | some out ↦ elim (out.1) [
        | none ↦ crash
        | some str ↦ elim str [
          | [] ↦ done (entry [] ∷ [])
          | b ∷ bs ↦
              print_strings fuel allocs table size (suc k) (i + length (b ∷ bs) + 1) >>> λ rest.
              done (entry (b ∷ bs) ∷ rest)
        ]
      ]
    ]

-- One table: the strings are taken from its second byte on, with the size of the whole.
unfoldable pub print_one_str_table : (ℕ → Bool) → ElfStrTbl → Run (List Line)
unfolding print_strings
print_one_str_table allocs t = or_crash t.elf_str_tbl_name >>> λ name.
    or_crash t.elf_str_table >>> λ table.
    print_strings (suc (length table)) allocs (drop 1 table) t.elf_str_tbl_size 0 0 >>> λ lines.
    done (heading name t.sec_indx ∷ lines)

-- `print_str_table`; the allocations are counted for each table anew.
unfoldable pub print_str_table : (ℕ → ℕ → Bool) → ℕ → List ElfStrTbl → Run (List Line)
unfolding print_one_str_table
print_str_table allocs y [] = done []
print_str_table allocs y (t ∷ ts) = print_one_str_table (allocs y) t >>> λ first.
    print_str_table allocs (suc y) ts >>> λ rest. done (first ++ rest)

abbrev pub stt_object : ℕ
stt_object = 1

-- `x & 0xf` on an `int`.
abbrev pub low4 : ℤ → ℕ
low4 (pos n) = n % 16
low4 (negsuc n) = 15 - n % 16

-- A return code and the lines; `none` is a fault.
abbrev pub Printed : Type 0
Printed = Option (ℤ × List Line)

abbrev pub with_line : Line → Printed → Printed
with_line l r = r >>= λ p. some (p.0, l ∷ p.1)

-- The loop over the entries; a name that is not found ends it.
unfoldable pub print_entries : Bool → ElfFileDescr → Bool → Region → List ℕ → ℤ → Printed
print_entries allocated d is_dynamic table [] rc = some (rc, [])
print_entries allocated d is_dynamic table (offset ∷ offsets) rc =
    elf_sym_get_st_info (some d) (record { table = table; offset = offset }) >>= λ info.
    elim (low4 info == stt_object) [
      | false ↦ print_entries allocated d is_dynamic table offsets rc
      | true ↦
          elf_sym_get_st_name (some d) (record { table = table; offset = offset }) >>= λ st_name.
          elf_sym_get_string allocated d is_dynamic st_name >>= λ out.
          elim (int_eq (out.0) exit_success) [
            | false ↦ some (out.0, not_found ∷ [])
            | true ↦ out.1 >>= λ str.
                with_line (entry str) (print_entries allocated d is_dynamic table offsets (out.0))
          ]
    ]

-- `print_sym_table`; `iterator_next` is called on the result of `iterator_init` without a test.
unfoldable pub print_sym_table : Bool → ElfFileDescr → List ElfSymTbl → ℤ → Printed
unfolding print_entries
print_sym_table allocated d [] rc = some (rc, [])
print_sym_table allocated d (t ∷ ts) rc = t.elf_sym_tbl_name >>= λ name.
    t.elf_sym_table >>= λ table.
    iterator_init true (some 0) (get_elf_sym_tab_entry_size d) (to_u64 t.elf_sym_tbl_num_entry)
    >>= λ iter.
        print_entries allocated d t.is_dynamic table
          (visit (suc (to_u64 t.elf_sym_tbl_num_entry)) iter) rc
        >>= λ first. print_sym_table allocated d ts (first.0) >>= λ rest.
            some (rest.0, heading name t.sec_indx ∷ first.1 ++ rest.1)
