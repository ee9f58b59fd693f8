-- ===== src/Elf/Strings.antt =====
-- String tables: `get_elf_str_from_table`, `get_elf_sec_name`, `get_elf_strtab_indx` and
-- `elf_sym_get_string`.
pub mod Reads
use libscout.Prelude.{
  ℕ, zero, suc, ◌+◌, ◌-◌, Bool, true, false, not, Option, none, some, List, [], ◌∷◌, get_elem?,
  drop, take, Name, name_eq, ◌==◌, ltb, if◌then◌else◌, ◌>>=◌, ℤ, pos, negsuc, int_lt, int_eq,
  exit_success, enoent, enomem, einval,
}
use libscout.Elf.Memory.{Region}
use libscout.Elf.Descr.{ElfFileDescr, ElfStrTbl}
use libscout.Elf.Tables.{get_elf_sec_name_indx}

-- What a call stores through `char **name`: nothing, or a new string.
abbrev pub Out : Type 0
Out = ℤ × Option Name

-- The `while` loop: `left` is `table_size - i`, and `at` is `i + indx`. The result is the final `i`,
-- or `none` for a read outside the table's object.
unfoldable pub scan_table : Region → ℕ → ℕ → ℕ → Option ℕ
scan_table table at zero i = get_elem? table at >>= λ _. some i
scan_table table at (suc left) i =
    let rest = scan_table table (at + 1) left (i + 1) in
    get_elem? table at >>= λ b. if b == 0 then some i else rest

-- The loop, for a size of 0 or less and a start before the table too.
unfoldable pub string_end : Region → ℤ → ℤ → Option ℕ
unfolding scan_table
string_end table (pos size) (pos indx) = scan_table table indx size 0
string_end table (negsuc size) (pos indx) = get_elem? table indx >>= λ _. some 0
string_end table table_size (negsuc indx) = none

abbrev pub index_part : ℤ → ℕ
index_part (pos n) = n
index_part (negsuc n) = 0

-- `get_elf_str_from_table`; `allocated` says whether the `calloc` succeeds.
unfoldable pub get_elf_str_from_table : Bool → Region → ℤ → ℤ → Option Out
unfolding string_end
get_elf_str_from_table allocated table table_size indx = string_end table table_size indx >>= λ i.
    some (
      if int_eq (pos i) table_size
      then (enoent, none)
      else if allocated
      then (exit_success, some (take i (drop (index_part indx) table)))
      else (enomem, none))

-- A string table's bytes; `none` for a NULL pointer that would be read.
unfoldable pub str_from : Bool → ElfStrTbl → ℤ → Option Out
unfolding get_elf_str_from_table
str_from allocated t indx =
    t.elf_str_table >>= λ table. get_elf_str_from_table allocated table t.elf_str_tbl_size indx

-- `get_elf_sec_name` with a non-NULL `name`. Entry 0 of the string tables is that of the section
-- names.
unfoldable pub get_elf_sec_name : Bool → ElfFileDescr → ℤ → Option Out
unfolding str_from
get_elf_sec_name allocated file_p indx =
    get_elf_sec_name_indx (some file_p) indx >>= λ sec_name_indx.
    if int_eq sec_name_indx (negsuc 0)
    then some (einval, none)
    else (get_elem? file_p.elf_str_tbls 0 >>= λ t.
        if int_lt sec_name_indx t.elf_str_tbl_size
        then str_from allocated t sec_name_indx
        else some (einval, none))

-- `get_elf_strtab_indx`: the first table of that name; `strcmp` faults on a NULL name.
unfoldable pub get_elf_strtab_indx : List ElfStrTbl → Name → ℕ → Option (ℤ × ℕ)
get_elf_strtab_indx [] tbl_name i = some (enoent, 0)
get_elf_strtab_indx (t ∷ ts) tbl_name i =
    let rest = get_elf_strtab_indx ts tbl_name (i + 1) in
    t.elf_str_tbl_name >>= λ name. if name_eq name tbl_name then some (exit_success, i) else rest

-- ".dynstr" and ".strtab"
abbrev pub dynstr : Name
dynstr = 46 ∷ 100 ∷ 121 ∷ 110 ∷ 115 ∷ 116 ∷ 114 ∷ []

abbrev pub strtab : Name
strtab = 46 ∷ 115 ∷ 116 ∷ 114 ∷ 116 ∷ 97 ∷ 98 ∷ []

abbrev pub table_name : Bool → Name
table_name true = dynstr
table_name false = strtab

-- `elf_sym_get_string` with a non-NULL `name`.
unfoldable pub elf_sym_get_string : Bool → ElfFileDescr → Bool → ℤ → Option Out
unfolding get_elf_strtab_indx str_from
elf_sym_get_string allocated file_p is_dynamic st_name =
    get_elf_strtab_indx file_p.elf_str_tbls (table_name is_dynamic) 0 >>= λ found.
    if int_eq found.0 exit_success
    then (get_elem? file_p.elf_str_tbls found.1 >>= λ t. str_from allocated t st_name)
    else some (found.0, none)
