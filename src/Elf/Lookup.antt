-- ===== src/Elf/Lookup.antt =====
-- `get_els_exec_link_time_base_addr`: the address of the first loadable segment.
pub mod BaseAddr
use libscout.Prelude.{
  ℕ, zero, suc, ◌+◌, ◌-◌, ◌^◌, Bool, Option, none, some, ◌>>=◌, ◌==◌, if◌then◌else◌, ℤ, pos, negsuc,
  int_eq, to_u64, exit_success, enoent,
}
use libscout.Elf.Descr.{ElfFileDescr}
use libscout.Elf.Header.{get_elf_hdr_phnum}
use libscout.Elf.Tables.{get_elf_pg_hdr_type, get_elf_pg_hdr_vaddr}

abbrev pub pt_load : ℤ
pt_load = pos 1

-- The return code, and what is stored through `eltba`.
abbrev pub BaseResult : Type 0
BaseResult = ℤ × Option ℕ

-- `vaddr` is an `Elf64_Addr`: the `int` of the accessor is sign-extended, and compared with -1.
abbrev pub base_of : ℤ → BaseResult
base_of v =
    if to_u64 v == to_u64 (negsuc 0) then (enoent, none) else (exit_success, some (to_u64 v))

-- The loop from index `i` on, with `left` rounds to go.
unfoldable pub find_load : ElfFileDescr → ℕ → ℕ → Option BaseResult
find_load d zero i = some (enoent, none)
find_load d (suc left) i =
    let rest = find_load d left (i + 1) in
    get_elf_pg_hdr_type (some d) (pos i) >>= λ type.
    if int_eq type pt_load
    then (get_elf_pg_hdr_vaddr (some d) (pos i) >>= λ v. some (base_of v))
    else rest

abbrev pub rounds : ℤ → ℕ
rounds (pos n) = n
rounds (negsuc n) = 0

unfoldable pub get_els_exec_link_time_base_addr : ElfFileDescr → Option BaseResult
unfolding find_load
get_els_exec_link_time_base_addr d = get_elf_hdr_phnum (some d) >>= λ n. find_load d (rounds n) 0
