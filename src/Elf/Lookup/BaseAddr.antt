-- ===== src/Elf/Lookup/BaseAddr.antt =====
-- `get_els_exec_link_time_base_addr` (elf_lib_funcs.c) against the address in the file.
use libscout.Prelude.{
  ℕ, zero, suc, ◌+◌, ◌-◌, ◌*◌, ◌^◌, ◌%◌, ◌==◌, ltb, if◌then◌else◌, none, enoent, ap, ◌≤◌, ◌<◌, ◌≡◌,
  ◌≢◌, refl, ◌∙◌, false, some, ◌>>=◌, ℤ, pos, int_eq, to_int, exit_success, arith,
}
use native.Mathlib.Decide.{dec_lt}
use libscout.Elf.Memory.{p_vaddr, load_field}
use libscout.Elf.Descr.{ElfFileDescr, sizeof_pg_hdr}
use libscout.Elf.Tables.{get_elf_pg_hdr_type, get_elf_pg_hdr_vaddr}
use libscout.Elf.Tables.Bounds.{HasSegments, Reads, element, behind, segment_accessors}
use libscout.Elf.Lookup.{BaseResult, pt_load, base_of, find_load, get_els_exec_link_time_base_addr}

-- Element `i` is the first program header of type PT_LOAD.
pub record IsFirstLoad (d : ElfFileDescr) (n i : ℕ) : Type 0 where
  pub below : i < n
  pub loads : get_elf_pg_hdr_type (some d) (pos i) ≡ some pt_load
  pub others :
      (j : ℕ)
      → j < i
      → (t : ℤ) × (get_elf_pg_hdr_type (some d) (pos j) ≡ some t) × (int_eq t pt_load ≡ false)

find_load_at :
    (d : ElfFileDescr) (n i left k : ℕ)
    → k + left ≡ n
    → k ≤ i
    → IsFirstLoad d n i
    → find_load d left k ≡ (get_elf_pg_hdr_vaddr (some d) (pos i) >>= λ v. some (base_of v))
unfolding find_load
find_load_at d n i zero k e h f = absurd (omega (arith, f.below))
find_load_at d n i (suc left) k e h f = elim (dec_lt k i) [
  | yes lt ↦
      let (t, at, other) = f.others k lt in
      rw (at, other) (find_load_at d n i left (k + 1) (omega arith) (omega arith) f)
  | no here ↦ let same : k ≡ i = omega arith in rw (same, f.loads) refl
]

-- What becomes of a 64-bit address: its lower half, as a signed number of 32 bits, is extended to 64
-- bits; all ones stand for an error.
abbrev pub low_half : ℕ → BaseResult
low_half v =
    let w = v % 2 ^ 32 in
    if ltb w (2 ^ 31)
    then (exit_success, some w)
    else if w == 2 ^ 32 - 1
    then (enoent, none)
    else (exit_success, some (w + (2 ^ 64 - 2 ^ 32)))

base_of-low_half : (v : ℕ) → base_of (to_int v) ≡ low_half v
base_of-low_half v = ground arith

other_address : (v : ℕ) → 2 ^ 31 ≤ v → v < 2 ^ 64 - 2 ^ 31 → low_half v ≢ (exit_success, some v)
other_address v low high e = ground arith

base_addr_of :
    (d : ElfFileDescr) (n i v : ℕ)
    → (t : HasSegments d n) → IsFirstLoad d n i
    → load_field d.is_64bit p_vaddr t.elements (sizeof_pg_hdr * i) ≡ some v
    → get_els_exec_link_time_base_addr d ≡ some (base_of (to_int v))
unfolding get_els_exec_link_time_base_addr
base_addr_of d n i v t f at =
    rw (t.counted, find_load_at d n i n 0 (omega arith) (omega arith) f)
      (stored (segment_accessors d n i t).1)
  where
    stored :
        Reads d.is_64bit p_vaddr sizeof_pg_hdr n i t.elements
          (get_elf_pg_hdr_vaddr (some d) (pos i))
        → (get_elf_pg_hdr_vaddr (some d) (pos i) >>= λ x. some (base_of x))
          ≡ some (base_of (to_int v))
    stored (element {v = w} lt e r) = let same : w ≡ v = ground arith in rw (r, same) refl
    stored (behind ge r) = absurd (omega (arith, f.below))

-- Where the program headers have the size of the union and the first loadable segment lies below 2
-- GB, `get_els_exec_link_time_base_addr` returns success and its address.
pub base_addr_exact :
    (d : ElfFileDescr) (n i v : ℕ)
    → (t : HasSegments d n) → IsFirstLoad d n i
    → load_field d.is_64bit p_vaddr t.elements (sizeof_pg_hdr * i) ≡ some v
    → v < 2 ^ 31
    → get_els_exec_link_time_base_addr d ≡ some (exit_success, some v)
base_addr_exact d n i v t f at small = base_addr_of d n i v t f at ∙ ground arith

-- Where the program headers have the size of the union and the first loadable segment lies from 2
-- GB on, but for the last 2 GB of the address space, the result is made from the lower 32 bits of its
-- address alone, and is not the address: it is success and those bits where they are below 2 GB;
-- ENOENT where they are all ones; and else success and those bits with the upper 32 bits set.
pub base_addr_truncated :
    (d : ElfFileDescr) (n i v : ℕ)
    → (t : HasSegments d n) → IsFirstLoad d n i
    → load_field d.is_64bit p_vaddr t.elements (sizeof_pg_hdr * i) ≡ some v
    → 2 ^ 31 ≤ v
    → v < 2 ^ 64 - 2 ^ 31
    → (get_els_exec_link_time_base_addr d ≡ some (low_half v))
      × (low_half v ≢ (exit_success, some v))
base_addr_truncated d n i v t f at low high =
    (base_addr_of d n i v t f at ∙ ap some (base_of-low_half v), other_address v low high)
