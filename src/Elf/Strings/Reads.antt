-- ===== src/Elf/Strings/Reads.antt =====
-- `get_elf_str_from_table` (elf_lib_funcs.c) against a reference: the C string at an offset.
use libscout.Prelude.{
  ℕ, zero, suc, ◌+◌, ◌≤◌, ◌<◌, ◌≡◌, refl, ap, inl, inr, Bool, false, Option, none, some, List, [],
  ◌∷◌, length, get_elem?, get_elem?-none, drop-nil, drop-suc, length-drop, drop, take, Name, ◌==◌,
  if◌then◌else◌, Bool-cases, Option-cases, ◌>>=◌, pos, int_eq, exit_success, enomem, arith,
}
use libscout.Elf.Memory.{Region}
use libscout.Elf.Strings.{scan_table, get_elf_str_from_table}

-- The bytes up to the first NUL; `none` where there is none.
unfoldable pub c_string : List ℕ → Option Name
c_string [] = none
c_string (b ∷ bs) = if b == 0 then some [] else (c_string bs >>= λ s. some (b ∷ s))

c_string_bounds :
    (l : List ℕ) {s : Name} → c_string l ≡ some s → (take (length s) l ≡ s) × (length s < length l)
unfolding c_string
c_string_bounds [] h = ground arith
c_string_bounds (b ∷ l) {s} h = elim (Bool-cases (b == 0)) [
  | inl ends ↦ let e : s ≡ [] = ground arith in rw e (refl, omega arith)
  | inr on ↦ elim (Option-cases (c_string l)) [
    | inl no_end ↦ ground arith
    | inr found ↦
        let (r, at) = found in
        let (same, lt) = c_string_bounds l at in
        let e : s ≡ b ∷ r = ground arith in rw e (ap (λ x. b ∷ x) same, omega (arith, lt))
  ]
]

-- The loop ends at the terminator of the string, or reads outside the table.
scan_table_lem :
    (left : ℕ) (table : Region) (at i : ℕ)
    → length table ≤ at + left
    → scan_table table at left i ≡ (c_string (drop at table) >>= λ s. some (i + length s))
unfolding scan_table c_string
scan_table_lem zero table at i h =
    rw (get_elem?-none table at (omega arith), drop-nil table at (omega arith)) refl
scan_table_lem (suc left) table at i h = elim (Option-cases (get_elem? table at)) [
  | inl past ↦ rw (past, drop-nil table at (in_range table at past)) refl
  | inr inside ↦
      let (b, e) = inside in
      let one : at + 1 ≡ suc at = omega arith in
      let ih = rw one at (scan_table_lem left table (at + 1) (i + 1) (omega arith)) in
      rw (e, drop-suc table at e, one, ih) (step b (c_string (drop (suc at) table)) i)
]
  where
    in_range : (l : List ℕ) (k : ℕ) → get_elem? l k ≡ none → length l ≤ k
    in_range [] k e = omega arith
    in_range (x ∷ l) zero e = ground arith
    in_range (x ∷ l) (suc k) e = omega (arith, in_range l k e)

    step :
        (b : ℕ) (o : Option Name) (i : ℕ)
        → (if b == 0 then some i else (o >>= λ s. some (i + 1 + length s)))
          ≡ ((if b == 0 then some [] else (o >>= λ s. some (b ∷ s))) >>= λ s. some (i + length s))
    step b o i = ground arith

-- The same for a size that may be larger than the table.
pub get_elf_str_from_table_within :
    (allocated : Bool) (table : Region) (size indx : ℕ)
    → length table ≤ size
    → get_elf_str_from_table allocated table (pos size) (pos indx) ≡ (
        c_string (drop indx table) >>= λ s.
        some (if allocated then (exit_success, some s) else (enomem, none)))
unfolding get_elf_str_from_table
get_elf_str_from_table_within allocated table size indx fits =
    elim (Option-cases (c_string (drop indx table))) [
      | inl open_end ↦ rw (scan_table_lem size table indx 0 (omega arith), open_end) refl
      | inr found ↦
          let (s, e) = found in
          let (same, lt) = c_string_bounds (drop indx table) e in
          let shorter : int_eq (pos (0 + length s)) (pos size) ≡ false =
            ground (arith, length-drop indx table) in
          let zero_add : 0 + length s ≡ length s = omega arith in
          rw (scan_table_lem size table indx 0 (omega arith), e) (rw (shorter, zero_add, same) refl)
    ]

-- At a string table of exactly its size, `get_elf_str_from_table` gives the C string at `indx`
-- where one ends inside the table, or ENOMEM where the copy cannot be allocated; in every other
-- case it reads outside the table. So it never returns ENOENT.
pub get_elf_str_from_table_lem :
    (allocated : Bool) (table : Region) (indx : ℕ)
    → get_elf_str_from_table allocated table (pos (length table)) (pos indx) ≡ (
        c_string (drop indx table) >>= λ s.
        some (if allocated then (exit_success, some s) else (enomem, none)))
get_elf_str_from_table_lem allocated table indx =
    get_elf_str_from_table_within allocated table (length table) indx (omega arith)
