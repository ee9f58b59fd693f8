-- ===== src/Elf/Print/Overrun.antt =====
-- print_str_table (elf_lib_funcs.c) on tables that are put together from strings.
use mathlib.Core.List.{append_assoc}
use libscout.Prelude.{
  Bool, ℕ, zero, suc, ◌+◌, ◌≤◌, ◌<◌, ◌≡◌, refl, ◌∙◌, sym as flip, ap, true, false, none, some, List,
  [], ◌∷◌, ◌++◌, inl, inr, Bool-cases, length, length-append, drop, Name, ◌>>=◌, ◌==◌,
  if◌then◌else◌, pos, exit_success, Run, done, crash, out_of_fuel, ◌>>>◌, arith,
}
use libscout.Elf.Memory.{Region}
use libscout.Elf.Bytes.{drop_skip}
use libscout.Elf.Descr.{ElfStrTbl}
use libscout.Elf.Strings.{get_elf_str_from_table}
use libscout.Elf.Strings.Reads.{c_string, get_elf_str_from_table_within}
use libscout.Elf.Print.{Line, heading, entry, print_strings, print_one_str_table, print_str_table}

-- The strings, each with its terminator.
unfoldable pub encode_strings : List Name → Region
encode_strings [] = []
encode_strings (s ∷ ss) = s ++ (0 ∷ encode_strings ss)

abbrev NoZero : Name → Type 0
NoZero [] = Unit
NoZero (b ∷ bs) = ((b == 0) ≡ false) × NoZero bs

-- Strings that are not empty, and have no terminator inside.
abbrev pub AllStrings : List Name → Type 0
AllStrings [] = Unit
AllStrings ([] ∷ ss) = ⊥
AllStrings ((b ∷ bs) ∷ ss) = NoZero (b ∷ bs) × AllStrings ss

abbrev pub lines : List Name → List Line
lines [] = entry [] ∷ []
lines (s ∷ ss) = entry s ∷ lines ss

-- What the loop comes to, if the table goes on with an empty string, or ends.
abbrev pub outcome : List Name → Region → Run (List Line)
outcome ss [] = crash
outcome ss (b ∷ bs) = if b == 0 then done (lines ss) else crash

abbrev pub IsEnd : Region → Type 0
IsEnd [] = Unit
IsEnd (b ∷ bs) = b ≡ 0

c_string-none : c_string [] ≡ none
unfolding c_string
c_string-none = refl

c_string-encode : (s : Name) (r : Region) → NoZero s → c_string (s ++ (0 ∷ r)) ≡ some s
unfolding c_string
c_string-encode [] r h = refl
c_string-encode (b ∷ bs) r h = let e = c_string-encode bs r (h.1) in rw (h.0, e) refl

-- The string at the place where it stands.
found :
    (table pre : Region) (size i : ℕ) (s : Name) (r : Region)
    → table ≡ pre ++ (s ++ (0 ∷ r))
    → i ≡ length pre
    → length table ≤ size
    → NoZero s
    → get_elf_str_from_table true table (pos size) (pos i) ≡ some (exit_success, some s)
found table pre size i s r e at fits h =
    get_elf_str_from_table_within true table size i fits
    ∙ ap (λ l. c_string l >>= λ x. some (exit_success, some x))
        (ap (drop i) e ∙ drop_skip pre (s ++ (0 ∷ r)) i at)
    ∙ rw (c_string-encode s r h) refl

print_strings-encode :
    (allocs : ℕ → Bool) (work : (k : ℕ) → allocs k ≡ true) (fuel : ℕ) (table pre : Region)
    (ss : List Name) (rest : Region) (size k i : ℕ)
    → table ≡ pre ++ (encode_strings ss ++ rest)
    → i ≡ length pre
    → length table ≤ size
    → AllStrings ss
    → IsEnd rest
    → length ss < fuel
    → print_strings fuel allocs table (pos size) k i ≡ outcome ss rest
unfolding print_strings encode_strings
print_strings-encode allocs work zero table pre ss rest size k i e at fits all end more =
    absurd (omega arith)
print_strings-encode allocs work (suc fuel) table pre [] [] size k i e at fits all end more =
    let past : get_elf_str_from_table true table (pos size) (pos i) ≡ none =
      get_elf_str_from_table_within true table size i fits
      ∙ ap (λ l. c_string l >>= λ x. some (exit_success, some x))
          (ap (drop i) e ∙ drop_skip pre [] i at)
      ∙ ap (λ o. o >>= λ x. some (exit_success, some x)) c_string-none in
    rw (work k, past, print_strings) refl
print_strings-encode allocs work (suc fuel) table pre [] (b ∷ r) size k i e at fits all end more =
    let empty = found table pre size i [] r (e ∙ ap (λ x. pre ++ (x ∷ r)) end) at fits tt in
    let zero_byte : (b == 0) ≡ true = ground arith in
    rw (work k, empty, zero_byte, print_strings) refl
print_strings-encode allocs work fuel table pre ([] ∷ ss) rest size k i e at fits all end more =
    absurd all
print_strings-encode allocs work (suc fuel) table pre ((b ∷ bs) ∷ ss) rest size k i e at fits
      (one, all) end more =
    let s : Name = b ∷ bs in
    let split : table ≡ pre ++ (s ++ (0 ∷ (encode_strings ss ++ rest))) =
      e ∙ ap (λ l. pre ++ l) (append_assoc s (0 ∷ encode_strings ss) rest) in
    let here = found table pre size i s (encode_strings ss ++ rest) split at fits one in
    let front : Region = pre ++ (s ++ (0 ∷ [])) in
    let behind : table ≡ front ++ (encode_strings ss ++ rest) =
      split
      ∙ ap (λ l. pre ++ l) (flip (append_assoc s (0 ∷ []) (encode_strings ss ++ rest)))
      ∙ flip (append_assoc pre (s ++ (0 ∷ [])) (encode_strings ss ++ rest)) in
    let later =
      print_strings-encode allocs work fuel table front ss rest size (suc k) (i + length s + 1)
        behind (omega (arith, length-append pre (s ++ (0 ∷ [])), length-append s (0 ∷ []))) fits all
        end (omega arith) in
    rw (work k, here, print_strings)
      (ap (λ r. r >>> λ l. done (entry s ∷ l)) later ∙ added s ss rest)
  where
    added :
        (s : Name) (ss : List Name) (rest : Region)
        → (outcome ss rest >>> λ l. done (entry s ∷ l)) ≡ outcome (s ∷ ss) rest
    added s ss [] = refl
    added s ss (b ∷ r) = elim (Bool-cases (b == 0)) [ inl z ↦ rw z refl | inr nz ↦ rw nz refl ]

length-encode : (ss : List Name) → AllStrings ss → length ss ≤ length (encode_strings ss)
unfolding encode_strings
length-encode [] h = omega arith
length-encode ([] ∷ ss) h = absurd h
length-encode ((b ∷ bs) ∷ ss) h =
    omega (arith, length-encode ss (h.1), length-append bs (0 ∷ encode_strings ss))

-- A table of that many bytes, which begins with an empty string.
pub record IsTableOf (t : ElfStrTbl) (name : Name) (bytes : Region) : Type 0 where
  pub named : t.elf_str_tbl_name ≡ some name
  pub has_table : t.elf_str_table ≡ some (0 ∷ bytes)
  pub sized : t.elf_str_tbl_size ≡ pos (suc (length bytes))

one_table :
    (allocs : ℕ → Bool) (work : (k : ℕ) → allocs k ≡ true) (t : ElfStrTbl) (name : Name)
    (ss : List Name) (rest : Region)
    → IsTableOf t name (encode_strings ss ++ rest)
    → AllStrings ss
    → IsEnd rest
    → print_one_str_table allocs t ≡ (outcome ss rest >>> λ l. done (heading name t.sec_indx ∷ l))
unfolding print_one_str_table
one_table allocs work t name ss rest h all end =
    let bytes = encode_strings ss ++ rest in
    let loop =
      print_strings-encode allocs work (suc (suc (length bytes))) bytes [] ss rest
        (suc (length bytes)) 0 0 refl refl (omega arith) all end
        (omega (arith, length-encode ss all, length-append (encode_strings ss) rest)) in
    rw (h.named, h.has_table, h.sized, print_one_str_table)
      (ap (λ r. r >>> λ l. done (heading name t.sec_indx ∷ l)) loop)

-- On a string table that begins with an empty string, goes on with strings that are not empty, and
-- then ends or has an empty string again, if the copy of each of its strings can be allocated: if it
-- ends, `print_str_table` reads beyond its end; and otherwise it prints the strings, in order, and the
-- empty one, and goes on with the next table, whatever cannot be allocated there.
pub print_str_table_lem :
    (allocs : ℕ → ℕ → Bool) (t : ElfStrTbl) (ts : List ElfStrTbl) (name : Name) (ss : List Name)
    (rest : Region)
    → ((k : ℕ) → allocs 0 k ≡ true)
    → IsTableOf t name (encode_strings ss ++ rest)
    → AllStrings ss
    → IsEnd rest
    → print_str_table allocs 0 (t ∷ ts) ≡ (
        outcome ss rest >>> λ l.
        print_str_table allocs 1 ts >>> λ others. done ((heading name t.sec_indx ∷ l) ++ others))
unfolding print_str_table
print_str_table_lem allocs t ts name ss rest work h all end =
    rw (one_table (allocs 0) work t name ss rest h all end, print_str_table)
      (after (outcome ss rest))
  where
    after :
        (r : Run (List Line))
        → ((r >>> λ l. done (heading name t.sec_indx ∷ l)) >>> λ first.
            print_str_table allocs 1 ts >>> λ others. done (first ++ others))
          ≡ (r >>> λ l. print_str_table allocs 1 ts >>> λ others.
              done ((heading name t.sec_indx ∷ l) ++ others))
    after (done l) = refl
    after crash = refl
    after out_of_fuel = refl
