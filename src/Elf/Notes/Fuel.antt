-- ===== src/Elf/Notes/Fuel.antt =====
-- The fuel of the loops over the notes of a core file (elf_lib_funcs.c), on any bytes.
use libscout.Prelude.{
  ℕ, zero, suc, ◌+◌, ◌*◌, ◌%◌, ◌^◌, ◌≤◌, ◌<◌, ◌≡◌, refl, Bool, true, false, Option, none, some,
  length, leb, ltb, ◌==◌, if◌then◌else◌, Bool-cases, inl, inr, ℤ, pos, to_int, enomem, Run, done,
  crash, out_of_fuel, ◌>>>◌, or_crash, HasFuel, arith,
}
use libscout.Elf.Memory.{Region, load}
use libscout.Elf.Bytes.{copy_out}
use libscout.Elf.Strings.{string_end}
use libscout.Elf.Notes.{
  field_sz, up_to, at_null, at_base_key, auxv_loop, process_nt_auxv, printf_file_name, nt_file_loop,
  process_nt_file, add32, nt_auxv, nt_file, copy_part, handle_note, NoteParts, note_parts,
  read_descr, read_note, note_loop, walk_notes,
}

>>>-HasFuel :
    {A B : Type 0} (m : Run A) (f : A → Run B)
    → HasFuel m
    → ((a : A) → m ≡ done a → HasFuel (f a))
    → HasFuel (m >>> f)
>>>-HasFuel (done a) f h k = k a refl
>>>-HasFuel crash f h k = tt
>>>-HasFuel out_of_fuel f h k = h

or_crash-HasFuel :
    {A B : Type 0} (o : Option A) (f : A → Run B)
    → ((a : A) → o ≡ some a → HasFuel (f a))
    → HasFuel (or_crash o >>> f)
or_crash-HasFuel none f k = tt
or_crash-HasFuel (some a) f k = k a refl

auxv_loop-HasFuel :
    (fuel w : ℕ) (descr : Region) (size i b : ℕ)
    → 0 < w
    → size ≤ i + fuel
    → HasFuel (auxv_loop fuel w descr size i b)
unfolding auxv_loop
auxv_loop-HasFuel zero w descr size i b some_w more =
    let over : ltb i size ≡ false = ground arith in rw over tt
auxv_loop-HasFuel (suc fuel) w descr size i b some_w more = elim (Bool-cases (ltb i size)) [
  | inr over ↦ rw (over, auxv_loop) tt
  | inl inside ↦
      rw (inside, auxv_loop)
        (or_crash-HasFuel (load descr i w) _ λ key _.
          or_crash-HasFuel (load descr (i + w) w) _ λ val _. elim (Bool-cases (key == at_null)) [
            | inl last ↦ rw last tt
            | inr other ↦ rw other (
                auxv_loop-HasFuel fuel w descr size (i + w * 2)
                  (if key == at_base_key then val else b) some_w (omega arith))
          ])
]

process_nt_auxv-HasFuel :
    (is_64bit : Bool) (descr : Region) (size : ℤ) (b : ℕ)
    → HasFuel (process_nt_auxv is_64bit descr size b)
unfolding process_nt_auxv
process_nt_auxv-HasFuel true descr size b =
    auxv_loop-HasFuel (up_to size) 8 descr (up_to size) 0 b (omega arith) (omega arith)
process_nt_auxv-HasFuel false descr size b =
    auxv_loop-HasFuel (up_to size) 4 descr (up_to size) 0 b (omega arith) (omega arith)

printf_file_name-HasFuel :
    (descr : Region) (at : ℕ) (data_size : ℤ) → HasFuel (printf_file_name descr at data_size)
unfolding printf_file_name
printf_file_name-HasFuel descr at data_size =
    or_crash-HasFuel (string_end descr data_size (pos at)) _ λ i _. tt

nt_file_loop-HasFuel :
    (left w : ℕ) (descr : Region) (size : ℤ) (offset_start fn_start i indx : ℕ)
    → HasFuel (nt_file_loop left w descr size offset_start fn_start i indx)
unfolding nt_file_loop
nt_file_loop-HasFuel zero w descr size o f i x = tt
nt_file_loop-HasFuel (suc left) w descr size o f i x =
    or_crash-HasFuel (load descr (w + i * (2 * w)) w) _ λ a_1 _.
      or_crash-HasFuel (load descr (w + (i * (2 * w) + w)) w) _ λ a_2 _.
        or_crash-HasFuel (load descr ((o + i * w) % 2 ^ 64) w) _ λ off_1 _.
          >>>-HasFuel (printf_file_name descr _ _) _ (printf_file_name-HasFuel descr _ _)
            λ printed _.
              >>>-HasFuel (nt_file_loop left w descr size o f (i + 1) (x + printed.1)) _
                (nt_file_loop-HasFuel left w descr size o f (i + 1) (x + printed.1)) λ others _. tt

process_nt_file-HasFuel :
    (is_64bit : Bool) (descr : Region) (size : ℤ) → HasFuel (process_nt_file is_64bit descr size)
unfolding process_nt_file
process_nt_file-HasFuel is_64bit descr size =
    or_crash-HasFuel (load descr 0 (field_sz is_64bit)) _
      λ n _. nt_file_loop-HasFuel n (field_sz is_64bit) descr size _ _ 0 0

handle_note-HasFuel :
    (is_64bit : Bool) (type : ℕ) (descr : Region) (descr_sz b : ℕ)
    → HasFuel (handle_note is_64bit type descr descr_sz b)
unfolding handle_note
handle_note-HasFuel is_64bit type descr descr_sz b = elim (Bool-cases (type == nt_auxv)) [
  | inl auxv ↦ rw (auxv, handle_note) (process_nt_auxv-HasFuel is_64bit descr (to_int descr_sz) 0)
  | inr other ↦ elim (Bool-cases (type == nt_file)) [
    | inl file ↦
        rw (other, file, handle_note)
          (>>>-HasFuel (process_nt_file is_64bit descr (to_int descr_sz)) _
            (process_nt_file-HasFuel is_64bit descr (to_int descr_sz)) λ printed _. tt)
    | inr neither ↦ rw (other, neither, handle_note) tt
  ]
]

-- The run has not been cut off, and its result has the property.
abbrev Ends : {A : Type 0} → (A → Type 0) → Run A → Type 0
Ends P (done a) = P a
Ends P crash = Unit
Ends P out_of_fuel = ⊥

>>>-Ends :
    {A B : Type 0} {P : A → Type 0} (Q : B → Type 0) (m : Run A) (f : A → Run B)
    → Ends P m
    → ((a : A) → P a → Ends Q (f a))
    → Ends Q (m >>> f)
>>>-Ends Q (done a) f h k = k a h
>>>-Ends Q crash f h k = tt
>>>-Ends Q out_of_fuel f h k = h

Ends-HasFuel :
    {A B : Type 0} {P : A → Type 0} (m : Run A) (f : A → Run B)
    → Ends P m
    → ((a : A) → P a → HasFuel (f a))
    → HasFuel (m >>> f)
Ends-HasFuel (done a) f h k = k a h
Ends-HasFuel crash f h k = tt
Ends-HasFuel out_of_fuel f h k = h

or_crash-Ends :
    {A B : Type 0} (Q : B → Type 0) (o : Option A) (f : A → Run B)
    → ((a : A) → Ends Q (f a))
    → Ends Q (or_crash o >>> f)
or_crash-Ends Q none f k = tt
or_crash-Ends Q (some a) f k = k a

module _ (segment : Region) (small : length segment < 2 ^ 31) where
  abbrev MovedTo : ℕ → ℕ → Type 0
  MovedTo offset next = (offset ≤ next) × (next < length segment + 4)

  abbrev Copied : ℕ → Option (Region × ℕ) → Type 0
  Copied offset none = Unit
  Copied offset (some (part, next)) = MovedTo offset next

  abbrev HasRead : ℕ → Option NoteParts → Type 0
  HasRead offset none = Unit
  HasRead offset (some n) = MovedTo offset n.next

  -- A part that has been copied lies inside the segment, so the offset behind it moves on without
  -- wrapping around.
  copy_part-Ends :
      (allocated : Bool) (offset sz : ℕ)
      → offset < length segment + 4
      → Ends (Copied offset) (copy_part allocated segment offset sz)
  unfolding copy_part copy_out
  copy_part-Ends allocated offset zero h = (omega arith, h)
  copy_part-Ends false offset (suc n) h = tt
  copy_part-Ends true offset (suc n) h = elim (Bool-cases (leb (offset + suc n) (length segment))) [
    | inr outside ↦ rw outside tt
    | inl inside ↦
        let fits : offset + suc n ≤ length segment = ground arith in
        rw inside (omega arith, omega arith)
  ]

  read_descr-Ends :
      (allocated : Bool) (type descr_sz offset : ℕ) (name : Option (Region × ℕ))
      → Copied offset name
      → Ends (HasRead offset) (read_descr allocated segment type descr_sz name)
  read_descr-Ends allocated type descr_sz offset none h = tt
  read_descr-Ends allocated type descr_sz offset (some (name, next)) h =
      >>>-Ends (HasRead offset) (copy_part allocated segment next descr_sz) _
        (copy_part-Ends allocated next descr_sz h.1) λ r c. parts r c
    where
      parts :
          (r : Option (Region × ℕ)) → Copied next r → HasRead offset (note_parts type descr_sz r)
      parts none c = tt
      parts (some (d, n)) c = (omega arith, c.1)

  read_note-Ends :
      (allocated : Bool × Bool) (offset : ℕ)
      → add32 offset 12 < length segment + 4
      → Ends (HasRead (add32 offset 12)) (read_note allocated segment offset)
  unfolding read_note
  read_note-Ends allocated offset h =
      or_crash-Ends (HasRead (add32 offset 12)) (load segment offset 4) _ λ name_sz.
        or_crash-Ends (HasRead (add32 offset 12)) (load segment (add32 offset 4) 4) _ λ descr_sz.
          or_crash-Ends (HasRead (add32 offset 12)) (load segment (add32 offset 8) 4) _ λ type.
            >>>-Ends (HasRead (add32 offset 12))
              (copy_part allocated.0 segment (add32 offset 12) name_sz) _
              (copy_part-Ends allocated.0 (add32 offset 12) name_sz h)
              λ name c. read_descr-Ends allocated.1 type descr_sz (add32 offset 12) name c

  after_read-HasFuel :
      (is_64bit : Bool) (at_base offset : ℕ) (loop : ℕ → ℕ → Run (ℤ × ℕ)) (r : Option NoteParts)
      → HasRead offset r
      → ((next base : ℕ) → offset ≤ next → next < length segment + 4 → HasFuel (loop next base))
      → HasFuel (elim r as (λ x. Run (ℤ × ℕ)) [
        | none ↦ done (enomem, at_base)
        | some n ↦
            handle_note is_64bit n.type n.descr n.descr_sz at_base >>> λ base. loop n.next base
      ])
  after_read-HasFuel is_64bit at_base offset loop none c h = tt
  after_read-HasFuel is_64bit at_base offset loop (some n) c h =
      >>>-HasFuel (handle_note is_64bit n.type n.descr n.descr_sz at_base) _
        (handle_note-HasFuel is_64bit n.type n.descr n.descr_sz at_base)
        λ base _. h n.next base c.0 c.1

  note_loop-HasFuel :
      (fuel : ℕ) (is_64bit : Bool) (allocs : ℕ → Bool × Bool) (k offset at_base : ℕ)
      → length segment < fuel + offset
      → offset < length segment + 4
      → HasFuel (note_loop fuel is_64bit segment (length segment) allocs k offset at_base)
  unfolding note_loop
  note_loop-HasFuel zero is_64bit allocs k offset at_base more h =
      let over : ltb (add32 offset 12) (length segment) ≡ false = ground arith in rw over tt
  note_loop-HasFuel (suc fuel) is_64bit allocs k offset at_base more h =
      elim (Bool-cases (ltb (add32 offset 12) (length segment))) [
        | inr over ↦ rw (over, note_loop) tt
        | inl inside ↦
            let inside' : add32 offset 12 < length segment = ground arith in
            rw (inside, note_loop)
              (Ends-HasFuel (read_note (allocs k) segment offset) _
                (read_note-Ends (allocs k) offset (omega arith))
                λ r c.
                  after_read-HasFuel is_64bit at_base (add32 offset 12)
                    (λ next base.
                      note_loop fuel is_64bit segment (length segment) allocs (suc k) next base)
                    r c
                    λ next base far near.
                      note_loop-HasFuel fuel is_64bit allocs (suc k) next base (omega arith) near)
      ]

-- On any segment of less than 2 GB, whatever `malloc` does, the loop over the notes ends: it never
-- needs more rounds than the segment has bytes.
pub walk_notes-HasFuel :
    (is_64bit : Bool) (segment : Region) (allocs : ℕ → Bool × Bool) (at_base : ℕ)
    → length segment < 2 ^ 31
    → HasFuel (walk_notes is_64bit segment (pos (length segment)) allocs at_base)
unfolding walk_notes
walk_notes-HasFuel is_64bit segment allocs at_base small =
    let same : length segment % 2 ^ 32 ≡ length segment = omega arith in
    rw same (
      note_loop-HasFuel segment small (suc (length segment)) is_64bit allocs 0 0 at_base
        (omega arith) (omega arith))
