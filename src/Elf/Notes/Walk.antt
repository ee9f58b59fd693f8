-- ===== src/Elf/Notes/Walk.antt =====
-- The loop of `process_elf_pg_hdr_pt_note` (elf_lib_funcs.c) on a segment that is put together from
-- notes.
use mathlib.Core.List.{append_assoc}
use libscout.Prelude.{
  ℕ, zero, suc, ◌+◌, ◌-◌, ◌*◌, ◌/◌, ◌%◌, ◌^◌, ◌≤◌, ◌<◌, ◌≡◌, refl, ◌∙◌, ap, Bool, true, false, some,
  List, [], ◌∷◌, ◌++◌, length, length-append, length-replicate, replicate, ltb, ℤ, pos,
  exit_success, Run, done, crash, out_of_fuel, ◌>>>◌, arith,
}
use libscout.Elf.Memory.{Region, load}
use libscout.Elf.Bytes.{bytes, FitsIn, length-bytes, load_number, copy_out, copy_out_mid, behind}
use libscout.Elf.Notes.{add32, align4, copy_part, read_note, handle_note, note_loop, walk_notes}

pub record Note : Type 0 where
  pub type : ℕ
  pub name : Region
  pub descr : Region

-- A part and the zeros up to a multiple of four bytes.
abbrev pub padded : Region → Region
padded part = part ++ replicate ((length part + 3) / 4 * 4 - length part) 0

unfoldable pub encode_note : Note → Region → Region
encode_note n rest =
    bytes 4 (length n.name)
    ++ (bytes 4 (length n.descr) ++ (bytes 4 n.type ++ (padded n.name ++ (padded n.descr ++ rest))))

unfoldable pub encode_notes : List Note → Region
encode_notes [] = []
encode_notes (n ∷ ns) = encode_note n (encode_notes ns)

-- A type of 32 bits, and not both parts empty.
abbrev pub IsFull : Note → Type 0
IsFull n = FitsIn 4 n.type × (0 < length n.name + length n.descr)

abbrev pub AllFull : List Note → Type 0
AllFull [] = Unit
AllFull (n ∷ ns) = IsFull n × AllFull ns

-- The notes are handled one after the other.
unfoldable pub handle_notes : Bool → List Note → ℕ → Run (ℤ × ℕ)
handle_notes is_64bit [] at_base = done (exit_success, at_base)
handle_notes is_64bit (n ∷ ns) at_base =
    handle_note is_64bit n.type n.descr (length n.descr) at_base >>> λ base.
    handle_notes is_64bit ns base

length-padded : (part : Region) → length (padded part) ≡ (length part + 3) / 4 * 4
length-padded part = omega (
  arith,
  length-append part (replicate ((length part + 3) / 4 * 4 - length part) 0),
  length-replicate {A = ℕ} ((length part + 3) / 4 * 4 - length part) 0,
)

copy_part-padded :
    {d : Region} (pre part rest : Region) (offset : ℕ)
    → d ≡ pre ++ (padded part ++ rest)
    → length d < 2 ^ 31
    → offset ≡ length pre
    → copy_part true d offset (length part) ≡ done (some (part, length (pre ++ padded part)))
unfolding copy_part
copy_part-padded pre [] rest offset e small at =
    rw at (ap (λ n. done (some ([], n))) (omega (arith, length-append pre [])))
copy_part-padded {d} pre (b ∷ bs) rest offset e small at =
    rw copied (ap (λ n. done (some (part, n))) moved)
  where
    part : Region
    part = b ∷ bs

    zeros : Region
    zeros = replicate ((length part + 3) / 4 * 4 - length part) 0

    copied : copy_out d offset (length part) ≡ some part
    copied =
        ap (λ r. copy_out r offset (length part))
          (e ∙ ap (λ r. pre ++ r) (append_assoc part zeros rest))
        ∙ copy_out_mid pre part (zeros ++ rest) offset (length part) at refl

    moved : add32 offset (align4 (length part)) ≡ length (pre ++ padded part)
    moved = omega (
      arith,
      length-padded part,
      length-append pre (padded part),
      ap length e,
      length-append pre (padded part ++ rest),
      length-append (padded part) rest,
    )

-- What the loop reads of a note at `offset`, with `rest` behind it.
record NoteRead (d : Region) (n : Note) (offset : ℕ) (rest : Region) : Type 0 where
  name_sz : load d offset 4 ≡ some (length n.name)
  descr_sz : load d (add32 offset 4) 4 ≡ some (length n.descr)
  type : load d (add32 offset 8) 4 ≡ some n.type
  middle : ℕ
  name : copy_part true d (add32 offset 12) (length n.name) ≡ done (some (n.name, middle))
  before : Region
  descr : copy_part true d middle (length n.descr) ≡ done (some (n.descr, length before))
  split : d ≡ before ++ rest
  longer : offset + 12 + length n.name + length n.descr ≤ length before

FitsIn-small : (n : ℕ) → n < 2 ^ 31 → FitsIn 4 n
FitsIn-small n h = omega arith

encode_note-NoteRead :
    {d : Region} (pre : Region) (n : Note) (rest : Region) (offset : ℕ)
    → d ≡ pre ++ encode_note n rest
    → length d < 2 ^ 31
    → FitsIn 4 n.type
    → offset ≡ length pre
    → NoteRead d n offset rest
unfolding encode_note
encode_note-NoteRead {d} pre n rest offset e small fits at = record {
  name_sz =
      load_number pre 4 (length n.name) (l_descr ++ (l_type ++ (padded n.name ++ behind_name)))
        offset e (FitsIn-small (length n.name) name_small) at;
  descr_sz =
      load_number p1 4 (length n.descr) (l_type ++ (padded n.name ++ behind_name)) (add32 offset 4)
        e1 (FitsIn-small (length n.descr) descr_small) (omega (arith, len1, len2, len3, bound));
  type =
      load_number p2 4 n.type (padded n.name ++ behind_name) (add32 offset 8) e2 fits
        (omega (arith, len1, len2, len3, bound));
  middle = length (p3 ++ padded n.name);
  name =
      copy_part-padded p3 n.name behind_name (add32 offset 12) e3 small
        (omega (arith, len1, len2, len3, bound));
  before = (p3 ++ padded n.name) ++ padded n.descr;
  descr =
      copy_part-padded (p3 ++ padded n.name) n.descr rest (length (p3 ++ padded n.name)) e4 small
        refl;
  split = behind (p3 ++ padded n.name) (padded n.descr) rest e4;
  longer = omega (
    arith,
    len1,
    len2,
    len3,
    len4,
    length-append (p3 ++ padded n.name) (padded n.descr),
    length-padded n.name,
    length-padded n.descr,
  );
}
  where
    l_descr : Region
    l_descr = bytes 4 (length n.descr)

    l_type : Region
    l_type = bytes 4 n.type

    behind_name : Region
    behind_name = padded n.descr ++ rest

    p1 : Region
    p1 = pre ++ bytes 4 (length n.name)

    p2 : Region
    p2 = p1 ++ l_descr

    p3 : Region
    p3 = p2 ++ l_type

    e1 : d ≡ p1 ++ (l_descr ++ (l_type ++ (padded n.name ++ behind_name)))
    e1 =
        behind pre (bytes 4 (length n.name)) (l_descr ++ (l_type ++ (padded n.name ++ behind_name)))
          e

    e2 : d ≡ p2 ++ (l_type ++ (padded n.name ++ behind_name))
    e2 = behind p1 l_descr (l_type ++ (padded n.name ++ behind_name)) e1

    e3 : d ≡ p3 ++ (padded n.name ++ behind_name)
    e3 = behind p2 l_type (padded n.name ++ behind_name) e2

    e4 : d ≡ (p3 ++ padded n.name) ++ (padded n.descr ++ rest)
    e4 = behind p3 (padded n.name) behind_name e3

    len1 : length p1 ≡ length pre + 4
    len1 =
        omega (arith, length-append pre (bytes 4 (length n.name)), length-bytes 4 (length n.name))

    len2 : length p2 ≡ length p1 + 4
    len2 = omega (arith, length-append p1 l_descr, length-bytes 4 (length n.descr))

    len3 : length p3 ≡ length p2 + 4
    len3 = omega (arith, length-append p2 l_type, length-bytes 4 n.type)

    len4 : length (p3 ++ padded n.name) ≡ length p3 + length (padded n.name)
    len4 = length-append p3 (padded n.name)

    bound : length p3 + length (padded n.name) + length (padded n.descr) + length rest ≡ length d
    bound = omega (
      arith,
      ap length e4,
      length-append (p3 ++ padded n.name) (padded n.descr ++ rest),
      length-append (padded n.descr) rest,
      len4,
    )

    name_small : length n.name < 2 ^ 31
    name_small = omega (arith, bound, length-padded n.name)

    descr_small : length n.descr < 2 ^ 31
    descr_small = omega (arith, bound, length-padded n.descr)

>>>-ap :
    {A B : Type 0} (m : Run A) {f g : A → Run B} → ((a : A) → f a ≡ g a) → (m >>> f) ≡ (m >>> g)
>>>-ap (done a) h = h a
>>>-ap crash h = refl
>>>-ap out_of_fuel h = refl

read_note-NoteRead :
    {d : Region} {n : Note} {offset : ℕ} {rest : Region} (r : NoteRead d n offset rest)
    → read_note (true, true) d offset
      ≡ done (
          some (record {
            type = n.type;
            descr_sz = length n.descr;
            descr = n.descr;
            next = length r.before;
          }))
unfolding read_note
read_note-NoteRead {d} {n} r = rw (r.name_sz, r.descr_sz, r.type, r.name) (rw r.descr refl)

note_loop-encode :
    (fuel : ℕ) (is_64bit : Bool) {d : Region} (allocs : ℕ → Bool × Bool) (k : ℕ) (pre : Region)
    (ns : List Note) (offset at_base : ℕ)
    → ((j : ℕ) → allocs j ≡ (true, true))
    → d ≡ pre ++ encode_notes ns
    → length d < 2 ^ 31
    → AllFull ns
    → offset ≡ length pre
    → length d < fuel + offset
    → note_loop fuel is_64bit d (length d) allocs k offset at_base
      ≡ handle_notes is_64bit ns at_base
unfolding encode_notes handle_notes note_loop
note_loop-encode fuel is_64bit {d} allocs k pre [] offset at_base ok e small full at more =
    stop fuel (ground (arith, ap length e, length-append pre []))
  where
    stop :
        (fuel : ℕ)
        → ltb (add32 offset 12) (length d) ≡ false
        → note_loop fuel is_64bit d (length d) allocs k offset at_base
          ≡ done (exit_success, at_base)
    stop zero over = rw (over, note_loop) refl
    stop (suc fuel) over = rw (over, note_loop) refl
note_loop-encode zero is_64bit allocs k pre (n ∷ ns) offset at_base ok e small full at more =
    absurd (omega (arith, ap length e, length-append pre (encode_notes (n ∷ ns))))
note_loop-encode (suc fuel) is_64bit {d} allocs k pre (n ∷ ns) offset at_base ok e small full at
      more =
    let r = encode_note-NoteRead pre n (encode_notes ns) offset e small full.0.0 at in
    let inside : ltb (add32 offset 12) (length d) ≡ true =
      ground
        (arith, r.longer, full.0.1, ap length r.split, length-append r.before (encode_notes ns)) in
    rw (inside, ok k, read_note-NoteRead r, note_loop)
      (>>>-ap (handle_note is_64bit n.type n.descr (length n.descr) at_base) λ base.
        note_loop-encode fuel is_64bit allocs (suc k) r.before ns (length r.before) base ok r.split
          small full.1 refl (omega (arith, r.longer)))

-- On a segment that is the encoding of notes, each with a name or a descriptor, of less than 2 GB in
-- all, and where `malloc` does not fail: the notes are handled one after the other, from the
-- first to the last, each with its type and its own descriptor, and nothing else is read.
pub walk_notes_lem :
    (is_64bit : Bool) (ns : List Note) (allocs : ℕ → Bool × Bool) (at_base : ℕ)
    → ((k : ℕ) → allocs k ≡ (true, true))
    → length (encode_notes ns) < 2 ^ 31
    → AllFull ns
    → walk_notes is_64bit (encode_notes ns) (pos (length (encode_notes ns))) allocs at_base
      ≡ handle_notes is_64bit ns at_base
unfolding walk_notes
walk_notes_lem is_64bit ns allocs at_base ok small full =
    let same : length (encode_notes ns) % 2 ^ 32 ≡ length (encode_notes ns) = omega arith in
    rw same (
      note_loop-encode (suc (length (encode_notes ns))) is_64bit allocs 0 [] ns 0 at_base ok refl
        small full refl (omega arith))
