-- ===== src/Elf/Notes.antt =====
-- The notes of a core file (elf_lib_funcs.c): process_nt_auxv, printf_file_name, process_nt_file, and
-- the loop of process_elf_pg_hdr_pt_note over the notes of a segment.
pub mod Auxv
pub mod Walk
pub mod Fuel
use libscout.Prelude.{
  ℕ, zero, suc, ◌+◌, ◌-◌, ◌*◌, ◌/◌, ◌%◌, ◌^◌, Bool, true, false, Option, none, some, List, [], ◌∷◌,
  drop, take, Name, ◌==◌, ltb, if◌then◌else◌, ℤ, pos, negsuc, int_lt, to_int, to_u64, exit_success,
  enomem, Run, done, crash, out_of_fuel, ◌>>>◌, or_crash,
}
use libscout.Elf.Memory.{Region, load}
use libscout.Elf.Bytes.{copy_out}
use libscout.Elf.Strings.{string_end}

-- sizeof(Elf64_Addr) or sizeof(Elf32_Addr)
abbrev pub field_sz : Bool → ℕ
field_sz true = 8
field_sz false = 4

abbrev pub at_null : ℕ
at_null = 0

abbrev pub at_base_key : ℕ
at_base_key = 7

-- An `int` bound on a counter from 0 on.
abbrev pub up_to : ℤ → ℕ
up_to (pos n) = n
up_to (negsuc n) = 0

-- The loop of `process_nt_auxv` from `i` on; the result is `*at_base`.
unfoldable pub auxv_loop : ℕ → ℕ → Region → ℕ → ℕ → ℕ → Run ℕ
auxv_loop zero w descr size i at_base = if ltb i size then out_of_fuel else done at_base
auxv_loop (suc fuel) w descr size i at_base = elim (ltb i size) [
  | false ↦ done at_base
  | true ↦ or_crash (load descr i w) >>> λ key. or_crash (load descr (i + w) w) >>> λ val.
      elim (key == at_null) [
        | true ↦ done at_base
        | false ↦
            auxv_loop fuel w descr size (i + w * 2) (if key == at_base_key then val else at_base)
      ]
]

-- `process_nt_auxv`, which always returns EXIT_SUCCESS.
unfoldable pub process_nt_auxv : Bool → Region → ℤ → ℕ → Run ℕ
unfolding auxv_loop
process_nt_auxv is_64bit descr size at_base =
    auxv_loop (up_to size) (field_sz is_64bit) descr (up_to size) 0 at_base

-- What is printed for one mapped file: no name where it does not end within the note.
pub record MappedFile : Type 0 where
  pub addr_start : ℕ
  pub addr_end : ℕ
  pub file_offset : ℕ
  pub file_name : Option Name

-- `printf_file_name` at an offset of the note: what it prints, and what it returns.
unfoldable pub printf_file_name : Region → ℕ → ℤ → Run (Option Name × ℕ)
unfolding string_end
printf_file_name descr at data_size = or_crash (string_end descr data_size (pos at)) >>> λ i.
    done (if int_lt (pos i) data_size then some (take i (drop at descr)) else none, i + 1)

-- The loop of `process_nt_file`, with `left` rounds to go. Pointers are offsets from its start.
unfoldable pub nt_file_loop : ℕ → ℕ → Region → ℤ → ℕ → ℕ → ℕ → ℕ → Run (List MappedFile)
unfolding printf_file_name
nt_file_loop zero w descr size offset_start fn_start i indx = done []
nt_file_loop (suc left) w descr size offset_start fn_start i indx =
    or_crash (load descr (w + i * (2 * w)) w) >>> λ a_1.
    or_crash (load descr (w + (i * (2 * w) + w)) w) >>> λ a_2.
    or_crash (load descr ((offset_start + i * w) % 2 ^ 64) w) >>> λ off_1.
    printf_file_name descr ((fn_start + indx) % 2 ^ 64)
      (to_int (to_u64 size + 2 ^ 64 - fn_start + 2 ^ 64 - indx))
    >>> λ printed.
        nt_file_loop left w descr size offset_start fn_start (i + 1) (indx + printed.1)
        >>> λ others. done (
            record { addr_start = a_1; addr_end = a_2; file_offset = off_1; file_name = printed.0 }
            ∷ others)

-- `process_nt_file`: what it prints.
unfoldable pub process_nt_file : Bool → Region → ℤ → Run (List MappedFile)
unfolding nt_file_loop
process_nt_file is_64bit descr size =
    let w = field_sz is_64bit in
    or_crash (load descr 0 w) >>> λ num_entry.
    let offset_start = (w + num_entry * (w * 2)) % 2 ^ 64 in
    let fn_start = (offset_start + num_entry * w) % 2 ^ 64 in
    nt_file_loop num_entry w descr size offset_start fn_start 0 0

-- Sums of `Elf32_Word`s, and `(n + 3) & ~3`.
abbrev pub add32 : ℕ → ℕ → ℕ
add32 a b = (a + b) % 2 ^ 32

abbrev pub align4 : ℕ → ℕ
align4 n = (n + 3) % 2 ^ 32 / 4 * 4

abbrev pub nt_auxv : ℕ
nt_auxv = 6

abbrev pub nt_file : ℕ
nt_file = 0x46494c45

-- A copy of the name or of the descriptor, and the offset behind it; `none` if `malloc` fails. The
-- pointer of an empty part is NULL, which has no bytes.
unfoldable pub copy_part : Bool → Region → ℕ → ℕ → Run (Option (Region × ℕ))
unfolding copy_out
copy_part allocated segment offset zero = done (some ([], offset))
copy_part false segment offset (suc n) = done none
copy_part true segment offset (suc n) = or_crash (copy_out segment offset (suc n)) >>> λ part.
    done (some (part, add32 offset (align4 (suc n))))

-- The `switch` on the type: the base address that the descriptor of the file has then.
unfoldable pub handle_note : Bool → ℕ → Region → ℕ → ℕ → Run ℕ
unfolding process_nt_auxv process_nt_file
handle_note is_64bit type descr descr_sz at_base =
    if type == nt_auxv
    then process_nt_auxv is_64bit descr (to_int descr_sz) 0
    else if type == nt_file
    then (process_nt_file is_64bit descr (to_int descr_sz) >>> λ printed. done at_base)
    else done at_base

-- What the `switch` needs of a note, and the offset of the next one.
pub record NoteParts : Type 0 where
  pub type : ℕ
  pub descr_sz : ℕ
  pub descr : Region
  pub next : ℕ

abbrev pub note_parts : ℕ → ℕ → Option (Region × ℕ) → Option NoteParts
note_parts type descr_sz none = none
note_parts type descr_sz (some (descr, next)) =
    some (record { type = type; descr_sz = descr_sz; descr = descr; next = next })

abbrev pub read_descr : Bool → Region → ℕ → ℕ → Option (Region × ℕ) → Run (Option NoteParts)
read_descr allocated segment type descr_sz none = done none
read_descr allocated segment type descr_sz (some (name, offset)) =
    copy_part allocated segment offset descr_sz >>> λ descr. done (note_parts type descr_sz descr)

-- The part of a round up to the `switch`; `none` if one of the two calls of `malloc` fails.
unfoldable pub read_note : Bool × Bool → Region → ℕ → Run (Option NoteParts)
unfolding copy_part
read_note allocated segment offset = or_crash (load segment offset 4) >>> λ name_sz.
    or_crash (load segment (add32 offset 4) 4) >>> λ descr_sz.
    or_crash (load segment (add32 offset 8) 4) >>> λ type.
    copy_part allocated.0 segment (add32 offset 12) name_sz >>> λ name.
    read_descr allocated.1 segment type descr_sz name

-- The loop over the notes. `allocs k` says whether the two calls of `malloc` for the `k`th note
-- succeed. The result is a return code and the base address.
unfoldable pub note_loop : ℕ → Bool → Region → ℕ → (ℕ → Bool × Bool) → ℕ → ℕ → ℕ → Run (ℤ × ℕ)
unfolding read_note handle_note
note_loop zero is_64bit segment size allocs k offset at_base =
    if ltb (add32 offset 12) size then out_of_fuel else done (exit_success, at_base)
note_loop (suc fuel) is_64bit segment size allocs k offset at_base =
    elim (ltb (add32 offset 12) size) [
      | false ↦ done (exit_success, at_base)
      | true ↦ read_note (allocs k) segment offset >>> λ read. elim read [
        | none ↦ done (enomem, at_base)
        | some n ↦ handle_note is_64bit n.type n.descr n.descr_sz at_base >>> λ base.
            note_loop fuel is_64bit segment size allocs (suc k) n.next base
      ]
    ]

-- The notes of a segment of `size` bytes that have been read.
unfoldable pub walk_notes : Bool → Region → ℤ → (ℕ → Bool × Bool) → ℕ → Run (ℤ × ℕ)
unfolding note_loop
walk_notes is_64bit segment size allocs at_base =
    note_loop (suc (to_u64 size % 2 ^ 32)) is_64bit segment (to_u64 size % 2 ^ 32) allocs 0 0
      at_base
