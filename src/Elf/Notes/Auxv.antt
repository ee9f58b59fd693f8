-- ===== src/Elf/Notes/Auxv.antt =====
-- `process_nt_auxv` (elf_lib_funcs.c) on an auxiliary vector that is put together from its entries.
use mathlib.Core.List.{append_assoc}
use libscout.Prelude.{
  ℕ, zero, suc, ◌+◌, ◌*◌, ◌≤◌, ◌<◌, ◌≡◌, refl, ◌∙◌, sym as flip, ap, Bool, true, false, List, [],
  ◌∷◌, ◌++◌, length, length-append, ◌==◌, ltb, if◌then◌else◌, Bool-cases, some, inl, inr, pos, done,
  arith,
}
use libscout.Elf.Memory.{Region, load}
use libscout.Elf.Bytes.{bytes, FitsIn, length-bytes, little_endian-bytes, load_mid}
use libscout.Elf.Notes.{field_sz, at_null, at_base_key, auxv_loop, process_nt_auxv}

-- An auxiliary vector: keys and values.
abbrev pub Auxv : Type 0
Auxv = List (ℕ × ℕ)

unfoldable pub encode_auxv : ℕ → Auxv → Region
encode_auxv w [] = []
encode_auxv w ((k, v) ∷ es) = bytes w k ++ (bytes w v ++ encode_auxv w es)

abbrev pub AllFit : ℕ → Auxv → Type 0
AllFit w [] = Unit
AllFit w ((k, v) ∷ es) = FitsIn w k × FitsIn w v × AllFit w es

-- The value of the last AT_BASE before the first AT_NULL, or the default.
unfoldable pub find_at_base : Auxv → ℕ → ℕ
find_at_base [] b = b
find_at_base ((k, v) ∷ es) b =
    if k == at_null then b else find_at_base es (if k == at_base_key then v else b)

length-encode_auxv : (w : ℕ) (es : Auxv) → length (encode_auxv w es) ≡ 2 * w * length es
unfolding encode_auxv
length-encode_auxv w [] = omega arith
length-encode_auxv w ((k, v) ∷ es) = omega (
  arith,
  length-append (bytes w k) (bytes w v ++ encode_auxv w es),
  length-append (bytes w v) (encode_auxv w es),
  length-bytes w k,
  length-bytes w v,
  length-encode_auxv w es,
)

-- What the loop reads for one entry.
module _ {d : Region} (pre : Region) (w k v : ℕ) (rest : Region)
    (e : d ≡ pre ++ (bytes w k ++ (bytes w v ++ rest))) where
  load_key : (i : ℕ) → FitsIn w k → i ≡ length pre → load d i w ≡ some k
  load_key i fits at =
      ap (λ r. load r i w) e
      ∙ (load_mid pre (bytes w k) (bytes w v ++ rest) i w at (flip (length-bytes w k))
          ∙ ap some (little_endian-bytes w k fits))

  behind_key : d ≡ (pre ++ bytes w k) ++ (bytes w v ++ rest)
  behind_key = e ∙ flip (append_assoc pre (bytes w k) (bytes w v ++ rest))

  length-behind_key : length (pre ++ bytes w k) ≡ length pre + w
  length-behind_key = omega (arith, length-append pre (bytes w k), length-bytes w k)

  load_val : (i : ℕ) → FitsIn w v → i ≡ length pre → load d (i + w) w ≡ some v
  load_val i fits at =
      ap (λ r. load r (i + w) w) behind_key
      ∙ (load_mid (pre ++ bytes w k) (bytes w v) rest (i + w) w (omega (arith, length-behind_key))
            (flip (length-bytes w v))
          ∙ ap some (little_endian-bytes w v fits))

  behind_entry : d ≡ ((pre ++ bytes w k) ++ bytes w v) ++ rest
  behind_entry = behind_key ∙ flip (append_assoc (pre ++ bytes w k) (bytes w v) rest)

  length-behind_entry : length ((pre ++ bytes w k) ++ bytes w v) ≡ length pre + w * 2
  length-behind_entry =
      omega
        (arith, length-append (pre ++ bytes w k) (bytes w v), length-behind_key, length-bytes w v)

auxv_loop-encode :
    (fuel w : ℕ) {d : Region} (pre : Region) (es : Auxv) (i b : ℕ)
    → AllFit w es
    → i ≡ length pre
    → d ≡ pre ++ encode_auxv w es
    → 0 < w
    → length es ≤ fuel
    → auxv_loop fuel w d (length d) i b ≡ done (find_at_base es b)
unfolding auxv_loop encode_auxv find_at_base
auxv_loop-encode fuel w {d} pre [] i b f at e some_w more =
    let over : ltb i (length d) ≡ false = ground (arith, ap length e, length-append pre []) in
    stop fuel over
  where
    stop : (fuel : ℕ) → ltb i (length d) ≡ false → auxv_loop fuel w d (length d) i b ≡ done b
    stop zero over = rw (over, auxv_loop) refl
    stop (suc fuel) over = rw (over, auxv_loop) refl
auxv_loop-encode zero w pre (e ∷ es) i b f at eq some_w more = absurd (omega arith)
auxv_loop-encode (suc fuel) w {d} pre ((k, v) ∷ es) i b f at e some_w more =
    let inside : ltb i (length d) ≡ true = ground (
      arith,
      ap length e,
      length-append pre (encode_auxv w ((k, v) ∷ es)),
      length-encode_auxv w ((k, v) ∷ es),
    ) in
    let rest = encode_auxv w es in
    elim (Bool-cases (k == at_null)) [
      | inl last ↦
          rw
            (
              inside,
              load_key pre w k v rest e i f.0 at,
              load_val pre w k v rest e i f.1 at,
              last,
              auxv_loop,
            )
            refl
      | inr more_entries ↦
          rw
            (
              inside,
              load_key pre w k v rest e i f.0 at,
              load_val pre w k v rest e i f.1 at,
              more_entries,
              auxv_loop,
            )
            (auxv_loop-encode fuel w ((pre ++ bytes w k) ++ bytes w v) es (i + w * 2)
              (if k == at_base_key then v else b) f.2
              (omega (arith, length-behind_entry pre w k v rest e)) (behind_entry pre w k v rest e)
              some_w (omega arith))
    ]

-- On a vector of entries that fit their fields, `process_nt_auxv` finds the value of the last AT_BASE
-- entry before the first AT_NULL entry, or leaves `*at_base` as it was, and reads nothing outside.
pub process_nt_auxv_lem :
    (is_64bit : Bool) (es : Auxv) (at_base : ℕ)
    → AllFit (field_sz is_64bit) es
    → let descr = encode_auxv (field_sz is_64bit) es in
      process_nt_auxv is_64bit descr (pos (length descr)) at_base ≡ done (find_at_base es at_base)
unfolding process_nt_auxv
process_nt_auxv_lem is_64bit es at_base f =
    auxv_loop-encode (length (encode_auxv w es)) w [] es 0 at_base f refl refl (some_w is_64bit)
      (enough is_64bit (length-encode_auxv w es))
  where
    w : ℕ
    w = field_sz is_64bit

    some_w : (c : Bool) → 0 < field_sz c
    some_w true = omega arith
    some_w false = omega arith

    enough :
        (c : Bool)
        → length (encode_auxv w es) ≡ 2 * field_sz c * length es
        → length es ≤ length (encode_auxv w es)
    enough true e = omega arith
    enough false e = omega arith
