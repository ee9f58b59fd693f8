-- ===== src/Elf/File/Headers.antt =====
-- The loops of process_elf_file (elf_lib_funcs.c) that read the program headers and the section
-- headers, on a file of given bytes.
use mathlib.Core.List.{append_assoc, append-nil}
use libscout.Prelude.{
  ℕ, zero, suc, ◌+◌, ◌-◌, ◌*◌, ◌≤◌, ◌≡◌, refl, ◌∙◌, sym as flip, ap, true, some, [], ◌∷◌, ◌++◌,
  length, length-append, length-drop, length-take, length-replicate, take, drop, replicate, leb,
  arith,
}
use libscout.Iter.Walk.{addresses}
use libscout.Elf.Memory.{Region}
use libscout.Elf.Descr.{sizeof_sec_hdr}
use libscout.Elf.Cursor.{Disk, Mem, Cursor, store, read_into}
use libscout.Elf.Cursor.Gets.{Gets, IsImage, >>=-Gets, pure-Gets, Gets-map, read_into-Gets}
use libscout.Elf.Cursor.Zeros.{over_zeros, drop-replicate}
use libscout.Elf.File.{read_pg_hdrs, read_sec_hdrs}

-- `n` section headers of `size` bytes each, from an offset of the file on, as the array holds them.
abbrev pub sec_headers : Region → ℕ → ℕ → ℕ → Region
sec_headers image size at zero = []
sec_headers image size at (suc n) =
    over_zeros sizeof_sec_hdr (take size (drop at image)) ++ sec_headers image size (at + size) n

take-part : (pre z : Region) → take (length pre) (pre ++ z) ≡ pre
take-part [] z = refl
take-part (b ∷ pre) z = ap (λ r. b ∷ r) (take-part pre z)

drop-part : (pre z : Region) (n : ℕ) → drop (length pre + n) (pre ++ z) ≡ drop n z
drop-part [] z n = ap (λ k. drop k z) (omega arith)
drop-part (b ∷ pre) z n =
    let step : suc (length pre) + n ≡ suc (length pre + n) = omega arith in
    rw step (drop-part pre z n)

store-part :
    (pre z bs : Region) (off : ℕ)
    → off ≡ length pre
    → length bs ≤ length z
    → store (pre ++ z) off bs ≡ some (pre ++ (bs ++ drop (length bs) z))
unfolding store
store-part pre z bs off at short =
    let fits : leb (off + length bs) (length (pre ++ z)) ≡ true =
      ground (arith, length-append pre z) in
    rw fits (
      ap (λ k. some (take k (pre ++ z) ++ (bs ++ drop (k + length bs) (pre ++ z)))) at
      ∙ ap (λ r. some (r ++ (bs ++ drop (length pre + length bs) (pre ++ z)))) (take-part pre z)
      ∙ ap (λ r. some (pre ++ (bs ++ r))) (drop-part pre z (length bs)))

replicate-add : (m n : ℕ) → replicate {A = ℕ} (m + n) 0 ≡ replicate m 0 ++ replicate n 0
replicate-add zero n = ap (λ k. replicate k 0) (omega arith)
replicate-add (suc m) n =
    let step : suc m + n ≡ suc (m + n) = omega arith in
    rw step (ap (λ r. 0 ∷ r) (replicate-add m n))

drop_none : (n : ℕ) → drop {A = ℕ} n [] ≡ []
drop_none zero = refl
drop_none (suc n) = refl

take_none : (n : ℕ) → take {A = ℕ} n [] ≡ []
take_none zero = refl
take_none (suc n) = refl

drop-add : (m n : ℕ) (r : Region) → drop n (drop m r) ≡ drop (m + n) r
drop-add zero n r = ap (λ k. drop k r) (omega arith)
drop-add (suc m) n [] = drop_none n ∙ flip (drop_none (suc m + n))
drop-add (suc m) n (b ∷ r) =
    let step : suc m + n ≡ suc (m + n) = omega arith in rw step (drop-add m n r)

take-add : (m n : ℕ) (r : Region) → take m r ++ take n (drop m r) ≡ take (m + n) r
take-add zero n r = ap (λ k. take k r) (omega arith)
take-add (suc m) n [] = take_none n ∙ flip (take_none (suc m + n))
take-add (suc m) n (b ∷ r) =
    let step : suc m + n ≡ suc (m + n) = omega arith in rw step (ap (λ t. b ∷ t) (take-add m n r))

-- A part of an object of zeros behind `pre` is overwritten.
over_part :
    (pre bs : Region) (size rest : ℕ)
    → length bs ≤ size
    → pre ++ (bs ++ drop (length bs) (replicate (size + rest) 0))
      ≡ (pre ++ over_zeros size bs) ++ replicate rest 0
over_part pre bs size rest short =
    let z : Region = replicate rest 0 in
    let kept : drop (length bs) (replicate (size + rest) 0) ≡ replicate (size - length bs) 0 ++ z =
      drop-replicate (length bs) (size + rest) 0 (omega arith)
      ∙ ap (λ k. replicate {A = ℕ} k 0) (omega arith)
      ∙ replicate-add (size - length bs) rest in
    ap (λ r. pre ++ (bs ++ r)) kept
    ∙ ap (λ r. pre ++ r) (flip (append_assoc bs (replicate (size - length bs) 0) z))
    ∙ flip (append_assoc pre (over_zeros size bs) z)

module _ (mem : Mem) (disk : Disk) (image : Region) (is : IsImage disk image) where
  -- One of the reads, into the part of the object behind `pre`.
  read_part :
      (pre : Region) (size cap rest total off : ℕ) (c : Cursor)
      → total ≡ cap + rest
      → off ≡ length pre
      → size ≤ cap
      → c.at + size ≤ length image
      → Gets c
          (λ r c'.
            (r ≡ (pre ++ over_zeros cap (take size (drop c.at image))) ++ replicate rest 0)
            × (c'.at ≡ c.at + size))
          (read_into disk (pre ++ replicate total 0) off size)
  read_part pre size cap rest total off c parts at small inside =
      let bs : Region = take size (drop c.at image) in
      let full : length bs ≡ size =
        length-take size (drop c.at image) (omega (arith, length-drop c.at image)) in
      let room : length bs ≤ length (replicate {A = ℕ} total 0) =
        omega (arith, length-replicate {A = ℕ} total 0) in
      Gets-map
        (λ r c' h. (
          h.0
              ∙ ap (λ t. pre ++ (bs ++ drop (length bs) (replicate t 0))) parts
              ∙ over_part pre bs cap rest (omega arith),
          h.1 ∙ ap (λ l. c.at + l) full,
        ))
        (read_into-Gets disk image is (pre ++ replicate total 0) off size c _
          (store-part pre (replicate total 0) bs off at room))

  pub read_sec_hdrs-Gets :
      (size left : ℕ) (pre : Region) (i at : ℕ) (c : Cursor)
      → size ≤ sizeof_sec_hdr
      → length pre ≡ sizeof_sec_hdr * i
      → c.at ≡ at
      → at + size * left ≤ length image
      → Gets c
          (λ r c'. r ≡ pre ++ sec_headers image size at left)
          (read_sec_hdrs mem disk size left (pre ++ replicate (sizeof_sec_hdr * left) 0) i)
  unfolding read_sec_hdrs
  read_sec_hdrs-Gets size zero pre i at c small here from inside = pure-Gets _ refl
  read_sec_hdrs-Gets size (suc left) pre i at c small here from inside =
      let over = over_zeros sizeof_sec_hdr (take size (drop c.at image)) in
      let more : size * suc left ≡ size + size * left = omega arith in
      >>=-Gets
        (read_part pre size sizeof_sec_hdr (sizeof_sec_hdr * left) (sizeof_sec_hdr * suc left)
          (sizeof_sec_hdr * i) c (omega arith) (flip here) small (omega arith))
        (λ r c' (same, moved). rw same (
          Gets-map
            (λ r' c'' e.
              e
              ∙ append_assoc pre over _
              ∙ ap
                  (λ k.
                    pre
                    ++ (over_zeros sizeof_sec_hdr (take size (drop k image))
                        ++ sec_headers image size (at + size) left))
                  from)
            (read_sec_hdrs-Gets size left (pre ++ over) (i + 1) (at + size) c' small
              (omega (
                arith,
                length-append pre over,
                length-append (take size (drop c.at image))
                    (replicate {A = ℕ} (sizeof_sec_hdr - length (take size (drop c.at image))) 0),
                length-replicate {A = ℕ} (sizeof_sec_hdr - length (take size (drop c.at image))) 0,
                length-take size (drop c.at image) (omega (arith, length-drop c.at image)),
              ))
              (omega arith) (omega arith))))

  pub read_pg_hdrs-Gets :
      (size left : ℕ) (pre : Region) (i at : ℕ) (c : Cursor)
      → length pre ≡ size * i
      → c.at ≡ at
      → at + size * left ≤ length image
      → Gets c
          (λ r c'. r ≡ pre ++ take (size * left) (drop at image))
          (read_pg_hdrs mem disk size (pre ++ replicate (size * left) 0) (addresses 0 size i left))
  unfolding read_pg_hdrs
  read_pg_hdrs-Gets size zero pre i at c here from inside =
      let none_left : size * 0 ≡ 0 = omega arith in rw none_left (pure-Gets _ refl)
  read_pg_hdrs-Gets size (suc left) pre i at c here from inside =
      let bs : Region = take size (drop c.at image) in
      let full : length bs ≡ size =
        length-take size (drop c.at image) (omega (arith, length-drop c.at image)) in
      let gap : size - length bs ≡ 0 = omega arith in
      let exact : over_zeros size bs ≡ bs = ap (λ k. bs ++ replicate k 0) gap ∙ append-nil bs in
      let more : size * suc left ≡ size + size * left = omega arith in
      let read : take (size * suc left) (drop at image)
          ≡ bs ++ take (size * left) (drop (at + size) image) =
        ap (λ k. take k (drop at image)) more
        ∙ flip (take-add size (size * left) (drop at image))
        ∙ ap (λ r. take size (drop at image) ++ take (size * left) r) (drop-add at size image)
        ∙ ap (λ k. take size (drop k image) ++ take (size * left) (drop (at + size) image))
            (flip from) in
      >>=-Gets
        (read_part pre size size (size * left) (size * suc left) (0 + size * i) c more (omega arith)
          (omega arith) (omega arith))
        (λ r c' (same, moved).
          rw (same, exact)
            (Gets-map (λ r' c'' e. e ∙ append_assoc pre bs _ ∙ ap (λ t. pre ++ t) (flip read))
              (read_pg_hdrs-Gets size left (pre ++ bs) (i + 1) (at + size) c'
                (omega (arith, length-append pre bs)) (omega arith) (omega arith))))
