-- ===== src/Elf/Bytes.antt =====
-- Byte strings put together: what is loaded from them, and copies of their parts.
use libscout.Prelude.{
  ℕ, zero, suc, ◌+◌, ◌/◌, ◌%◌, ◌≡◌, refl, ap, sym as flip, ◌∙◌, true, Option, none, some, [], ◌∷◌,
  ◌++◌, length, length-append, take, drop, leb, if◌then◌else◌, arith,
}
use mathlib.Core.List.{append_assoc}
use libscout.Elf.Memory.{Region, little_endian, load}

-- `memcpy` of `n` bytes from an offset into a new object; `none` if it reads outside.
unfoldable pub copy_out : Region → ℕ → ℕ → Option Region
copy_out r off n = if leb (off + n) (length r) then some (take n (drop off r)) else none

-- The `w` bytes of a number, and that it has no more.
abbrev pub bytes : ℕ → ℕ → Region
bytes zero n = []
bytes (suc w) n = n % 256 ∷ bytes w (n / 256)

abbrev pub FitsIn : ℕ → ℕ → Type 0
FitsIn zero n = n ≡ 0
FitsIn (suc w) n = FitsIn w (n / 256)

pub length-bytes : (w n : ℕ) → length (bytes w n) ≡ w
length-bytes zero n = refl
length-bytes (suc w) n = ap suc (length-bytes w (n / 256))

pub little_endian-bytes : (w n : ℕ) → FitsIn w n → little_endian (bytes w n) ≡ n
little_endian-bytes zero n h = omega arith
little_endian-bytes (suc w) n h = omega (arith, little_endian-bytes w (n / 256) h)

pub drop_skip : (pre rest : Region) (off : ℕ) → off ≡ length pre → drop off (pre ++ rest) ≡ rest
drop_skip [] rest zero h = refl
drop_skip [] rest (suc off) h = absurd (omega arith)
drop_skip (b ∷ pre) rest zero h = absurd (omega arith)
drop_skip (b ∷ pre) rest (suc off) h = drop_skip pre rest off (omega arith)

take_front : (n : ℕ) (front rest : Region) → n ≡ length front → take n (front ++ rest) ≡ front
take_front zero [] rest h = refl
take_front zero (b ∷ front) rest h = absurd (omega arith)
take_front (suc n) [] rest h = absurd (omega arith)
take_front (suc n) (b ∷ front) rest h = ap (λ l. b ∷ l) (take_front n front rest (omega arith))

-- The part between `pre` and `rest` is copied out, and loaded.
pub copy_out_mid :
    (pre mid rest : Region) (off n : ℕ)
    → off ≡ length pre
    → n ≡ length mid
    → copy_out (pre ++ (mid ++ rest)) off n ≡ some mid
unfolding copy_out
copy_out_mid pre mid rest off n at size =
    let whole = length-append pre (mid ++ rest) in
    let back = length-append mid rest in
    let inside : leb (off + n) (length (pre ++ (mid ++ rest))) ≡ true = ground arith in
    rw (inside, drop_skip pre (mid ++ rest) off at, take_front n mid rest size) refl

pub load_mid :
    (pre mid rest : Region) (off n : ℕ)
    → off ≡ length pre
    → n ≡ length mid
    → load (pre ++ (mid ++ rest)) off n ≡ some (little_endian mid)
unfolding load
load_mid pre mid rest off n at size =
    let whole = length-append pre (mid ++ rest) in
    let back = length-append mid rest in
    let inside : leb (off + n) (length (pre ++ (mid ++ rest))) ≡ true = ground arith in
    rw (inside, drop_skip pre (mid ++ rest) off at, take_front n mid rest size) refl

pub behind :
    {d : Region} (pre mid rest : Region) → d ≡ pre ++ (mid ++ rest) → d ≡ (pre ++ mid) ++ rest
behind pre mid rest e = e ∙ flip (append_assoc pre mid rest)

-- A field of `w` bytes behind `pre`.
pub load_number :
    {d : Region} (pre : Region) (w n : ℕ) (rest : Region) (off : ℕ)
    → d ≡ pre ++ (bytes w n ++ rest)
    → FitsIn w n
    → off ≡ length pre
    → load d off w ≡ some n
load_number pre w n rest off e fits at =
    ap (λ r. load r off w) e
    ∙ (load_mid pre (bytes w n) rest off w at (flip (length-bytes w n))
        ∙ ap some (little_endian-bytes w n fits))
