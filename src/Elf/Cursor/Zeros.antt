-- ===== src/Elf/Cursor/Zeros.antt =====
-- Writes to the start of an object, such as one of zeros (elf_lib_funcs.c, main.c).
use libscout.Prelude.{
  ℕ, zero, suc, ◌+◌, ◌-◌, ◌≤◌, ◌≡◌, ◌∙◌, ap, true, some, ◌++◌, length, length-replicate, drop,
  replicate, leb, arith,
}
use libscout.Elf.Memory.{Region}
use libscout.Elf.Cursor.{store}

pub drop-replicate : (n k v : ℕ) → n ≤ k → drop n (replicate k v) ≡ replicate (k - n) v
drop-replicate zero k v h = ap (λ m. replicate m v) (omega arith)
drop-replicate (suc n) zero v h = absurd (omega arith)
drop-replicate (suc n) (suc k) v h =
    drop-replicate n k v (omega arith) ∙ ap (λ m. replicate m v) (omega arith)

pub store-start :
    (r bs : Region) → length bs ≤ length r → store r 0 bs ≡ some (bs ++ drop (length bs) r)
unfolding store
store-start r bs short =
    let fits : leb (0 + length bs) (length r) ≡ true = ground arith in
    let start : 0 + length bs ≡ length bs = omega arith in
    rw fits (ap (λ n. some (bs ++ drop n r)) start)

-- What an object of `n` zeros holds after a write of `bs`.
abbrev pub over_zeros : ℕ → Region → Region
over_zeros n bs = bs ++ replicate (n - length bs) 0

pub store-zeros :
    (n : ℕ) (bs : Region) → length bs ≤ n → store (replicate n 0) 0 bs ≡ some (over_zeros n bs)
store-zeros n bs short =
    store-start (replicate n 0) bs (omega (arith, length-replicate {A = ℕ} n 0))
    ∙ ap (λ r. some (bs ++ r)) (drop-replicate (length bs) n 0 short)
