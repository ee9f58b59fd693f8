-- ===== src/Elf/Cursor.antt =====
-- What process_elf_file (elf_lib_funcs.c) asks of the system: memory, and bytes of the open file. A
-- step of it goes on with a value, or ends with a return code, behind which every later step is
-- skipped.
pub mod Holds
pub mod Steps
pub mod Zeros
pub mod Gets
use libscout.Prelude.{
  ℕ, suc, ◌+◌, ◌^◌, ◌≤◌, ◌<◌, ◌≡◌, Bool, true, false, ◌⊎◌, inl, inr, Option, none, some, List, ◌++◌,
  length, take, drop, leb, replicate, if◌then◌else◌, ℤ, enomem, Run, done, crash, out_of_fuel,
}
use libscout.Elf.Memory.{Region}

-- An open file: what `read` gives for a position and a count, and `lseek` for an offset; `inr` is
-- an `errno`. A `read` may give fewer bytes than it was asked for, and never gives more.
pub record Disk : Type 0 where
  pub read : ℕ → ℕ → Region ⊎ ℤ
  pub lseek : ℤ → ℕ ⊎ ℤ
  pub length-read : (at n : ℕ) (bs : Region) → read at n ≡ inl bs → length bs ≤ n

-- The allocator: the contents that the `k`th block has, or NULL; and for the two calls of the `k`th
-- note of a segment only whether they succeed.
pub record Mem : Type 0 where
  pub malloc : ℕ → ℕ → Option Region
  pub note_allocs : ℕ → Bool × Bool
  pub length-malloc : (k n : ℕ) (r : Region) → malloc k n ≡ some r → length r ≡ n
  -- No block is larger than PTRDIFF_MAX.
  pub malloc_bound : (k n : ℕ) (r : Region) → malloc k n ≡ some r → n < 2 ^ 63

-- The file's position, and the number of blocks asked for.
pub record Cursor : Type 0 where
  pub at : ℕ
  pub blocks : ℕ

abbrev pub Load : Type 0 → Type 0
Load A = Cursor → Run ((A × Cursor) ⊎ ℤ)

module _ {A : Type 0} where
  abbrev pub pure : A → Load A
  pure a c = done (inl (a, c))

  abbrev pub fail : ℤ → Load A
  fail rc c = done (inr rc)

  abbrev pub fault : Load A
  fault c = crash

  abbrev pub from_run : Run A → Load A
  from_run (done a) c = done (inl (a, c))
  from_run crash c = crash
  from_run out_of_fuel c = out_of_fuel

  abbrev pub from_option : Option A → Load A
  from_option none = fault
  from_option (some a) = pure a

infixl 5 ◌>>=◌
unfoldable pub ◌>>=◌ : {A B : Type 0} → Load A → (A → Load B) → Load B
◌>>=◌ m f c = elim (m c) [
  | done r ↦ elim r [ inl p ↦ f p.0 p.1 | inr rc ↦ done (inr rc) ]
  | crash ↦ crash
  | out_of_fuel ↦ out_of_fuel
]

-- A write into an object; `none` outside it.
unfoldable pub store : Region → ℕ → Region → Option Region
store r off bs =
    if leb (off + length bs) (length r)
    then some (take off r ++ (bs ++ drop (off + length bs) r))
    else none

module _ (mem : Mem) where
  -- `malloc` or `realloc`, and the test for NULL.
  abbrev pub malloc : ℕ → Load Region
  malloc n c = elim (mem.malloc c.blocks n) [
    | none ↦ done (inr enomem)
    | some r ↦ done (inl (r, record c { blocks = suc c.blocks }))
  ]

  abbrev pub calloc : ℕ → Load Region
  calloc n c = elim (mem.malloc c.blocks n) [
    | none ↦ done (inr enomem)
    | some r ↦ done (inl (replicate n 0, record c { blocks = suc c.blocks }))
  ]

  -- Whether a block can be had.
  abbrev pub try_malloc : ℕ → Load Bool
  try_malloc n c = done (
      inl (
        elim (mem.malloc c.blocks n) [ none ↦ false | some r ↦ true ],
        record c { blocks = suc c.blocks },
      ))

module _ (disk : Disk) where
  abbrev pub seek : ℤ → Load Unit
  seek offset c = elim (disk.lseek offset) [
    | inl at ↦ done (inl (tt, record c { at = at }))
    | inr errno ↦ done (inr errno)
  ]

  -- `read` into an object at an offset.
  abbrev pub read_into : Region → ℕ → ℕ → Load Region
  read_into r off n c = elim (disk.read c.at n) [
    | inr errno ↦ done (inr errno)
    | inl bs ↦ elim (store r off bs) [
      | none ↦ crash
      | some r' ↦ done (inl (r', record c { at = c.at + length bs }))
    ]
  ]
