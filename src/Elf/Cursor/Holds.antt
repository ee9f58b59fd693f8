-- ===== src/Elf/Cursor/Holds.antt =====
-- Properties of the values that the steps of process_elf_file (elf_lib_funcs.c) go on with.
use libscout.Prelude.{
  ℕ, ◌+◌, ◌^◌, ◌≤◌, ◌<◌, ◌≡◌, refl, Bool, true, false, ◌⊎◌, inl, inr, Option, none, some, ◌++◌,
  length, length-append, length-drop, length-take, length-replicate, take, drop, leb, if◌then◌else◌,
  Bool-cases, Option-cases, ℤ, Run, done, crash, out_of_fuel, HasFuel, arith,
}
use libscout.Elf.Memory.{Region}
use libscout.Elf.Cursor.{
  Disk, Mem, Cursor, Load, pure, fail, fault, from_run, from_option, ◌>>=◌, store, malloc, calloc,
  try_malloc, seek, read_into,
}

-- The run is not cut off, and a value that it goes on with has the property.
abbrev pub Gives : {A : Type 0} → (A → Type 0) → Run ((A × Cursor) ⊎ ℤ) → Type 0
Gives P (done (inl p)) = P p.0
Gives P (done (inr rc)) = Unit
Gives P crash = Unit
Gives P out_of_fuel = ⊥

pub record Holds {A : Type 0} (P : A → Type 0) (m : Load A) : Type 0 where
  pub gives : (c : Cursor) → Gives P (m c)

bind-Gives :
    {A B : Type 0} (P : A → Type 0) (Q : B → Type 0) (m : Load A) (f : A → Load B)
    → Holds P m
    → ((a : A) → P a → Holds Q (f a))
    → (c : Cursor) → Gives Q ((m >>= f) c)
unfolding ◌>>=◌
bind-Gives {A} {B} P Q m f h k c = go (m c) (h.gives c)
  where
    go :
        (r : Run ((A × Cursor) ⊎ ℤ))
        → Gives P r
        → Gives Q (elim r as (λ x. Run ((B × Cursor) ⊎ ℤ)) [
          | done s ↦ elim s [ inl p ↦ f p.0 p.1 | inr rc ↦ done (inr rc) ]
          | crash ↦ crash
          | out_of_fuel ↦ out_of_fuel
        ])
    go (done (inl (a, c'))) g = (k a g).gives c'
    go (done (inr rc)) g = tt
    go crash g = tt
    go out_of_fuel g = g

pub >>=-Holds :
    {A B : Type 0} (P : A → Type 0) {Q : B → Type 0} {m : Load A} {f : A → Load B}
    → Holds P m
    → ((a : A) → P a → Holds Q (f a))
    → Holds Q (m >>= f)
>>=-Holds P {Q} {m} {f} h k = record { gives = bind-Gives P Q m f h k }

map-Gives :
    {A : Type 0} (P Q : A → Type 0) (r : Run ((A × Cursor) ⊎ ℤ))
    → ((a : A) → P a → Q a)
    → Gives P r
    → Gives Q r
map-Gives P Q (done (inl p)) k g = k p.0 g
map-Gives P Q (done (inr rc)) k g = tt
map-Gives P Q crash k g = tt
map-Gives P Q out_of_fuel k g = g

pub Holds-map :
    {A : Type 0} (P Q : A → Type 0) {m : Load A} → ((a : A) → P a → Q a) → Holds P m → Holds Q m
Holds-map P Q {m} k h = record { gives = λ c. map-Gives P Q (m c) k (h.gives c) }

pub from_option-Holds :
    {A : Type 0} {P : A → Type 0} (o : Option A)
    → ((a : A) → o ≡ some a → P a)
    → Holds P (from_option o)
from_option-Holds none h = record { gives = λ c. tt }
from_option-Holds (some a) h = record { gives = λ c. h a refl }

-- A step that reads a value, without regard to the value.
pub read-Holds :
    {A B : Type 0} {Q : B → Type 0} (o : Option A) {f : A → Load B}
    → ((a : A) → o ≡ some a → Holds Q (f a))
    → Holds Q (from_option o >>= f)
read-Holds o {f} h = >>=-Holds (λ a. o ≡ some a) (from_option-Holds o (λ a e. e)) h

pub pure-Holds : {A : Type 0} {P : A → Type 0} (a : A) → P a → Holds P (pure a)
pure-Holds a p = record { gives = λ c. p }

pub fail-Holds : {A : Type 0} {P : A → Type 0} (rc : ℤ) → Holds P (fail rc)
fail-Holds rc = record { gives = λ c. tt }

pub fault-Holds : {A : Type 0} {P : A → Type 0} → Holds P fault
fault-Holds = record { gives = λ c. tt }

pub from_run-Holds : {A : Type 0} (r : Run A) → HasFuel r → Holds (λ _. Unit) (from_run r)
from_run-Holds (done a) h = record { gives = λ c. tt }
from_run-Holds crash h = record { gives = λ c. tt }
from_run-Holds out_of_fuel h = absurd h

pub if-Holds :
    {A : Type 0} {P : A → Type 0} (b : Bool) {m m' : Load A}
    → (b ≡ true → Holds P m)
    → (b ≡ false → Holds P m')
    → Holds P (if b then m else m')
if-Holds true h h' = h refl
if-Holds false h h' = h' refl

pub length-store :
    (r : Region) (off : ℕ) (bs : Region) {r' : Region}
    → store r off bs ≡ some r'
    → length r' ≡ length r
unfolding store
length-store r off bs {r'} e = elim (Bool-cases (leb (off + length bs) (length r))) [
  | inr outside ↦ ground arith
  | inl inside ↦
      let fits : off + length bs ≤ length r = ground arith in
      let made : take off r ++ (bs ++ drop (off + length bs) r) ≡ r' = ground arith in
      rw (← made) (
        omega (
          arith,
          length-append (take off r) (bs ++ drop (off + length bs) r),
          length-append bs (drop (off + length bs) r),
          length-take {A = ℕ} off r (omega arith),
          length-drop (off + length bs) r,
        ))
]

abbrev pub IsBlock : ℕ → Region → Type 0
IsBlock n r = (length r ≡ n) × (n < 2 ^ 63)

module _ (mem : Mem) where
  pub malloc-Holds : (n : ℕ) → Holds (IsBlock n) (malloc mem n)
  malloc-Holds n = record {
    gives = λ c. elim (Option-cases (mem.malloc c.blocks n)) [
      | inl null ↦ rw (null, Gives) tt
      | inr got ↦
          let (r, e) = got in
          rw (e, Gives) (mem.length-malloc c.blocks n r e, mem.malloc_bound c.blocks n r e)
    ];
  }

  pub calloc-Holds : (n : ℕ) → Holds (IsBlock n) (calloc mem n)
  calloc-Holds n = record {
    gives = λ c. elim (Option-cases (mem.malloc c.blocks n)) [
      | inl null ↦ rw (null, Gives) tt
      | inr got ↦
          let (r, e) = got in
          rw (e, Gives) (length-replicate {A = ℕ} n 0, mem.malloc_bound c.blocks n r e)
    ];
  }

  pub try_malloc-Holds : (n : ℕ) → Holds (λ _. Unit) (try_malloc mem n)
  try_malloc-Holds n = record { gives = λ c. tt }

module _ (disk : Disk) where
  pub seek-Holds : (offset : ℤ) → Holds (λ _. Unit) (seek disk offset)
  seek-Holds offset = record { gives = λ c. go c (disk.lseek offset) }
    where
      go :
          (c : Cursor) (r : ℕ ⊎ ℤ)
          → Gives
              (λ _. Unit)
              (elim r as (λ x. Run ((Unit × Cursor) ⊎ ℤ)) [
                | inl at ↦ done (inl (tt, record c { at = at }))
                | inr errno ↦ done (inr errno)
              ])
      go c (inl at) = tt
      go c (inr errno) = tt

  pub read_into-Holds :
      (r : Region) (off n : ℕ) → Holds (λ r'. length r' ≡ length r) (read_into disk r off n)
  read_into-Holds r off n = record { gives = λ c. go c (disk.read c.at n) }
    where
      stored :
          (c : Cursor) (bs : Region) (o : Option Region)
          → store r off bs ≡ o
          → Gives
              (λ r'. length r' ≡ length r)
              (elim o as (λ x. Run ((Region × Cursor) ⊎ ℤ)) [
                | none ↦ crash
                | some r' ↦ done (inl (r', record c { at = c.at + length bs }))
              ])
      stored c bs none e = tt
      stored c bs (some r') e = length-store r off bs e

      go :
          (c : Cursor) (x : Region ⊎ ℤ)
          → Gives
              (λ r'. length r' ≡ length r)
              (elim x as (λ x. Run ((Region × Cursor) ⊎ ℤ)) [
                | inr errno ↦ done (inr errno)
                | inl bs ↦ elim (store r off bs) [
                  | none ↦ crash
                  | some r' ↦ done (inl (r', record c { at = c.at + length bs }))
                ]
              ])
      go c (inl bs) = stored c bs (store r off bs) refl
      go c (inr errno) = tt
