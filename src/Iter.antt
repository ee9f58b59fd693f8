-- ===== src/Iter.antt =====
-- The iterator of iterator.c over an array of equal elements.
pub mod Walk
use libscout.Prelude.{
  ℕ, zero, suc, ◌+◌, ◌*◌, Bool, true, false, ◌||◌, Option, none, some, List, [], ◌∷◌, ◌==◌, leb,
  if◌then◌else◌,
}

-- `iterator_t`; an address is a number.
pub record Iterator : Type 0 where
  pub base_address : ℕ
  pub element_size : ℕ
  pub total_number : ℕ
  pub current_index : ℕ

abbrev is_null : Option ℕ → Bool
is_null none = true
is_null (some _) = false

-- `iterator_init`: `none` as an address or a result is NULL, and `allocated` says whether the
-- `malloc` succeeds. The sizes are `size_t`, so `<= 0` is a test for 0.
unfoldable pub iterator_init : Bool → Option ℕ → ℕ → ℕ → Option Iterator
iterator_init allocated none size number = none
iterator_init allocated (some base) size number =
    if size == 0 || number == 0
    then none
    else if allocated
    then some (record {
      base_address = base;
      element_size = size;
      total_number = number;
      current_index = 0;
    })
    else none

-- `iterator_next` at an iterator that is not NULL: the next element's address, or NULL at the end.
unfoldable pub iterator_next : Iterator → Option ℕ × Iterator
iterator_next iter = if leb iter.total_number iter.current_index then (none, iter) else (
  some (iter.base_address + iter.element_size * iter.current_index),
  record iter { current_index = iter.current_index + 1 },
)

-- What a client's loop `while (entry = iterator_next(iter))` sees, one round for each unit of fuel.
unfoldable pub visit : ℕ → Iterator → List ℕ
unfolding iterator_next
visit zero iter = []
visit (suc fuel) iter =
    let (entry, iter') = iterator_next iter in
    let rest = visit fuel iter' in elim entry [ none ↦ [] | some a ↦ a ∷ rest ]
