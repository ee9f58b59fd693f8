-- ===== src/Iter/Walk.antt =====
-- A loop over the iterator of iterator.c against the list of its elements' addresses.
use libscout.Prelude.{ℕ, zero, suc, ◌+◌, ◌*◌, ◌<◌, ◌≡◌, ◌∙◌, true, some, List, [], ◌∷◌, ap, arith}
use libscout.Iter.{Iterator, iterator_init, visit}

-- The addresses of `n` elements of the given size from the `i`th on.
abbrev pub addresses : ℕ → ℕ → ℕ → ℕ → List ℕ
addresses base size i zero = []
addresses base size i (suc n) = (base + size * i) ∷ addresses base size (i + 1) n

visit_from :
    (n fuel base size total i : ℕ)
    → i + n ≡ total
    → n < fuel
    → visit fuel (record {
      base_address = base;
      element_size = size;
      total_number = total;
      current_index = i;
    })
      ≡ addresses base size i n
unfolding visit
visit_from n zero base size total i e h = absurd (omega arith)
visit_from zero (suc fuel) base size total i e h = ground arith
visit_from (suc n) (suc fuel) base size total i e h =
    ground (arith, visit_from n fuel base size total (i + 1))

-- From `iterator_init` on, a loop over the iterator visits the addresses of all `number` elements
-- in order and then stops, with any fuel above their number.
pub visit_all :
    (fuel base size number : ℕ) {iter : Iterator}
    → iterator_init true (some base) size number ≡ some iter
    → number < fuel
    → visit fuel iter ≡ addresses base size 0 number
unfolding iterator_init
visit_all fuel base size number {iter} e h =
    let made : iter ≡ record {
      base_address = base;
      element_size = size;
      total_number = number;
      current_index = 0;
    } =
      ground arith in
    ap (visit fuel) made ∙ visit_from number fuel base size number 0 (omega arith) h
