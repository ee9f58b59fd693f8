-- ===== src/Resolve/Printed.antt =====
-- What resolve_undefined_sym (libscout.c) prints behind its loop.
use libscout.Prelude.{
  ◌≡◌, refl, subst, true, ◌↔◌, inl, inr, Option, none, some, List, In, Name, name_eq→eq,
  Option-cases, Bool-cases, if◌then◌else◌, arith,
}
use libscout.Avl.{SymAvl}
use libscout.Cache.{rc_is_success}
use libscout.Resolve.{Pc, looping, creating, counting, holding, crashed, exited, Consumer}
use libscout.Resolve.Outcome.{has}

-- The names below the two headings, in the order of the trees.
pub record Lists : Type 0 where
  pub dependencies : List Name
  pub unresolved : List Name

module _ (avl : SymAvl) where
  -- With an error, or before the loop has been left, nothing is printed.
  unfoldable pub print_lists : Consumer avl → Option Lists
  print_lists c = elim c.pc [
    | exited rc ↦
        if rc_is_success rc
        then some
            (record { dependencies = avl.walk c.dependency; unresolved = avl.walk c.undefined_sym })
        else none
    | _ ↦ none
  ]

  -- A walk meets just the names that are in the tree.
  pub walk_iff : (t : avl.Tree) (n : Name) → In n (avl.walk t) ↔ (has avl t n ≡ true)
  walk_iff t n = (
    λ m. let e = avl.walk-search t n m in rw e refl,
    λ h. elim (Option-cases (avl.search t n)) [
      | inl missing ↦ absurd (cc (rw missing at h))
      | inr found ↦
          let (a, e) = found in
          let (m, same) = avl.search-walk t n a e in
          subst (λ x. In x (avl.walk t)) (name_eq→eq a n same) m
    ],
  )

  -- What is printed are the two trees.
  pub printed_lists :
      (c : Consumer avl) (l : Lists)
      → print_lists c ≡ some l
      → l ≡ record { dependencies = avl.walk c.dependency; unresolved = avl.walk c.undefined_sym }
  unfolding print_lists
  printed_lists c l e = go c.pc e
    where
      both : Lists
      both = record { dependencies = avl.walk c.dependency; unresolved = avl.walk c.undefined_sym }

      go :
          (pc : Pc)
          → (elim pc as (λ _. Option Lists) [
            | exited rc ↦ if rc_is_success rc then some both else none
            | _ ↦ none
          ])
            ≡ some l
          → l ≡ both
      go looping e = absurd (cc e)
      go (creating f) e = absurd (cc e)
      go (counting f) e = absurd (cc e)
      go (holding rc) e = absurd (cc e)
      go (crashed f) e = absurd (cc e)
      go (exited rc) e = elim (Bool-cases (rc_is_success rc)) [
        | inl success ↦ let e' = rw success at e in ground arith
        | inr failure ↦ absurd (cc (rw failure at e))
      ]
