-- ===== src/Resolve/Progress.antt =====
-- What a handled symbol brings the consumer, while it has not failed.
use libscout.Prelude.{
  true, false, ◌≡◌, ◌⊎◌, inl, inr, Option, Name, name_eq, name_eq→eq, name_eq_refl, Bool-cases,
  arith,
}
use libscout.Avl.{SymAvl}
use libscout.Resolve.{creating, Consumer}
use libscout.Resolve.Outcome.{
  has, Outcome, new_lib, known_lib, new_undefined, known_undefined, gave_up,
}
use libscout.Resolve.Needs.{has_failed, Settled, resolved, unresolved}

module _ (avl : SymAvl) (check : Name → Option Name) where
  -- After a received symbol: it is settled, nothing is forgotten, and a new library is the next to
  -- be started.
  pub record Progress (c : Consumer avl) (sym : Name) (c' : Consumer avl) : Type 0 where
    pub now : Settled avl check c' sym
    pub still : (x : Name) → Settled avl check c x → Settled avl check c' x
    pub known :
        (lib : Name)
        → has avl c'.dependency lib ≡ true
        → (has avl c.dependency lib ≡ true) ⊎ (c'.pc ≡ creating lib)

  pub Outcome-Progress :
      {c c' : Consumer avl} {sym : Name} {found : Option Name}
      → check sym ≡ found
      → Outcome avl c sym found c'
      → has_failed c'.pc ≡ false
      → Progress c sym c'
  Outcome-Progress e (new_lib {lib} new law) live = record {
    now = resolved e (ground (arith, law lib, name_eq_refl lib));
    still = λ x h. elim h [
      | resolved {lib = l} f d ↦ resolved f (ground (arith, law l))
      | unresolved f u ↦ unresolved f u
    ];
    known = λ l h. elim (Bool-cases (name_eq lib l)) [
      | inl same ↦ let same' = name_eq→eq lib l same in inr (ground arith)
      | inr apart ↦ inl (ground (arith, law l))
    ];
  }
  Outcome-Progress e (known_lib old) live = record {
    now = resolved e old;
    still = λ x h. h;
    known = λ l h. inl h;
  }
  Outcome-Progress {sym} e (new_undefined law) live = record {
    now = unresolved e (ground (arith, law sym, name_eq_refl sym));
    still = λ x h. elim h [
      | resolved f d ↦ resolved f d
      | unresolved f u ↦ unresolved f (ground (arith, law x))
    ];
    known = λ l h. inl h;
  }
  Outcome-Progress e (known_undefined old) live = record {
    now = unresolved e old;
    still = λ x h. h;
    known = λ l h. inl h;
  }
  Outcome-Progress e (gave_up {rc} bad) live = ground arith
