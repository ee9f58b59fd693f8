-- ===== src/Resolve/Outcome.antt =====
-- What `handle_sym` may do to the consumer, case by case.
use libscout.Prelude.{
  ℕ, Bool, true, false, ◌≡◌, refl, ◌||◌, inl, inr, Option, none, some, Name, name_eq, Bool-cases,
  Option-cases, int_eq, ℤ, exit_success, eexist,
}
use libscout.Avl.{SymAvl, is_some}
use libscout.Resolve.{
  creating, exited, Consumer, add_sym_to_tree, after_dependency, after_undefined, handle_sym,
}

module _ (avl : SymAvl) where
  open avl use {Tree, search, insert, search-insert}

  abbrev pub has : Tree → Name → Bool
  has t k = is_some (search t k)

  pub data Added (t : Tree) (sym : Name) : ℤ × Tree → Type 0 where
    added :
        {t' : Tree}
        → has t sym ≡ false
        → ((k : Name) → has t' k ≡ (name_eq sym k || has t k))
        → Added t sym (exit_success, t')
    present : has t sym ≡ true → Added t sym (eexist, t)
    failed :
        {rc : ℤ} → int_eq rc exit_success ≡ false → int_eq rc eexist ≡ false → Added t sym (rc, t)

  has-insert :
      (t : Tree) (sym : Name) {t' : Tree}
      → search t sym ≡ none
      → insert t sym ≡ some t'
      → (k : Name) → has t' k ≡ (name_eq sym k || has t k)
  has-insert t sym {t'} new e k = elim (Bool-cases (name_eq sym k)) [
    | inl same ↦ rw (search-insert t sym t' k new e, same) refl
    | inr apart ↦ rw (search-insert t sym t' k new e, apart) refl
  ]

  -- `add_sym_to_tree` adds a new name and nothing else, reports EEXIST on a known one, and leaves
  -- the tree as it was when it fails.
  pub add_sym_to_tree-Added :
      (allocated : Bool) (t : Tree) (sym : Name) → Added t sym (add_sym_to_tree avl allocated t sym)
  unfolding add_sym_to_tree
  add_sym_to_tree-Added true t sym = elim (Option-cases (search t sym)) [
    | inl new ↦ elim (Option-cases (insert t sym)) [
      | inl no_node ↦ rw (new, no_node, add_sym_to_tree) (failed refl refl)
      | inr node ↦
          let e = node.1 in rw (new, e, add_sym_to_tree) (added (rw new) (has-insert t sym new e))
    ]
    | inr old ↦ let e = old.1 in rw (e, add_sym_to_tree) (present (rw e))
  ]
  add_sym_to_tree-Added false t sym = elim (Option-cases (search t sym)) [
    | inl new ↦ rw (new, add_sym_to_tree) (failed refl refl)
    | inr old ↦ let e = old.1 in rw (e, add_sym_to_tree) (present (rw e))
  ]

  pub data Outcome (c : Consumer avl) (sym : Name) : Option Name → Consumer avl → Type 0 where
    new_lib :
        {lib : Name} {t : Tree} {size : ℕ}
        → has c.dependency lib ≡ false
        → ((k : Name) → has t k ≡ (name_eq lib k || has c.dependency k))
        → Outcome c sym
            (some lib)
            (record c { pc = creating lib; dependency = t; producer_arr_size = size })
    known_lib : {lib : Name} → has c.dependency lib ≡ true → Outcome c sym (some lib) c
    new_undefined :
        {t : Tree}
        → ((k : Name) → has t k ≡ (name_eq sym k || has c.undefined_sym k))
        → Outcome c sym none (record c { undefined_sym = t })
    known_undefined : has c.undefined_sym sym ≡ true → Outcome c sym none c
    gave_up :
        {found : Option Name} {rc : ℤ}
        → int_eq rc exit_success ≡ false
        → Outcome c sym found (record c { pc = exited rc })

  after_dependency-Outcome :
      {c : Consumer avl} {sym lib : Name} {r : ℤ × Tree}
      → Added c.dependency lib r
      → Outcome c sym (some lib) (after_dependency avl c lib r)
  after_dependency-Outcome (added new law) = new_lib new law
  after_dependency-Outcome (present old) = known_lib old
  after_dependency-Outcome (failed e f) = rw (e, f, after_dependency) (gave_up e)

  after_undefined-Outcome :
      {c : Consumer avl} {sym : Name} {r : ℤ × Tree}
      → Added c.undefined_sym sym r
      → Outcome c sym none (after_undefined avl c r)
  after_undefined-Outcome (added new law) = new_undefined law
  after_undefined-Outcome (present old) = known_undefined old
  after_undefined-Outcome (failed e f) = rw (e, f, after_undefined) (gave_up e)

  pub handle_sym-Outcome :
      (allocated : Bool) (c : Consumer avl) (sym : Name) (found : Option Name)
      → Outcome c sym found (handle_sym avl allocated c sym found)
  unfolding handle_sym
  handle_sym-Outcome allocated c sym (some lib) =
      after_dependency-Outcome (add_sym_to_tree-Added allocated c.dependency lib)
  handle_sym-Outcome allocated c sym none =
      after_undefined-Outcome (add_sym_to_tree-Added allocated c.undefined_sym sym)
