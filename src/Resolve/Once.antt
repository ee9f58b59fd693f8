-- ===== src/Resolve/Once.antt =====
-- The files that the resolver of libscout.c starts producers for.
use libscout.Prelude.{
  some, Bool, true, false, ◌≡◌, refl, sym as flip, ◌∙◌, ap, subst, ◌||◌, ◌⊎◌, inl, inr, Option,
  List, [], ◌∷◌, ◌++◌, In, In-append, append-In, Name, name_eq, name_eq_refl, exit_success, enomem,
  arith,
}
use libscout.Avl.{SymAvl}
use libscout.Resolve.{
  running, finished, Pc, exited, holding, crashed, looping, creating, counting, Consumer, System,
  Step, send, finish, receive, receive_fails, leave, create, create_fails, create_crashes,
  count_crashes, count, Reach, here, next,
}
use libscout.Resolve.Outcome.{
  has, Outcome, new_lib, known_lib, new_undefined, known_undefined, gave_up, handle_sym-Outcome,
}
use libscout.Resolve.Needs.{files, files-set, files-snoc}

-- No name stands twice in the list.
abbrev pub IsDistinct : List Name → Type 0
IsDistinct [] = Unit
IsDistinct (x ∷ xs) = (In x xs → ⊥) × IsDistinct xs

snoc-IsDistinct :
    (xs : List Name) (x : Name) → IsDistinct xs → (In x xs → ⊥) → IsDistinct (xs ++ x ∷ [])
snoc-IsDistinct [] x d new = (λ m. m, tt)
snoc-IsDistinct (y ∷ xs) x d new = (
  λ m. elim (append-In y xs (x ∷ []) m) [
    | inl old ↦ d.0 old
    | inr (inl same) ↦ new (inl (flip same))
    | inr (inr none_left) ↦ elim none_left [ ]
  ],
  snoc-IsDistinct xs x d.1 (λ m. new (inr m)),
)

first-IsDistinct : (xs ys : List Name) → IsDistinct (xs ++ ys) → IsDistinct xs
first-IsDistinct [] ys d = tt
first-IsDistinct (x ∷ xs) ys d = (λ m. d.0 (In-append x xs ys (inl m)), first-IsDistinct xs ys d.1)

append_nil : (xs : List Name) → xs ++ [] ≡ xs
append_nil [] = refl
append_nil (x ∷ xs) = ap (λ l. x ∷ l) (append_nil xs)

-- The file that is about to get its producer.
abbrev launching : Pc → List Name
launching (creating f) = f ∷ []
launching _ = []

module _ (avl : SymAvl) (exe : Name) where
  -- The executable, then libraries among the dependencies, each once.
  pub record Launched (fs : List Name) (d : avl.Tree) : Type 0 where
    pub libs : List Name
    pub order : fs ≡ exe ∷ libs
    pub distinct : IsDistinct libs
    pub known : (lib : Name) → In lib libs → has avl d lib ≡ true

  abbrev stopped : Pc → Bool
  stopped (exited _) = true
  stopped (crashed _) = true
  stopped _ = false

  -- Or the first producer could not be created.
  abbrev Failed : List Name → Pc → Type 0
  Failed fs pc = (fs ≡ []) × (stopped pc ≡ true)

  Once : System avl → Type 0
  Once s =
      Launched (files s.producers ++ launching s.consumer.pc) s.consumer.dependency
      ⊎ Failed (files s.producers) s.consumer.pc

  drop_last :
      (fs : List Name) (f : Name) {d : avl.Tree}
      → Launched (fs ++ f ∷ []) d
      → (fs ≡ []) ⊎ Launched fs d
  drop_last [] f h = inl refl
  drop_last (p ∷ fs) f h =
      let rest : fs ++ f ∷ [] ≡ h.libs = cc (h.order) in
      inr (record {
        libs = fs;
        order = cc (h.order);
        distinct = first-IsDistinct fs (f ∷ []) (subst IsDistinct (flip rest) h.distinct);
        known = λ lib m. h.known lib (subst (In lib) rest (In-append lib fs (f ∷ []) (inl m)));
      })

  add_last :
      (fs : List Name) (lib : Name) {d t : avl.Tree}
      → Launched fs d
      → has avl d lib ≡ false
      → ((k : Name) → has avl t k ≡ (name_eq lib k || has avl d k))
      → Launched (fs ++ lib ∷ []) t
  add_last fs lib h new law = record {
    libs = h.libs ++ lib ∷ [];
    order = ap (λ l. l ++ lib ∷ []) h.order;
    distinct = snoc-IsDistinct h.libs lib h.distinct (λ m. let old = h.known lib m in cc);
    known = λ k m. elim (append-In k h.libs (lib ∷ []) m) [
      | inl old ↦ let e = h.known k old in ground (arith, law k)
      | inr (inl same) ↦ let e = name_eq_refl lib in rw (law k, same) (rw e refl)
      | inr (inr none_left) ↦ elim none_left [ ]
    ];
  }

  Outcome-Launched :
      {c c' : Consumer avl} {sym : Name} {found : Option Name} (fs : List Name)
      → Outcome avl c sym found c'
      → c.pc ≡ looping
      → Launched fs c.dependency
      → Launched (fs ++ launching c'.pc) c'.dependency
  Outcome-Launched fs (new_lib {lib} new law) at h = add_last fs lib h new law
  Outcome-Launched fs (known_lib old) at h = rw (at, append_nil fs) h
  Outcome-Launched fs (new_undefined law) at h = rw (at, append_nil fs) h
  Outcome-Launched fs (known_undefined old) at h = rw (at, append_nil fs) h
  Outcome-Launched fs (gave_up bad) at h = rw (append_nil fs) h

  -- A step of the consumer from one point of its loop to another that launches nothing.
  moved :
      (s : System avl) (pc : Pc)
      → Once s
      → launching s.consumer.pc ≡ []
      → launching pc ≡ []
      → (stopped s.consumer.pc ≡ true → ⊥)
      → Launched (files s.producers ++ launching pc) s.consumer.dependency
  unfolding Once
  moved s pc (inl h) e e' not_failed = rw (e', ← e) h
  moved s pc (inr (none_yet, at)) e e' not_failed = absurd (not_failed at)

  module _ (undefined_of : Name → List Name) (check : Name → Option Name) where
    Step-Once : {s t : System avl} → Step avl undefined_of check s t → Once s → Once t
    unfolding Once
    Step-Once {s} (send i {f} {sym} {rest} free at e) h =
        rw
          (files-set s.producers i (record { file = f; state = running (sym ∷ rest) })
            (record { file = f; state = running rest }) at refl)
          h
    Step-Once {s} (finish i {f} free at) h =
        rw
          (files-set s.producers i (record { file = f; state = running [] })
            (record { file = f; state = finished }) at refl)
          h
    Step-Once {s} (receive allocated {sym} at e) (inl h) = inl (
        Outcome-Launched (files s.producers)
          (handle_sym-Outcome avl allocated s.consumer sym (check sym)) at
          (rw (at, append_nil (files s.producers)) at h))
    Step-Once (receive allocated at e) (inr failed) = absurd (cc (flip (ap stopped at) ∙ failed.1))
    Step-Once {s} (receive_fails at e) h =
        inl (moved s (holding enomem) h (rw at refl) refl (λ q. cc (flip (ap stopped at) ∙ q)))
    Step-Once {s} (leave at e d) h =
        inl (moved s (exited exit_success) h (rw at refl) refl (λ q. cc (flip (ap stopped at) ∙ q)))
    Step-Once {s} (create {f} at) (inl h) = inl (
        rw
          (
            append_nil
                (files (s.producers ++ record { file = f; state = running (undefined_of f) } ∷ [])),
            files-snoc s.producers (record { file = f; state = running (undefined_of f) }),
          )
          (rw at at h))
    Step-Once (create at) (inr failed) = absurd (cc (flip (ap stopped at) ∙ failed.1))
    Step-Once {s} (create_fails {f} at) (inl h) =
        elim (drop_last (files s.producers) f (rw at at h)) [
          | inl none_yet ↦ inr (none_yet, refl)
          | inr fewer ↦ inl (rw (append_nil (files s.producers)) fewer)
        ]
    Step-Once (create_fails at) (inr failed) = absurd (cc (flip (ap stopped at) ∙ failed.1))
    Step-Once {s} (create_crashes {f} at) (inl h) =
        elim (drop_last (files s.producers) f (rw at at h)) [
          | inl none_yet ↦ inr (none_yet, refl)
          | inr fewer ↦ inl (rw (append_nil (files s.producers)) fewer)
        ]
    Step-Once (create_crashes at) (inr failed) = absurd (cc (flip (ap stopped at) ∙ failed.1))
    Step-Once {s} (count_crashes i {f} at last ended) h =
        inl (moved s (crashed (some f)) h (rw at refl) refl (λ q. cc (flip (ap stopped at) ∙ q)))
    Step-Once {s} (count at) h =
        inl (moved s looping h (rw at refl) refl (λ q. cc (flip (ap stopped at) ∙ q)))

    Reach-Once : {s : System avl} → Reach avl undefined_of check exe s → Once s
    unfolding Once files
    Reach-Once here =
        inl (record { libs = []; order = refl; distinct = tt; known = λ lib m. elim m [ ] })
    Reach-Once (next r st) = Step-Once st (Reach-Once r)

    -- In every interleaving: no file has a producer yet, or the first producer is the executable's
    -- and the others are of libraries among the dependencies, no two of the same library.
    pub started_once :
        {s : System avl}
        → Reach avl undefined_of check exe s
        → (files s.producers ≡ []) ⊎ Launched (files s.producers) s.consumer.dependency
    unfolding Once
    started_once {s} r = elim (Reach-Once r) [
      | inr failed ↦ inl failed.0
      | inl h ↦ go s.consumer.pc refl h
    ]
      where
        go :
            (pc : Pc)
            → s.consumer.pc ≡ pc
            → Launched (files s.producers ++ launching s.consumer.pc) s.consumer.dependency
            → (files s.producers ≡ []) ⊎ Launched (files s.producers) s.consumer.dependency
        go looping e h = inr (rw (e, append_nil (files s.producers)) at h)
        go (creating f) e h = drop_last (files s.producers) f (rw e at h)
        go (counting f) e h = inr (rw (e, append_nil (files s.producers)) at h)
        go (exited rc) e h = inr (rw (e, append_nil (files s.producers)) at h)
        go (crashed f) e h = inr (rw (e, append_nil (files s.producers)) at h)
        go (holding rc) e h = inr (rw (e, append_nil (files s.producers)) at h)
