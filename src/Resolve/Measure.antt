-- ===== src/Resolve/Measure.antt =====
-- A number that each step of the threads of libscout.c makes less.
use libscout.Prelude.{
  ℕ, zero, suc, ◌+◌, ◌*◌, ◌<◌, ◌≤◌, true, false, ◌||◌, ◌≡◌, refl, ap, inl, inr, Option, some, List,
  [], ◌∷◌, ◌++◌, In, length, length-append, get_elem?, set, Name, name_eq, name_eq_refl,
  if◌then◌else◌, arith,
}
use libscout.Buffer.Represents.{Represents, sent_queue, received_queue}
use libscout.Avl.{SymAvl}
use libscout.Resolve.{
  Producer, running, finished, Pc, exited, holding, crashed, looping, creating, counting, Consumer,
  System, Step, send, finish, receive, receive_fails, leave, create, create_fails, create_crashes,
  count_crashes, count, handle_sym,
}
use libscout.Resolve.Outcome.{
  has, Outcome, new_lib, known_lib, new_undefined, known_undefined, gave_up, handle_sym-Outcome,
}
use libscout.Resolve.Needs.{finish_producer-Represents, count_producer-Represents}

-- The steps that a producer has still to take, with those of the consumer for its symbols.
abbrev pub left : Producer → ℕ
left p = elim p.state [ running syms ↦ suc (2 * length syms) | finished ↦ 0 ]

unfoldable pub work : List Producer → ℕ
work [] = 0
work (p ∷ ps) = left p + work ps

work-set :
    (ps : List Producer) (i : ℕ) (p p' : Producer)
    → get_elem? ps i ≡ some p
    → work (set ps i p') + left p ≡ work ps + left p'
unfolding work
work-set [] i p p' h = ground arith
work-set (x ∷ ps) zero p p' h = ground arith
work-set (x ∷ ps) (suc i) p p' h = omega (arith, work-set ps i p p' h)

work-snoc : (ps : List Producer) (p : Producer) → work (ps ++ p ∷ []) ≡ work ps + left p
unfolding work
work-snoc [] p = omega arith
work-snoc (x ∷ ps) p = omega (arith, work-snoc ps p)

module _ (avl : SymAvl) (undefined_of : Name → List Name) (check : Name → Option Name) where
  -- The steps for one more file.
  abbrev pub cost : Name → ℕ
  cost f = 2 * length (undefined_of f) + 4

  abbrev pub pc_cost : Pc → ℕ
  pc_cost looping = 1
  pc_cost (creating f) = cost f
  pc_cost (counting f) = 2
  pc_cost (exited rc) = 0
  pc_cost (holding rc) = 0
  pc_cost (crashed f) = 0

  -- The steps for the libraries that are not yet among the dependencies.
  unfoldable pub unseen : List Name → avl.Tree → ℕ
  unseen [] t = 0
  unseen (l ∷ ls) t = (if has avl t l then 0 else cost l) + unseen ls t

  unseen_less :
      (ls : List Name) (t t' : avl.Tree) (lib : Name)
      → ((k : Name) → has avl t' k ≡ (name_eq lib k || has avl t k))
      → unseen ls t' ≤ unseen ls t
  unfolding unseen
  unseen_less [] t t' lib law = omega arith
  unseen_less (l ∷ ls) t t' lib law = ground (arith, unseen_less ls t t' lib law, law l)

  unseen_new :
      (ls : List Name) (t t' : avl.Tree) (lib : Name)
      → In lib ls
      → has avl t lib ≡ false
      → ((k : Name) → has avl t' k ≡ (name_eq lib k || has avl t k))
      → unseen ls t' + cost lib ≤ unseen ls t
  unfolding unseen
  unseen_new [] t t' lib m new law = elim m [ ]
  unseen_new (l ∷ ls) t t' lib (inl e) new law =
      let seen : has avl t' lib ≡ true = let r = name_eq_refl lib in ground (arith, law lib) in
      rw (← e) (ground (arith, unseen_less ls t t' lib law))
  unseen_new (l ∷ ls) t t' lib (inr m) new law =
      ground (arith, unseen_new ls t t' lib m new law, law l)

  -- Every library that a lookup may give.
  module _ (libs : List Name) (listed : (sym lib : Name) → check sym ≡ some lib → In lib libs) where
    unfoldable pub measure : List Name → System avl → ℕ
    measure queue s =
        work s.producers + length queue + pc_cost s.consumer.pc + unseen libs s.consumer.dependency

    -- A state whose buffer holds a queue, with fewer steps to come than `n`.
    abbrev pub Below : ℕ → System avl → Type 0
    Below n t = (queue : List Name) × Represents t.buffer queue × (measure queue t < n)

    handled_less :
        {sym : Name} {found : Option Name} (c c' : Consumer avl)
        → c.pc ≡ looping
        → check sym ≡ found
        → Outcome avl c sym found c'
        → pc_cost c'.pc + unseen libs c'.dependency ≤ 1 + unseen libs c.dependency
    handled_less c c' at e (new_lib {lib} {t} new law) =
        omega (arith, unseen_new libs c.dependency t lib (listed _ lib e) new law)
    handled_less c c' at e (known_lib old) = rw at (omega arith)
    handled_less c c' at e (new_undefined law) = rw at (omega arith)
    handled_less c c' at e (known_undefined old) = rw at (omega arith)
    handled_less c c' at e (gave_up err) = omega arith

    pub Step-Below :
        {s t : System avl} (queue : List Name)
        → Represents s.buffer queue
        → Step avl undefined_of check s t
        → Below (measure queue s) t
    unfolding measure
    Step-Below {s} queue r (send i {f} {sym} {rest} free at e) = (
      queue ++ sym ∷ [],
      sent_queue sym r e,
      omega (
        arith,
        work-set s.producers i _ (record { file = f; state = running rest }) at,
        length-append queue (sym ∷ []),
      ),
    )
    Step-Below {s} queue r (finish i {f} free at) = (
      queue,
      finish_producer-Represents r,
      omega (arith, work-set s.producers i _ (record { file = f; state = finished }) at),
    )
    Step-Below {s} queue r (receive allocated {sym} at e) =
        let (rest, eq, holds) = received_queue queue r e in
        (
          rest,
          holds,
          omega (
            arith,
            ap length eq,
            ap pc_cost at,
            handled_less s.consumer (handle_sym avl allocated s.consumer sym (check sym)) at refl
                (handle_sym-Outcome avl allocated s.consumer sym (check sym)),
          ),
        )
    Step-Below queue r (receive_fails at e) = (queue, r, omega (arith, ap pc_cost at))
    Step-Below queue r (leave at e d) = (queue, r, omega (arith, ap pc_cost at))
    Step-Below {s} queue r (create {f} at) = (
      queue,
      r,
      omega (
        arith,
        ap pc_cost at,
        work-snoc s.producers (record { file = f; state = running (undefined_of f) }),
      ),
    )
    Step-Below queue r (create_fails at) = (queue, r, omega (arith, ap pc_cost at))
    Step-Below queue r (create_crashes at) = (queue, r, omega (arith, ap pc_cost at))
    Step-Below queue r (count_crashes i at last ended) = (queue, r, omega (arith, ap pc_cost at))
    Step-Below queue r (count at) =
        (queue, count_producer-Represents r, omega (arith, ap pc_cost at))
