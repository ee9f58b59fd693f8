-- ===== src/Resolve/Sound.antt =====
-- The dependencies and unresolved symbols that the resolver of libscout.c collects, against what
-- the executable needs.
use libscout.Prelude.{
  ℕ, true, ◌≡◌, refl, sym as flip, subst, inl, inr, Option, none, some, List, [], ◌∷◌, ◌++◌,
  get_elem?, set, In, append-In, Name, name_eq, name_eq→eq, Bool-cases, exit_success, enomem, arith,
}
use libscout.Buffer.{MpscBuffer, send_sym_to_buffer}
use libscout.Buffer.Represents.{Represents, new_buffer-Represents, sent_queue, received_queue}
use libscout.Avl.{SymAvl}
use libscout.Resolve.{
  Producer, running, finished, Pc, exited, holding, crashed, looping, creating, Consumer, System,
  start, Step, send, finish, receive, receive_fails, leave, create, create_fails, create_crashes,
  count_crashes, count, Reach, here, next,
}
use libscout.Resolve.Outcome.{
  has, Outcome, new_lib, known_lib, new_undefined, known_undefined, gave_up, handle_sym-Outcome,
}
use libscout.Resolve.Needs.{
  finish_producer-Represents, count_producer-Represents, remaining, Needs, root, dep, Wanted,
  In-set, In-get_elem?,
}

module _ (avl : SymAvl) (undefined_of : Name → List Name) (check : Name → Option Name)
    (exe : Name) where
  -- The file that the consumer is about to start a producer for.
  abbrev PcNeeds : Pc → Type 0
  PcNeeds (creating f) = Needs undefined_of check exe f
  PcNeeds _ = Unit

  record ConsumerSound (c : Consumer avl) : Type 0 where
    next_file : PcNeeds c.pc
    dependencies : (lib : Name) → has avl c.dependency lib ≡ true → Needs undefined_of check exe lib
    unresolved :
        (sym : Name)
        → has avl c.undefined_sym sym ≡ true
        → Wanted undefined_of check exe sym × (check sym ≡ none)

  abbrev Sends : Producer → Type 0
  Sends p =
      Needs undefined_of check exe p.file
      × ((sym : Name) → In sym (remaining p) → In sym (undefined_of p.file))

  record Sound (s : System avl) : Type 0 where
    queue : List Name
    holds : Represents s.buffer queue
    queued : (sym : Name) → In sym queue → Wanted undefined_of check exe sym
    senders : (p : Producer) → In p s.producers → Sends p
    consumer : ConsumerSound s.consumer

  Outcome-ConsumerSound :
      {c c' : Consumer avl} {sym : Name} {found : Option Name}
      → check sym ≡ found
      → Wanted undefined_of check exe sym
      → Outcome avl c sym found c'
      → c.pc ≡ looping
      → ConsumerSound c
      → ConsumerSound c'
  Outcome-ConsumerSound {c} {c'} {sym} {found} e (f, n, i) (new_lib {lib} new law) at h = record {
    next_file = dep n i e;
    dependencies = λ k q. elim (Bool-cases (name_eq lib k)) [
      | inl same ↦ let same' = name_eq→eq lib k same in dep n i (ground arith)
      | inr apart ↦ h.dependencies k (ground (arith, law k))
    ];
    unresolved = h.unresolved;
  }
  Outcome-ConsumerSound e w (known_lib old) at h = h
  Outcome-ConsumerSound {c} {c'} {sym} e w (new_undefined law) at h = record {
    next_file = h.next_file;
    dependencies = h.dependencies;
    unresolved = λ k q. elim (Bool-cases (name_eq sym k)) [
      | inl same ↦
          let same' = name_eq→eq sym k same in
          (subst (Wanted undefined_of check exe) same' w, ground arith)
      | inr apart ↦ h.unresolved k (ground (arith, law k))
    ];
  }
  Outcome-ConsumerSound e w (known_undefined old) at h = h
  Outcome-ConsumerSound e w (gave_up bad) at h = record {
    next_file = tt;
    dependencies = h.dependencies;
    unresolved = h.unresolved;
  }

  set-Sends :
      (ps : List Producer) (i : ℕ) (p p' : Producer)
      → get_elem? ps i ≡ some p
      → ((q : Producer) → In q ps → Sends q)
      → (Sends p → Sends p')
      → (q : Producer) → In q (set ps i p')
      → Sends q
  set-Sends ps i p p' at h keep q m = elim (In-set ps i q p' m) [
    | inl old ↦ h q old
    | inr new ↦ subst Sends (flip new) (keep (h p (In-get_elem? ps i at)))
  ]

  start-Sound : Sound (start avl exe)
  start-Sound = record {
    queue = [];
    holds = new_buffer-Represents;
    queued = λ sym h. elim h [ ];
    senders = λ p h. elim h [ ];
    consumer = record {
      next_file = root;
      dependencies = λ lib h. ground (arith, avl.search-init lib);
      unresolved = λ sym h. ground (arith, avl.search-init sym);
    };
  }

  send-Sound :
      {s : System avl} (i : ℕ) {f sym : Name} {rest : List Name} {b : MpscBuffer}
      → get_elem? s.producers i ≡ some (record { file = f; state = running (sym ∷ rest) })
      → send_sym_to_buffer s.buffer sym ≡ some b
      → Sound s
      → Sound (record s {
        buffer = b;
        producers = set s.producers i (record { file = f; state = running rest });
      })
  send-Sound {s} i {f} {sym} {rest} {b} at e h = record {
    queue = h.queue ++ sym ∷ [];
    holds = sent_queue sym h.holds e;
    queued = λ k m. elim (append-In k h.queue (sym ∷ []) m) [
      | inl old ↦ h.queued k old
      | inr (inl new) ↦
          let (n, u) = h.senders _ (In-get_elem? s.producers i at) in
          (f, n, subst (λ x. In x (undefined_of f)) (flip new) (u sym (inl refl)))
      | inr (inr none_left) ↦ elim none_left [ ]
    ];
    senders =
        set-Sends s.producers i _ (record { file = f; state = running rest }) at h.senders
          (λ k. (k.0, λ x m. k.1 x (inr m)));
    consumer = h.consumer;
  }

  stop-Sound :
      {s : System avl} (pc : Pc)
      → PcNeeds pc
      → Sound s
      → Sound (record s { consumer = record s.consumer { pc = pc } })
  stop-Sound pc n h = record {
    queue = h.queue;
    holds = h.holds;
    queued = h.queued;
    senders = h.senders;
    consumer = record {
      next_file = n;
      dependencies = h.consumer.dependencies;
      unresolved = h.consumer.unresolved;
    };
  }

  Step-Sound : {s t : System avl} → Step avl undefined_of check s t → Sound s → Sound t
  Step-Sound (send i free at e) h = send-Sound i at e h
  Step-Sound {s} (finish i {f} free at) h = record {
    queue = h.queue;
    holds = finish_producer-Represents h.holds;
    queued = h.queued;
    senders =
        set-Sends s.producers i _ (record { file = f; state = finished }) at h.senders
          (λ k. (k.0, λ x m. elim m [ ]));
    consumer = h.consumer;
  }
  Step-Sound {s} (receive allocated {sym} at e) h =
      let (rest, eq, holds) = received_queue h.queue h.holds e in
      record {
        queue = rest;
        holds = holds;
        queued = λ k m. h.queued k (subst (In k) (flip eq) (inr m));
        senders = h.senders;
        consumer =
            Outcome-ConsumerSound refl (h.queued sym (subst (In sym) (flip eq) (inl refl)))
              (handle_sym-Outcome avl allocated s.consumer sym (check sym)) at h.consumer;
      }
  Step-Sound (receive_fails at e) h = stop-Sound (holding enomem) tt h
  Step-Sound (leave at e d) h = stop-Sound (exited exit_success) tt h
  Step-Sound {s} (create {f} at) h = record {
    queue = h.queue;
    holds = h.holds;
    queued = h.queued;
    senders = λ p m. elim (append-In p s.producers _ m) [
      | inl old ↦ h.senders p old
      | inr (inl new) ↦ subst Sends (flip new) (rw at at h.consumer.next_file, λ x i. i)
      | inr (inr none_left) ↦ elim none_left [ ]
    ];
    consumer = record {
      next_file = tt;
      dependencies = h.consumer.dependencies;
      unresolved = h.consumer.unresolved;
    };
  }
  Step-Sound (create_fails at) h = stop-Sound (exited enomem) tt h
  Step-Sound (create_crashes at) h = stop-Sound (crashed none) tt h
  Step-Sound (count_crashes i {f} at last ended) h = stop-Sound (crashed (some f)) tt h
  Step-Sound (count at) h = record {
    queue = h.queue;
    holds = count_producer-Represents h.holds;
    queued = h.queued;
    senders = h.senders;
    consumer = record {
      next_file = tt;
      dependencies = h.consumer.dependencies;
      unresolved = h.consumer.unresolved;
    };
  }

  Reach-Sound : {s : System avl} → Reach avl undefined_of check exe s → Sound s
  Reach-Sound here = start-Sound
  Reach-Sound (next r st) = Step-Sound st (Reach-Sound r)

  -- Whatever the interleaving, and whatever fails: each library among the dependencies is needed by
  -- the executable, and each name among the unresolved symbols is left undefined by a needed file
  -- and defined by no cached library.
  pub report_sound :
      {s : System avl}
      → Reach avl undefined_of check exe s
      → ((lib : Name) → has avl s.consumer.dependency lib ≡ true → Needs undefined_of check exe lib)
        × ((sym : Name)
            → has avl s.consumer.undefined_sym sym ≡ true
            → Wanted undefined_of check exe sym × (check sym ≡ none))
  report_sound r = let c = (Reach-Sound r).consumer in (c.dependencies, c.unresolved)

  -- In every reachable state the buffer is a queue.
  pub reach_queue :
      {s : System avl}
      → Reach avl undefined_of check exe s
      → (queue : List Name) × Represents s.buffer queue
  reach_queue r = let h = Reach-Sound r in (h.queue, h.holds)
