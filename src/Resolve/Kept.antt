-- ===== src/Resolve/Kept.antt =====
-- The undefined symbols of the files that have a producer, step by step (libscout.c).
use libscout.Prelude.{
  ℕ, ◌+◌, true, ◌≡◌, refl, sym as flip, ◌∙◌, subst, ◌⊎◌, inl, inr, Option, some, List, [], ◌∷◌,
  ◌++◌, get_elem?, set, In, In-append, append-In, Name, exit_success, arith,
}
use libscout.Buffer.{MpscBuffer, send_sym_to_buffer, receive_sym, got}
use libscout.Buffer.Represents.{Represents, new_buffer-Represents, sent_queue, received_queue}
use libscout.Avl.{SymAvl}
use libscout.Resolve.{
  Producer, running, finished, exited, looping, creating, counting, Consumer, System, start,
  finish_producer, count_producer,
}
use libscout.Resolve.Outcome.{has}
use libscout.Resolve.Needs.{
  remaining, files, Settled, In-set, In-get_elem?, files-set, files-snoc, creating-injective,
  finish_producer-Represents, count_producer-Represents,
}
use libscout.Resolve.Progress.{Progress}

module _ (avl : SymAvl) (undefined_of : Name → List Name) (check : Name → Option Name)
    (exe : Name) where
  abbrev Kept : List Name → Consumer avl → Producer → Type 0
  Kept q c p =
      (sym : Name)
      → In sym (undefined_of p.file)
      → In sym (remaining p) ⊎ (In sym q ⊎ Settled avl check c sym)

  pub record Complete (s : System avl) : Type 0 where
    pub queue : List Name
    pub holds : Represents s.buffer queue
    pub kept : (p : Producer) → In p s.producers → Kept queue s.consumer p
    pub spawned :
        (lib : Name)
        → has avl s.consumer.dependency lib ≡ true
        → In lib (files s.producers) ⊎ (s.consumer.pc ≡ creating lib)
    pub exe_spawned : In exe (files s.producers) ⊎ (s.consumer.pc ≡ creating exe)

  set-Kept :
      (q q' : List Name) (c : Consumer avl) (ps : List Producer) (i : ℕ) (p p' : Producer)
      → get_elem? ps i ≡ some p
      → ((r : Producer) → In r ps → Kept q c r)
      → ((sym : Name) → In sym q → In sym q')
      → (Kept q c p → Kept q' c p')
      → (r : Producer) → In r (set ps i p')
      → Kept q' c r
  set-Kept q q' c ps i p p' at h more keep r m = elim (In-set ps i r p' m) [
    | inl old ↦ λ sym u. elim (h r old sym u) [
      | inl left ↦ inl left
      | inr (inl queued) ↦ inr (inl (more sym queued))
      | inr (inr done) ↦ inr (inr done)
    ]
    | inr new ↦ subst (Kept q' c) (flip new) (keep (h p (In-get_elem? ps i at)))
  ]

  pub start-Complete : Complete (start avl exe)
  start-Complete = record {
    queue = [];
    holds = new_buffer-Represents;
    kept = λ p h. elim h [ ];
    spawned = λ lib h. ground (arith, avl.search-init lib);
    exe_spawned = inr refl;
  }

  pub send-Complete :
      {s : System avl} (i : ℕ) {f sym : Name} {rest : List Name} {b : MpscBuffer}
      → get_elem? s.producers i ≡ some (record { file = f; state = running (sym ∷ rest) })
      → send_sym_to_buffer s.buffer sym ≡ some b
      → Complete s
      → Complete (record s {
        buffer = b;
        producers = set s.producers i (record { file = f; state = running rest });
      })
  send-Complete {s} i {f} {sym} {rest} {b} at e h = record {
    queue = h.queue ++ sym ∷ [];
    holds = sent_queue sym h.holds e;
    kept =
        set-Kept h.queue _ s.consumer s.producers i before after at h.kept
          (λ k m. In-append k h.queue (sym ∷ []) (inl m))
          λ k x u. elim (k x u) [
            | inl (inl first) ↦ inr (inl (In-append x h.queue (sym ∷ []) (inr (inl first))))
            | inl (inr later) ↦ inl later
            | inr (inl queued) ↦ inr (inl (In-append x h.queue (sym ∷ []) (inl queued)))
            | inr (inr done) ↦ inr (inr done)
          ];
    spawned = rw same h.spawned;
    exe_spawned = rw same h.exe_spawned;
  }
    where
      before : Producer
      before = record { file = f; state = running (sym ∷ rest) }

      after : Producer
      after = record { file = f; state = running rest }

      same : files (set s.producers i after) ≡ files s.producers
      same = files-set s.producers i before after at refl

  pub finish-Complete :
      {s : System avl} (i : ℕ) {f : Name}
      → get_elem? s.producers i ≡ some (record { file = f; state = running [] })
      → Complete s
      → Complete (record s {
        buffer = finish_producer s.buffer;
        producers = set s.producers i (record { file = f; state = finished });
      })
  finish-Complete {s} i {f} at h = record {
    queue = h.queue;
    holds = finish_producer-Represents h.holds;
    kept =
        set-Kept h.queue h.queue s.consumer s.producers i before after at h.kept (λ k m. m)
          (λ k. k);
    spawned = rw same h.spawned;
    exe_spawned = rw same h.exe_spawned;
  }
    where
      before : Producer
      before = record { file = f; state = running [] }

      after : Producer
      after = record { file = f; state = finished }

      same : files (set s.producers i after) ≡ files s.producers
      same = files-set s.producers i before after at refl

  pub receive-Complete :
      {s : System avl} {sym : Name} {b : MpscBuffer} {c' : Consumer avl}
      → s.consumer.pc ≡ looping
      → receive_sym s.buffer ≡ got sym b
      → Progress avl check s.consumer sym c'
      → Complete s
      → Complete (record s { buffer = b; consumer = c' })
  receive-Complete {s} {sym} {b} {c'} at e g h =
      let (rest, eq, holds) = received_queue h.queue h.holds e in
      record {
        queue = rest;
        holds = holds;
        kept = λ p m x u. elim (h.kept p m x u) [
          | inl left ↦ inl left
          | inr (inl queued) ↦ elim (subst (In x) eq queued) [
            | inl first ↦ inr (inr (subst (Settled avl check c') (flip first) g.now))
            | inr later ↦ inr (inl later)
          ]
          | inr (inr done) ↦ inr (inr (g.still x done))
        ];
        spawned = λ lib d. elim (g.known lib d) [
          | inl old ↦ elim (h.spawned lib old) [ inl m ↦ inl m | inr no_lib ↦ absurd (cc at) ]
          | inr new ↦ inr new
        ];
        exe_spawned = elim h.exe_spawned [ inl m ↦ inl m | inr no_exe ↦ absurd (cc at) ];
      }

  pub create-Complete :
      {s : System avl} {f : Name}
      → s.consumer.pc ≡ creating f
      → Complete s
      → Complete (record s {
        consumer = record s.consumer { pc = counting f };
        producers = s.producers ++ record { file = f; state = running (undefined_of f) } ∷ [];
      })
  create-Complete {s} {f} at h = record {
    queue = h.queue;
    holds = h.holds;
    kept = λ p m. elim (append-In p s.producers (new ∷ []) m) [
      | inl old ↦ h.kept p old
      | inr (inl e) ↦ λ x u.
          inl
            (subst (λ r. In x (remaining r)) (flip e) (subst (λ r. In x (undefined_of r.file)) e u))
      | inr (inr none_left) ↦ elim none_left [ ]
    ];
    spawned = λ lib d. rw long (inside lib (h.spawned lib d));
    exe_spawned = rw long (inside exe h.exe_spawned);
  }
    where
      new : Producer
      new = record { file = f; state = running (undefined_of f) }

      long : files (s.producers ++ new ∷ []) ≡ files s.producers ++ f ∷ []
      long = files-snoc s.producers new

      inside :
          (lib : Name)
          → In lib (files s.producers) ⊎ (s.consumer.pc ≡ creating lib)
          → In lib (files s.producers ++ f ∷ []) ⊎ (counting f ≡ creating lib)
      inside lib (inl m) = inl (In-append lib (files s.producers) (f ∷ []) (inl m))
      inside lib (inr e) = inl (
          In-append lib (files s.producers) (f ∷ []) (inr (inl (creating-injective (flip e ∙ at)))))

  pub leave-Complete :
      {s : System avl}
      → s.consumer.pc ≡ looping
      → Complete s
      → Complete (record s { consumer = record s.consumer { pc = exited exit_success } })
  leave-Complete {s} at h = record {
    queue = h.queue;
    holds = h.holds;
    kept = h.kept;
    spawned = λ lib d. elim (h.spawned lib d) [ inl m ↦ inl m | inr no_lib ↦ absurd (cc at) ];
    exe_spawned = elim h.exe_spawned [ inl m ↦ inl m | inr no_exe ↦ absurd (cc at) ];
  }

  pub count-Complete :
      {s : System avl} {f : Name}
      → s.consumer.pc ≡ counting f
      → Complete s
      → Complete (record s {
        buffer = count_producer s.buffer;
        consumer = record s.consumer {
          pc = looping;
          number_of_producers = s.consumer.number_of_producers + 1;
        };
      })
  count-Complete {s} at h = record {
    queue = h.queue;
    holds = count_producer-Represents h.holds;
    kept = h.kept;
    spawned = λ lib d. elim (h.spawned lib d) [ inl m ↦ inl m | inr no_lib ↦ absurd (cc at) ];
    exe_spawned = elim h.exe_spawned [ inl m ↦ inl m | inr no_exe ↦ absurd (cc at) ];
  }
