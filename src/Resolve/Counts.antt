-- ===== src/Resolve/Counts.antt =====
-- The producers' count, the termination flag, the buffer and the thread array of the resolver, in
-- every interleaving.
use libscout.Prelude.{
  ℕ, suc, ◌+◌, ◌<◌, ◌≤◌, false, ◌≡◌, ◌⊎◌, inl, inr, refl, Option, none, some, List, [], ◌∷◌, ◌++◌,
  length, get_elem?, set, length-set, length-append, Name, Bool, exit_success, enomem, arith,
}
use libscout.Buffer.{MpscBuffer, new_buffer, send_sym_to_buffer, receive_sym, got}
use libscout.Avl.{SymAvl}
use libscout.Resolve.{
  dec, finish_producer, count_producer, Producer, running, finished, Pc, looping, creating,
  counting, exited, holding, crashed, Consumer, handle_sym, System, start, Step, send, finish,
  receive, receive_fails, leave, create, create_fails, create_crashes, count_crashes, count, Reach,
  here, next,
}
use libscout.Resolve.Running.{
  running_count, running_count-set, running_count-snoc, pending, reserved, is_started, CountedBy,
  send-keeps, receive-keeps, CountedBy-dec, finish-alive,
}

module _ (avl : SymAvl) where
  pub record Counts (s : System avl) : Type 0 where
    pub counted :
        CountedBy (pending s.consumer.pc) s.buffer.producer_count (running_count s.producers)
    pub alive :
        s.buffer.producer_done ≡ false → (0 < running_count s.producers) ⊎ (length s.producers ≡ 0)
    pub started : is_started s.consumer.pc ≤ length s.producers
    pub numbered : s.consumer.number_of_producers + pending s.consumer.pc ≡ length s.producers
    pub fits :
        s.consumer.number_of_producers + reserved s.consumer.pc ≤ s.consumer.producer_arr_size

  start-Counts : (exe : Name) → Counts (start avl exe)
  unfolding running_count new_buffer
  start-Counts exe = record {
    counted = refl;
    alive = λ _. inr refl;
    started = omega arith;
    numbered = omega arith;
    fits = omega arith;
  }

  -- The consumer's part when it handles a symbol.
  record Handled (c c' : Consumer avl) : Type 0 where
    same : c'.number_of_producers ≡ c.number_of_producers
    none_pending : pending c'.pc ≡ 0
    was_started : is_started c'.pc ≤ 1
    room : c'.number_of_producers + reserved c'.pc ≤ c'.producer_arr_size

  handle_sym-Handled :
      (allocated : Bool) (c : Consumer avl) (sym : Name) (found : Option Name)
      → c.pc ≡ looping
      → c.number_of_producers ≤ c.producer_arr_size
      → Handled c (handle_sym avl allocated c sym found)
  unfolding handle_sym
  handle_sym-Handled allocated c sym none e h = ground arith
  handle_sym-Handled allocated c sym (some lib) e h = ground arith

  finish-Counts :
      {s : System avl} (i : ℕ) {f : Name}
      → get_elem? s.producers i ≡ some (record { file = f; state = running [] })
      → Counts s
      → Counts (record s {
        buffer = finish_producer s.buffer;
        producers = set s.producers i (record { file = f; state = finished });
      })
  unfolding finish_producer
  finish-Counts {s} i {f} at c = record {
    counted = kept;
    alive = λ e. inl (finish-alive (pending s.consumer.pc) s.buffer _ kept e);
    started = rw long c.started;
    numbered = rw long c.numbered;
    fits = c.fits;
  }
    where
      before : Producer
      before = record { file = f; state = running [] }

      after : Producer
      after = record { file = f; state = finished }

      long : length (set s.producers i after) ≡ length s.producers
      long = length-set s.producers i after

      one_less : running_count s.producers ≡ suc (running_count (set s.producers i after))
      one_less = omega (arith, running_count-set s.producers i before after at)

      kept :
          CountedBy
            (pending s.consumer.pc)
            (dec s.buffer.producer_count)
            (running_count (set s.producers i after))
      kept =
          CountedBy-dec (pending s.consumer.pc) s.buffer.producer_count _ (rw one_less at c.counted)

  send-Counts :
      {s : System avl} (i : ℕ) {f sym : Name} {rest : List Name} {b : MpscBuffer}
      → get_elem? s.producers i ≡ some (record { file = f; state = running (sym ∷ rest) })
      → send_sym_to_buffer s.buffer sym ≡ some b
      → Counts s
      → Counts (record s {
        buffer = b;
        producers = set s.producers i (record { file = f; state = running rest });
      })
  send-Counts {s} i {f} {sym} {rest} {b} at e c =
      let before : Producer = record { file = f; state = running (sym ∷ rest) } in
      let after : Producer = record { file = f; state = running rest } in
      let same : running_count (set s.producers i after) ≡ running_count s.producers =
        omega (arith, running_count-set s.producers i before after at) in
      let long : length (set s.producers i after) ≡ length s.producers =
        length-set s.producers i after in
      let (ec, ed) = send-keeps s.buffer sym b e in
      record {
        counted = rw (ec, same) c.counted;
        alive = rw (ed, same, long) c.alive;
        started = rw long c.started;
        numbered = rw long c.numbered;
        fits = c.fits;
      }

  receive-Counts :
      {s : System avl} {sym : Name} {b : MpscBuffer} {c' : Consumer avl}
      → s.consumer.pc ≡ looping
      → receive_sym s.buffer ≡ got sym b
      → Handled s.consumer c'
      → Counts s
      → Counts (record s { buffer = b; consumer = c' })
  receive-Counts {s} {sym} {b} {c'} at e h c =
      let (ec, ed) = receive-keeps s.buffer sym b e in
      let none_before : pending s.consumer.pc ≡ 0 = rw at in
      let begun : is_started s.consumer.pc ≡ 1 = rw at in
      record {
        counted = rw (h.none_pending, ec) (rw none_before at c.counted);
        alive = rw ed c.alive;
        started = omega (arith, h.was_started, begun, c.started);
        numbered = omega (arith, h.same, h.none_pending, none_before, c.numbered);
        fits = h.room;
      }

  create-Counts :
      {s : System avl} {f : Name} (syms : List Name)
      → s.consumer.pc ≡ creating f
      → Counts s
      → Counts (record s {
        consumer = record s.consumer { pc = counting f };
        producers = s.producers ++ record { file = f; state = running syms } ∷ [];
      })
  create-Counts {s} {f} syms at c =
      let more = running_count-snoc s.producers (record { file = f; state = running syms }) in
      let long = length-append s.producers (record { file = f; state = running syms } ∷ []) in
      let none_before : pending s.consumer.pc ≡ 0 = rw at in
      let one_reserved : reserved s.consumer.pc ≡ 1 = rw at in
      record {
        counted = let e = (rw none_before at c.counted) in rw (more, e) (ground arith);
        alive = λ _. inl (omega (arith, more));
        started = omega (arith, long);
        numbered = omega (arith, long, none_before, c.numbered);
        fits = omega (arith, one_reserved, c.fits);
      }

  count-Counts :
      {s : System avl} {f : Name}
      → s.consumer.pc ≡ counting f
      → Counts s
      → Counts (record s {
        buffer = count_producer s.buffer;
        consumer = record s.consumer {
          pc = looping;
          number_of_producers = s.consumer.number_of_producers + 1;
        };
      })
  unfolding count_producer
  count-Counts {s} {f} at c =
      let one_pending : pending s.consumer.pc ≡ 1 = rw at in
      let one_reserved : reserved s.consumer.pc ≡ 1 = rw at in
      let begun : is_started s.consumer.pc ≡ 1 = rw at in
      record {
        counted = (rw one_pending at c.counted);
        alive = c.alive;
        started = omega (arith, begun, c.started);
        numbered = omega (arith, one_pending, c.numbered);
        fits = omega (arith, one_reserved, c.fits);
      }

  stop-Counts :
      {s : System avl} (pc : Pc)
      → pending pc ≡ pending s.consumer.pc
      → reserved pc ≡ 0
      → is_started pc ≡ 0
      → Counts s
      → Counts (record s { consumer = record s.consumer { pc = pc } })
  stop-Counts {s} pc e r st c = record {
    counted = rw e c.counted;
    alive = c.alive;
    started = omega (arith, st);
    numbered = omega (arith, e, c.numbered);
    fits = omega (arith, r, c.fits);
  }

  module _ (undefined_of : Name → List Name) (check : Name → Option Name) where
    Step-Counts : {s t : System avl} → Step avl undefined_of check s t → Counts s → Counts t
    Step-Counts (send i free at e) c = send-Counts i at e c
    Step-Counts (finish i free at) c = finish-Counts i at c
    Step-Counts {s} (receive allocated {sym} at e) c =
        receive-Counts at e
          (handle_sym-Handled allocated s.consumer sym (check sym) at (omega (arith, c.fits))) c
    Step-Counts (receive_fails at e) c = stop-Counts (holding enomem) (rw at) refl refl c
    Step-Counts (leave at e d) c = stop-Counts (exited exit_success) (rw at) refl refl c
    Step-Counts (create {f} at) c = create-Counts (undefined_of f) at c
    Step-Counts (create_fails at) c = stop-Counts (exited enomem) (rw at) refl refl c
    Step-Counts (create_crashes at) c = stop-Counts (crashed none) (rw at) refl refl c
    Step-Counts (count_crashes i {f} at last ended) c =
        stop-Counts (crashed (some f)) (rw at) refl refl c
    Step-Counts (count at) c = count-Counts at c

    -- In every interleaving, from the start on: `producer_count` is the number of producers that
    -- have not signed off, less the one that is created and not counted yet; while
    -- `producer_done` is unset, a producer runs or none is created yet; and the slot of
    -- `producer_thread_arr` that a new producer is given lies inside the array.
    pub Reach-Counts : {exe : Name} {s : System avl} → Reach avl undefined_of check exe s → Counts s
    Reach-Counts {exe} here = start-Counts exe
    Reach-Counts (next r st) = Step-Counts st (Reach-Counts r)
