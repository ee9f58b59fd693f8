-- ===== src/Resolve/EarlyExit.antt =====
-- `producer_done` in libscout.c, which no code takes back: an interleaving around the start of a
-- second producer.
use libscout.Prelude.{
  true, false, ◌≡◌, refl, ◌∙◌, inl, inr, Option, some, List, [], ◌∷◌, get_elem?, length, In, Name,
  name_eq, exit_success, arith,
}
use libscout.Buffer.{MpscBuffer, new_buffer}
use libscout.Buffer.Represents.{
  Represents, new_buffer-Represents, send_sym_to_buffer_lem, receive_sym_lem,
}
use libscout.Avl.{SymAvl}
use libscout.Resolve.{
  Producer, running, finished, exited, looping, creating, System, send, finish, receive, leave,
  create, count, Reach, here, next, Consumer, finish_producer, count_producer, handle_sym,
}
use libscout.Resolve.Outcome.{has}
use libscout.Resolve.Needs.{Needs, root, dep, finish_producer-Represents, count_producer-Represents}

module _ (avl : SymAvl) (undefined_of : Name → List Name) (check : Name → Option Name) where
  abbrev pub Reaches : Name → System avl → Type 0
  Reaches = Reach avl undefined_of check

  abbrev pub producer : Name → List Name → Producer
  producer f syms = record { file = f; state = running syms }

  -- A state in which the only symbol of the executable waits in the buffer, and its producer has
  -- signed off as the last one.
  record Waiting (exe sym : Name) (s : System avl) : Type 0 where
    reached : Reaches exe s
    at_loop : s.consumer.pc ≡ looping
    done : s.buffer.producer_done ≡ true
    holds : Represents s.buffer (sym ∷ [])
    no_library : s.consumer.dependency ≡ avl.init
    one : s.producers ≡ record { file = exe; state = finished } ∷ []

  last_signs_off :
      (b : MpscBuffer)
      → b.producer_count ≡ (count_producer new_buffer).producer_count
      → (finish_producer b).producer_done ≡ true
  unfolding count_producer new_buffer finish_producer
  last_signs_off b e = ground arith

  waiting : (exe sym : Name) → undefined_of exe ≡ sym ∷ [] → (s : System avl) × Waiting exe sym s
  waiting exe sym u =
      let first = count_producer-Represents new_buffer-Represents in
      elim (send_sym_to_buffer_lem sym first) [
        | inl full ↦ absurd (omega (arith, full.0))
        | inr ok ↦ (
          _,
          record {
            reached =
                next (next (next (next here (create refl)) (count refl)) (send 0 refl (rw u) ok.2))
                  (finish 0 refl refl);
            at_loop = refl;
            done = last_signs_off ok.0 ok.4;
            holds = finish_producer-Represents ok.3;
            no_library = refl;
            one = refl;
          },
        )
      ]

  count_keeps_done :
      (b : MpscBuffer) → b.producer_done ≡ true → (count_producer b).producer_done ≡ true
  unfolding count_producer
  count_keeps_done b e = e

  handle_sym-new :
      (c : Consumer avl) (sym lib : Name) (t : avl.Tree)
      → c.dependency ≡ avl.init
      → avl.insert avl.init lib ≡ some t
      → let c' = handle_sym avl true c sym (some lib) in
        (c'.pc ≡ creating lib) × (c'.dependency ≡ t)
  unfolding handle_sym
  handle_sym-new c sym lib t e f = ground (arith, avl.search-init lib)

  -- The end: the loop is left with success, and the producer of `lib` still has all to send.
  pub record Lost (exe lib : Name) (t : avl.Tree) (s : System avl) : Type 0 where
    pub reached : Reaches exe s
    pub left : s.consumer.pc ≡ exited exit_success
    pub unsent : get_elem? s.producers 1 ≡ some (producer lib (undefined_of lib))
    pub known : s.consumer.dependency ≡ t
    pub done : s.buffer.producer_done ≡ true
    pub holds : Represents s.buffer []
    pub first : get_elem? s.producers 0 ≡ some (record { file = exe; state = finished })
    pub both : length s.producers ≡ 2

  leave_early :
      {exe sym lib : Name} {t : avl.Tree} {s : System avl}
      → check sym ≡ some lib
      → avl.insert avl.init lib ≡ some t
      → Waiting exe sym s
      → (s' : System avl) × Lost exe lib t s'
  leave_early {exe} {sym} {lib} {t} {s} e f w = elim (receive_sym_lem (sym ∷ []) w.holds) [
    | inl empty ↦ absurd (cc empty.0)
    | inr ok ↦
        let b = ok.2 in
        let one = w.one in
        let same : ok.0 ≡ sym = ground (arith, ok.3) in
        let none_left : ok.1 ≡ [] = ground (arith, ok.3) in
        let found : check ok.0 ≡ some lib = rw same e in
        let c' = handle_sym avl true s.consumer ok.0 (check ok.0) in
        let known : (c'.pc ≡ creating lib) × (c'.dependency ≡ t) =
          rw found (handle_sym-new s.consumer ok.0 lib t w.no_library f) in
        let held : Represents (count_producer b) [] =
          count_producer-Represents (rw none_left at ok.5) in
        let done = ok.7 ∙ w.done in
        elim (receive_sym_lem [] held) [
          | inr more ↦ absurd (cc more.3)
          | inl empty ↦ (
            _,
            record {
              reached =
                  next
                    (next (next (next w.reached (receive true w.at_loop ok.4)) (create known.0))
                      (count refl))
                    (leave refl empty.1 (count_keeps_done b done));
              left = refl;
              unsent = rw one;
              known = known.1;
              done = count_keeps_done b done;
              holds = held;
              first = rw one;
              both = rw one;
            },
          )
        ]
  ]

  pub lose :
      {exe sym lib : Name} {t : avl.Tree}
      → undefined_of exe ≡ sym ∷ []
      → check sym ≡ some lib
      → avl.insert avl.init lib ≡ some t
      → (s : System avl) × Lost exe lib t s
  lose {exe} {sym} u e f = let (s, w) = waiting exe sym u in leave_early e f w

  only_dependency :
      {lib : Name} (k : Name) {t : avl.Tree}
      → avl.insert avl.init lib ≡ some t
      → name_eq lib k ≡ false
      → has avl t k ≡ false
  only_dependency {lib} k {t} f apart =
      rw (avl.search-insert avl.init lib t k (avl.search-init lib) f, apart, avl.search-init k) refl

  -- The resolver may report too little: where the executable's only undefined symbol is defined by
  -- a library, and that library needs another one, some interleaving leaves the loop with success
  -- and without the other library, though the executable needs it.
  pub early_exit_loses :
      {exe sym lib u lib2 : Name} {t : avl.Tree}
      → undefined_of exe ≡ sym ∷ []
      → check sym ≡ some lib
      → avl.insert avl.init lib ≡ some t
      → In u (undefined_of lib)
      → check u ≡ some lib2
      → name_eq lib lib2 ≡ false
      → (s : System avl) × Reaches exe s
        × (s.consumer.pc ≡ exited exit_success)
        × Needs undefined_of check exe lib2
        × (has avl s.consumer.dependency lib2 ≡ false)
  early_exit_loses {exe} {sym} one e f i e2 apart =
      let (s, l) = lose one e f in
      let first : In sym (undefined_of exe) = rw one (inl refl) in
      (s, l.reached, l.left, dep (dep root first e) i e2, rw l.known (only_dependency _ f apart))
