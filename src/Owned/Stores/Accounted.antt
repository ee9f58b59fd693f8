-- ===== src/Owned/Stores/Accounted.antt =====
-- The account of blocks for store_sym (sym_cache.c), and how it goes on to that of its caller.
use libscout.Prelude.{
  ℕ, suc, ◌≤◌, ◌<◌, ◌≡◌, refl, ap, true, false, ◌||◌, Option, none, some, List, [], ◌∷◌, length,
  Bool-cases, inl, inr, ℤ, exit_success, enomem, efault, arith,
}
use libscout.Cache.{put, Allocs, rc_is_success}
use libscout.Owned.{Blocks, free, free_all}
use libscout.Owned.Frees.{among, IsFresh}
use libscout.Owned.Stores.{Answers, Kept, keep_sym}

-- The live blocks are those from before, those that a tree leads to, and those that are lost.
pub record Accounted (b : Blocks) (rc : ℤ) (kept : List (Option ℕ)) (b' : Blocks) : Type 0 where
  pub lost : List (Option ℕ)
  pub live : (q : ℕ) → b'.live q ≡ (b.live q || (among kept q || among lost q))
  pub given_out : (q : ℕ) → (among kept q || among lost q) ≡ true → b.next ≤ q
  pub fresh : IsFresh b'
  pub nothing_lost : rc ≡ exit_success → lost ≡ []
  pub one_lost : rc ≡ efault → length lost ≡ 1
  pub at_most_one : length lost ≤ 1

-- A fault is the store through the NULL copy of the name.
abbrev pub After : Blocks → Allocs → Kept → Type 0
After b a none = a.sym_name ≡ false
After b a (some (rc, kept, b')) = Accounted b rc kept b'

pub free-live :
    (p : ℕ) (b : Blocks)
    → b.live p ≡ true
    → free (some p) b ≡ some (record b { live = put b.live p false })
unfolding free
free-live p b l = rw l refl

pub unchanged : (b : Blocks) (a : Allocs) → IsFresh b → Accounted b enomem [] b
unchanged b a fresh = record {
  lost = [];
  live = λ q. ground arith;
  given_out = λ q e. ground arith;
  fresh = fresh;
  nothing_lost = λ e. refl;
  one_lost = λ e. ground arith;
  at_most_one = omega arith;
}

-- The blocks after two allocations.
unfoldable pub two_more : Blocks → Blocks
two_more b = record {
  live = put (put b.live b.next true) (suc b.next) true;
  next = suc (suc b.next);
}

-- The copy of a name, and the node for it.
sym_kept :
    (b : Blocks)
    → IsFresh b
    → Accounted b exit_success (some (suc b.next) ∷ some b.next ∷ []) (two_more b)
unfolding two_more
sym_kept b fresh = record {
  lost = [];
  live = λ q. ground arith;
  given_out = λ q e. ground arith;
  fresh = λ q le. ground (arith, fresh q);
  nothing_lost = λ e. refl;
  one_lost = λ e. ground arith;
  at_most_one = omega arith;
}

-- The node has been freed, but not the copy of the name.
pub name_lost :
    (b : Blocks)
    → IsFresh b
    → Accounted b efault []
        (record { live = put (two_more b).live b.next false; next = suc (suc b.next) })
unfolding two_more
name_lost b fresh = record {
  lost = some (suc b.next) ∷ [];
  live = λ q. ground (arith, fresh q);
  given_out = λ q e. ground arith;
  fresh = λ q le. ground (arith, fresh q);
  nothing_lost = λ e. ground arith;
  one_lost = λ e. refl;
  at_most_one = omega arith;
}

both_freed :
    (b : Blocks)
    → IsFresh b
    → Accounted b exit_success [] (record {
      live = put (put (two_more b).live (suc b.next) false) b.next false;
      next = suc (suc b.next);
    })
unfolding two_more
both_freed b fresh = record {
  lost = [];
  live = λ q. ground (arith, fresh q);
  given_out = λ q e. ground arith;
  fresh = λ q le. ground (arith, fresh q);
  nothing_lost = λ e. refl;
  one_lost = λ e. ground arith;
  at_most_one = omega arith;
}

pub keep_sym-After :
    (a : Allocs) (t : Answers) (b : Blocks) → IsFresh b → After b a (keep_sym a t b)
unfolding keep_sym free_all two_more
keep_sym-After a t b fresh =
    let node = free-live b.next (two_more b) (ground arith) in
    let copy = free-live (suc b.next) (two_more b) (ground arith) in
    let then_node =
      free-live b.next (record (two_more b) { live = put (two_more b).live (suc b.next) false })
        (ground arith) in
    elim (Bool-cases a.sym_node) [
      | inr off ↦ rw (off, keep_sym) (unchanged b a fresh)
      | inl sym ↦ elim (Bool-cases a.sym_name) [
        | inr off ↦ rw (sym, off, keep_sym) refl
        | inl name ↦ elim (Bool-cases t.sym_found) [
          | inl found ↦ rw (sym, name, found, keep_sym, copy, then_node) (both_freed b fresh)
          | inr absent ↦ elim (Bool-cases t.sym_inserted) [
            | inl ok ↦ rw (sym, name, absent, ok, keep_sym) (sym_kept b fresh)
            | inr off ↦ rw (sym, name, absent, off, keep_sym, node) (name_lost b fresh)
          ]
        ]
      ]
    ]

unfoldable pub one_more : Blocks → Blocks
one_more b = record { live = put b.live b.next true; next = suc b.next }

-- The node of the library is lost, since it is in no tree and has not been freed.
pub lib_lost :
    (b b' : Blocks) (rc : ℤ)
    → IsFresh b
    → ((q : ℕ) → b'.live q ≡ put b.live b.next true q)
    → b.next < b'.next
    → rc_is_success rc ≡ false
    → Accounted b rc [] b'
lib_lost b b' rc fresh same more failed = record {
  lost = some b.next ∷ [];
  live = λ q. ground (arith, fresh q, same q);
  given_out = λ q e. ground arith;
  fresh = λ q le. ground (arith, fresh q, same q);
  nothing_lost = λ e. absurd (cc (ap rc_is_success e, failed));
  one_lost = λ e. refl;
  at_most_one = omega arith;
}

pub lib_kept :
    (b : Blocks) (a : Allocs) (rc : ℤ) (kept : List (Option ℕ)) (b' : Blocks)
    → IsFresh b
    → Accounted (two_more b) rc kept b'
    → Accounted b rc (some b.next ∷ some (suc b.next) ∷ kept) b'
unfolding two_more
lib_kept b a rc kept b' fresh h = record {
  lost = h.lost;
  live = λ q. ground (arith, h.live q);
  given_out = λ q e. ground (arith, h.given_out q);
  fresh = h.fresh;
  nothing_lost = h.nothing_lost;
  one_lost = h.one_lost;
  at_most_one = h.at_most_one;
}

pub lib_freed :
    (b : Blocks) (rc : ℤ) (kept : List (Option ℕ)) (b' : Blocks)
    → IsFresh b
    → Accounted (one_more b) rc kept b'
    → Accounted b rc kept (record b' { live = put b'.live b.next false })
unfolding one_more
lib_freed b rc kept b' fresh h = record {
  lost = h.lost;
  live = λ q. ground (arith, h.live q, h.given_out q, fresh q);
  given_out = λ q e. ground (arith, h.given_out q);
  fresh = λ q le. ground (arith, h.fresh q);
  nothing_lost = h.nothing_lost;
  one_lost = h.one_lost;
  at_most_one = h.at_most_one;
}
