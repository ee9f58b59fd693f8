-- ===== src/Owned/Stores/Whole.antt =====
-- What becomes of the blocks in store_sym_in_tree (sym_cache.c) as a whole.
use libscout.Prelude.{
  suc, ◌≡◌, refl, Bool, true, false, none, some, [], ◌∷◌, ◌>>=◌, Bool-cases, Option-cases, inl, inr,
  ◌⊎◌, ℤ, exit_success, enomem, arith,
}
use libscout.Cache.{put, Allocs, rc_is_success}
use libscout.Owned.{Blocks, new, free}
use libscout.Owned.Frees.{IsFresh}
use libscout.Owned.Stores.{
  Answers, Kept, keep_sym, with_tree, keep_tree, with_lib_node, insert_lib, keep_new_lib,
  keep_sym_in_tree,
}
use libscout.Owned.Stores.Accounted.{
  After, free-live, unchanged, two_more, one_more, name_lost, keep_sym-After, lib_lost, lib_kept,
  lib_freed,
}

-- The library is in its tree, and the symbol is stored.
new_lib-After :
    (a : Allocs) (b : Blocks) (r : Kept)
    → IsFresh b
    → After (two_more b) a r
    → After b a (r >>= λ (rc, kept, b2). some (rc, some b.next ∷ some (suc b.next) ∷ kept, b2))
new_lib-After a b none fresh h = h
new_lib-After a b (some (rc, kept, b2)) fresh h = lib_kept b a rc kept b2 fresh h

known_lib-After :
    (a : Allocs) (b : Blocks) (r : Kept)
    → IsFresh b
    → After (one_more b) a r
    → After b a (r >>= λ (rc, kept, b2). free (some b.next) b2 >>= λ b3. some (rc, kept, b3))
unfolding one_more
known_lib-After a b none fresh h = h
known_lib-After a b (some (rc, kept, b2)) fresh h =
    let still : b2.live b.next ≡ true = ground (arith, h.live b.next) in
    rw (free-live b.next b2 still) (lib_freed b rc kept b2 fresh h)

insert_lib-After :
    (a : Allocs) (t : Answers) (b : Blocks)
    → IsFresh b
    → After b a (insert_lib a t (some b.next) (some (suc b.next)) (two_more b))
unfolding insert_lib two_more
insert_lib-After a t b fresh = elim (Bool-cases t.lib_inserted) [
  | inl ok ↦
      rw (ok, insert_lib)
        (new_lib-After a b (keep_sym a t (two_more b)) fresh
          (keep_sym-After a t (two_more b) (λ q le. ground (arith, fresh q))))
  | inr off ↦ rw (off, insert_lib, free-live b.next (two_more b) (ground arith)) (name_lost b fresh)
]

-- A test whose answer is known.
on_true :
    (a : Allocs) (b : Blocks) (c : Bool) (x y : Kept)
    → c ≡ true
    → After b a y
    → After b a (elim c [ false ↦ x | true ↦ y ])
on_true a b true x y e h = h
on_true a b false x y e h = absurd (cc e)

on_false :
    (a : Allocs) (b : Blocks) (c : Bool) (x y : Kept)
    → c ≡ false
    → After b a x
    → After b a (elim c [ false ↦ x | true ↦ y ])
on_false a b false x y e h = h
on_false a b true x y e h = absurd (cc e)

new_second :
    (c : Bool) (b : Blocks) → c ≡ true → new c (one_more b) ≡ (some (suc b.next), two_more b)
unfolding one_more two_more
new_second true b e = refl
new_second false b e = absurd (cc e)

new_first : (c : Bool) (b : Blocks) → c ≡ true → new c b ≡ (some b.next, one_more b)
unfolding one_more
new_first true b e = refl
new_first false b e = absurd (cc e)

keep_tree-none :
    (a : Allocs) (b : Blocks)
    → a.tree ≡ false
    → keep_tree a (one_more b) ≡ some (enomem, none, one_more b)
unfolding keep_tree with_tree
keep_tree-none a b off = rw off refl

keep_tree-some :
    (a : Allocs) (b : Blocks) (rc : ℤ)
    → a.tree ≡ true
    → (a.avl_init ≡ none) × (rc ≡ exit_success) ⊎ (a.avl_init ≡ some rc)
    → rc_is_success rc ≡ true
    → keep_tree a (one_more b) ≡ some (rc, some (suc b.next), two_more b)
unfolding keep_tree with_tree
keep_tree-some a b rc made (inl (works, e)) ok =
    rw (keep_tree, new_second a.tree b made, works, e) refl
keep_tree-some a b rc made (inr e) ok = rw (keep_tree, new_second a.tree b made, e, ok) refl

freed_again : Blocks → Blocks
freed_again b = record { live = put (two_more b).live (suc b.next) false; next = suc (suc b.next) }

free-second : (b : Blocks) → free (some (suc b.next)) (two_more b) ≡ some (freed_again b)
unfolding two_more freed_again
free-second b = free-live (suc b.next) (two_more b) (ground arith)

keep_tree_fails :
    (a : Allocs) (b : Blocks) (errno : ℤ)
    → a.tree ≡ true
    → a.avl_init ≡ some errno
    → rc_is_success errno ≡ false
    → keep_tree a (one_more b) ≡ some (errno, none, freed_again b)
unfolding keep_tree with_tree freed_again
keep_tree_fails a b errno made e failed =
    rw (keep_tree, new_second a.tree b made, e, failed, free-second b) refl

keep_new_lib-After :
    (a : Allocs) (t : Answers) (b : Blocks)
    → IsFresh b
    → After b a (keep_new_lib a t (some b.next) (one_more b))
unfolding keep_new_lib one_more two_more freed_again
keep_new_lib-After a t b fresh = elim (Bool-cases a.tree) [
  | inr off ↦
      rw (keep_tree-none a b off, keep_new_lib)
        (lib_lost b (one_more b) enomem fresh (λ q. refl) (omega arith) refl)
  | inl made ↦ elim (Option-cases a.avl_init) [
    | inl works ↦
        rw (keep_tree-some a b exit_success made (inl (works, refl)) refl, keep_new_lib)
          (insert_lib-After a t b fresh)
    | inr fails ↦
        let (errno, e) = fails in
        elim (Bool-cases (rc_is_success errno)) [
          | inl zero_errno ↦
              rw (keep_tree-some a b errno made (inr e) zero_errno, keep_new_lib)
                (on_true a b (rc_is_success errno) _ _ zero_errno (insert_lib-After a t b fresh))
          | inr failed ↦
              rw (keep_tree_fails a b errno made e failed, keep_new_lib)
                (on_false a b (rc_is_success errno) _ _ failed (
                  lib_lost b (freed_again b) errno fresh (λ q. ground (arith, fresh q))
                    (omega arith) failed))
        ]
  ]
]

known_lib_case :
    (a : Allocs) (t : Answers) (b : Blocks)
    → a.lib_node ≡ true
    → t.lib_found ≡ true
    → keep_sym_in_tree a t b ≡ (
        keep_sym a t (one_more b) >>= λ (rc, kept, b2).
        free (some b.next) b2 >>= λ b3. some (rc, kept, b3))
unfolding keep_sym_in_tree with_lib_node
known_lib_case a t b node found = rw (keep_sym_in_tree, new_first a.lib_node b node, found) refl

new_lib_case :
    (a : Allocs) (t : Answers) (b : Blocks)
    → a.lib_node ≡ true
    → t.lib_found ≡ false
    → keep_sym_in_tree a t b ≡ keep_new_lib a t (some b.next) (one_more b)
unfolding keep_sym_in_tree with_lib_node
new_lib_case a t b node absent = rw (keep_sym_in_tree, new_first a.lib_node b node, absent) refl

no_lib_case :
    (a : Allocs) (t : Answers) (b : Blocks)
    → a.lib_node ≡ false
    → keep_sym_in_tree a t b ≡ some (enomem, [], b)
unfolding keep_sym_in_tree with_lib_node
no_lib_case a t b off = rw off refl

-- If no address that is still to be given out is live, then whatever the allocations and the trees
-- answer: `store_sym_in_tree` faults only where the copy of the symbol's name cannot be had. Otherwise
-- the live blocks after it are those from before, those that a tree leads to, and at most one that is
-- lost: none on EXIT_SUCCESS, and one on EFAULT.
pub keep_sym_in_tree-After :
    (a : Allocs) (t : Answers) (b : Blocks) → IsFresh b → After b a (keep_sym_in_tree a t b)
unfolding one_more
keep_sym_in_tree-After a t b fresh = elim (Bool-cases a.lib_node) [
  | inr off ↦ rw (no_lib_case a t b off) (unchanged b a fresh)
  | inl node ↦ elim (Bool-cases t.lib_found) [
    | inl found ↦ rw (known_lib_case a t b node found) (
        known_lib-After a b (keep_sym a t (one_more b)) fresh
          (keep_sym-After a t (one_more b) (λ q le. ground (arith, fresh q))))
    | inr absent ↦ rw (new_lib_case a t b node absent) (keep_new_lib-After a t b fresh)
  ]
]
