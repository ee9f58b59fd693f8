-- ===== src/Owned/Frees.antt =====
-- What the functions of libscout.c that free the contexts of threads leave live.
use libscout.Prelude.{
  ℕ, suc, ◌≤◌, ◌≡◌, refl, ◌∙◌, sym as flip, ap, Bool, true, false, not, ◌&&◌, ◌||◌, Option, none,
  some, List, [], ◌∷◌, ◌++◌, ◌>>=◌, ◌==◌, if◌then◌else◌, Bool-cases, inl, inr, ◌⊎◌, exit_success,
  enomem, arith,
}
use libscout.Cache.{put}
use libscout.Owned.{
  Blocks, Started, free, free_all, OwnedCtx, destroy_producer_thread_ctx, ProducerBlocks, SymAllocs,
  end_producer,
}

abbrev pub among : List (Option ℕ) → ℕ → Bool
among [] q = false
among (none ∷ ps) q = among ps q
among (some p ∷ ps) q = (p == q) || among ps q

-- Live blocks, none of them twice; NULL pointers do not matter.
abbrev pub Distinct : List (Option ℕ) → Type 0
Distinct [] = Unit
Distinct (none ∷ ps) = Distinct ps
Distinct (some p ∷ ps) = (among ps p ≡ false) × Distinct ps

abbrev pub AllLive : List (Option ℕ) → Blocks → Type 0
AllLive ps b = (q : ℕ) → among ps q ≡ true → b.live q ≡ true

-- The blocks without those.
pub record Without (ps : List (Option ℕ)) (b b' : Blocks) : Type 0 where
  pub freed : (q : ℕ) → b'.live q ≡ (b.live q && not (among ps q))
  pub same_next : b'.next ≡ b.next

pub free_all-Without :
    (ps : List (Option ℕ)) (b : Blocks)
    → Distinct ps
    → AllLive ps b
    → (b' : Blocks) × (free_all ps b ≡ some b') × Without ps b b'
unfolding free_all free
free_all-Without [] b d l = (b, refl, record { freed = λ q. ground arith; same_next = refl })
free_all-Without (none ∷ ps) b d l =
    let (b', e, w) = free_all-Without ps b d l in
    (b', e, record { freed = w.freed; same_next = w.same_next })
free_all-Without (some p ∷ ps) b d l =
    let here : b.live p ≡ true = l p (ground arith) in
    let b1 : Blocks = record b { live = put b.live p false } in
    let (b', e, w) = free_all-Without ps b1 d.1 (still ps p b d.0 l) in
    (
      b',
      rw here e,
      record {
        freed = λ q. w.freed q ∙ gone (p == q) (b.live q) (among ps q);
        same_next = w.same_next;
      },
    )
  where
    gone : (x y z : Bool) → ((if x then false else y) && not z) ≡ (y && not (x || z))
    gone true y z = ground arith
    gone false y z = refl

    still :
        (ps : List (Option ℕ)) (p : ℕ) (b : Blocks)
        → among ps p ≡ false
        → AllLive (some p ∷ ps) b
        → AllLive ps (record b { live = put b.live p false })
    still ps p b apart l q m = elim (Bool-cases (p == q)) [
      | inl same ↦ let e : p ≡ q = ground arith in absurd (cc (ap (among ps) e, apart, m))
      | inr other ↦ rw other (l q (ground arith))
    ]

-- What a context owns.
abbrev pub owned : OwnedCtx → List (Option ℕ)
owned c = c.slots ++ some c.buffer ∷ c.user_data ∷ some c.ctx ∷ []

pub free_all-append :
    (ps qs : List (Option ℕ)) (b : Blocks)
    → free_all (ps ++ qs) b ≡ (free_all ps b >>= λ b'. free_all qs b')
unfolding free_all
free_all-append [] qs b = refl
free_all-append (p ∷ ps) qs b = go (free p b) (free_all-append ps qs)
  where
    go :
        (o : Option Blocks)
        → ((b' : Blocks) → free_all (ps ++ qs) b' ≡ (free_all ps b' >>= λ b''. free_all qs b''))
        → (o >>= λ b'. free_all (ps ++ qs) b')
          ≡ ((o >>= λ b'. free_all ps b') >>= λ b'. free_all qs b')
    go none ih = refl
    go (some b') ih = ih b'

pub >>=-ap :
    (o : Option Blocks) {f g : Blocks → Option Blocks}
    → ((b : Blocks) → f b ≡ g b)
    → (o >>= f) ≡ (o >>= g)
>>=-ap none h = refl
>>=-ap (some b) h = h b

pub >>=-some : (o : Option Blocks) → o ≡ (o >>= λ b. some b)
>>=-some none = refl
>>=-some (some b) = refl

destroy_all :
    (c : OwnedCtx) (b : Blocks) → destroy_producer_thread_ctx (some c) b ≡ free_all (owned c) b
unfolding destroy_producer_thread_ctx free_all
destroy_all c b =
    >>=-ap (free_all c.slots b) (λ b1.
      >>=-ap (free (some c.buffer) b1)
        (λ b2. >>=-ap (free c.user_data b2) (λ b3. >>=-some (free (some c.ctx) b3))))
    ∙ flip (free_all-append c.slots (some c.buffer ∷ c.user_data ∷ some c.ctx ∷ []) b)

-- If the blocks of a context, the names left in the slots of its buffer among them, are live and all
-- different, `destroy_producer_thread_ctx` frees just these, each of them once.
pub destroy_producer_thread_ctx-Without :
    (c : OwnedCtx) (b : Blocks)
    → Distinct (owned c)
    → AllLive (owned c) b
    → (b' : Blocks) × (destroy_producer_thread_ctx (some c) b ≡ some b') × Without (owned c) b b'
destroy_producer_thread_ctx-Without c b d l =
    let (b', e, w) = free_all-Without (owned c) b d l in (b', destroy_all c b ∙ e, w)

-- No address that is still to be given out is live.
abbrev pub IsFresh : Blocks → Type 0
IsFresh b = (q : ℕ) → b.next ≤ q → b.live q ≡ false

abbrev pub Same : Blocks → Blocks → Type 0
Same b b' = (q : ℕ) → b'.live q ≡ b.live q

-- All allocations behind the first one.
abbrev pub later_work : SymAllocs → Bool
later_work a = a.thread_user_data && (a.file_name && a.lib_path)

-- What becomes of the blocks, with `ended` if the thread ends before its context is read.
abbrev pub AfterSym : Blocks → SymAllocs → Bool → Option Started → Type 0
AfterSym b a ended none = (a.producer_ctx ≡ false) ⊎ ((ended ≡ true) × (later_work a ≡ true))
AfterSym b a ended (some (rc, some p, b1)) =
    (ended ≡ false)
    × (rc ≡ exit_success)
    × (b2 : Blocks) × (end_producer p b1 ≡ some b2)
    × Same b b2
AfterSym b a ended (some (rc, none, b1)) =
    (later_work a ≡ false) × (rc ≡ enomem) × (b.live b.next ≡ false) × (b1.live b.next ≡ true)

-- Four blocks that have just been given out.
module _ (b : Blocks) (fresh : IsFresh b) where
  four : List (Option ℕ)
  four =
      some (suc (suc b.next)) ∷ some (suc (suc (suc b.next))) ∷ some (suc b.next) ∷ some b.next ∷ []

  four_more : Blocks
  four_more = record {
    live =
        put (put (put (put b.live b.next true) (suc b.next) true) (suc (suc b.next)) true)
          (suc (suc (suc b.next))) true;
    next = suc (suc (suc (suc b.next)));
  }

  four_blocks : ProducerBlocks
  four_blocks = record {
    producer_ctx = b.next;
    thread_user_data = suc b.next;
    file_name = suc (suc b.next);
    lib_path = suc (suc (suc b.next));
  }
