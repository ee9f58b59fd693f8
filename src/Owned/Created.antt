-- ===== src/Owned/Created.antt =====
-- What create_producer_thread_ctx (libscout.c) leaves live.
use libscout.Prelude.{
  suc, ◌≡◌, refl, Bool, true, false, Option, none, some, [], exit_success, enomem, arith,
}
use libscout.Cache.{put}
use libscout.Owned.{Blocks, free, OwnedCtx, Created, create_ctx, destroy_producer_thread_ctx}
use libscout.Owned.Frees.{IsFresh, Same, destroy_producer_thread_ctx-Without}

abbrev pub AfterCreate : Blocks → Option Created → Type 0
AfterCreate b none = ⊥
AfterCreate b (some (rc, none, b1)) = (rc ≡ enomem) × Same b b1
AfterCreate b (some (rc, some c, b1)) =
    (rc ≡ exit_success)
    × (b2 : Blocks) × (destroy_producer_thread_ctx (some c) b1 ≡ some b2)
    × Same b b2

-- If no address that is still to be given out is live, create_producer_thread_ctx does not fault: if it
-- fails, it returns ENOMEM and leaves the blocks as they were; if it succeeds, it returns EXIT_SUCCESS,
-- and destroy_producer_thread_ctx on the new context leaves them as they were.
pub create_ctx-AfterCreate :
    (ctx_allocated buffer_allocated : Bool) (b : Blocks)
    → IsFresh b
    → AfterCreate b (create_ctx ctx_allocated buffer_allocated b)
unfolding create_ctx free
create_ctx-AfterCreate false y b fresh = (refl, λ q. refl)
create_ctx-AfterCreate true false b fresh =
    let here : put b.live b.next true b.next ≡ true = ground arith in
    rw here (refl, λ q. ground (arith, fresh q))
create_ctx-AfterCreate true true b fresh =
    let b1 : Blocks = record {
      live = put (put b.live b.next true) (suc b.next) true;
      next = suc (suc b.next);
    } in
    let c : OwnedCtx = record { ctx = b.next; buffer = suc b.next; slots = []; user_data = none } in
    let (b2, e, w) =
      destroy_producer_thread_ctx-Without c b1 (ground arith, (refl, tt)) (λ q m. ground arith) in
    (refl, b2, e, λ q. ground (arith, w.freed q, fresh q))
