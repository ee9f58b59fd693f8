-- ===== src/Owned/Trees/Each.antt =====
-- Functions that free given blocks, and `avl2_destroy` with such a function for each node (sym_cache.c,
-- libscout.c, main.c).
use mathlib.Core.Logic.{∥∥₁_elim}
use native.Mathlib.Nat.{ℕ_set}
use mathlib.Core.List.{Permᴰ}
use mathlib.Core.List.Permᴰ.{nil, cons, swap, trans}
use libscout.Prelude.{
  ℕ, ◌+◌, ◌≤◌, ◌≡◌, refl, ◌∙◌, ap, Bool, true, false, Option, none, some, List, [], ◌∷◌, ◌++◌, ◌==◌,
  ◌>>=◌, if◌then◌else◌, arith,
}
use libscout.Owned.{Blocks, free}
use libscout.Cache.{put}
use libscout.Owned.Trees.{for_each, Avl2Destroy}

abbrev bit : Bool → ℕ
bit true = 1
bit false = 0

-- How often a block is among the pointers, of which some are NULL.
abbrev pub times : List (Option ℕ) → ℕ → ℕ
times [] q = 0
times (none ∷ ps) q = times ps q
times (some p ∷ ps) q = bit (p == q) + times ps q

-- The blocks are live, and none of them is there twice.
abbrev pub Owns : List (Option ℕ) → Blocks → Type 0
Owns ps b = (q : ℕ) → times ps q ≤ bit (b.live q)

-- Just those blocks are gone.
pub record Gone (ps : List (Option ℕ)) (b b' : Blocks) : Type 0 where
  pub freed : (q : ℕ) → bit (b'.live q) + times ps q ≡ bit (b.live q)
  pub same_next : b'.next ≡ b.next

-- The function frees just those blocks, each of them once.
abbrev pub Frees : (Blocks → Option Blocks) → List (Option ℕ) → Type 0
Frees f ps = (b : Blocks) → Owns ps b → (b' : Blocks) × (f b ≡ some b') × Gone ps b b'

pub times-append : (ps qs : List (Option ℕ)) (q : ℕ) → times (ps ++ qs) q ≡ times ps q + times qs q
times-append [] qs q = omega arith
times-append (none ∷ ps) qs q = times-append ps qs q
times-append (some p ∷ ps) qs q = omega (arith, times-append ps qs q)

pub free-Frees : (p : Option ℕ) → Frees (free p) (p ∷ [])
unfolding free
free-Frees none b h = (b, refl, record { freed = λ q. omega arith; same_next = refl })
free-Frees (some p) b h =
    let live : b.live p ≡ true = let e = h p in ground arith in
    (
      record b { live = put b.live p false },
      rw live refl,
      record { freed = λ q. gone (p == q) (b.live q) (h q); same_next = refl },
    )
  where
    gone : (x y : Bool) → bit x + 0 ≤ bit y → bit (if x then false else y) + (bit x + 0) ≡ bit y
    gone true true h = refl
    gone true false h = absurd (omega arith)
    gone false y h = omega arith

pub nothing-Frees : Frees (λ b. some b) []
nothing-Frees b h = (b, refl, record { freed = λ q. omega arith; same_next = refl })

pub then-Frees :
    {f : Blocks → Option Blocks} {ps : List (Option ℕ)} (g : Blocks → Option Blocks)
    {qs : List (Option ℕ)}
    → Frees f ps
    → Frees g qs
    → Frees (λ b. f b >>= g) (ps ++ qs)
then-Frees {f} {ps} g {qs} hf hg b h =
    let (b1, e1, w1) = hf b (λ q. omega (arith, h q, times-append ps qs q)) in
    let (b2, e2, w2) = hg b1 (λ q. omega (arith, h q, times-append ps qs q, w1.freed q)) in
    (
      b2,
      rw e1 e2,
      record {
        freed = λ q. omega (arith, times-append ps qs q, w1.freed q, w2.freed q);
        same_next = w2.same_next ∙ w1.same_next;
      },
    )

-- Only how often each block is there matters.
pub same-Frees :
    {f g : Blocks → Option Blocks} {ps qs : List (Option ℕ)}
    → ((b : Blocks) → g b ≡ f b)
    → ((q : ℕ) → times ps q ≡ times qs q)
    → Frees f ps
    → Frees g qs
same-Frees same count hf b h =
    let (b', e, w) = hf b (λ q. omega (arith, h q, count q)) in
    (
      b',
      same b ∙ e,
      record { freed = λ q. omega (arith, w.freed q, count q); same_next = w.same_next },
    )

-- The blocks of all nodes.
abbrev pub all_blocks : {N : Type 0} → (N → List (Option ℕ)) → List N → List (Option ℕ)
all_blocks blocks [] = []
all_blocks blocks (n ∷ ns) = blocks n ++ all_blocks blocks ns

module _ {N : Type 0} (f : N → Blocks → Option Blocks) (blocks : N → List (Option ℕ))
    (frees : (n : N) → Frees (f n) (blocks n)) where
  for_each-Frees : (ns : List N) → Frees (for_each f ns) (all_blocks blocks ns)
  unfolding for_each
  for_each-Frees [] = nothing-Frees
  for_each-Frees (n ∷ ns) = then-Frees (for_each f ns) (frees n) (for_each-Frees ns)

  times-perm :
      {ms ns : List N}
      → Permᴰ ms ns
      → (q : ℕ) → times (all_blocks blocks ms) q ≡ times (all_blocks blocks ns) q
  times-perm nil q = refl
  times-perm (cons {a} {b} {l₁ = l1} {l₂ = l2} e d) q = omega (
    arith,
    times-append (blocks a) (all_blocks blocks l1) q,
    times-append (blocks b) (all_blocks blocks l2) q,
    times-perm d q,
    ap (λ n. times (blocks n) q) e,
  )
  times-perm (swap {a} {b} {a'} {b'} {l} e e') q = omega (
    arith,
    times-append (blocks a) (blocks b ++ all_blocks blocks l) q,
    times-append (blocks b) (all_blocks blocks l) q,
    times-append (blocks a') (blocks b' ++ all_blocks blocks l) q,
    times-append (blocks b') (all_blocks blocks l) q,
    ap (λ n. times (blocks n) q) e,
    ap (λ n. times (blocks n) q) e',
  )
  times-perm (trans d d') q = times-perm d q ∙ times-perm d' q

  -- Whatever order the tree library takes.
  pub destroy-Frees :
      (avl : Avl2Destroy) (ns : List N) → Frees (avl.destroy (some f) ns) (all_blocks blocks ns)
  destroy-Frees avl ns =
      same-Frees {ps = all_blocks blocks (avl.order ns)} (avl.calls f ns)
        (λ q. ∥∥₁_elim (avl.order-Perm ns) (ℕ_set _ _) (λ d. times-perm d q))
        (for_each-Frees (avl.order ns))
