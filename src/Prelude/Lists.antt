-- ===== src/Prelude/Lists.antt =====
-- Lists measured and indexed by native numbers, under the library's names.
use Prim.Native.Nat.{ℕ, zero, suc, ◌+◌, ◌-◌, ◌≤◌, ◌<◌}
use mathlib.Core.Path.{◌≡◌, refl, ap}
use mathlib.Core.Logic.{◌≢◌, ◌⊎◌, inl, inr}
use mathlib.Core.List.{List, [], ◌∷◌, ◌++◌}
use mathlib.Core.Option.{Option, none, some}
use native.Mathlib.Omega.{arith}

module _ {ℓ} {A : Type ℓ} where
  abbrev pub length : List A → ℕ
  length [] = 0
  length (x ∷ xs) = suc (length xs)

  abbrev pub get_elem? : List A → ℕ → Option A
  get_elem? [] i = none
  get_elem? (x ∷ xs) zero = some x
  get_elem? (x ∷ xs) (suc i) = get_elem? xs i

  -- A write out of bounds changes nothing.
  abbrev pub set : List A → ℕ → A → List A
  set [] i v = []
  set (x ∷ xs) zero v = v ∷ xs
  set (x ∷ xs) (suc i) v = x ∷ set xs i v

  abbrev pub take : ℕ → List A → List A
  take zero xs = []
  take (suc n) [] = []
  take (suc n) (x ∷ xs) = x ∷ take n xs

  abbrev pub drop : ℕ → List A → List A
  drop zero xs = xs
  drop (suc n) [] = []
  drop (suc n) (x ∷ xs) = drop n xs

  abbrev pub replicate : ℕ → A → List A
  replicate zero a = []
  replicate (suc n) a = a ∷ replicate n a

-- Membership by recursion, which the tactics take apart.
abbrev pub In : {A : Type 0} → A → List A → Type 0
In a [] = ⊥
In a (x ∷ xs) = (a ≡ x) ⊎ In a xs

module _ {ℓ} {A : Type ℓ} where
  pub length-append : (xs ys : List A) → length (xs ++ ys) ≡ length xs + length ys
  length-append [] ys = omega arith
  length-append (x ∷ xs) ys = omega (arith, length-append xs ys)

  pub length-set : (xs : List A) (i : ℕ) (v : A) → length (set xs i v) ≡ length xs
  length-set [] i v = refl
  length-set (x ∷ xs) zero v = refl
  length-set (x ∷ xs) (suc i) v = ap suc (length-set xs i v)

  pub length-take : (n : ℕ) (xs : List A) → n ≤ length xs → length (take n xs) ≡ n
  length-take zero xs h = refl
  length-take (suc n) [] h = absurd (omega arith)
  length-take (suc n) (x ∷ xs) h = ap suc (length-take n xs (omega arith))

  pub length-replicate : (n : ℕ) (a : A) → length (replicate n a) ≡ n
  length-replicate zero a = refl
  length-replicate (suc n) a = ap suc (length-replicate n a)

  pub get_elem?-set_self :
      (xs : List A) (i : ℕ) (v : A) → i < length xs → get_elem? (set xs i v) i ≡ some v
  get_elem?-set_self [] i v h = elim h [ ]
  get_elem?-set_self (x ∷ xs) zero v h = refl
  get_elem?-set_self (x ∷ xs) (suc i) v h = get_elem?-set_self xs i v (omega arith)

  pub get_elem?-set_ne :
      (xs : List A) (i j : ℕ) (v : A) → i ≢ j → get_elem? (set xs i v) j ≡ get_elem? xs j
  get_elem?-set_ne [] i j v h = refl
  get_elem?-set_ne (x ∷ xs) zero zero v h = absurd (h refl)
  get_elem?-set_ne (x ∷ xs) zero (suc j) v h = refl
  get_elem?-set_ne (x ∷ xs) (suc i) zero v h = refl
  get_elem?-set_ne (x ∷ xs) (suc i) (suc j) v h = get_elem?-set_ne xs i j v (λ e. h (ap suc e))

module _ {ℓ} {A : Type ℓ} where
  pub get_elem?-none : (xs : List A) (i : ℕ) → length xs ≤ i → get_elem? xs i ≡ none
  get_elem?-none [] i h = refl
  get_elem?-none (x ∷ xs) zero h = absurd (omega arith)
  get_elem?-none (x ∷ xs) (suc i) h = get_elem?-none xs i (omega arith)

  pub drop-nil : (xs : List A) (i : ℕ) → length xs ≤ i → drop i xs ≡ []
  drop-nil [] zero h = refl
  drop-nil [] (suc i) h = refl
  drop-nil (x ∷ xs) zero h = absurd (omega arith)
  drop-nil (x ∷ xs) (suc i) h = drop-nil xs i (omega arith)

  pub drop-suc :
      (xs : List A) (i : ℕ) {a : A} → get_elem? xs i ≡ some a → drop i xs ≡ a ∷ drop (suc i) xs
  drop-suc [] i h = ground arith
  drop-suc (x ∷ xs) zero h = ground arith
  drop-suc (x ∷ xs) (suc i) h = drop-suc xs i h

  pub length-drop : (i : ℕ) (xs : List A) → length (drop i xs) ≡ length xs - i
  length-drop zero xs = omega arith
  length-drop (suc i) [] = omega arith
  length-drop (suc i) (x ∷ xs) = omega (arith, length-drop i xs)

module _ {A : Type 0} where
  pub In-append : (a : A) (xs ys : List A) → In a xs ⊎ In a ys → In a (xs ++ ys)
  In-append a [] ys (inl h) = elim h [ ]
  In-append a [] ys (inr h) = h
  In-append a (x ∷ xs) ys (inl (inl e)) = inl e
  In-append a (x ∷ xs) ys (inl (inr h)) = inr (In-append a xs ys (inl h))
  In-append a (x ∷ xs) ys (inr h) = inr (In-append a xs ys (inr h))

  pub append-In : (a : A) (xs ys : List A) → In a (xs ++ ys) → In a xs ⊎ In a ys
  append-In a [] ys h = inr h
  append-In a (x ∷ xs) ys (inl e) = inl (inl e)
  append-In a (x ∷ xs) ys (inr h) = elim (append-In a xs ys h) [
    | inl l ↦ inl (inr l)
    | inr r ↦ inr r
  ]
