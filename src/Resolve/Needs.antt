-- ===== src/Resolve/Needs.antt =====
-- What the resolver is to compute: the files reached from the executable by following undefined
-- symbols to the libraries that define them.
use libscout.Prelude.{
  ℕ, zero, suc, Bool, true, false, not, ◌≡◌, refl, ◌⊎◌, inl, inr, Option, none, some, List, [], ◌∷◌,
  ◌++◌, get_elem?, set, In, Name, int_eq, exit_success, arith,
}
use libscout.Buffer.{MpscBuffer}
use libscout.Buffer.Represents.{Represents}
use libscout.Avl.{SymAvl}
use libscout.Resolve.{
  Producer, running, finished, Pc, creating, exited, holding, crashed, Consumer, finish_producer,
  count_producer,
}
use libscout.Resolve.Outcome.{has}

-- The symbols that a producer has still to send.
abbrev pub remaining : Producer → List Name
remaining p = elim p.state [ running syms ↦ syms | finished ↦ [] ]

unfoldable pub files : List Producer → List Name
files [] = []
files (p ∷ ps) = p.file ∷ files ps

-- A return from the loop with an error.
abbrev pub has_failed : Pc → Bool
has_failed (exited rc) = not (int_eq rc exit_success)
has_failed (holding _) = true
has_failed (crashed _) = true
has_failed _ = false

module _ (undefined_of : Name → List Name) (check : Name → Option Name) (exe : Name) where
  -- The executable, and each library that defines a symbol left undefined by a needed file.
  pub data Needs : Name → Type 0 where
    root : Needs exe
    dep : {f sym lib : Name} → Needs f → In sym (undefined_of f) → check sym ≡ some lib → Needs lib

  -- A symbol that a needed file leaves undefined.
  abbrev pub Wanted : Name → Type 0
  Wanted sym = (f : Name) × Needs f × In sym (undefined_of f)

module _ (avl : SymAvl) (check : Name → Option Name) where
  -- A symbol is dealt with: its library is among the dependencies `d`, or no library defines it and
  -- it is among the unresolved symbols `u`.
  pub data Recorded (d u : avl.Tree) (sym : Name) : Type 0 where
    resolved : {lib : Name} → check sym ≡ some lib → has avl d lib ≡ true → Recorded d u sym
    unresolved : check sym ≡ none → has avl u sym ≡ true → Recorded d u sym

  abbrev pub Settled : Consumer avl → Name → Type 0
  Settled c = Recorded c.dependency c.undefined_sym

pub In-set :
    (ps : List Producer) (i : ℕ) (p p' : Producer) → In p (set ps i p') → In p ps ⊎ (p ≡ p')
In-set [] i p p' h = elim h [ ]
In-set (x ∷ ps) zero p p' (inl e) = inr e
In-set (x ∷ ps) zero p p' (inr h) = inl (inr h)
In-set (x ∷ ps) (suc i) p p' (inl e) = inl (inl e)
In-set (x ∷ ps) (suc i) p p' (inr h) = elim (In-set ps i p p' h) [
  | inl old ↦ inl (inr old)
  | inr new ↦ inr new
]

pub In-get_elem? : (ps : List Producer) (i : ℕ) {p : Producer} → get_elem? ps i ≡ some p → In p ps
In-get_elem? [] i h = ground arith
In-get_elem? (x ∷ ps) zero h = inl (ground arith)
In-get_elem? (x ∷ ps) (suc i) h = inr (In-get_elem? ps i h)

pub files-set :
    (ps : List Producer) (i : ℕ) (p p' : Producer)
    → get_elem? ps i ≡ some p
    → p'.file ≡ p.file
    → files (set ps i p') ≡ files ps
unfolding files
files-set [] i p p' h e = refl
files-set (x ∷ ps) zero p p' h e = ground arith
files-set (x ∷ ps) (suc i) p p' h e = ground (arith, files-set ps i p p' h e)

pub files-snoc :
    (ps : List Producer) (p : Producer) → files (ps ++ p ∷ []) ≡ files ps ++ p.file ∷ []
unfolding files
files-snoc [] p = refl
files-snoc (r ∷ ps) p = ground (arith, files-snoc ps p)

pub creating-injective : {f g : Name} → creating f ≡ creating g → f ≡ g
creating-injective e = cc

pub In-files :
    (ps : List Producer) {f : Name} → In f (files ps) → (p : Producer) × In p ps × (p.file ≡ f)
unfolding files
In-files [] h = elim h [ ]
In-files (p ∷ ps) (inl e) = (p, inl refl, ground arith)
In-files (p ∷ ps) (inr h) = let (r, i, e) = In-files ps h in (r, inr i, e)

pub finish_producer-Represents :
    {b : MpscBuffer} {q : List Name} → Represents b q → Represents (finish_producer b) q
unfolding finish_producer
finish_producer-Represents r = record {
  slots = r.slots;
  head_in = r.head_in;
  room = r.room;
  tail_at = r.tail_at;
  stored = r.stored;
}

pub count_producer-Represents :
    {b : MpscBuffer} {q : List Name} → Represents b q → Represents (count_producer b) q
unfolding count_producer
count_producer-Represents r = record {
  slots = r.slots;
  head_in = r.head_in;
  room = r.room;
  tail_at = r.tail_at;
  stored = r.stored;
}
