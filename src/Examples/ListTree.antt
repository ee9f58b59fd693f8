-- ===== src/Examples/ListTree.antt =====
-- A tree of `Avl` that is a list without duplicate keys: it shows that the laws can be met.
use libscout.Prelude.{
  true, ◌≡◌, refl, ◌∙◌, sym as flip, inl, inr, Option, none, some, List, [], ◌∷◌, In, Name, name_eq,
  name_eq→eq, name_eq_refl, if◌then◌else◌, Bool-cases, ap, arith,
}
use libscout.Avl.{Avl}

module _ {A : Type 0} (key : A → Name) where
  unfoldable pub find_key : List A → Name → Option A
  find_key [] k = none
  find_key (a ∷ l) k = if name_eq (key a) k then some a else find_key l k

  abbrev pub Unique : List A → Type 0
  Unique [] = Unit
  Unique (a ∷ l) = (find_key l (key a) ≡ none) × Unique l

  abbrev pub Tree : Type 0
  Tree = (l : List A) × Unique l

  unfoldable pub add_new :
      (t : Tree) (a : A) (o : Option A) → find_key t.0 (key a) ≡ o → Option Tree
  add_new t a none e = some (a ∷ t.0, (e, t.1))
  add_new t a (some b) e = none

  abbrev items : Option Tree → List A
  items none = []
  items (some t) = t.0

  pub search-add_new :
      (t : Tree) (a : A) (t' : Tree) (k : Name) (o : Option A) (e : find_key t.0 (key a) ≡ o)
      → add_new t a o e ≡ some t'
      → find_key t'.0 k ≡ (if name_eq (key a) k then some a else find_key t.0 k)
  unfolding add_new find_key
  search-add_new t a t' k none e h = let q : t'.0 ≡ a ∷ t.0 = ap items (flip h) in rw q refl
  search-add_new t a t' k (some b) e h = absurd (cc h)

  pub find_key-In :
      (l : List A) (k : Name) (a : A) → find_key l k ≡ some a → In a l × (name_eq (key a) k ≡ true)
  unfolding find_key
  find_key-In [] k a h = absurd (cc h)
  find_key-In (b ∷ l) k a h = elim (Bool-cases (name_eq (key b) k)) [
    | inl hit ↦ let e : b ≡ a = ground arith in (inl (flip e), rw e at hit)
    | inr miss ↦ let (i, q) = find_key-In l k a (ground arith) in (inr i, q)
  ]

  pub In-find_key : (l : List A) (a : A) → Unique l → In a l → find_key l (key a) ≡ some a
  unfolding find_key
  In-find_key [] a u i = elim i [ ]
  In-find_key (b ∷ l) a u (inl e) = rw e (rw (name_eq_refl (key b)) refl)
  In-find_key (b ∷ l) a u (inr i) = elim (Bool-cases (name_eq (key b) (key a))) [
    | inl hit ↦
        let e : key b ≡ key a = name_eq→eq (key b) (key a) hit in
        absurd (cc (flip u.0 ∙ ap (find_key l) e ∙ In-find_key l a u.1 i))
    | inr miss ↦ rw miss (In-find_key l a u.1 i)
  ]

  pub search_empty : (k : Name) → find_key [] k ≡ none
  unfolding find_key
  search_empty k = refl

  abbrev pub list_tree : Avl key
  list_tree = record {
    Tree = Tree;
    init = ([], tt);
    search = λ t k. find_key t.0 k;
    insert = λ t a. add_new t a (find_key t.0 (key a)) refl;
    walk = λ t. t.0;
    search-init = search_empty;
    search-insert = λ t a t' k new h. search-add_new t a t' k (find_key t.0 (key a)) refl h;
    walk-search = λ t a i. In-find_key t.0 a t.1 i;
    search-walk = λ t k a h. find_key-In t.0 k a h;
  }
