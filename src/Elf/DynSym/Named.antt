-- ===== src/Elf/DynSym/Named.antt =====
-- The names that the loops over the dynamic symbols (sym_cache.c, libscout.c) collect, and the symbols
-- that have them.
use libscout.Prelude.{
  ◌≡◌, ◌≢◌, refl, sym as flip, ap, subst, ◌↔◌, ◌⊎◌, inl, inr, Bool, true, ◌&&◌, Bool-cases, List,
  [], ◌∷◌, In, In-append, append-In, Name, arith,
}
use libscout.Elf.DynSym.Exact.{Symbol, has_name, names_of, all_names}

-- A symbol of one of the tables, which is wanted and has the name.
pub record HasSymbol (wanted : Symbol → Bool) (sss : List (List Symbol)) (n : Name) : Type 0 where
  pub table : List Symbol
  pub in_file : In table sss
  pub symbol : Symbol
  pub in_table : In symbol table
  pub is_wanted : wanted symbol ≡ true
  pub named : symbol.name ≡ n
  pub not_empty : n ≢ []

has_name_lem : (n : Name) → has_name n ≡ true → n ≢ []
has_name_lem [] h = absurd (cc h)
has_name_lem (b ∷ bs) h = λ e. ground arith

name_has : (n : Name) → n ≢ [] → has_name n ≡ true
name_has [] ne = absurd (ne refl)
name_has (b ∷ bs) ne = refl

In-names_of :
    (wanted : Symbol → Bool) (ss : List Symbol) (n : Name)
    → In n (names_of wanted ss)
    → (s : Symbol) × In s ss × (wanted s ≡ true) × (s.name ≡ n) × (n ≢ [])
In-names_of wanted [] n m = elim m [ ]
In-names_of wanted (s ∷ ss) n m = elim (Bool-cases (has_name s.name && wanted s)) [
  | inr dropped ↦
      let (t, i, w, e, ne) = In-names_of wanted ss n (rw dropped at m) in (t, inr i, w, e, ne)
  | inl kept ↦ elim (rw kept at m) [
    | inl here ↦ (
      s,
      inl refl,
      ground arith,
      flip here,
      subst (λ x. x ≢ []) (flip here) (has_name_lem s.name (ground arith)),
    )
    | inr later ↦ let (t, i, w, e, ne) = In-names_of wanted ss n later in (t, inr i, w, e, ne)
  ]
]

names_of-In :
    (wanted : Symbol → Bool) (ss : List Symbol) (s : Symbol)
    → In s ss
    → wanted s ≡ true
    → s.name ≢ []
    → In s.name (names_of wanted ss)
names_of-In wanted [] s m w ne = elim m [ ]
names_of-In wanted (x ∷ ss) s (inl e) w ne =
    let kept : has_name x.name && wanted x ≡ true =
      subst (λ y. has_name y.name && wanted y ≡ true) e (rw (name_has s.name ne, w) refl) in
    rw kept (inl (ap (λ y. y.name) e))
names_of-In wanted (x ∷ ss) s (inr m) w ne =
    let later = names_of-In wanted ss s m w ne in
    elim (Bool-cases (has_name x.name && wanted x)) [
      | inl kept ↦ rw kept (inr later)
      | inr dropped ↦ rw dropped later
    ]

-- A name is collected exactly if a symbol has it.
pub all_names_iff :
    (wanted : Symbol → Bool) (sss : List (List Symbol)) (n : Name)
    → In n (all_names wanted sss) ↔ HasSymbol wanted sss n
all_names_iff wanted [] n = (λ m. elim m [ ], λ h. elim (h.in_file) [ ])
all_names_iff wanted (ss ∷ sss) n = (
  λ m. elim (append-In n (names_of wanted ss) (all_names wanted sss) m) [
    | inl here ↦
        let (s, i, w, e, ne) = In-names_of wanted ss n here in
        record {
          table = ss;
          in_file = inl refl;
          symbol = s;
          in_table = i;
          is_wanted = w;
          named = e;
          not_empty = ne;
        }
    | inr later ↦
        let h = (all_names_iff wanted sss n).0 later in
        record {
          table = h.table;
          in_file = inr h.in_file;
          symbol = h.symbol;
          in_table = h.in_table;
          is_wanted = h.is_wanted;
          named = h.named;
          not_empty = h.not_empty;
        }
  ],
  λ h.
      In-append n (names_of wanted ss) (all_names wanted sss)
        (place (all_names_iff wanted sss n).1 h h.in_file),
)
  where
    place :
        (HasSymbol wanted sss n → In n (all_names wanted sss))
        → (h : HasSymbol wanted (ss ∷ sss) n) → In h.table (ss ∷ sss)
        → In n (names_of wanted ss) ⊎ In n (all_names wanted sss)
    place others h (inl e) = inl (
        subst (λ x. In x (names_of wanted ss)) h.named
          (names_of-In wanted ss h.symbol (subst (λ t. In h.symbol t) e h.in_table) h.is_wanted
            (subst (λ x. x ≢ []) (flip h.named) h.not_empty)))
    place others h (inr i) = inr (
        others (record {
          table = h.table;
          in_file = i;
          symbol = h.symbol;
          in_table = h.in_table;
          is_wanted = h.is_wanted;
          named = h.named;
          not_empty = h.not_empty;
        }))
