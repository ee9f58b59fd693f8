-- ===== src/Search/Found.antt =====
-- The walk of search_for_lib.c against the paths in and below a directory.
use libscout.Prelude.{
  ℕ, zero, suc, true, false, ◌≡◌, refl, ◌∙◌, ap, sym as flip, ◌⊎◌, inl, inr, Option, none, some,
  List, [], ◌∷◌, ◌++◌, In, In-append, append-In, subst, Name, ◌==◌, Bool-cases, ℤ, int_eq,
  exit_success, arith,
}
use libscout.Cache.{rc_is_success}
use libscout.Search.{
  DirEntry, dt_dir, reg_nomatch, is_dots, new_lib_path, visit_file, visit_entry, read_entries,
  search_for_lib,
}

-- The calls of `populate_cache` for the paths, in order.
abbrev pub populate_all : {S : Type 0} → (S → Name → S) → S → List Name → S
populate_all populate s [] = s
populate_all populate s (p ∷ ps) = populate_all populate (populate s p) ps

populate_all-append :
    {S : Type 0} (populate : S → Name → S) (s : S) (ps qs : List Name)
    → populate_all populate s (ps ++ qs) ≡ populate_all populate (populate_all populate s ps) qs
populate_all-append populate s [] qs = refl
populate_all-append populate s (p ∷ ps) qs = populate_all-append populate (populate s p) ps qs

-- An entry that is searched.
abbrev pub IsSubdir : DirEntry → Type 0
IsSubdir e = ((e.d_type == dt_dir) ≡ true) × (is_dots e.d_name ≡ false)

module _ (opendir : Name → List DirEntry ⊎ ℤ) (regexec : Name → ℤ) where
  -- An entry that is a library file.
  abbrev pub IsLib : DirEntry → Type 0
  IsLib e = ((e.d_type == dt_dir) ≡ false) × (rc_is_success (regexec e.d_name) ≡ true)

  -- The path of a matching file in the directory or below it.
  pub data IsLibPath : Name → Name → Type 0 where
    in_dir :
        {dir : Name} {es : List DirEntry} (e : DirEntry) {p : Name}
        → opendir dir ≡ inl es
        → In e es
        → IsLib e
        → p ≡ new_lib_path dir e.d_name
        → IsLibPath dir p
    below :
        {dir : Name} {es : List DirEntry} (e : DirEntry) {p : Name}
        → opendir dir ≡ inl es
        → In e es
        → IsSubdir e
        → IsLibPath (new_lib_path dir e.d_name) p
        → IsLibPath dir p

  -- Directories nest at most `n` deep from here.
  pub data HasDepth : ℕ → Name → Type 0 where
    unreadable : {n : ℕ} {dir : Name} {errno : ℤ} → opendir dir ≡ inr errno → HasDepth (suc n) dir
    readable :
        {n : ℕ} {dir : Name} {es : List DirEntry}
        → opendir dir ≡ inl es
        → ((e : DirEntry) → In e es → IsSubdir e → HasDepth n (new_lib_path dir e.d_name))
        → HasDepth (suc n) dir

  -- What the entries of a directory contribute.
  abbrev Under : Name → DirEntry → Name → Type 0
  Under dir e p =
      (IsLib e × (p ≡ new_lib_path dir e.d_name))
      ⊎ (IsSubdir e × IsLibPath (new_lib_path dir e.d_name) p)

  module _ {S : Type 0} (populate : S → Name → S) where
    -- The cache has been populated from some of the paths of `P`, and from all of them if the
    -- return code is EXIT_SUCCESS.
    pub record Searched (P : Name → Type 0) (s : S) (rc : ℤ) (s' : S) : Type 0 where
      pub paths : List Name
      pub populated : s' ≡ populate_all populate s paths
      pub sound : (p : Name) → In p paths → P p
      pub complete : rc_is_success rc ≡ true → (p : Name) → P p → In p paths

    -- A run that ends so.
    abbrev pub Ends : (Name → Type 0) → S → Option (ℤ × S) → Type 0
    Ends P s r = (rc : ℤ) × (s' : S) × (r ≡ some (rc, s')) × Searched P s rc s'

    found_nothing :
        {P : Name → Type 0} {s : S} {rc : ℤ}
        → (rc_is_success rc ≡ true → (p : Name) → P p → ⊥)
        → Searched P s rc s
    found_nothing never = record {
      paths = [];
      populated = refl;
      sound = λ p m. elim m [ ];
      complete = λ ok p h. absurd (never ok p h);
    }

    visit_file-Searched :
        (dir : Name) (e : DirEntry) (s : S)
        → (e.d_type == dt_dir) ≡ false
        → (rc : ℤ) × (s' : S) × (visit_file opendir regexec populate dir e.d_name s ≡ (rc, s'))
          × Searched (Under dir e) s rc s'
    unfolding visit_file
    visit_file-Searched dir e s file = elim (Bool-cases (int_eq (regexec e.d_name) reg_nomatch)) [
      | inl no_match ↦ (
        exit_success,
        s,
        rw no_match refl,
        found_nothing λ ok p h. elim h [
          | inl lib ↦ let m = lib.0.1 in ground arith
          | inr sub ↦ let d = sub.0.0 in cc
        ],
      )
      | inr other ↦ elim (Bool-cases (rc_is_success (regexec e.d_name))) [
        | inl match ↦ (
          exit_success,
          populate s (new_lib_path dir e.d_name),
          rw (other, match) refl,
          record {
            paths = new_lib_path dir e.d_name ∷ [];
            populated = refl;
            sound = λ p m. elim m [ inl q ↦ inl ((file, match), q) | inr m' ↦ elim m' [ ] ];
            complete =
                λ ok p h. elim h [ inl lib ↦ inl lib.1 | inr sub ↦ absurd (let d = sub.0.0 in cc) ];
          },
        )
        | inr failed ↦ (regexec e.d_name, s, rw (other, failed) refl, found_nothing λ ok p h. cc)
      ]
    ]

    module _ (search : Name → S → Option (ℤ × S)) (dir : Name) where
      -- The recursive call does its part for a subdirectory.
      abbrev Descends : DirEntry → Type 0
      Descends e =
          IsSubdir e
          → (s : S)
          → Ends (IsLibPath (new_lib_path dir e.d_name)) s (search (new_lib_path dir e.d_name) s)

      visit_entry-Ends :
          (e : DirEntry) (s : S)
          → Descends e
          → Ends (Under dir e) s (visit_entry opendir regexec populate search dir e s)
      unfolding visit_entry
      visit_entry-Ends e s h = elim (Bool-cases (e.d_type == dt_dir)) [
        | inr file ↦
            let (rc, s', q, x) = visit_file-Searched dir e s file in (rc, s', rw (file, q) refl, x)
        | inl subdir ↦ elim (Bool-cases (is_dots e.d_name)) [
          | inl dots ↦ (
            exit_success,
            s,
            rw (subdir, dots) refl,
            found_nothing λ ok p u. elim u [
              | inl lib ↦ let f = lib.0.0 in cc
              | inr sub ↦ let d = sub.0.1 in cc
            ],
          )
          | inr named ↦
              let (rc, s', q, x) = h (subdir, named) s in
              (
                rc,
                s',
                rw (subdir, named) q,
                record {
                  paths = x.paths;
                  populated = x.populated;
                  sound = λ p m. inr ((subdir, named), x.sound p m);
                  complete = λ ok p u.
                      x.complete ok p
                        (elim u [ inl lib ↦ absurd (let f = lib.0.0 in cc) | inr sub ↦ sub.1 ]);
                },
              )
        ]
      ]

      abbrev Among : List DirEntry → Name → Type 0
      Among es p = (e : DirEntry) × In e es × Under dir e p

      -- One entry, and then the others.
      next_entry :
          (e : DirEntry) (es : List DirEntry) {s : S} (rc : ℤ) (s1 : S)
          → visit_entry opendir regexec populate search dir e s ≡ some (rc, s1)
          → Searched (Under dir e) s rc s1
          → Ends (Among es) s1 (read_entries opendir regexec populate search dir es s1)
          → Ends (Among (e ∷ es)) s (read_entries opendir regexec populate search dir (e ∷ es) s)
      unfolding read_entries
      next_entry e es {s} rc s1 q x (rc2, s2, q2, y) = elim (Bool-cases (rc_is_success rc)) [
        | inr failed ↦ (
          rc,
          s1,
          rw (q, failed, read_entries) refl,
          record {
            paths = x.paths;
            populated = x.populated;
            sound = λ p m. (e, inl refl, x.sound p m);
            complete = λ ok p u. absurd (cc (flip ok ∙ failed));
          },
        )
        | inl ok1 ↦ (
          rc2,
          s2,
          rw (q, ok1, read_entries) q2,
          record {
            paths = x.paths ++ y.paths;
            populated =
                y.populated
                ∙ (ap (λ k. populate_all populate k y.paths) x.populated
                    ∙ flip (populate_all-append populate s x.paths y.paths));
            sound = λ p m. elim (append-In p x.paths y.paths m) [
              | inl first ↦ (e, inl refl, x.sound p first)
              | inr later ↦ let (e', m', u) = y.sound p later in (e', inr m', u)
            ];
            complete = λ ok p u. In-append p x.paths y.paths (elim u.1 [
              | inl first ↦ inl (x.complete ok1 p (subst (λ k. Under dir k p) first u.2))
              | inr later ↦ inr (y.complete ok p (u.0, later, u.2))
            ]);
          },
        )
      ]

      read_entries-Ends :
          (es : List DirEntry) (s : S)
          → ((e : DirEntry) → In e es → Descends e)
          → Ends (Among es) s (read_entries opendir regexec populate search dir es s)
      unfolding read_entries
      read_entries-Ends [] s h = (exit_success, s, refl, found_nothing λ ok p u. u.1)
      read_entries-Ends (e ∷ es) s h =
          let (rc, s1, q, x) = visit_entry-Ends e s (h e (inl refl)) in
          next_entry e es rc s1 q x (read_entries-Ends es s1 (λ e' m. h e' (inr m)))

    Among-IsLibPath :
        (dir : Name) {es : List DirEntry}
        → opendir dir ≡ inl es
        → (p : Name) → Among (λ d s. none) dir es p
        → IsLibPath dir p
    Among-IsLibPath dir o p (e, m, inl (lib, q)) = in_dir e o m lib q
    Among-IsLibPath dir o p (e, m, inr (sub, r)) = below e o m sub r

    IsLibPath-Among :
        (dir : Name) {es : List DirEntry}
        → opendir dir ≡ inl es
        → (p : Name) → IsLibPath dir p
        → Among (λ d s. none) dir es p
    IsLibPath-Among dir {es} o p (in_dir {es = es'} e o' m lib q) =
        let same : es' ≡ es = cc in (e, subst (In e) same m, inl (lib, q))
    IsLibPath-Among dir {es} o p (below {es = es'} e o' m sub r) =
        let same : es' ≡ es = cc in (e, subst (In e) same m, inr (sub, r))

    -- Where directories nest no deeper than the fuel, the search ends, with a return code and the
    -- cache populated from paths of library files only, in some order; with EXIT_SUCCESS, from the
    -- path of every library file in the directory or below it.
    pub search_for_lib_lem :
        (fuel : ℕ) (dir : Name) (s : S)
        → HasDepth fuel dir
        → Ends (IsLibPath dir) s (search_for_lib opendir regexec populate fuel dir s)
    unfolding search_for_lib
    search_for_lib_lem zero dir s deep = elim deep [ ]
    search_for_lib_lem (suc fuel) dir s (unreadable {errno} o) =
        (errno, s, rw (o, search_for_lib) refl, found_nothing λ ok p h. never p h)
      where
        never : (p : Name) → IsLibPath dir p → ⊥
        never p (in_dir e o' m lib q) = cc
        never p (below e o' m sub r) = cc
    search_for_lib_lem (suc fuel) dir s (readable {es} o deep) =
        let (rc, s', q, x) =
          read_entries-Ends (search_for_lib opendir regexec populate fuel) dir es s
            (λ e m sub s1. search_for_lib_lem fuel (new_lib_path dir e.d_name) s1 (deep e m sub)) in
        (
          rc,
          s',
          rw (o, search_for_lib) q,
          record {
            paths = x.paths;
            populated = x.populated;
            sound = λ p m. Among-IsLibPath dir o p (x.sound p m);
            complete = λ ok p h. x.complete ok p (IsLibPath-Among dir o p h);
          },
        )
