-- ===== src/Program/Options.antt =====
-- The options of `main` (main.c).
use libscout.Prelude.{
  ℕ, suc, ◌-◌, ◌<◌, ◌≡◌, refl, ◌∙◌, ap, false, ◌⊎◌, inl, inr, Option, none, some, List, [], ◌∷◌,
  ◌++◌, length, replicate, Name, ◌==◌, ℤ, einval, arith,
}
use libscout.Elf.Memory.{Region}
use libscout.Elf.Strings.Reads.{c_string}
use libscout.Elf.Cursor.{store}
use libscout.Elf.Cursor.Zeros.{over_zeros, store-zeros}
use libscout.Cache.{path_max}
use libscout.Program.{
  Paths, no_paths, Opt, opt_e, opt_l, opt_h, read_option, read_options, run_with, main,
}

-- A string without a NUL.
abbrev pub IsText : Name → Type 0
IsText [] = Unit
IsText (b ∷ bs) = (b == 0 ≡ false) × IsText bs

c_string-text : (a rest : Region) → IsText a → c_string (a ++ 0 ∷ rest) ≡ some a
unfolding c_string
c_string-text [] rest h = refl
c_string-text (b ∷ a) rest h = rw (h.0, c_string-text a rest h.1) refl

over_zeros-text : (n : ℕ) (a : Name) → IsText a → length a < n → c_string (over_zeros n a) ≡ some a
over_zeros-text n a h short =
    let (k, e) = more n (length a) short in
    ap (λ m. c_string (a ++ replicate m 0)) e ∙ c_string-text a (replicate k 0) h
  where
    more : (n l : ℕ) → l < n → (k : ℕ) × (n - l ≡ suc k)
    more n l h = (n - l - 1, omega arith)

-- A path that fits its array with its NUL.
abbrev pub IsPath : Name → Type 0
IsPath a = IsText a × (length a < path_max)

-- What a list of options gives, where `-e` and `-l` are not repeated: the executable and the library
-- path, empty if they are not given, or nothing where an option is not known. The first two
-- arguments are what has been given before.
pub data Parses : Name → Name → List Opt → Option (Name × Name) → Type 0 where
  last : {e l : Name} → Parses e l [] (some (e, l))
  exec :
      {l a : Name} {os : List Opt} {r : Option (Name × Name)}
      → IsPath a
      → Parses a l os r
      → Parses [] l ((opt_e, a) ∷ os) r
  libs :
      {e a : Name} {os : List Opt} {r : Option (Name × Name)}
      → IsPath a
      → Parses e a os r
      → Parses e [] ((opt_l, a) ∷ os) r
  help :
      {e l a : Name} {os : List Opt} {r : Option (Name × Name)}
      → Parses e l os r
      → Parses e l ((opt_h, a) ∷ os) r
  unknown :
      {e l a : Name} {c : ℕ} {os : List Opt}
      → (c == opt_e) ≡ false
      → (c == opt_l) ≡ false
      → (c == opt_h) ≡ false
      → Parses e l ((c, a) ∷ os) none

abbrev pub paths : Name → Name → Paths
paths e l = record { exec_file = over_zeros path_max e; lib_path = over_zeros path_max l }

abbrev pub parsed : Option (Name × Name) → Paths ⊎ ℤ
parsed none = inr einval
parsed (some (e, l)) = inl (paths e l)

-- What the program does with it.
abbrev pub run_on : (Name → Name → Option ℤ) → Option (Name × Name) → Option ℤ
run_on main_thread none = some einval
run_on main_thread (some ([], l)) = some einval
run_on main_thread (some (b ∷ e, [])) = some einval
run_on main_thread (some (b ∷ e, c ∷ l)) = main_thread (b ∷ e) (c ∷ l)

pub read_exec :
    (n : ℕ) (a : Name) → length a < n → store (over_zeros n []) 0 a ≡ some (over_zeros n a)
read_exec n a short =
    ap (λ m. store (replicate m 0) 0 a) (omega arith) ∙ store-zeros n a (omega arith)

pub read_option-e :
    (p : Paths) (a : Name) {r : Region}
    → store p.exec_file 0 a ≡ some r
    → read_option (opt_e, a) p ≡ some (inl (record p { exec_file = r }))
unfolding read_option
read_option-e p a e = rw (e, read_option) refl

pub read_option-l :
    (p : Paths) (a : Name) {r : Region}
    → store p.lib_path 0 a ≡ some r
    → read_option (opt_l, a) p ≡ some (inl (record p { lib_path = r }))
unfolding read_option
read_option-l p a e = rw (e, read_option) refl

read_option-unknown :
    (p : Paths) (a : Name) (c : ℕ)
    → (c == opt_e) ≡ false
    → (c == opt_l) ≡ false
    → (c == opt_h) ≡ false
    → read_option (c, a) p ≡ some (inr einval)
unfolding read_option
read_option-unknown p a c x y z = rw (x, y, z, read_option) refl

pub read_options-step :
    (o : Opt) (os : List Opt) (p p' : Paths)
    → read_option o p ≡ some (inl p')
    → read_options (o ∷ os) p ≡ read_options os p'
unfolding read_options
read_options-step o os p p' e = rw (e, read_options) refl

read_options-stop :
    (o : Opt) (os : List Opt) (p : Paths) {rc : ℤ}
    → read_option o p ≡ some (inr rc)
    → read_options (o ∷ os) p ≡ some (inr rc)
unfolding read_options
read_options-stop o os p e = rw (e, read_options) refl

pub read_options-Parses :
    (e l : Name) (os : List Opt) (r : Option (Name × Name))
    → Parses e l os r
    → read_options os (paths e l) ≡ some (parsed r)
unfolding read_options read_option
read_options-Parses e l [] r last = refl
read_options-Parses e l (o ∷ os) r (exec {a = a} p h) =
    read_options-step (opt_e, a) os (paths [] l) (paths a l)
      (read_option-e (paths [] l) a (read_exec path_max a p.1))
    ∙ read_options-Parses a l os r h
read_options-Parses e l (o ∷ os) r (libs {a = a} p h) =
    read_options-step (opt_l, a) os (paths e []) (paths e a)
      (read_option-l (paths e []) a (read_exec path_max a p.1))
    ∙ read_options-Parses e a os r h
read_options-Parses e l (o ∷ os) r (help h) = read_options-Parses e l os r h
read_options-Parses e l (o ∷ os) r (unknown {a = a} {c = c} x y z) =
    read_options-stop (c, a) os (paths e l) (read_option-unknown (paths e l) a c x y z)

-- What is given are paths.
abbrev pub ArePaths : Option (Name × Name) → Type 0
ArePaths none = Unit
ArePaths (some (e, l)) = IsPath e × IsPath l

Parses-ArePaths :
    (e l : Name) (os : List Opt) (r : Option (Name × Name))
    → Parses e l os r
    → IsPath e
    → IsPath l
    → ArePaths r
Parses-ArePaths e l [] r last pe pl = (pe, pl)
Parses-ArePaths e l (o ∷ os) r (exec {a = a} p h) pe pl = Parses-ArePaths a l os r h p pl
Parses-ArePaths e l (o ∷ os) r (libs {a = a} p h) pe pl = Parses-ArePaths e a os r h pe p
Parses-ArePaths e l (o ∷ os) r (help h) pe pl = Parses-ArePaths e l os r h pe pl
Parses-ArePaths e l (o ∷ os) r (unknown x y z) pe pl = tt

run_with-run_on :
    (main_thread : Name → Name → Option ℤ) (e l : Name)
    → IsPath e
    → IsPath l
    → run_with main_thread (paths e l) ≡ run_on main_thread (some (e, l))
unfolding run_with
run_with-run_on mt [] l pe pl = refl
run_with-run_on mt (b ∷ e) [] pe pl = rw (pe.0.0) refl
run_with-run_on mt (b ∷ e) (c ∷ l) pe pl =
    rw
      (
        pe.0.0,
        pl.0.0,
        over_zeros-text path_max (b ∷ e) pe.0 pe.1,
        over_zeros-text path_max (c ∷ l) pl.0 pl.1,
      )
      refl

pub main-read :
    (main_thread : Name → Name → Option ℤ) (os : List Opt) (r : Option (Name × Name))
    → read_options os no_paths ≡ some (parsed r)
    → ArePaths r
    → main main_thread os ≡ run_on main_thread r
unfolding main
main-read mt os none e h = rw (e, main) refl
main-read mt os (some (x, l)) e h = rw (e, main) (run_with-run_on mt x l h.0 h.1)

-- Where `-e` and `-l` are not repeated and their arguments fit the arrays, in any order and with any
-- number of `-h`: an unknown option, a missing option or an empty argument is answered with EINVAL,
-- and otherwise the main thread runs on just the two arguments.
pub main_lem :
    (main_thread : Name → Name → Option ℤ) (os : List Opt) (r : Option (Name × Name))
    → Parses [] [] os r
    → main main_thread os ≡ run_on main_thread r
main_lem mt os r h =
    main-read mt os r (read_options-Parses [] [] os r h)
      (Parses-ArePaths [] [] os r h (tt, omega arith) (tt, omega arith))
