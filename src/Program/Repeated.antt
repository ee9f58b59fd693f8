-- ===== src/Program/Repeated.antt =====
-- A repeated option of `main` (main.c).
use mathlib.Core.List.{append_assoc}
use libscout.Prelude.{
  ℕ, zero, suc, ◌-◌, ◌≤◌, ◌≡◌, refl, ◌∙◌, sym as flip, ap, Option, some, [], ◌∷◌, ◌++◌, length,
  length-append, length-drop, drop, replicate, Name, ℤ, arith,
}
use libscout.Elf.Memory.{Region}
use libscout.Elf.Cursor.{store}
use libscout.Elf.Cursor.Zeros.{over_zeros, store-start}
use libscout.Cache.{path_max}
use libscout.Program.{opt_e, opt_l, main}
use libscout.Program.Options.{
  IsText, IsPath, last, paths, run_on, read_exec, read_option-e, read_option-l, read_options-step,
  read_options-Parses, main-read,
}

drop-append : (n : ℕ) (a z : Region) → n ≤ length a → drop n (a ++ z) ≡ drop n a ++ z
drop-append zero a z h = refl
drop-append (suc n) [] z h = absurd (omega arith)
drop-append (suc n) (b ∷ a) z h = drop-append n a z (omega arith)

length-rest : (b a : Name) → length b ≤ length a → length (b ++ drop (length b) a) ≡ length a
length-rest b a h = omega (arith, length-append b (drop (length b) a), length-drop (length b) a)

IsText-drop : (n : ℕ) (a : Name) → IsText a → IsText (drop n a)
IsText-drop zero a h = h
IsText-drop (suc n) [] h = h
IsText-drop (suc n) (b ∷ a) h = IsText-drop n a h.1

IsText-append : (a b : Name) → IsText a → IsText b → IsText (a ++ b)
IsText-append [] b h k = k
IsText-append (x ∷ a) b h k = (h.0, IsText-append a b h.1 k)

-- A shorter path over a longer one.
over_path :
    (n : ℕ) (a b : Name)
    → length b ≤ length a
    → store (over_zeros n a) 0 b ≡ some (over_zeros n (b ++ drop (length b) a))
over_path n a b short =
    let z = replicate (n - length a) 0 in
    store-start (a ++ z) b (omega (arith, length-append a z))
    ∙ ap (λ r. some (b ++ r)) (drop-append (length b) a z short)
    ∙ ap some (flip (append_assoc b (drop (length b) a) z))
    ∙ ap (λ m. some ((b ++ drop (length b) a) ++ replicate (n - m) 0))
        (flip (length-rest b a short))

-- `memcpy` leaves the rest of an earlier argument: with a second `-e` whose argument is not longer
-- than the first one, the main thread runs on the second name with the tail of the first.
pub main_repeated :
    (main_thread : Name → Name → Option ℤ) (a l : Name) (c : ℕ) (b : Name)
    → IsPath a
    → IsPath (c ∷ b)
    → IsPath l
    → suc (length b) ≤ length a
    → main main_thread ((opt_e, a) ∷ (opt_e, c ∷ b) ∷ (opt_l, l) ∷ [])
      ≡ run_on main_thread (some (c ∷ b ++ drop (suc (length b)) a, l))
main_repeated mt a l c b pa pb pl short =
    let mixed = c ∷ b ++ drop (suc (length b)) a in
    main-read mt ((opt_e, a) ∷ (opt_e, c ∷ b) ∷ (opt_l, l) ∷ []) (some (mixed, l))
      (read_options-step (opt_e, a) _ (paths [] []) (paths a [])
          (read_option-e (paths [] []) a (read_exec path_max a pa.1))
        ∙ read_options-step (opt_e, c ∷ b) _ (paths a []) (paths mixed [])
            (read_option-e (paths a []) (c ∷ b) (over_path path_max a (c ∷ b) short))
        ∙ read_options-step (opt_l, l) [] (paths mixed []) (paths mixed l)
            (read_option-l (paths mixed []) l (read_exec path_max l pl.1))
        ∙ read_options-Parses mixed l [] (some (mixed, l)) last)
      (
        (
          IsText-append (c ∷ b) (drop (suc (length b)) a) pb.0
              (IsText-drop (suc (length b)) a pa.0),
          omega (arith, length-rest (c ∷ b) a short, pa.1),
        ),
        pl,
      )
