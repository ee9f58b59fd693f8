-- ===== src/Examples/Programs.antt =====
-- The program on small lists of options.
use libscout.Prelude.{◌≡◌, refl, Option, some, [], ◌∷◌, Name, ℤ, pos, length, ◌+◌, ◌*◌, arith}
use libscout.Program.{main}
use libscout.Program.Options.{last, exec, libs, help, main_lem}
use libscout.Program.Repeated.{main_repeated}

-- Its code tells the lengths of the two names.
abbrev thread : Name → Name → Option ℤ
thread fn lib_path = some (pos (10 * length fn + length lib_path))

-- `-h -l c -e ab`
main_lem_example :
    main thread ((104, []) ∷ (108, 99 ∷ []) ∷ (101, 97 ∷ 98 ∷ []) ∷ []) ≡ some (pos 21)
main_lem_example =
    main_lem thread ((104, []) ∷ (108, 99 ∷ []) ∷ (101, 97 ∷ 98 ∷ []) ∷ [])
      (some (97 ∷ 98 ∷ [], 99 ∷ []))
      (help (libs ((refl, tt), omega arith) (exec ((refl, (refl, tt)), omega arith) last)))

-- `-e xb -e a -l c`
main_repeated_example :
    main thread ((101, 120 ∷ 98 ∷ []) ∷ (101, 97 ∷ []) ∷ (108, 99 ∷ []) ∷ []) ≡ some (pos 21)
main_repeated_example =
    main_repeated thread (120 ∷ 98 ∷ []) (99 ∷ []) 97 [] ((refl, (refl, tt)), omega arith)
      ((refl, tt), omega arith) ((refl, tt), omega arith) (omega arith)
