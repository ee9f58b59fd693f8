-- ===== src/Examples/Searches.antt =====
-- The search of a directory with a file and a subdirectory.
use libscout.Prelude.{
  Bool-cases, einval, ◌≡◌, refl, ◌⊎◌, inl, inr, none, some, true, List, [], ◌∷◌, ◌++◌, In, Name,
  name_eq, if◌then◌else◌, ℤ, exit_success, enoent, subst,
}
use libscout.Elf.Descr.{ElfFileDescr}
use libscout.Cache.{SymCache}
use libscout.Filled.{exports, populated, FilledFrom, search_fills}
use libscout.Examples.Data.{foo, file64}
use libscout.Examples.Files.{exports_of_file64}
use libscout.Examples.Caches.{syms, libs, all_ok, inserts, allocs_work}
use libscout.Program.{MainAllocs}
use libscout.Search.{DirEntry, new_lib_path, visit_file, visit_entry, read_entries, search_for_lib}
use libscout.Search.Found.{IsSubdir, IsLibPath, HasDepth, readable, Ends, search_for_lib_lem}

-- `l`, and `l/s` below it.
abbrev top : Name
top = 108 ∷ []

abbrev sub : Name
sub = 108 ∷ 47 ∷ 115 ∷ []

abbrev dot : DirEntry
dot = record { d_type = 4; d_name = 46 ∷ [] }

abbrev subdir : DirEntry
subdir = record { d_type = 4; d_name = 115 ∷ [] }

abbrev file : Name → DirEntry
file n = record { d_type = 8; d_name = n }

abbrev in_top : List DirEntry
in_top = dot ∷ file (97 ∷ []) ∷ subdir ∷ []

opendir : Name → List DirEntry ⊎ ℤ
unfolding name_eq
opendir p =
    if name_eq p top
    then inl in_top
    else if name_eq p sub
    then inl (file (98 ∷ []) ∷ [])
    else inr enoent

-- Each name matches.
abbrev regexec : Name → ℤ
regexec n = exit_success

abbrev collect : List Name → Name → List Name
collect ps p = ps ++ p ∷ []

-- The paths `l/a` and `l/s/b`.
two_files :
    search_for_lib opendir regexec collect 2 top []
    ≡ some (exit_success, (108 ∷ 47 ∷ 97 ∷ []) ∷ (108 ∷ 47 ∷ 115 ∷ 47 ∷ 98 ∷ []) ∷ [])
unfolding opendir search_for_lib read_entries visit_entry visit_file new_lib_path name_eq
two_files = refl

sub-HasDepth : HasDepth opendir regexec 1 sub
unfolding opendir
sub-HasDepth = readable refl below_sub
  where
    below_sub :
        (e : DirEntry)
        → In e (file (98 ∷ []) ∷ [])
        → IsSubdir e
        → HasDepth opendir regexec 0 (new_lib_path sub e.d_name)
    below_sub e (inl q) s = absurd (let f = subst IsSubdir q s in cc f.0)
    below_sub e (inr m) s = elim m [ ]

top-HasDepth : HasDepth opendir regexec 2 top
unfolding opendir new_lib_path name_eq
top-HasDepth = readable refl below_top
  where
    below_top :
        (e : DirEntry)
        → In e in_top
        → IsSubdir e
        → HasDepth opendir regexec 1 (new_lib_path top e.d_name)
    below_top e (inl q) s = absurd (let f = subst IsSubdir q s in cc f.1)
    below_top e (inr (inl q)) s = absurd (let f = subst IsSubdir q s in cc f.0)
    below_top e (inr (inr (inl q))) s = rw q sub-HasDepth
    below_top e (inr (inr (inr m))) s = elim m [ ]

search_for_lib_lem_example :
    Ends opendir regexec collect
      (IsLibPath opendir regexec top)
      []
      (search_for_lib opendir regexec collect 2 top [])
search_for_lib_lem_example = search_for_lib_lem opendir regexec collect 2 top [] top-HasDepth

-- `l/a` is the only file that can be parsed.
parse : Name → ElfFileDescr ⊎ ℤ
unfolding name_eq
parse f = if name_eq f (108 ∷ 47 ∷ 97 ∷ []) then inl file64 else inr einval

defined_by : Name → List Name
unfolding name_eq
defined_by f = if name_eq f (108 ∷ 47 ∷ 97 ∷ []) then foo ∷ [] else []

defined_by_lem : (f : Name) → exports (parse f) ≡ some (defined_by f)
unfolding parse defined_by
defined_by_lem f = elim (Bool-cases (name_eq f (108 ∷ 47 ∷ 97 ∷ []))) [
  | inl hit ↦ rw hit exports_of_file64
  | inr miss ↦ rw miss refl
]

search_fills_example :
    (rc : ℤ) × (c : SymCache syms libs) × (search_for_lib opendir regexec
        (populated syms libs (λ _. all_ok) parse)
        2
        top
        (some (record { cache = libs.init; heap = λ _. syms.init; next = 0 }))
      ≡ some (rc, some c))
    × FilledFrom syms libs
        (λ _. all_ok)
        parse
        inserts
        allocs_work
        defined_by
        defined_by_lem
        (IsLibPath opendir regexec top)
        rc
        c
search_fills_example =
    search_fills syms libs (λ _. all_ok) parse inserts allocs_work defined_by defined_by_lem opendir
      regexec (λ _. syms.init) 0 2 top top-HasDepth

abbrev all_allocated : MainAllocs
all_allocated = record {
  cache = true;
  stale = true;
  tree = true;
  avl_init = none;
  user_data = true;
  file_name = true;
  lib_path = true;
  ctx = true;
  buffer = true;
}
