-- ===== src/Search.antt =====
-- The walk over the library path of search_for_lib.c. `opendir` with `readdir`, and `regexec`, are
-- parameters, and so is what `populate_cache` does to the state; its return code is not used.
pub mod Found
use libscout.Prelude.{
  ℕ, zero, suc, Bool, true, false, ◌||◌, ◌⊎◌, inl, inr, Option, none, some, List, [], ◌∷◌, ◌++◌,
  take, Name, name_eq, ◌==◌, if◌then◌else◌, ℤ, pos, int_eq, exit_success,
}
use libscout.Cache.{rc_is_success}

-- `struct dirent`
pub record DirEntry : Type 0 where
  pub d_type : ℕ
  pub d_name : Name

-- 0x04, DT_DIR
abbrev pub dt_dir : ℕ
dt_dir = 4

abbrev pub reg_nomatch : ℤ
reg_nomatch = pos 1

-- The entries `.` and `..`, which are passed over.
abbrev pub is_dots : Name → Bool
is_dots n = name_eq n (46 ∷ []) || name_eq n (46 ∷ 46 ∷ [])

-- `snprintf(new_lib_path, PATH_MAX, "%s/%s", ...)`, which cuts a long path.
unfoldable pub new_lib_path : Name → Name → Name
new_lib_path lib_path d_name = take 4095 (lib_path ++ 47 ∷ d_name)

module _ {S : Type 0} (opendir : Name → List DirEntry ⊎ ℤ) (regexec : Name → ℤ)
    (populate : S → Name → S) where
  -- A return code and the state; `none` is a lack of fuel.
  abbrev pub Result : Type 0
  Result = Option (ℤ × S)

  -- A file: without a match it is passed over, and an error of `regexec` ends the search.
  unfoldable pub visit_file : Name → Name → S → ℤ × S
  visit_file lib_path d_name s =
      if int_eq (regexec d_name) reg_nomatch
      then (exit_success, s)
      else if rc_is_success (regexec d_name)
      then (exit_success, populate s (new_lib_path lib_path d_name))
      else (regexec d_name, s)

  unfoldable pub visit_entry : (Name → S → Result) → Name → DirEntry → S → Result
  unfolding visit_file
  visit_entry search lib_path e s =
      if e.d_type == dt_dir
      then if is_dots e.d_name
        then some (exit_success, s)
        else search (new_lib_path lib_path e.d_name) s
      else some (visit_file lib_path e.d_name s)

  -- The loop over the entries; `search` is the recursive call.
  unfoldable pub read_entries : (Name → S → Result) → Name → List DirEntry → S → Result
  unfolding visit_entry
  read_entries search lib_path [] s = some (exit_success, s)
  read_entries search lib_path (e ∷ es) s = elim (visit_entry search lib_path e s) [
    | none ↦ none
    | some r ↦ if rc_is_success r.0 then read_entries search lib_path es r.1 else some r
  ]

  -- `search_for_lib`; the fuel bounds the depth of the directories.
  unfoldable pub search_for_lib : ℕ → Name → S → Result
  unfolding read_entries
  search_for_lib zero lib_path s = none
  search_for_lib (suc fuel) lib_path s = elim (opendir lib_path) [
    | inr errno ↦ some (errno, s)
    | inl entries ↦ read_entries (search_for_lib fuel) lib_path entries s
  ]
