-- ===== src/Program/Start.antt =====
-- The main thread (main.c) up to the call of resolve_undefined_sym.
use libscout.Prelude.{
  ℕ, ◌≡◌, sym as flip, true, false, ◌⊎◌, Option, none, some, List, Name, ℤ, exit_success,
}
use libscout.Avl.{SymAvl}
use libscout.Elf.Descr.{ElfFileDescr}
use libscout.Cache.{LibAvl, Allocs, SymCache, rc_is_success}
use libscout.Cache.Populate.{AllocsWork, InsertsWork}
use libscout.Search.{DirEntry}
use libscout.Search.Found.{IsLibPath}
use libscout.Filled.{exports, FilledFrom}
use libscout.Program.{MainAllocs, MainEnd, returned, joined, waiting, faulted}

-- `init_tree` succeeds: its memory is there, and `avl2_init` returns the tree, or NULL without an error.
abbrev pub TreeWorks : MainAllocs → Type 0
TreeWorks m = (m.tree ≡ true) × ((m.avl_init ≡ none) ⊎ (m.avl_init ≡ some exit_success))

-- Nothing fails before the resolver.
pub record AllWork (m : MainAllocs) (regcomp found : ℤ) : Type 0 where
  pub cache : m.cache ≡ true
  pub tree : TreeWorks m
  pub compiled : regcomp ≡ exit_success
  pub searched : found ≡ exit_success
  pub user_data : m.user_data ≡ true
  pub file_name : m.file_name ≡ true
  pub lib_path : m.lib_path ≡ true
  pub ctx : m.ctx ≡ true
  pub buffer : m.buffer ≡ true

module _ {S : Type 0} (m : MainAllocs) (regcomp found : ℤ) (call : S × Name × Name)
    (answer : Option ℤ) where
  -- How `main_thread` ends: with an error code, where something fails before the resolver; with a
  -- fault, where the tree of the cache cannot be made and the pointer to it is not NULL by chance; and
  -- else with what the resolver answers, or never.
  pub data Outcome : MainEnd S → Type 0 where
    fails :
        {rc : ℤ} → rc_is_success rc ≡ false → (AllWork m regcomp found → ⊥) → Outcome (returned rc)
    faults : m.cache ≡ true → (TreeWorks m → ⊥) → m.stale ≡ true → Outcome faulted
    joins : {rc : ℤ} → AllWork m regcomp found → answer ≡ some rc → Outcome (joined call rc)
    waits : AllWork m regcomp found → answer ≡ none → Outcome (waiting call)

  abbrev pub Ends : Option (MainEnd S) → Type 0
  Ends r = (e : MainEnd S) × (r ≡ some e) × Outcome e

module _ (sym_avl : SymAvl) (lib_avl : LibAvl) (a : ℕ → Allocs) (parse : Name → ElfFileDescr ⊎ ℤ)
    (ins : InsertsWork sym_avl lib_avl) (ok : AllocsWork sym_avl lib_avl a)
    (defined_by : Name → List Name) (stored : (f : Name) → exports (parse f) ≡ some (defined_by f))
    (opendir : Name → List DirEntry ⊎ ℤ) (regexec : Name → ℤ) where
  abbrev Cached : Type 0
  Cached = SymCache sym_avl lib_avl

  -- The search returns, with a cache that is filled from the library files below the path, and
  -- `main_thread` ends as the outcome says.
  pub record Starts (m : MainAllocs) (regcomp : ℤ)
      (resolve_undefined_sym : Option Cached → Name → Name → Option ℤ) (fn lib_path : Name)
      (r : Option (MainEnd (Option Cached))) : Type 0 where
    pub found : ℤ
    pub cache : Cached
    pub filled :
        FilledFrom sym_avl lib_avl a parse ins ok defined_by stored
          (IsLibPath opendir regexec lib_path)
          found
          cache
    pub end : MainEnd (Option Cached)
    pub ends : r ≡ some end
    pub outcome :
        Outcome m regcomp found
          (some cache, fn, lib_path)
          (resolve_undefined_sym (some cache) fn lib_path)
          end
