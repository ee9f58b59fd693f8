-- ===== src/Examples/Blocks.antt =====
-- Contexts and descriptors on a few blocks.
use mathlib.Core.List.{reverse, reverse_perm}
use libscout.Prelude.{◌≡◌, refl, true, false, Option, none, some, List, [], ◌∷◌, ltb, arith}
use libscout.Owned.Trees.{for_each, Avl2Destroy, OwnedSym, OwnedLib, OwnedCache, destroy_cache}
use libscout.Owned.Trees.Each.{Gone}
use libscout.Owned.Trees.Destroyed.{cache_blocks, destroy_cache-Frees}
use libscout.Owned.{Blocks, OwnedCtx, SymAllocs, destroy_producer_thread_ctx, create_ctx}
use libscout.Cache.{Allocs}
use libscout.Owned.Stores.{Answers, keep_sym_in_tree}
use libscout.Owned.Stores.Accounted.{After}
use libscout.Owned.Stores.Whole.{keep_sym_in_tree-After}
use libscout.Owned.Created.{AfterCreate, create_ctx-AfterCreate}
use libscout.Owned.Frees.{Without, owned, destroy_producer_thread_ctx-Without}
use libscout.Owned.Descr.{
  OwnedDescr, descr_blocks, free_elf_file_descr, free_elf_file_descr-Without,
}

-- The blocks 0 to 5 are live.
abbrev six : Blocks
six = record { live = λ q. ltb q 6; next = 6 }

-- One name is left in the buffer.
abbrev context : OwnedCtx
context = record { ctx = 0; buffer = 1; slots = none ∷ some 2 ∷ []; user_data = some 3 }

destroy_producer_thread_ctx-Without_example :
    (b' : Blocks) × (destroy_producer_thread_ctx (some context) six ≡ some b')
    × Without (owned context) six b'
destroy_producer_thread_ctx-Without_example =
    destroy_producer_thread_ctx-Without context six (refl, (refl, (refl, (refl, tt))))
      (λ q m. ground arith)

abbrev all_four : SymAllocs
all_four = record {
  producer_ctx = true;
  thread_user_data = true;
  file_name = true;
  lib_path = true;
}

-- A descriptor with one string table and no program headers.
abbrev descriptor : OwnedDescr
descriptor = record {
  descr = 0;
  elf_hdr = some 1;
  elf_pg_hdr = none;
  elf_sec_hdr = some 2;
  elf_str_tbls = some (3, (some 4, some 5) ∷ []);
  elf_sym_tbls = none;
}

free_elf_file_descr-Without_example :
    (b' : Blocks) × (free_elf_file_descr (some descriptor) six ≡ some b')
    × Without (descr_blocks descriptor) six b'
free_elf_file_descr-Without_example =
    free_elf_file_descr-Without descriptor six (refl, (refl, (refl, (refl, (refl, (refl, tt))))))
      (λ q m. ground arith)

-- A tree library that takes the nodes from the last to the first.
abbrev from_last : {N : Type 0} → (N → Blocks → Option Blocks) → List N → Blocks → Option Blocks
from_last f ns b = for_each f (reverse ns) b

abbrev last_first : Avl2Destroy
last_first = record {
  destroy = λ f ns b. elim f [ none ↦ some b | some g ↦ from_last g ns b ];
  order = λ ns. reverse ns;
  order-Perm = λ ns. reverse_perm ns;
  calls = λ f ns b. refl;
}

-- Two symbols, 3 with its name and 4 whose name is NULL, in the tree 2 of the library 1.
abbrev two_syms : List OwnedSym
two_syms = record { node = 3; sym_name = some 5 } ∷ record { node = 4; sym_name = none } ∷ []

abbrev library : OwnedLib
library = record { node = 1; defined = some (2, two_syms); undefined = none }

abbrev owned_cache : OwnedCache
owned_cache = record { cache = 0; tree = some (6, library ∷ []) }

abbrev seven : Blocks
seven = record { live = λ q. ltb q 7; next = 7 }

destroy_cache-Frees_example :
    (b' : Blocks) × (destroy_cache last_first (some owned_cache) seven ≡ some b')
    × Gone (cache_blocks owned_cache) seven b'
destroy_cache-Frees_example = destroy_cache-Frees last_first owned_cache seven (λ q. ground arith)

create_ctx-AfterCreate_example : AfterCreate six (create_ctx true false six)
create_ctx-AfterCreate_example = create_ctx-AfterCreate true false six (λ q h. ground arith)

-- All allocations succeed; the library is new, and cannot be inserted into the tree.
abbrev allocs_succeed : Allocs
allocs_succeed = record {
  sym_node = true;
  sym_name = true;
  lib_node = true;
  tree = true;
  avl_init = none;
}

abbrev not_inserted : Answers
not_inserted = record {
  lib_found = false;
  lib_inserted = false;
  sym_found = false;
  sym_inserted = true;
}

keep_sym_in_tree-After_example :
    After six allocs_succeed (keep_sym_in_tree allocs_succeed not_inserted six)
keep_sym_in_tree-After_example =
    keep_sym_in_tree-After allocs_succeed not_inserted six (λ q h. ground arith)
