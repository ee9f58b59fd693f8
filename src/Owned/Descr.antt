-- ===== src/Owned/Descr.antt =====
-- The blocks of an ELF file's descriptor, and free_elf_file_descr (elf_lib_funcs.c).
use libscout.Prelude.{
  ℕ, ◌≡◌, refl, ◌∙◌, ap, sym as flip, Option, none, some, List, [], ◌∷◌, ◌++◌, ◌>>=◌,
}
use libscout.Owned.{Blocks, free, free_all}
use libscout.Owned.Frees.{
  Distinct, AllLive, Without, free_all-Without, free_all-append, >>=-ap, >>=-some,
}

-- Of each table its contents and its name.
abbrev pub OwnedTables : Type 0
OwnedTables = List (Option ℕ × Option ℕ)

-- The pointers of an `elf_file_descr_t`, and the descriptor itself; an array comes with its tables.
pub record OwnedDescr : Type 0 where
  pub descr : ℕ
  pub elf_hdr : Option ℕ
  pub elf_pg_hdr : Option ℕ
  pub elf_sec_hdr : Option ℕ
  pub elf_str_tbls : Option (ℕ × OwnedTables)
  pub elf_sym_tbls : Option (ℕ × OwnedTables)

-- The loop over the tables of an array.
unfoldable pub free_tables : OwnedTables → Blocks → Option Blocks
free_tables [] b = some b
free_tables ((contents, name) ∷ ts) b =
    free contents b >>= λ b1. free name b1 >>= λ b2. free_tables ts b2

-- An array and what it holds.
unfoldable pub free_array : Option (ℕ × OwnedTables) → Blocks → Option Blocks
unfolding free_tables
free_array none b = some b
free_array (some (array, ts)) b = free_tables ts b >>= λ b1. free (some array) b1

-- `free_elf_file_descr`; the second test of `elf_sym_tbls` finds it NULL.
unfoldable pub free_elf_file_descr : Option OwnedDescr → Blocks → Option Blocks
unfolding free_array
free_elf_file_descr none b = some b
free_elf_file_descr (some d) b = free_array d.elf_str_tbls b >>= λ b1.
    free_array d.elf_sym_tbls b1 >>= λ b2. free d.elf_pg_hdr b2 >>= λ b3.
    free d.elf_sec_hdr b3 >>= λ b4. free d.elf_hdr b4 >>= λ b5. free (some d.descr) b5

abbrev pub table_blocks : OwnedTables → List (Option ℕ)
table_blocks [] = []
table_blocks ((contents, name) ∷ ts) = contents ∷ name ∷ table_blocks ts

abbrev pub array_blocks : Option (ℕ × OwnedTables) → List (Option ℕ)
array_blocks none = []
array_blocks (some (array, ts)) = table_blocks ts ++ some array ∷ []

-- All blocks that the descriptor leads to.
abbrev pub descr_blocks : OwnedDescr → List (Option ℕ)
descr_blocks d =
    array_blocks d.elf_str_tbls
    ++ (array_blocks d.elf_sym_tbls ++ d.elf_pg_hdr ∷ d.elf_sec_hdr ∷ d.elf_hdr ∷ some d.descr ∷ [])

free_tables-all : (ts : OwnedTables) (b : Blocks) → free_tables ts b ≡ free_all (table_blocks ts) b
unfolding free_tables free_all
free_tables-all [] b = refl
free_tables-all ((contents, name) ∷ ts) b =
    >>=-ap (free contents b) (λ b1. >>=-ap (free name b1) (λ b2. free_tables-all ts b2))

free_array-all :
    (a : Option (ℕ × OwnedTables)) (b : Blocks) → free_array a b ≡ free_all (array_blocks a) b
unfolding free_array free_all
free_array-all none b = refl
free_array-all (some (array, ts)) b =
    ap (λ o. o >>= λ b1. free (some array) b1) (free_tables-all ts b)
    ∙ >>=-ap (free_all (table_blocks ts) b) (λ b1. >>=-some (free (some array) b1))
    ∙ flip (free_all-append (table_blocks ts) (some array ∷ []) b)

free_descr-all :
    (d : OwnedDescr) (b : Blocks) → free_elf_file_descr (some d) b ≡ free_all (descr_blocks d) b
unfolding free_elf_file_descr free_all
free_descr-all d b =
    let last : List (Option ℕ) = d.elf_pg_hdr ∷ d.elf_sec_hdr ∷ d.elf_hdr ∷ some d.descr ∷ [] in
    let headers : (b2 : Blocks)
        → (free d.elf_pg_hdr b2 >>= λ b3.
            free d.elf_sec_hdr b3 >>= λ b4. free d.elf_hdr b4 >>= λ b5. free (some d.descr) b5)
          ≡ free_all last b2 =
      λ b2. >>=-ap (free d.elf_pg_hdr b2) (λ b3.
        >>=-ap (free d.elf_sec_hdr b3)
          (λ b4. >>=-ap (free d.elf_hdr b4) (λ b5. >>=-some (free (some d.descr) b5)))) in
    let symbols : (b1 : Blocks)
        → (free_array d.elf_sym_tbls b1 >>= λ b2. free_all last b2)
          ≡ free_all (array_blocks d.elf_sym_tbls ++ last) b1 =
      λ b1.
        ap (λ o. o >>= λ b2. free_all last b2) (free_array-all d.elf_sym_tbls b1)
        ∙ flip (free_all-append (array_blocks d.elf_sym_tbls) last b1) in
    >>=-ap (free_array d.elf_str_tbls b)
      (λ b1. >>=-ap (free_array d.elf_sym_tbls b1) headers ∙ symbols b1)
    ∙ ap (λ o. o >>= λ b1. free_all (array_blocks d.elf_sym_tbls ++ last) b1)
        (free_array-all d.elf_str_tbls b)
    ∙ flip (free_all-append (array_blocks d.elf_str_tbls) (array_blocks d.elf_sym_tbls ++ last) b)

-- If the blocks that a descriptor leads to are live and all different, free_elf_file_descr frees just
-- these, each of them once.
pub free_elf_file_descr-Without :
    (d : OwnedDescr) (b : Blocks)
    → Distinct (descr_blocks d)
    → AllLive (descr_blocks d) b
    → (b' : Blocks) × (free_elf_file_descr (some d) b ≡ some b') × Without (descr_blocks d) b b'
free_elf_file_descr-Without d b distinct live =
    let (b', e, w) = free_all-Without (descr_blocks d) b distinct live in
    (b', free_descr-all d b ∙ e, w)
