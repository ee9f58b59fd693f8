-- ===== src/Elf/File/Symbols.antt =====
-- The loops over symbols and the accessors of section headers (elf_lib_funcs.c) on a descriptor that
-- process_elf_file made.
use libscout.Prelude.{
  ℕ, zero, suc, ◌+◌, ◌*◌, ◌/◌, ◌≤◌, ◌<◌, ◌≡◌, ap, subst, true, false, ◌⊎◌, inl, inr, Option, some,
  In, length, Name, ℤ, to_u64, done, arith,
}
use libscout.Iter.{Iterator, iterator_init, visit}
use libscout.Iter.Walk.{addresses, visit_all}
use libscout.Elf.Memory.{Region}
use libscout.Elf.Descr.{ElfFileDescr, ElfSymTbl}
use libscout.Elf.Symbol.{get_elf_sym_tab_entry_size}
use libscout.Elf.Symbol.Binding.{Fits}
use libscout.Elf.Cursor.{Disk, Mem}
use libscout.Elf.Populate.Loaded.{All-In, IsSymTable}
use libscout.Elf.File.{process_elf_file}
use libscout.Elf.File.Loaded.{IsLoaded, Yields, process_elf_file_lem}

-- Every address that is listed for whole elements leaves room for its element.
addresses-In :
    (size i n a : ℕ) → In a (addresses 0 size i n) → (k : ℕ) × (k < i + n) × (a ≡ size * k)
addresses-In size i zero a m = elim m [ ]
addresses-In size i (suc n) a (inl e) = (i, omega arith, omega (arith, e))
addresses-In size i (suc n) a (inr m) =
    let (k, below, at) = addresses-In size (i + 1) n a m in (k, omega arith, at)

element_inside : (size n l k : ℕ) → n * size ≤ l → k < n → size * k + size ≤ l
element_inside size n l k h lt = grind arith

div_inside :
    (l : ℕ) (d : ElfFileDescr) → l / get_elf_sym_tab_entry_size d * get_elf_sym_tab_entry_size d ≤ l
unfolding get_elf_sym_tab_entry_size
div_inside l d =
    elim d.is_64bit
      as (λ b.
        l
          / (elim b as (λ x. ℕ) [ true ↦ 24 | false ↦ 16 ])
          * (elim b as (λ x. ℕ) [ true ↦ 24 | false ↦ 16 ])
        ≤ l) [ true ↦ omega arith | false ↦ omega arith ]

visited_inside :
    (d : ElfFileDescr) (t : ElfSymTbl) (iter : Iterator) (a : ℕ)
    → (h : IsSymTable (get_elf_sym_tab_entry_size d) t)
    → iterator_init true (some 0) (get_elf_sym_tab_entry_size d) (to_u64 t.elf_sym_tbl_num_entry)
      ≡ some iter
    → In a (visit (suc (to_u64 t.elf_sym_tbl_num_entry)) iter)
    → Fits d (record { table = h.table; offset = a })
visited_inside d t iter a h made m =
    let size = get_elf_sym_tab_entry_size d in
    let number : to_u64 t.elf_sym_tbl_num_entry ≡ length h.table / size = ap to_u64 h.entries in
    let all =
      visit_all (suc (to_u64 t.elf_sym_tbl_num_entry)) 0 size (to_u64 t.elf_sym_tbl_num_entry) made
        (omega arith) in
    let (k, below, at) =
      addresses-In size 0 (to_u64 t.elf_sym_tbl_num_entry) a (subst (In a) all m) in
    rw at (
      element_inside size (length h.table / size) (length h.table) k (div_inside (length h.table) d)
        (omega (arith, number)))

-- In a descriptor that process_elf_file gives, every symbol table has its bytes and its name, and the
-- loops over its symbols, through an iterator for the number of its entries, only visit entries that
-- lie wholly inside these bytes.
pub loaded_symbols_inside :
    (mem : Mem) (open_file : Name → Disk ⊎ ℤ) (fn : Option Name) (d : ElfFileDescr) (t : ElfSymTbl)
    (iter : Iterator) (offset : ℕ)
    → process_elf_file mem open_file fn ≡ done (inl d)
    → In t d.elf_sym_tbls
    → iterator_init true (some 0) (get_elf_sym_tab_entry_size d) (to_u64 t.elf_sym_tbl_num_entry)
      ≡ some iter
    → In offset (visit (suc (to_u64 t.elf_sym_tbl_num_entry)) iter)
    → (table : Region) × (name : Name) × (t.elf_sym_table ≡ some table)
      × (t.elf_sym_tbl_name ≡ some name)
      × Fits d (record { table = table; offset = offset })
loaded_symbols_inside mem open_file fn d t iter offset gives listed made visited =
    let l : IsLoaded d = subst (Yields IsLoaded) gives (process_elf_file_lem mem open_file fn) in
    let h = All-In (IsSymTable (get_elf_sym_tab_entry_size d)) d.elf_sym_tbls t l.symbols listed in
    (h.table, h.name, h.has_table, h.named, visited_inside d t iter offset h made visited)
