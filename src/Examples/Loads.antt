-- ===== src/Examples/Loads.antt =====
-- process_elf_file and the notes of a core file, on small files.
use libscout.Prelude.{
  In, ◌≡◌, refl, ◌⊎◌, inl, inr, some, List, [], ◌∷◌, replicate, name_eq, Name, ℤ, pos, einval, done,
  true, false, arith,
}
use libscout.Iter.{iterator_init, visit}
use libscout.Elf.Memory.{load, load_field, Region}
use libscout.Elf.Descr.{ElfStrTbl, ElfSymTbl}
use libscout.Elf.Header.{
  get_elf_hdr_phoff, get_elf_hdr_phnum, get_elf_hdr_phentsize, get_elf_hdr_shoff, get_elf_hdr_shnum,
  get_elf_hdr_shentsize, get_elf_sec_hdr_strndx,
}
use libscout.Elf.Tables.{
  get_elf_sec_size, get_elf_sec_offset, get_elf_sec_name_indx, get_elf_sec_hdr_type,
}
use libscout.Elf.Symbol.{get_elf_sym_tab_entry_size}
use libscout.Elf.Symbol.Binding.{Fits}
use libscout.Elf.Strings.{get_elf_sec_name}
use libscout.Elf.Cursor.{Disk, ◌>>=◌, store}
use libscout.Elf.File.{process_elf_file, is_elf}
use libscout.Elf.File.Loaded.{IsLoaded, Yields, process_elf_file_lem}
use libscout.Elf.File.Symbols.{loaded_symbols_inside}
use libscout.Elf.Populate.Image.{StrFrom, SymFrom}
use libscout.Elf.File.Contents.{loaded_contents}
use libscout.Elf.File.Rejects.{not_elf_rejected}
use libscout.Elf.Notes.{process_nt_auxv, auxv_loop, handle_note, walk_notes}
use libscout.Elf.Notes.Auxv.{Auxv, encode_auxv, find_at_base, process_nt_auxv_lem}
use libscout.Elf.Notes.Walk.{Note, encode_note, encode_notes, handle_notes, walk_notes_lem}
use libscout.Examples.Image.{image, image_descr, image_symtab, disk_of, enough_mem}

-- The one file there is.
abbrev open_image : Name → Disk ⊎ ℤ
open_image fn = inl (disk_of image)

image_loads : process_elf_file enough_mem open_image (some (47 ∷ [])) ≡ done (inl image_descr)
unfolding process_elf_file ◌>>=◌ store is_elf load load_field name_eq get_elf_sec_name
    get_elf_sym_tab_entry_size get_elf_hdr_phoff get_elf_hdr_phnum get_elf_hdr_phentsize
    get_elf_hdr_shnum get_elf_hdr_shoff get_elf_hdr_shentsize get_elf_sec_hdr_strndx
    get_elf_sec_size get_elf_sec_offset get_elf_sec_name_indx get_elf_sec_hdr_type
image_loads = refl

process_elf_file_lem_example :
    Yields IsLoaded (process_elf_file enough_mem open_image (some (47 ∷ [])))
process_elf_file_lem_example = process_elf_file_lem enough_mem open_image (some (47 ∷ []))

loaded_symbols_inside_example :
    (table : Region) × (name : Name) × (image_symtab.elf_sym_table ≡ some table)
    × (image_symtab.elf_sym_tbl_name ≡ some name)
    × Fits image_descr (record { table = table; offset = 24 })
unfolding iterator_init visit get_elf_sym_tab_entry_size
loaded_symbols_inside_example =
    loaded_symbols_inside enough_mem open_image (some (47 ∷ [])) image_descr image_symtab
      (record { base_address = 0; element_size = 24; total_number = 2; current_index = 0 }) 24
      image_loads (inl refl) refl (inr (inl refl))

-- A file that begins with "#!".
abbrev script : Region
script = 35 ∷ 33 ∷ 47 ∷ []

abbrev open_script : Name → Disk ⊎ ℤ
open_script fn = inl (disk_of script)

not_elf_rejected_example :
    process_elf_file enough_mem open_script (some (47 ∷ [])) ≡ done (inr einval)
not_elf_rejected_example =
    not_elf_rejected enough_mem open_script (47 ∷ []) (disk_of script) script (replicate 72 0)
      (replicate 64 0) refl refl refl refl (λ h. cc h.mag0)

-- A page size, the base address and the end; what follows the end is not looked at.
abbrev vector : Auxv
vector = (6, 4096) ∷ (7, 0x7f0000000000) ∷ (0, 0) ∷ (7, 1) ∷ []

process_nt_auxv_lem_example :
    process_nt_auxv true (encode_auxv 8 vector) (pos 64) 0 ≡ done 0x7f0000000000
unfolding encode_auxv find_at_base
process_nt_auxv_lem_example =
    process_nt_auxv_lem true vector 0 (refl, refl, (refl, refl, (refl, refl, (refl, refl, tt))))

-- The vector of a 32-bit process in a note of the name "CORE", behind a note of another type.
abbrev core_notes : List Note
core_notes =
    record { type = 1; name = 67 ∷ 79 ∷ 82 ∷ 69 ∷ 0 ∷ []; descr = 1 ∷ [] }
    ∷ record {
      type = 6;
      name = 67 ∷ 79 ∷ 82 ∷ 69 ∷ 0 ∷ [];
      descr = encode_auxv 4 ((7, 4096) ∷ (0, 0) ∷ []);
    }
    ∷ []

walk_notes_lem_example :
    walk_notes false (encode_notes core_notes) (pos 60) (λ k. (true, true)) 0 ≡ done (pos 0, 4096)
unfolding encode_note encode_notes encode_auxv handle_notes handle_note auxv_loop process_nt_auxv
    load
walk_notes_lem_example =
    walk_notes_lem false core_notes (λ k. (true, true)) 0 (λ k. refl) (omega arith)
      ((refl, omega arith), ((refl, omega arith), tt))

loaded_contents_example :
    ((t : ElfStrTbl) → In t image_descr.elf_str_tbls → StrFrom image image_descr t)
    × ((u : ElfSymTbl) → In u image_descr.elf_sym_tbls → SymFrom image image_descr u)
loaded_contents_example =
    loaded_contents enough_mem open_image (47 ∷ []) (disk_of image) image image_descr refl
      (record { reads = λ at n. refl; seeks = λ o. refl }) image_loads
