-- ===== src/Examples/Reads.antt =====
-- process_elf_file on a shared object that is what its headers say.
use libscout.Prelude.{
  ℕ, ◌^◌, ◌≡◌, refl, true, ltb, some, ◌⊎◌, inl, inr, [], ◌∷◌, replicate, Name, name_eq, ℤ, done,
  arith,
}
use libscout.Elf.Memory.{Region, load, load_field}
use libscout.Elf.Header.{
  get_elf_hdr_phoff, get_elf_hdr_phnum, get_elf_hdr_phentsize, get_elf_hdr_shoff, get_elf_hdr_shnum,
  get_elf_hdr_shentsize, get_elf_sec_hdr_strndx,
}
use libscout.Elf.Tables.{
  get_elf_sec_size, get_elf_sec_offset, get_elf_sec_name_indx, get_elf_sec_hdr_type,
}
use libscout.Elf.Symbol.{get_elf_sym_tab_entry_size}
use libscout.Elf.Strings.Reads.{c_string}
use libscout.Elf.Notes.{process_nt_auxv, auxv_loop, handle_note}
use libscout.Elf.Notes.Walk.{encode_note, encode_notes, handle_notes}
use libscout.Elf.Cursor.{Disk}
use libscout.Elf.Cursor.Gets.{EnoughMem, IsImage}
use libscout.Elf.Populate.Succeeds.{IsGood}
use libscout.Elf.File.{process_elf_file, is_elf}
use libscout.Elf.File.NoteSegments.{HasSegs}
use libscout.Elf.File.Readable.{HasSecs}
use libscout.Elf.File.Succeeds.{IsElfFile, process_elf_file_reads}
use libscout.Examples.Image.{disk_of, enough_mem}
use libscout.Examples.Shared.{
  names, object, segment, names_section, sections, header_descr, segments_descr, headers_descr,
  object_descr,
}

pub enough_mem-EnoughMem : EnoughMem enough_mem
enough_mem-EnoughMem k n small =
    let fits : ltb n (2 ^ 63) ≡ true = ground arith in (replicate n 0, rw fits refl)

pub disk_of-IsImage : (image : Region) → IsImage (disk_of image) image
disk_of-IsImage image = record { reads = λ at n. refl; seeks = λ o. refl }

object-HasSegs : (s : ℕ) → HasSegs (object s) header_descr (segment ∷ []) 4096
unfolding load load_field get_elf_hdr_phoff get_elf_hdr_phnum get_elf_hdr_phentsize encode_note
    encode_notes handle_notes handle_note process_nt_auxv auxv_loop
object-HasSegs s = record {
  start = 64;
  at_start = refl;
  behind_header = omega arith;
  counted = refl;
  any = omega arith;
  size = 56;
  sized = refl;
  not_empty = omega arith;
  inside_file = omega arith;
  described = (
    refl,
    λ _. record {
      filesz = refl;
      at_offset = refl;
      small = omega arith;
      small_offset = omega arith;
      holds = refl;
      full = ((refl, omega arith), tt);
    },
    (4096, refl, refl),
  );
}

names_section-IsGood : (s : ℕ) → IsGood headers_descr (object s) names 3 names_section
unfolding load load_field c_string get_elf_hdr_shnum get_elf_sec_size get_elf_sec_offset
    get_elf_sec_name_indx
names_section-IsGood s = record {
  sized = refl;
  at_offset = refl;
  not_empty = omega arith;
  behind_start = omega arith;
  inside_file = omega arith;
  at = 17;
  indexed = refl;
  inside = omega arith;
  named = refl;
}

object-HasSecs : (s : ℕ) → HasSecs (object s) segments_descr sections
unfolding load load_field c_string get_elf_hdr_shoff get_elf_hdr_shnum get_elf_hdr_shentsize
    get_elf_sec_hdr_strndx get_elf_sec_size get_elf_sec_offset get_elf_sec_name_indx
    get_elf_sec_hdr_type
object-HasSecs s = record {
  counted = refl;
  any = omega arith;
  start = 244;
  at_start = refl;
  behind_header = omega arith;
  size = 64;
  sized = refl;
  fits = omega arith;
  inside_file = omega arith;
  x = 3;
  names_at = refl;
  not_first = omega arith;
  counted_in = omega arith;
  names = names_section;
  good_names = names_section-IsGood s;
  described =
      ((
        refl,
        λ e. absurd (ground arith),
        (
          refl,
          λ _. record {
            sized = refl;
            at_offset = refl;
            not_empty = omega arith;
            behind_start = omega arith;
            inside_file = omega arith;
            at = 1;
            indexed = refl;
            inside = omega arith;
            named = refl;
          },
          (
            refl,
            λ _. record {
              sized = refl;
              at_offset = refl;
              not_empty = omega arith;
              behind_start = omega arith;
              inside_file = omega arith;
              at = 9;
              indexed = refl;
              inside = omega arith;
              named = refl;
            },
            (refl, λ _. names_section-IsGood s, tt),
          ),
        ),
      ));
}

pub object-IsElfFile : (s : ℕ) → IsElfFile (object s) (object_descr s)
unfolding is_elf name_eq get_elf_sym_tab_entry_size object-HasSegs object-HasSecs
object-IsElfFile s = record {
  long = omega arith;
  elf = refl;
  middle = segments_descr;
  segments = inr (segment ∷ [], 4096, object-HasSegs s, refl);
  sections = inr (sections, object-HasSecs s, refl);
}

abbrev open_object : Name → Disk ⊎ ℤ
open_object fn = inl (disk_of (object 5))

process_elf_file_reads_example :
    process_elf_file enough_mem open_object (some (47 ∷ [])) ≡ done (inl (object_descr 5))
process_elf_file_reads_example =
    process_elf_file_reads enough_mem open_object (47 ∷ []) (disk_of (object 5)) (object 5)
      (object_descr 5) enough_mem-EnoughMem (λ k. refl) refl (disk_of-IsImage (object 5))
      (object-IsElfFile 5)
