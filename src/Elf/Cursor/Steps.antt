-- ===== src/Elf/Cursor/Steps.antt =====
-- Single steps of process_elf_file (elf_lib_funcs.c) that succeed.
use libscout.Prelude.{ℕ, suc, ◌+◌, ◌≡◌, refl, inl, some, length, replicate, ℤ, done}
use libscout.Elf.Memory.{Region}
use libscout.Elf.Cursor.{Disk, Mem, Cursor, Load, ◌>>=◌, store, calloc, seek, read_into}

pub >>=-step :
    {A B : Type 0} (m : Load A) (f : A → Load B) (c c' : Cursor) (a : A)
    → m c ≡ done (inl (a, c'))
    → (m >>= f) c ≡ f a c'
unfolding ◌>>=◌
>>=-step m f c c' a e = rw (e, ◌>>=◌) refl

pub calloc-step :
    (mem : Mem) (n : ℕ) (c : Cursor) {r : Region}
    → mem.malloc c.blocks n ≡ some r
    → calloc mem n c ≡ done (inl (replicate n 0, record c { blocks = suc c.blocks }))
calloc-step mem n c e = rw (e, calloc) refl

pub seek-step :
    (disk : Disk) (offset : ℤ) (c : Cursor) {at : ℕ}
    → disk.lseek offset ≡ inl at
    → seek disk offset c ≡ done (inl (tt, record c { at = at }))
seek-step disk offset c e = rw (e, seek) refl

pub read_into-step :
    (disk : Disk) (r : Region) (off n : ℕ) (c : Cursor) {bs r' : Region}
    → disk.read c.at n ≡ inl bs
    → store r off bs ≡ some r'
    → read_into disk r off n c ≡ done (inl (r', record c { at = c.at + length bs }))
read_into-step disk r off n c e s = rw (e, s, read_into) refl
