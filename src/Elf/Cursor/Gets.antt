-- ===== src/Elf/Cursor/Gets.antt =====
-- Steps of process_elf_file (elf_lib_funcs.c) that go on with a value, and what is known of it.
use libscout.Prelude.{
  ℕ, suc, ◌+◌, ◌^◌, ◌<◌, ◌≡◌, refl, ◌∙◌, subst, Bool, true, false, inl, Option, some, length,
  replicate, take, drop, if◌then◌else◌, pos, Run, done,
}
use libscout.Elf.Memory.{Region}
use libscout.Elf.Cursor.{
  Disk, Mem, Cursor, Load, pure, from_run, from_option, ◌>>=◌, store, malloc, calloc, try_malloc,
  seek, read_into,
}
use libscout.Elf.Cursor.Holds.{Gives, Holds}
use libscout.Elf.Cursor.Steps.{>>=-step, calloc-step, seek-step, read_into-step}

-- From the cursor on, the step ends with a value and a cursor that have the property.
pub record Gets {A : Type 0} (c : Cursor) (P : A → Cursor → Type 0) (m : Load A) : Type 0 where
  pub value : A
  pub cursor : Cursor
  pub run : m c ≡ done (inl (value, cursor))
  pub holds : P value cursor

-- A file of these bytes: a read gives what there is of the bytes asked for.
pub record IsImage (disk : Disk) (image : Region) : Type 0 where
  pub reads : (at n : ℕ) → disk.read at n ≡ inl (take n (drop at image))
  pub seeks : (offset : ℕ) → disk.lseek (pos offset) ≡ inl offset

-- No allocation of a block of a possible size fails.
abbrev pub EnoughMem : Mem → Type 0
EnoughMem mem = (k n : ℕ) → n < 2 ^ 63 → (r : Region) × (mem.malloc k n ≡ some r)

pub >>=-Gets :
    {A B : Type 0} {c : Cursor} {P : A → Cursor → Type 0} {Q : B → Cursor → Type 0} {m : Load A}
    {f : A → Load B}
    → Gets c P m
    → ((a : A) (c' : Cursor) → P a c' → Gets c' Q (f a))
    → Gets c Q (m >>= f)
>>=-Gets {c = c} {m = m} {f = f} g k =
    let h = k g.value g.cursor g.holds in
    record {
      value = h.value;
      cursor = h.cursor;
      run = >>=-step m f c g.cursor g.value g.run ∙ h.run;
      holds = h.holds;
    }

pub Gets-map :
    {A : Type 0} {c : Cursor} {P Q : A → Cursor → Type 0} {m : Load A}
    → ((a : A) (c' : Cursor) → P a c' → Q a c')
    → Gets c P m
    → Gets c Q m
Gets-map k g = record {
  value = g.value;
  cursor = g.cursor;
  run = g.run;
  holds = k g.value g.cursor g.holds;
}

-- What holds of any value that the step goes on with.
pub Gets-Holds :
    {A : Type 0} {c : Cursor} {P : A → Cursor → Type 0} {Q : A → Type 0} {m : Load A}
    → Gets c P m
    → Holds Q m
    → Gets c (λ a c'. P a c' × Q a) m
Gets-Holds {c = c} {Q = Q} g h = record {
  value = g.value;
  cursor = g.cursor;
  run = g.run;
  holds = (g.holds, subst (Gives Q) g.run (h.gives c));
}

pub pure-Gets :
    {A : Type 0} {c : Cursor} {P : A → Cursor → Type 0} (a : A) → P a c → Gets c P (pure a)
pure-Gets {c = c} a p = record { value = a; cursor = c; run = refl; holds = p }

-- A value that is read without a fault.
pub read-Gets :
    {A B : Type 0} {c : Cursor} {Q : B → Cursor → Type 0} (o : Option A) (a : A) (f : A → Load B)
    → o ≡ some a
    → Gets c Q (f a)
    → Gets c Q (from_option o >>= f)
read-Gets {c = c} o a f e g = record {
  value = g.value;
  cursor = g.cursor;
  run = >>=-step (from_option o) f c c a (rw e refl) ∙ g.run;
  holds = g.holds;
}

pub run-Gets :
    {A B : Type 0} {c : Cursor} {Q : B → Cursor → Type 0} (o : Run A) (a : A) (f : A → Load B)
    → o ≡ done a
    → Gets c Q (f a)
    → Gets c Q (from_run o >>= f)
run-Gets {c = c} o a f e g = record {
  value = g.value;
  cursor = g.cursor;
  run = >>=-step (from_run o) f c c a (rw e refl) ∙ g.run;
  holds = g.holds;
}

pub then-Gets :
    {A : Type 0} {c : Cursor} {P : A → Cursor → Type 0} (b : Bool) (m m' : Load A)
    → b ≡ true
    → Gets c P m
    → Gets c P (if b then m else m')
then-Gets true m m' e g = g
then-Gets false m m' e g = absurd (cc e)

pub else-Gets :
    {A : Type 0} {c : Cursor} {P : A → Cursor → Type 0} (b : Bool) (m m' : Load A)
    → b ≡ false
    → Gets c P m'
    → Gets c P (if b then m else m')
else-Gets true m m' e g = absurd (cc e)
else-Gets false m m' e g = g

module _ (mem : Mem) (enough : EnoughMem mem) where
  pub malloc-Gets : (n : ℕ) (c : Cursor) → n < 2 ^ 63 → Gets c (λ r c'. length r ≡ n) (malloc mem n)
  malloc-Gets n c small =
      let (r, e) = enough c.blocks n small in
      record {
        value = r;
        cursor = record c { blocks = suc c.blocks };
        run = rw (e, malloc) refl;
        holds = mem.length-malloc c.blocks n r e;
      }

  pub calloc-Gets :
      (n : ℕ) (c : Cursor)
      → n < 2 ^ 63
      → Gets c (λ r c'. (r ≡ replicate n 0) × (c'.at ≡ c.at)) (calloc mem n)
  calloc-Gets n c small =
      let (r, e) = enough c.blocks n small in
      record {
        value = replicate n 0;
        cursor = record c { blocks = suc c.blocks };
        run = calloc-step mem n c e;
        holds = (refl, refl);
      }

  pub try_malloc-Gets :
      (n : ℕ) (c : Cursor)
      → n < 2 ^ 63
      → Gets c (λ b c'. (b ≡ true) × (c'.at ≡ c.at)) (try_malloc mem n)
  try_malloc-Gets n c small =
      let (r, e) = enough c.blocks n small in
      record {
        value = true;
        cursor = record c { blocks = suc c.blocks };
        run = rw (e, try_malloc) refl;
        holds = (refl, refl);
      }

module _ (disk : Disk) (image : Region) (is : IsImage disk image) where
  pub seek-Gets : (o : ℕ) (c : Cursor) → Gets c (λ _ c'. c'.at ≡ o) (seek disk (pos o))
  seek-Gets o c = record {
    value = tt;
    cursor = record c { at = o };
    run = seek-step disk (pos o) c (is.seeks o);
    holds = refl;
  }

  -- A read of bytes that fit the object.
  pub read_into-Gets :
      (r : Region) (off n : ℕ) (c : Cursor) (r' : Region)
      → store r off (take n (drop c.at image)) ≡ some r'
      → Gets c
          (λ x c'. (x ≡ r') × (c'.at ≡ c.at + length (take n (drop c.at image))))
          (read_into disk r off n)
  read_into-Gets r off n c r' e = record {
    value = r';
    cursor = record c { at = c.at + length (take n (drop c.at image)) };
    run = read_into-step disk r off n c (is.reads c.at n) e;
    holds = (refl, refl);
  }
