-- ===== src/Lib.antt =====
-- A model of libscout, which lists the shared libraries that an executable needs. It caches, for
-- each library found on the library path, the symbols that the library defines (sym_cache.c, on top
-- of the ELF reader elf_lib_funcs.c and the iterator iterator.c), and then resolves the symbols that
-- the executable leaves undefined (libscout.c): one producer thread for each file sends the file's
-- undefined symbols through a bounded buffer to one consumer thread, which looks each up in the
-- cache, starts a producer for each new library, and at the end prints the libraries and the symbols
-- that no library defines.
--
-- Files and code:
--   Prelude     helpers: tests, lists over the native numbers, `int` values as integers, error codes
--   Iter        iterator.c: iterator_init, iterator_next, and the loop of its clients
--   Elf.Memory, Elf.Descr
--               the layouts of elf.h as offsets and widths, and the descriptor of elflib.h; a region
--               is the list of its bytes, and a load outside it is `none`, a fault
--   Elf.Header, Elf.Tables, Elf.Symbol, Elf.Strings, Elf.Lookup
--               the accessors of elf_lib_funcs.c under the names they have there, with the
--               conversion of each field to `int`
--   Elf.DynSym  the loops over the dynamic symbols in get_sym (sym_cache.c) and get_undefined_sym
--               (libscout.c), up to what is done with a name
--   Elf.Print   print_str_table and print_sym_table, of a build with DEBUG_ELF: what they print, as a
--               list of lines
--   Elf.Bytes, Elf.Notes
--               the notes of a core file: process_nt_auxv, process_nt_file, and the loop of
--               process_elf_pg_hdr_pt_note; byte strings put together from numbers
--   Elf.Cursor  what process_elf_file asks of the system: an open file with `read` and `lseek`, and
--               an allocator, both parameters; the steps of the functions below, as a monad with
--               return codes and faults
--   Elf.Populate, Elf.File
--               get_elf_sec_data, elf_populate_str_table, elf_populate_sym_table and their callers;
--               process_elf_file; a file described by its sections, segments and notes
--   Avl         the AVL tree library (avl/avl_tree.h), which is not in the repository: its calls and
--               the laws that libscout relies on are a record that the other modules take as a
--               parameter
--   Cache       sym_cache.c and init_tree (libscout.c); the symbol trees stand in a store at
--               addresses, since a library's node holds a pointer to its tree
--   Buffer      the critical sections on mpsc_buffer_t (libscout.h, libscout.c)
--   Resolve     resolve_undefined_sym, process_file_sym and the end of get_undefined_sym
--               (libscout.c) as a step relation: a step is one critical section or one private step
--               of one thread, and a state is reachable if some interleaving leads to it
--   Search      search_for_lib.c; opendir with readdir, and regexec, are parameters
--   Filled      the search together with the cache that it fills
--   Linked      the resolver on the imported symbols of parsed files and on a cache
--   EndToEnd    all of these together: from the bytes of the files to the report
--   Program     main.c: the options and the main thread; what getopt returns, regcomp and the
--               resolver, which need not return, are parameters
--   Owned       which blocks of memory are live while threads' contexts, file descriptors and trees
--               are made and freed (libscout.c, elf_lib_funcs.c, sym_cache.c, main.c); avl2_destroy
--               is a parameter
--   Examples    concrete inputs for the theorems, and a tree that meets the laws of Avl
--
-- Bounds. The buffer has 1024 slots and stores at most 1023 names. `size_t` counters that stay below
-- 1024 are numbers without wrap-around; `int` fields of ELF structures are converted as in C, to the
-- two's complement of 32 bits. The counts of producers do not reach the limit of `int`. The loop of
-- an iterator runs on fuel: one round more than there are elements is enough. The search of a
-- directory has fuel for the depth of the directories below it. The loop over the notes of a segment
-- has one round more than the segment has bytes, and that over an auxiliary vector as many as it has
-- bytes, which is enough, since each round goes on by twelve bytes, or by two fields. All other loops
-- are structural.
--
-- Faults. A NULL dereference or a read outside an allocation is `none`, `crash` in the functions that
-- also have fuel, `fault` in the buffer, `crashed` in the steps of the resolver, or `faulted` in the
-- main thread.
-- Where the model has an argument for an allocation, `false` makes it fail; pthread_create is taken
-- to succeed, as the code does, and so are the copies made by send_sym_to_buffer and by the loops
-- over the dynamic symbols. What the producer of a file sends is a function of the file in Resolve; in
-- EndToEnd it is nothing where the process_elf_file of the producer fails. The allocator of Elf.Cursor decides for each block whether it can be had,
-- and what a new one contains; no block has 2 ^ 63 bytes or more. The two copies that the loop over
-- notes makes in each round are asked for separately.
--
-- Not modelled: other messages than the mapped files, the tables of Elf.Print and the two lists at
-- the end, and what process_elf_file frees when it fails. What the library avl_tree.h does with the
-- nodes of a tree that it destroys without a function is left open. A string that is printed and is
-- NULL counts as a fault, although some C libraries print it. Files are taken to be in
-- the byte order of the machine, little-endian, which the code does not test.
pub mod Prelude
pub mod Buffer
pub mod Avl
pub mod Iter
pub mod Elf
pub mod Cache
pub mod Examples
pub mod Resolve
pub mod Linked
pub mod EndToEnd
pub mod Search
pub mod Filled
pub mod Program
pub mod Owned
