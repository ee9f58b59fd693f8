-- ===== src/Elf.antt =====
-- The ELF reader: elflib.h and elf_lib_funcs.c.
pub mod Memory
pub mod Bytes
pub mod Descr
pub mod Header
pub mod Tables
pub mod Symbol
pub mod Strings
pub mod Lookup
pub mod DynSym
pub mod Print
pub mod Notes
pub mod Cursor
pub mod Populate
pub mod File
