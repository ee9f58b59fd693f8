-- ===== src/Examples.antt =====
-- Concrete inputs: the theorems at inputs that meet their hypotheses, and runs of the definitions.
mod ListTree
mod Data
mod Buffers
mod Resolver
mod Files
mod Image
mod Loads
mod Shared
mod Reads
mod Reported
mod Finished
mod Programs
mod Blocks
mod Caches
mod Whole
mod Searches
