-- ===== src/Index.antt =====
-- server/index_v2.c: indexes on disk. The children follow the file.
pub mod Codec
pub mod Crc
pub mod Device
pub mod Stops
pub mod Node
pub mod Order
pub mod Insert
pub mod NodeIo
pub mod NodeLoad
pub mod Sort
pub mod Fences
pub mod Tree
pub mod Pages
pub mod Taken
pub mod Writes
pub mod Growth
pub mod Outcome
pub mod InsertLeaf
pub mod Forest
pub mod InsertInner
pub mod Refines
pub mod Inserts
pub mod Header
pub mod Root
pub mod Publish
pub mod Torn
pub mod Lost
pub mod Insertion
pub mod Create
pub mod Build
pub mod Find
pub mod NewRoot
pub mod Atomic
pub mod Visible
pub mod Marks
pub mod FreePages
pub mod Collected
pub mod Whole
mod Tests
mod TreeTests
