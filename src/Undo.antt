-- ===== src/Undo.antt =====
-- server/undo_journal.c: a physical undo journal over the files of one database root. The children
-- follow the file: the integers and checksums on disk, names, the journal's records, writing under a
-- transaction, reading the journal back, and commit, abort and recovery.
pub mod Wire
pub mod Names
pub mod State
pub mod Record
pub mod Write
pub mod Scan
pub mod ScanLoop
pub mod Finish
pub mod Layout
pub mod ScanUndo
pub mod ScanLog
pub mod Restore
pub mod Active
pub mod Keeps
pub mod Writes
pub mod WriteTarget
pub mod Recover
pub mod Begin
pub mod Opening
pub mod Crash
pub mod Applies
pub mod Blob
pub mod Chunks
mod Tests
