-- ===== src/Lib.antt =====
-- dataman: the server's transaction core.
--
-- The server keeps datafiles and indexes below one database root. A transaction changes them through a
-- physical undo journal (server/undo_journal.c): before a range of a file is written, what the range
-- held goes into `.dataman-undo`, and is synced. A commit syncs the files and removes the journal; an
-- abort, or the recovery at the next start, reads the journal back, checks all of it, restores the
-- files from the newest record to the oldest, and removes it. The journal reads and writes by
-- `dm_storage_read_at` and `dm_storage_write_at` (server/storage_io.c), which repeat short system calls.
-- Threads that share a file take turns by `fl_lock` (server/lock.c), a lock with a queue.
--
-- Base: shared names, Boolean tests, lists over the native numbers, and integers.
-- Lock: server/lock.c. `PLock` is `P_LOCK`; `attempt_sh`, `attempt_ex` and `unlock` are one pass through
--   the cases of `fl_lock` under the mutex. Lock/System is the step relation of any number of threads:
--   calls, resumed waits and spurious wake-ups, in every order.
-- Storage: server/storage_io.c. A call is run against a list of answers of the system (`interrupted`,
--   `failed`, `moved n`), so that every short transfer is covered. Storage/Hooks has the hooks
--   that `dm_tx_configure` sets.
-- Undo: server/undo_journal.c. Wire: `put32`, `get64`, `crc` and so on. Names: `name_valid`,
--   `blob_valid`. State: the files, the journal, the fields of `dm_undo`, and where the system may fail.
--   Record: the layout of a record, with `append`'s checksums. Begin: `dm_undo_begin`. Write:
--   `write_target` for `dm_undo_write` and `dm_undo_write_fd`. Blob: `snapshot_blob`,
--   `append_blob` and `dm_undo_blob`. Scan and ScanLoop: `scan`. Finish:
--   `restore_blob`, `finish`, `dm_undo_commit`, `dm_undo_abort`, `dm_undo_recover`. The other files of
--   Undo hold proofs.
-- Session: server/transaction_session.c. `Session` holds the file's static variables and, by thread,
--   those that are `_Thread_local`; each function is one step, but for a write past the journal, which
--   counts itself (`route_write`), runs with the mutex free, and is counted off (`direct_end`).
--   Session/Steps has `start` for `dm_tx_begin`, `write` for `dm_tx_write` and `dm_tx_write_fd`, and
--   `finish` for `dm_tx_commit`, `dm_tx_abort` and `dm_tx_disconnect`. Session/Dispatch has `route_blob`,
--   and `bind_owner` and `dm_tx_dispatch` of server/transaction_dispatch.c; Session/Bound proves what
--   names are bound.
-- Index: server/index_v2.c, a B-tree in a file whose pages are written once (copy on write), with a
--   header of two slots that name the root. Codec: the big-endian integers. Crc: `index_v2_crc32`.
--   Device: the file, and which of the coming writes and syncs fail, after how many bytes; Stops: which
--   have failed. Node:
--   `v2_write_node`, `index_v2_read_node`, `v2_load_node`; `Format` has the fields of
--   `V2_INSERT_CONTEXT` that stay and `Pool` those that change. Order: the loops with `memcmp`. Insert:
--   `v2_insert_node`. Header: the header, its slots and `index_v2_publish_root`. Insertion:
--   `v2_mark_live_pages`, `v2_collect_free_pages` and `index_v2_insert`, whose part that writes is
--   `insert_entry`. Create: `v2_create_empty`,
--   `v2_read_build_header` and `index_v2_read_file_names`. Build: `index_v2_build_insert` and
--   `index_v2_build_finish`. Find: `index_v2_find`, `index_v2_first` and `index_v2_last`. Proofs: NodeIo and NodeLoad (a node on its page), Pages, Taken, Writes and Growth (which pages
--   are in use), Sort and Fences (order of entries and separators), Tree and Forest (what a tree is),
--   Outcome, InsertLeaf, InsertInner, Refines and Inserts (insertion by induction on the height), Root,
--   Publish, Torn and Lost (slots), NewRoot, Atomic and Visible (the part that writes), Marks,
--   FreePages and Collected (which pages are free), Whole (from the file to the file).
--
-- A file is its bytes with the identity that `fstat` reports; `Files` gives the regular file that a
-- relative name leads to, each name its own (two names of one inode do not share content). The record
-- `Faults` says for one call which system call fails, after how many bytes a write stops, and how much of
-- a record is left when the sync of the journal fails; a stop of the process is such a failure with no
-- further call. Any other write is there at once, so what a loss of power takes of data that was not
-- synced is not modelled. A number is a natural number; where C has 32 or 64 bits the bound is a
-- test of the code, a remainder, or a hypothesis that the value is one the system can report.
--
-- Fuel: `scan_loop` has the length of the journal and one more, and a record takes 72 bytes at least;
-- `blob_stream` has the size of the blob, and a chunk takes a byte at least. `insert_node` needs more than
-- the height of the tree, which its theorems ask for; `mark_live_pages` has the number of pages and one
-- more, and marks a page before each call of itself.
--
-- Not modelled: allocation failures beside the one named in `Faults`; the opening of directories and the
-- canonical path (calls of the system, whose result is `Place`;
-- where `root_valid` cannot open or compare the root, the model answers EIO whatever errno is); of the session, the cached indexes
-- (`finish` takes whether they refresh); of the indexes the
-- neighbours of an entry (`index_v2_next`, `index_v2_prior`) and the removal; serial numbers, record
-- operations, sockets, the utilities and the client libraries.
pub mod Base
pub mod Lock
pub mod Storage
pub mod Undo
pub mod Index
pub mod Session
