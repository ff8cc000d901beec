-- ===== src/Store.antt =====
-- src/store.rs: the index of snapshots, the append-only journal and the snapshot files.
pub mod Files
pub mod Opening
pub mod Appending
pub mod Index
pub mod Audit
pub mod Pages
pub mod Heal
pub mod Tampered
pub mod Recovery
pub mod Refines
pub mod Replay
pub mod Append
pub mod Restart
pub mod Crash
pub mod Invariant
pub mod Lines
pub mod Writes
pub mod Reaches
pub mod Listing
pub mod Reachable
pub mod Reads
