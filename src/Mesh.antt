-- ===== src/Mesh.antt =====
-- mesh/store.ts: the state and the event log that the processes of a project share on disk.
pub mod Keys
pub mod State
pub mod Cursor
pub mod Log
