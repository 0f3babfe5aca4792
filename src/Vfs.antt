-- ===== src/Vfs.antt =====
-- src/vfs.rs: the in-memory file system, its tree of nodes, its operations by path, and the
-- current directory.
pub mod Node
pub mod FileSystem
pub mod View
pub mod Components
pub mod Spec
pub mod Change
pub mod WellFormed
pub mod Refine
pub mod Preserve
pub mod Paths
pub mod Resolve
pub mod Strings
pub mod Valid
mod Tests
