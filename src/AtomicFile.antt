-- ===== src/AtomicFile.antt =====
-- internal/atomicfile/atomicfile.go: a file is written through a temporary file and a rename.
-- The operating system's part is a disk, a map from paths to files, and the outcome of each call.
mod Defs
mod Laws
mod Success
pub use Defs.{File, Files, Disk, Syscall, Outcomes}
pub use Defs.{mkdir, create, written, synced, closed, chmodded, renamed, read}
unfoldable pub use Defs.{write, write_with_dir}
pub use Laws.*
pub use Success.*
