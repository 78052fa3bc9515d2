-- ===== src/Wal.antt =====
-- engine/lsmtree/src/wal: the format, the writer and the reader of the write-ahead log.
mod Io
pub mod Writer
pub mod Reader
pub mod Format
pub mod Appends
pub mod Reads
pub mod Progress
pub mod Recovery
pub use Io.{IoOutcome, transferred, interrupted, failed, killed}
