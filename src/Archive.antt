-- ===== src/Archive.antt =====
-- internal/archiveio: the resource limits on package archives, and the reader that applies them.
pub mod Limits
pub mod Budget
pub mod Reader
