-- ===== src/Package.antt =====
-- internal/kubopackage: what a package's templates are turned into for one Release.
pub mod Kinds
pub mod Inputs
