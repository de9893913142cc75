-- ===== src/Inputs.antt =====
-- The inputs of a Release: internal/controller/release_buildinputmodel.go.
pub mod Connection
pub mod Build
pub mod Elect
pub mod Lookup
pub mod Gate
pub mod Substitution
