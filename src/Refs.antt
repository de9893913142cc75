-- ===== src/Refs.antt =====
-- internal/controller/release_paramrefs.go: the connectionRef parameters of a Release. Each one
-- generates an input, and the values resolved for it replace the connection's name in place.
pub mod Path
pub mod Decl
pub mod Defaults
pub mod Generate
pub mod Apply
pub mod Resolve
