-- ===== src/Schema.antt =====
-- The schemas of packages: internal/kuboschema.
pub mod OpenApi
pub mod Depth
pub mod Nodes
pub mod Parts
pub mod Total
pub mod Decls
pub mod Collected
pub mod Fuel
pub mod Related
pub mod Flags
pub mod Keys
pub mod Desugared
pub mod Converted
