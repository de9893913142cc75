-- ===== src/Tests.antt =====
-- The properties at concrete inputs, with concrete stand-ins for the parameters.
pub mod Values
pub mod Archives
pub mod Caches
pub mod Configs
pub mod Defaults
pub mod References
pub mod Inputs
pub mod Passes
pub mod Schemas
pub mod Contexts
