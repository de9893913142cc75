-- ===== src/Config.antt =====
-- internal/configstore: the configuration that the Config resources set.
pub mod Spec
pub mod Store
pub mod Redirect
