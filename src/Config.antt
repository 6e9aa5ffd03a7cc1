-- ===== src/Config.antt =====
-- config/: the hand-written configuration of the provider.
pub mod WriteOnly
pub mod Resource
pub mod ExternalName
pub mod Unifi
pub mod Provider
