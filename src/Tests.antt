-- ===== src/Tests.antt =====
-- The theorems at concrete data, by component.
mod Texts
mod Tables
mod Clients
mod Setup
mod Resolvers
mod Assembly
mod Generator
mod Legacy
mod Copies
mod Terraformed
mod Accessors
