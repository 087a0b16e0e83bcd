-- ===== src/Resolver.antt =====
-- internal/resolver: the resolver that stack containers use, and who may ask it what.
pub mod Host
pub mod Labels
pub mod Acl
pub mod Policy
pub mod Local
pub mod Lan
pub mod History
pub mod Start
