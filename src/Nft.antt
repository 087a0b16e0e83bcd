-- ===== src/Nft.antt =====
-- internal/nft: the firewall policy that a client sends, what the daemon accepts of it, and the script
-- that it has nft load.
pub mod Policy
pub mod Names
pub mod Owned
pub mod Validate
pub mod Sorting
pub mod Chains
pub mod Hooks
pub mod Render
