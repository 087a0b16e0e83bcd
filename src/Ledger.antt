-- ===== src/Ledger.antt =====
-- internal/addressbook: the ledger of address allocations, its indices, and what changes it.
pub mod Keys
pub mod Binding
pub mod Tx
pub mod Net
pub mod Partial
pub mod Config
pub mod Identifiers
pub mod Options
pub mod Accept
pub mod Settings
pub mod Accepted
pub mod Live
pub mod Allocate
pub mod Admit
pub mod Grant
pub mod Release
pub mod Held
pub mod Policy
pub mod Owned
pub mod Expired
pub mod Prefixes
pub mod Journal
pub mod Names
pub mod Ends
pub mod Store
pub mod Saved
pub mod Readings
pub mod Indexed
