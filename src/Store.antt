-- ===== src/Store.antt =====
-- internal/store: the sqlite metadata of the archives, users and links.
pub mod Types
pub mod Sample
pub mod World
pub mod Rows
pub mod Names
pub mod Users
pub mod Sessions
pub mod ApiKeys
pub mod Audit
pub mod Shares
pub mod Pins
pub mod Protected
pub mod Transit
pub mod Archives
pub mod Filter
