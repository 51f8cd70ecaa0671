-- ===== src/Server.antt =====
-- internal/server: the handlers and the loops.
pub mod Settings
pub mod Users
pub mod Actor
pub mod Identity
pub mod Keys
pub mod Catalog
pub mod Pager
pub mod Shares
pub mod Pins
pub mod Sort
pub mod Sweep
pub mod Watch
pub mod Audit
pub mod Filter
pub mod Archives
pub mod Routes
