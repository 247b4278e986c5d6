-- ===== src/Api.antt =====
-- pkg/api: the messages between client, coordinator and workers.
pub mod Messages
pub mod Status
pub mod Rpc
pub use Messages.*
