-- ===== src/Core.antt =====
-- The state that a server keeps about its cluster: internal/core.
pub mod Ascon
pub mod NodeList
pub mod NodeManager
pub mod GossipManager
pub mod RunLoop
pub mod SyncManager
