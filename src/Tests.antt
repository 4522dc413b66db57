-- ===== src/Tests.antt =====
-- The theorems at concrete inputs: a small cluster, its events, and their bytes.
pub mod Members
pub mod Gossip
pub mod Wire
pub mod Period
pub mod Pings
pub mod Packets
pub mod Servers
pub mod Syncs
pub mod Joining
pub mod Lives
pub mod Detection
pub mod Listeners
