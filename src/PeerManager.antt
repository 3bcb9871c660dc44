-- ===== src/PeerManager.antt =====
-- src/peer_manager: what the node knows of its peers, their scores and their connections.
pub mod Score
pub mod SyncStatus
pub mod PeerInfo
pub mod BannedPeers
pub mod PeerDb
pub mod Manager
pub mod Examples
