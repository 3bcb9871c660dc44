-- ===== src/PeerManager/SyncStatus.antt =====
-- src/peer_manager/peerdb/sync_status.rs
use consentry.Common.{ℕ, Bool, true, false, not}

pub record SyncInfo : Type 0 where
  pub head_slot : ℕ
  pub head_root : ℕ
  pub finalized_epoch : ℕ
  pub finalized_root : ℕ

pub data SyncStatus : Type 0 where
  synced advanced behind : SyncInfo → SyncStatus
  irrelevant_peer unknown : SyncStatus

-- `PartialEq for SyncStatus`: the variant alone counts.
unfoldable pub status_eq : SyncStatus → SyncStatus → Bool
status_eq (synced _) (synced _) = true
status_eq (advanced _) (advanced _) = true
status_eq (behind _) (behind _) = true
status_eq irrelevant_peer irrelevant_peer = true
status_eq unknown unknown = true
status_eq _ _ = false

unfoldable pub is_advanced : SyncStatus → Bool
is_advanced (advanced _) = true
is_advanced _ = false

unfoldable pub is_synced : SyncStatus → Bool
is_synced (synced _) = true
is_synced _ = false

unfoldable pub is_behind : SyncStatus → Bool
is_behind (behind _) = true
is_behind _ = false

-- `SyncStatus::update`: the new status, and whether the variant changed.
unfoldable pub update : SyncStatus → SyncStatus → SyncStatus × Bool
update status new_state = (new_state, not (status_eq status new_state))
