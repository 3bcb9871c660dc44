-- ===== src/PeerManager/Manager/Heartbeat.antt =====
-- The periodic work of src/peer_manager/mod.rs.
use consentry.Common.{ℕ, List}
use consentry.PeerManager.Score.{F64}
use consentry.PeerManager.PeerInfo.{PeerInfo}
use consentry.PeerManager.PeerDb.Scores.{update_scores}
use consentry.PeerManager.PeerDb.Queries.Writes.{cleanup_dialing_peers}
use consentry.PeerManager.Manager.{Manager, Sizes, handle_score_actions}
use consentry.PeerManager.Manager.Subnets.{EnrFields}
use consentry.PeerManager.Manager.Discovery.{maintain_peer_count, maintain_sync_committee_peers}
use consentry.PeerManager.Manager.Selection.{prune_excess_peers}

module _ {F E M : Type 0} (f : F64 F) (enr : EnrFields E) (now : ℕ) where
  abbrev pub clean_dials : Manager F E M → Manager F E M
  clean_dials m = record m { peers = cleanup_dialing_peers f m.peers now }

  abbrev pub decay_scores : Manager F E M → Manager F E M
  decay_scores m =
      let (peers, actions) = update_scores f m.peers now in
      handle_score_actions (record m { peers = peers }) actions

  -- `heartbeat`
  unfoldable pub heartbeat :
      Sizes
      → (ℕ → List (ℕ × PeerInfo F E M) → List (ℕ × PeerInfo F E M))
      → Manager F E M
      → Manager F E M
  heartbeat sizes shuffles m =
      let counted = maintain_peer_count sizes m 0 in
      let scored = decay_scores (clean_dials counted) in
      prune_excess_peers f enr now sizes shuffles (maintain_sync_committee_peers f now scored)
