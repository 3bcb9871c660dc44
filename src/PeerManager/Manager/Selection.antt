-- ===== src/PeerManager/Manager/Selection.antt =====
-- The three stages of `prune_excess_peers` of src/peer_manager/mod.rs in sequence.
use consentry.Common.{
  ℕ, suc, ◌+◌, ◌-◌, ltb, leb, if◌then◌else◌, Bool, not, ◌&&◌, List, [], ◌∷◌, length, filter,
}
use consentry.Rpc.Methods.{GoodbyeReason}
use consentry.PeerManager.Score.{F64, score_of}
use consentry.PeerManager.PeerInfo.{PeerInfo, has_future_duty}
use consentry.PeerManager.PeerDb.Queries.{connected_outbound_only_peers}
use consentry.PeerManager.Manager.{Manager, Sizes, connected_peers, disconnect_the_peer}
use consentry.PeerManager.Manager.Subnets.{EnrFields, has_long_lived_subnet}
use consentry.PeerManager.Manager.Pruning.{Pruned, Limits, prune_list, worst_connected_peers}
use consentry.PeerManager.Manager.Grouping.{group_all, prune_grouped, no_groups, entries}

module _ {F E M : Type 0} where
  abbrev pub limits : Sizes → Manager F E M → Limits
  limits sizes m = record {
    excess = connected_peers m - m.target_peers;
    target_outbound = sizes.target_outbound_peers m.target_peers;
    connected_outbound = length (connected_outbound_only_peers m.peers);
  }

module _ {F E M : Type 0} (f : F64 F) (enr : EnrFields E) (now : ℕ) where
  -- The peers that a `prune_peers!` looks at.
  abbrev pub prunable :
      (PeerInfo F E M → Bool) → List (ℕ × PeerInfo F E M) → List (ℕ × PeerInfo F E M)
  prunable keep worst = filter (λ x. not (has_future_duty x.1 now) && keep x.1) worst

  abbrev pub has_bad_score : PeerInfo F E M → Bool
  has_bad_score info = f.lt (score_of f info.score) (f.of_ℕ 0)

  -- Stages 1 and 2; the list of the worst peers is made anew for each, by its own shuffle.
  abbrev pub prune_worst : Limits → List (ℕ × PeerInfo F E M) → List (ℕ × PeerInfo F E M) → Pruned
  prune_worst l worst worst_again =
      let first =
        prune_list l (prunable has_bad_score worst)
          (record { peers_to_prune = []; outbound_peers_pruned = 0 }) in
      if ltb (length first.peers_to_prune) l.excess
      then prune_list l (prunable (λ info. not (has_long_lived_subnet enr info)) worst_again) first
      else first

  -- The peers to prune, of the database's and of the two lists of the worst ones.
  unfoldable pub choose_pruned :
      Limits
      → (ℕ → List (ℕ × PeerInfo F E M) → List (ℕ × PeerInfo F E M))
      → List (ℕ × PeerInfo F E M)
      → List (ℕ × PeerInfo F E M)
      → List (ℕ × PeerInfo F E M)
      → Pruned
  choose_pruned l shuffles peers worst worst_again =
      let p = prune_worst l worst worst_again in
      let g = group_all enr l p peers no_groups in
      if ltb (length p.peers_to_prune) l.excess
      then (prune_grouped enr l shuffles (suc (entries g.subnet_to_peer)) p g).0
      else p

  -- The loop that disconnects them.
  unfoldable pub disconnect_pruned : Manager F E M → List ℕ → Manager F E M
  disconnect_pruned m [] = m
  disconnect_pruned m (peer_id ∷ rest) =
      disconnect_pruned (disconnect_the_peer f now m peer_id GoodbyeReason.too_many_peers) rest

  -- `prune_excess_peers`; the shuffles 0 and 1 are those of the first two stages.
  unfoldable pub prune_excess_peers :
      Sizes
      → (ℕ → List (ℕ × PeerInfo F E M) → List (ℕ × PeerInfo F E M))
      → Manager F E M
      → Manager F E M
  prune_excess_peers sizes shuffles m =
      if leb (connected_peers m) m.target_peers
      then m
      else disconnect_pruned m
          (choose_pruned (limits sizes m) (λ n. shuffles (n + 2)) m.peers.peers
            (worst_connected_peers f (shuffles 0) m.peers)
            (worst_connected_peers f (shuffles 1) m.peers)).peers_to_prune
