-- ===== src/PeerManager/Manager/Pruning/Excess.antt =====
-- What the pruning of src/peer_manager/mod.rs asks of the swarm.
use consentry.Common.Assoc
use consentry.Common.{
  ℕ, ◌+◌, ◌-◌, ◌≤◌, ◌≡◌, refl, ◌∙◌, ap, leb, Bool-cases, inl, inr, List, [], ◌∷◌, ◌++◌, map, length,
  arith, ℕ_discrete,
}
use mathlib.Core.List.{Permᴰ}
use consentry.Rpc.Methods.{GoodbyeReason}
use consentry.PeerManager.Score.{F64}
use consentry.PeerManager.PeerInfo.{PeerInfo}
use consentry.PeerManager.PeerDb.Queries.{connected_outbound_only_peers}
use consentry.PeerManager.Manager.{
  Manager, Sizes, PeerManagerEvent, connected_peers, disconnect_the_peer,
}
use consentry.PeerManager.Manager.Subnets.{EnrFields}
use consentry.PeerManager.Manager.Pruning.{worst_connected_peers}
use consentry.PeerManager.Manager.Selection.{limits, disconnect_pruned, prune_excess_peers}
use consentry.PeerManager.Manager.Pruning.Held.{
  AllHeld, Distinct-AllHeld, filter-AllHeld, Perm-AllHeld, sort_worst-AllHeld,
}
use consentry.PeerManager.Manager.Pruning.Bounds.{outbound_among}
use consentry.PeerManager.Manager.Pruning.Rounds.{choose_pruned-Bounded}

abbrev pub too_many : ℕ → PeerManagerEvent
too_many peer_id = PeerManagerEvent.disconnect_peer peer_id GoodbyeReason.too_many_peers

append_assoc : (xs ys zs : List PeerManagerEvent) → (xs ++ ys) ++ zs ≡ xs ++ (ys ++ zs)
append_assoc [] ys zs = refl
append_assoc (x ∷ xs) ys zs = ap (λ r. x ∷ r) (append_assoc xs ys zs)

append_nil : (xs : List PeerManagerEvent) → xs ≡ xs ++ []
append_nil [] = refl
append_nil (x ∷ xs) = ap (λ r. x ∷ r) (append_nil xs)

module _ {F E M : Type 0} (f : F64 F) (enr : EnrFields E) (now : ℕ) where
  disconnect_pruned-events :
      (m : Manager F E M) (ks : List ℕ)
      → (disconnect_pruned f enr now m ks).events ≡ m.events ++ map too_many ks
  unfolding disconnect_pruned disconnect_the_peer
  disconnect_pruned-events m [] = append_nil m.events
  disconnect_pruned-events m (k ∷ ks) =
      disconnect_pruned-events (disconnect_the_peer f now m k GoodbyeReason.too_many_peers) ks
      ∙ append_assoc m.events (too_many k ∷ []) (map too_many ks)

  -- Whatever the shuffles (each a permutation), and where each peer stands once in the database, the pruning
  -- asks the swarm for nothing but to disconnect some peers with the reason of too many peers, at most as
  -- many as are connected beyond the target, and no more outbound-only ones among them than are connected
  -- beyond the outbound target.
  pub prune_excess_bounded :
      (sizes : Sizes) (shuffles : ℕ → List (ℕ × PeerInfo F E M) → List (ℕ × PeerInfo F E M))
      (m : Manager F E M)
      → ((n : ℕ) (xs : List (ℕ × PeerInfo F E M)) → Permᴰ xs (shuffles n xs))
      → Assoc.Distinct ℕ_discrete m.peers.peers
      → (ks : List ℕ) × ((prune_excess_peers f enr now sizes shuffles m).events
          ≡ m.events ++ map too_many ks)
        × (length ks ≤ connected_peers m - m.target_peers)
        × (outbound_among (limits sizes m) m.peers.peers ks
            ≤ length (connected_outbound_only_peers m.peers)
              - sizes.target_outbound_peers m.target_peers)
  unfolding prune_excess_peers
  prune_excess_bounded sizes shuffles m shuffled distinct =
      let all = Distinct-AllHeld m.peers.peers distinct in
      let worst : (n : ℕ) → AllHeld m.peers.peers (worst_connected_peers f (shuffles n) m.peers) =
        λ n. sort_worst-AllHeld m.peers.peers f _ (
          Perm-AllHeld m.peers.peers (shuffled n _)
            (filter-AllHeld m.peers.peers _ m.peers.peers all)) in
      let b =
        choose_pruned-Bounded f enr now (limits sizes m) m.peers.peers (λ n. shuffles (n + 2)) _ _
          (λ n. shuffled (n + 2)) all (worst 0) (worst 1) in
      let counted = b.counted in
      let floor = b.floor in
      elim (Bool-cases (leb (connected_peers m) m.target_peers)) [
        | inl fine ↦ rw fine ([], append_nil m.events, omega arith, omega arith)
        | inr many ↦ rw many (_, disconnect_pruned-events m _, b.few, omega arith)
      ]
