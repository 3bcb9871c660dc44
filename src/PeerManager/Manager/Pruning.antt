-- ===== src/PeerManager/Manager/Pruning.antt =====
-- The pruning of excess peers in src/peer_manager/mod.rs: its first two stages, over the list of the
-- worst peers. The shuffle of the library `rand` is a parameter.
pub mod Held
pub mod Bounds
pub mod Groups
pub mod Rounds
pub mod Excess
pub mod Ends
use consentry.Common.Assoc
use consentry.Common.{
  ℕ, zero, suc, ◌+◌, ◌-◌, ltb, leb, if◌then◌else◌, Bool, true, false, not, ◌&&◌, Option, none, some,
  List, [], ◌∷◌, ◌++◌, length, filter, ℕ_discrete,
}
use consentry.Rpc.Methods.{GoodbyeReason}
use consentry.PeerManager.Score.{F64, score_of}
use consentry.PeerManager.PeerInfo.{
  PeerInfo, Subnet, attestation, sync_committee, Subnet-discrete, contains, insert_new,
  is_connected, is_outbound_only, has_future_duty,
}
use consentry.PeerManager.PeerDb.{PeerDb}
use consentry.PeerManager.PeerDb.Queries.{connected_outbound_only_peers}
use consentry.PeerManager.Manager.{Manager, Sizes, connected_peers, disconnect_the_peer}
use consentry.PeerManager.Manager.Subnets.{
  EnrFields, long_lived_subnets, long_lived_subnet_count, has_long_lived_subnet,
}

-- The peers to prune, and how many of them are outbound ones.
pub record Pruned : Type 0 where
  pub peers_to_prune : List ℕ
  pub outbound_peers_pruned : ℕ

-- How many peers may be pruned, and the counts of outbound peers that are wanted and that are there.
pub record Limits : Type 0 where
  pub excess : ℕ
  pub target_outbound : ℕ
  pub connected_outbound : ℕ

module _ {F E M : Type 0} (f : F64 F) where
  -- The stable sort of `sort_by_key(|(_, info)| info.score())`.
  unfoldable pub place_worst :
      ℕ × PeerInfo F E M → List (ℕ × PeerInfo F E M) → List (ℕ × PeerInfo F E M)
  place_worst (k, i) [] = (k, i) ∷ []
  place_worst (k, i) ((j, h) ∷ rest) =
      let after = (j, h) ∷ place_worst (k, i) rest in
      if f.lt (score_of f h.score) (score_of f i.score) then after else (k, i) ∷ (j, h) ∷ rest

  unfoldable pub sort_worst : List (ℕ × PeerInfo F E M) → List (ℕ × PeerInfo F E M)
  sort_worst [] = []
  sort_worst (x ∷ xs) = place_worst x (sort_worst xs)

  -- `PeerDB::worst_connected_peers`
  abbrev pub worst_connected_peers :
      (List (ℕ × PeerInfo F E M) → List (ℕ × PeerInfo F E M))
      → PeerDb F E M
      → List (ℕ × PeerInfo F E M)
  worst_connected_peers shuffle db = sort_worst (shuffle (filter (λ x. is_connected x.1) db.peers))

module _ {F E M : Type 0} (l : Limits) where
  abbrev pub may_prune : PeerInfo F E M → Pruned → Bool
  may_prune info p =
      if is_outbound_only info
      then ltb (l.target_outbound + p.outbound_peers_pruned) l.connected_outbound
      else true

  abbrev pub pruned : ℕ → PeerInfo F E M → Pruned → Pruned
  pruned peer_id info p = record {
    peers_to_prune = insert_new ℕ_discrete peer_id p.peers_to_prune;
    outbound_peers_pruned =
        if is_outbound_only info then suc p.outbound_peers_pruned else p.outbound_peers_pruned;
  }

  abbrev pub prune_one : ℕ → PeerInfo F E M → Pruned → Pruned
  prune_one peer_id info p =
      if contains ℕ_discrete peer_id p.peers_to_prune
      then p
      else if may_prune info p
      then pruned peer_id info p
      else p

  -- The loop of `prune_peers!`.
  unfoldable pub prune_list : List (ℕ × PeerInfo F E M) → Pruned → Pruned
  prune_list [] p = p
  prune_list ((peer_id, info) ∷ rest) p =
      let next = prune_list rest (prune_one peer_id info p) in
      if leb l.excess (length p.peers_to_prune) then p else next
