-- ===== src/PeerManager/Manager/Discovery.antt =====
-- The searches for peers of src/peer_manager/mod.rs: the peers that a search returns are dialed, and
-- searches are started where peers are missing. `min_ttl` says until when a peer is needed.
pub mod Bounds
use consentry.Common.Assoc
use consentry.Common.{
  ℕ, ◌+◌, ◌-◌, ◌==◌, ltb, u64_sub, ℕ_discrete, if◌then◌else◌, Bool, true, false, not, ◌&&◌, ◌||◌,
  Option, none, some, List, [], ◌∷◌, length,
}
use consentry.PeerManager.Score.{F64}
use consentry.PeerManager.PeerInfo.{Subnet}
use consentry.PeerManager.PeerDb.{PeerDb}
use consentry.PeerManager.PeerDb.Queries.{
  should_dial, good_peers_on_subnet, connected_outbound_only_peers,
}
use consentry.PeerManager.PeerDb.Queries.Writes.{update_min_ttl}
use consentry.PeerManager.Manager.{
  Manager, Sizes, SubnetDiscovery, PeerManagerEvent, push, connected_or_dialing,
}

-- `TARGET_SUBNET_PEERS` of network/mod.rs
abbrev pub target_subnet_peers : ℕ
target_subnet_peers = 6

abbrev is_some : Option ℕ → Bool
is_some none = false
is_some (some ttl) = true

module _ {F E M : Type 0} where
  -- The last difference has no check of its own.
  abbrev pub wanted_peers : Sizes → Manager F E M → ℕ → ℕ → ℕ → ℕ
  wanted_peers sizes m dialing_peers peer_count outbound_only_peer_count =
      let most = sizes.max_outbound_dialing_peers m.target_peers in
      if ltb peer_count (m.target_peers - dialing_peers)
      then (m.target_peers - dialing_peers) - peer_count
      else if ltb outbound_only_peer_count (sizes.min_outbound_only_peers m.target_peers)
          && ltb peer_count most
      then u64_sub (most - dialing_peers) peer_count
      else 0

  -- `maintain_peer_count`
  unfoldable pub maintain_peer_count : Sizes → Manager F E M → ℕ → Manager F E M
  maintain_peer_count sizes m dialing_peers =
      let wanted =
        wanted_peers sizes m dialing_peers (connected_or_dialing m)
          (length (connected_outbound_only_peers m.peers)) in
      if m.discovery_enabled && not (wanted == 0)
      then push m (PeerManagerEvent.discover_peers wanted)
      else m

module _ {F E M : Type 0} (f : F64 F) (now : ℕ) where
  -- Whether a found peer is dialed: there is room for it, more of it for one that is needed.
  abbrev pub dials : Sizes → Manager F E M → ℕ → PeerDb F E M → ℕ → ℕ → Option ℕ → Bool
  dials sizes m connected peers found peer_id min_ttl =
      ((is_some min_ttl && ltb (connected + found) (sizes.max_priority_peers m.target_peers))
        || ltb (connected + found) (sizes.max_peers m.target_peers))
      && should_dial f peers peer_id

  abbrev needed : PeerDb F E M → ℕ → Option ℕ → PeerDb F E M
  needed peers peer_id none = peers
  needed peers peer_id (some min_ttl) = update_min_ttl f peers now peer_id min_ttl

  -- The loop of `peers_discovered`, after `found` peers to dial: the database, and those that follow.
  unfoldable pub choose_peers :
      Sizes → Manager F E M → ℕ → ℕ → PeerDb F E M → List (ℕ × Option ℕ) → PeerDb F E M × List ℕ
  choose_peers sizes m connected found peers [] = (peers, [])
  choose_peers sizes m connected found peers ((peer_id, min_ttl) ∷ rest) =
      let taken = choose_peers sizes m connected (found + 1) (needed peers peer_id min_ttl) rest in
      let passed = choose_peers sizes m connected found peers rest in
      if dials sizes m connected peers found peer_id min_ttl
      then (taken.0, peer_id ∷ taken.1)
      else passed

  -- `peers_discovered`
  unfoldable pub peers_discovered :
      Sizes → Manager F E M → List (ℕ × Option ℕ) → Manager F E M × List ℕ
  unfolding maintain_peer_count
  peers_discovered sizes m results =
      let (peers, to_dial_peers) =
        choose_peers sizes m (connected_or_dialing m) 0 m.peers results in
      (maintain_peer_count sizes (record m { peers = peers }) (length to_dial_peers), to_dial_peers)

  -- The subnets that have too few good peers.
  unfoldable pub subnets_to_discover : PeerDb F E M → List (ℕ × ℕ) → List SubnetDiscovery
  subnets_to_discover peers [] = []
  subnets_to_discover peers ((k, v) ∷ rest) =
      let others = subnets_to_discover peers rest in
      if ltb (length (good_peers_on_subnet f peers (Subnet.sync_committee k))) target_subnet_peers
      then record { subnet = Subnet.sync_committee k; min_ttl = some v } ∷ others
      else others

  abbrev request_subnets : Manager F E M → List SubnetDiscovery → Manager F E M
  request_subnets m [] = m
  request_subnets m (x ∷ xs) = push m (PeerManagerEvent.discover_subnet_peers (x ∷ xs))

  -- `maintain_sync_committee_peers`
  unfoldable pub maintain_sync_committee_peers : Manager F E M → Manager F E M
  maintain_sync_committee_peers m =
      let subnets = Assoc.retain ℕ_discrete (λ _ v. ltb now v) m.sync_committee_subnets in
      request_subnets (record m { sync_committee_subnets = subnets })
        (subnets_to_discover m.peers subnets)
