-- ===== src/PeerManager/Manager/Grouping.antt =====
-- The third stage of the pruning of src/peer_manager/mod.rs: the peers of a subnet that has most. The
-- shuffle of each round is a parameter.
use consentry.Common.Assoc
use consentry.Common.Totals.{total}
use consentry.Common.{
  ℕ, zero, suc, ◌+◌, ◌-◌, ◌==◌, ltb, leb, if◌then◌else◌, Bool, true, false, not, ◌&&◌, Option, none,
  some, List, [], ◌∷◌, ◌++◌, length, ℕ_discrete,
}
use consentry.PeerManager.PeerInfo.{
  PeerInfo, Subnet, attestation, sync_committee, Subnet-discrete, contains, insert_new,
  is_connected, is_outbound_only,
}
use consentry.PeerManager.Manager.Subnets.{EnrFields, long_lived_subnets, long_lived_subnet_count}
use consentry.PeerManager.Manager.Pruning.{Pruned, Limits, pruned}

-- `MIN_SYNC_COMMITTEE_PEERS`
abbrev pub min_sync_committee_peers : ℕ
min_sync_committee_peers = 2

-- The maps of the third stage: the peers of each attestation subnet, the counts of the sync committees,
-- and the sync committees of each peer.
pub record Grouped (F E M : Type 0) : Type 0 where
  pub subnet_to_peer : List (Subnet × List (ℕ × PeerInfo F E M))
  pub sync_committee_peer_count : List (ℕ × ℕ)
  pub peer_to_sync_committee : List (ℕ × List ℕ)

abbrev pub or_nil : {A : Type 0} → Option (List A) → List A
or_nil none = []
or_nil (some xs) = xs

abbrev or_zero : Option ℕ → ℕ
or_zero none = 0
or_zero (some n) = n

abbrev least : Option ℕ → Option ℕ → Option ℕ
least none b = b
least (some a) none = some a
least (some a) (some b) = if leb a b then some a else some b

-- The least of the counts of some sync committees.
unfoldable pub min_subnet_count : List (ℕ × ℕ) → List ℕ → Option ℕ
min_subnet_count counts [] = none
min_subnet_count counts (k ∷ ks) =
    least (Assoc.get ℕ_discrete k counts) (min_subnet_count counts ks)

abbrev low : Option ℕ → Bool
low none = false
low (some n) = leb n min_sync_committee_peers

abbrev lower : List (ℕ × ℕ) → ℕ → Option ℕ → List (ℕ × ℕ)
lower counts k none = counts
lower counts k (some n) = Assoc.insert ℕ_discrete k (n - 1) counts

unfoldable pub lower_all : List (ℕ × ℕ) → List ℕ → List (ℕ × ℕ)
lower_all counts [] = counts
lower_all counts (k ∷ ks) = lower_all (lower counts k (Assoc.get ℕ_discrete k counts)) ks

module _ {F E M : Type 0} where
  unfoldable pub group_one : ℕ → PeerInfo F E M → List Subnet → Grouped F E M → Grouped F E M
  group_one peer_id info [] g = g
  group_one peer_id info (attestation id ∷ rest) g = group_one peer_id info rest (record g {
    subnet_to_peer =
        Assoc.insert Subnet-discrete (attestation id)
          (or_nil (Assoc.get Subnet-discrete (attestation id) g.subnet_to_peer)
            ++ (peer_id, info) ∷ [])
          g.subnet_to_peer;
  })
  group_one peer_id info (sync_committee id ∷ rest) g = group_one peer_id info rest (record g {
    sync_committee_peer_count =
        Assoc.insert ℕ_discrete id
          (or_zero (Assoc.get ℕ_discrete id g.sync_committee_peer_count) + 1)
          g.sync_committee_peer_count;
    peer_to_sync_committee =
        Assoc.insert ℕ_discrete peer_id
          (insert_new ℕ_discrete id
            (or_nil (Assoc.get ℕ_discrete peer_id g.peer_to_sync_committee)))
          g.peer_to_sync_committee;
  })

  -- The last of the subnets with most peers, as `max_by_key` picks it.
  unfoldable pub most_peers :
      List (Subnet × List (ℕ × PeerInfo F E M)) → Option (Subnet × List (ℕ × PeerInfo F E M))
  most_peers [] = none
  most_peers ((s, peers) ∷ rest) = elim (most_peers rest) [
    | none ↦ some (s, peers)
    | some (t, others) ↦
        if ltb (length others) (length peers) then some (s, peers) else some (t, others)
  ]

  -- The peers of a list but one.
  abbrev pub without : ℕ → List (ℕ × PeerInfo F E M) → List (ℕ × PeerInfo F E M)
  without peer_id peers = Assoc.retain ℕ_discrete (λ k _. not (k == peer_id)) peers

  unfoldable pub without_all :
      ℕ → List (Subnet × List (ℕ × PeerInfo F E M)) → List (Subnet × List (ℕ × PeerInfo F E M))
  without_all peer_id [] = []
  without_all peer_id ((s, peers) ∷ rest) = (s, without peer_id peers) ∷ without_all peer_id rest

module _ {F E M : Type 0} (enr : EnrFields E) (l : Limits) where
  unfoldable pub group_all : Pruned → List (ℕ × PeerInfo F E M) → Grouped F E M → Grouped F E M
  group_all p [] g = g
  group_all p ((peer_id, info) ∷ rest) g = group_all p rest (
      if is_connected info && not (contains ℕ_discrete peer_id p.peers_to_prune)
      then group_one peer_id info (long_lived_subnets enr info) g
      else g)

  -- The stable sort of `sort_by_key(|(_, info)| info.long_lived_subnet_count())`.
  unfoldable pub place_fewest :
      ℕ × PeerInfo F E M → List (ℕ × PeerInfo F E M) → List (ℕ × PeerInfo F E M)
  place_fewest (k, i) [] = (k, i) ∷ []
  place_fewest (k, i) ((j, h) ∷ rest) =
      let after = (j, h) ∷ place_fewest (k, i) rest in
      if ltb (long_lived_subnet_count enr h) (long_lived_subnet_count enr i)
      then after
      else (k, i) ∷ (j, h) ∷ rest

  unfoldable pub sort_fewest : List (ℕ × PeerInfo F E M) → List (ℕ × PeerInfo F E M)
  sort_fewest [] = []
  sort_fewest (x ∷ xs) = place_fewest x (sort_fewest xs)

  -- Whether a candidate of the third stage may go.
  abbrev pub is_kept : Pruned → Grouped F E M → ℕ → PeerInfo F E M → Bool
  is_kept p g peer_id info =
      if is_outbound_only info
        && leb (l.connected_outbound - p.outbound_peers_pruned) l.target_outbound
      then true
      else low (
          min_subnet_count g.sync_committee_peer_count
            (or_nil (Assoc.get ℕ_discrete peer_id g.peer_to_sync_committee)))

  -- The first candidate that may go.
  unfoldable pub candidate :
      Pruned → Grouped F E M → List (ℕ × PeerInfo F E M) → Option (ℕ × PeerInfo F E M)
  candidate p g [] = none
  candidate p g ((peer_id, info) ∷ rest) =
      let later = candidate p g rest in
      if is_kept p g peer_id info then later else some (peer_id, info)

  -- A round of the third stage on the subnet with most peers, shuffled and sorted: a candidate is
  -- pruned, or the subnet is given up.
  abbrev pub take_out :
      Subnet → Pruned → Grouped F E M → Option (ℕ × PeerInfo F E M) → Pruned × Grouped F E M
  take_out s p g none =
      (p, record g { subnet_to_peer = Assoc.insert Subnet-discrete s [] g.subnet_to_peer })
  take_out s p g (some (peer_id, info)) = (
    pruned l peer_id info p,
    record g {
      subnet_to_peer = without_all peer_id g.subnet_to_peer;
      sync_committee_peer_count =
          lower_all g.sync_committee_peer_count
            (or_nil (Assoc.get ℕ_discrete peer_id g.peer_to_sync_committee));
    },
  )

  abbrev pub round :
      (List (ℕ × PeerInfo F E M) → List (ℕ × PeerInfo F E M))
      → Subnet
      → List (ℕ × PeerInfo F E M)
      → Pruned
      → Grouped F E M
      → Pruned × Grouped F E M
  round shuffle s peers p g =
      let sorted = sort_fewest (shuffle peers) in
      take_out s p
        (record g { subnet_to_peer = Assoc.insert Subnet-discrete s sorted g.subnet_to_peer })
        (candidate p g sorted)

  -- The third stage; `shuffles` has the shuffle of each round, counted down.
  unfoldable pub prune_grouped :
      (ℕ → List (ℕ × PeerInfo F E M) → List (ℕ × PeerInfo F E M))
      → ℕ
      → Pruned
      → Grouped F E M
      → Pruned × Grouped F E M
  prune_grouped shuffles zero p g = (p, g)
  prune_grouped shuffles (suc fuel) p g = elim (ltb (length p.peers_to_prune) l.excess) [
    | false ↦ (p, g)
    | true ↦ elim (most_peers g.subnet_to_peer) [
      | none ↦ (p, g)
      | some (s, peers) ↦ elim peers [
        | [] ↦ (p, g)
        | x ∷ xs ↦
            let (p', g') = round (shuffles fuel) s (x ∷ xs) p g in prune_grouped shuffles fuel p' g'
      ]
    ]
  ]

-- The peers on all subnets, as often as they stand on one.
abbrev pub entries : {A : Type 0} → List (Subnet × List A) → ℕ
entries = total length

module _ {F E M : Type 0} where
  abbrev pub no_groups : Grouped F E M
  no_groups = record {
    subnet_to_peer = [];
    sync_committee_peer_count = [];
    peer_to_sync_committee = [];
  }
