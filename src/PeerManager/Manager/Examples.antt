-- ===== src/PeerManager/Manager/Examples.antt =====
-- Runs of the peer manager on the database of four peers, of which two are connected.
use consentry.Common.Assoc
use consentry.Common.Int.{ℤ}
use consentry.Common.{
  ℕ, suc, ◌+◌, ◌-◌, ◌<◌, ◌≤◌, ◌≡◌, ◌⊎◌, inl, refl, max, u64_mod, true, none, some, List, [], ◌∷◌,
  map, length, filter, arith, ℕ_discrete,
}
use mathlib.Core.List.{Permᴰ}
use consentry.Rpc.Methods.{GoodbyeReason}
use consentry.Rpc.Protocol.{Protocol, RpcError}
use consentry.PeerManager.Examples.{integers, start, integers-Literals}
use consentry.PeerManager.PeerInfo.{PeerInfo, outgoing}
use consentry.PeerManager.PeerDb.Queries.{connected_outbound_only_peers}
use consentry.PeerManager.PeerDb.Examples.{connected_peer, four_peers, connected_peer-healthy}
use consentry.PeerManager.Manager.{
  Manager, Sizes, PeerManagerEvent, new, push, connected_peers, connected_or_dialing, goodbye_peer,
}
use consentry.PeerManager.Manager.Errors.{peer_action, handle_rpc_error}
use consentry.PeerManager.Manager.Subnets.{EnrFields}
use consentry.PeerManager.Manager.Discovery.{maintain_peer_count, peers_discovered}
use consentry.PeerManager.Manager.Discovery.Bounds.{
  discovered_bounded, maintain_bounded, maintain_wraps, most_dialed, most_outbound,
}
use consentry.PeerManager.Manager.Selection.{limits, prune_excess_peers}
use consentry.PeerManager.Manager.Pruning.Bounds.{outbound_among}
use consentry.PeerManager.Manager.Pruning.{Pruned}
use consentry.PeerManager.Manager.Grouping.{group_all, no_groups, entries, prune_grouped}
use consentry.PeerManager.Manager.Pruning.Ends.{third_stage_ends}
use consentry.PeerManager.Manager.Pruning.Excess.{too_many, prune_excess_bounded}
use consentry.PeerManager.Score.{real, fatal, ScoreState, apply_peer_action_real}
use consentry.PeerManager.Score.Banning.{fatal_bans}
use consentry.PeerManager.PeerInfo.{score_state, apply_peer_action_to_score}
use consentry.PeerManager.PeerDb.Queries.{peer_info}
use consentry.PeerManager.Manager.Swarm.{inject_connection_established, listener}
use consentry.PeerManager.Manager.Admission.{rebanned-kept}
use consentry.PeerManager.Manager.Bans.{Live, IsBanned, rpc_fatal-bans, goodbye-bans}

-- The factors of the source at a target of one peer, but for room to dial four more.
abbrev sizes : Sizes
sizes = record {
  max_peers = λ t. t + 1;
  max_priority_peers = λ t. t + 4;
  min_outbound_only_peers = λ t. t + 1;
  target_outbound_peers = λ t. t;
  max_outbound_dialing_peers = λ t. t + 2;
}

abbrev no_fields : EnrFields ℕ
no_fields = record { attestation_bitfield = λ _. none; sync_committee_bitfield = λ _. none }

abbrev manager : Manager ℤ ℕ ℕ
manager = new four_peers 1 true

abbrev unshuffled : ℕ → List (ℕ × PeerInfo ℤ ℕ ℕ) → List (ℕ × PeerInfo ℤ ℕ ℕ)
unshuffled n xs = xs

unshuffled-Perm : (n : ℕ) (xs : List (ℕ × PeerInfo ℤ ℕ ℕ)) → Permᴰ xs (unshuffled n xs)
unshuffled-Perm n [] = Permᴰ.nil
unshuffled-Perm n (x ∷ xs) = Permᴰ.cons refl (unshuffled-Perm n xs)

prune_excess_bounded_example :
    (ks : List ℕ) × ((prune_excess_peers integers no_fields 200 sizes unshuffled manager).events
      ≡ map too_many ks)
    × (length ks ≤ connected_peers manager - 1)
    × (outbound_among (limits sizes manager) four_peers.peers ks
        ≤ length (connected_outbound_only_peers four_peers) - 1)
unfolding Assoc.get ℕ_discrete
prune_excess_bounded_example =
    prune_excess_bounded integers no_fields 200 sizes unshuffled manager unshuffled-Perm
      (refl, (refl, (refl, (refl, tt))))

discovered_bounded_example :
    connected_or_dialing manager
      + length (peers_discovered integers 200 sizes manager ((8, some 300) ∷ (9, none) ∷ [])).1
    ≤ max (connected_or_dialing manager) (most_dialed integers 200 sizes manager)
discovered_bounded_example =
    discovered_bounded integers 200 sizes manager ((8, some 300) ∷ (9, none) ∷ [])

maintain_bounded_example :
    (maintain_peer_count sizes manager 0 ≡ manager)
    ⊎ ((n : ℕ) × (maintain_peer_count sizes manager 0
          ≡ push manager (PeerManagerEvent.discover_peers n))
        × (0 < n)
        × (connected_or_dialing manager + 0 + n ≤ max 1 (most_outbound sizes manager)))
maintain_bounded_example = maintain_bounded sizes manager 0 (omega arith) (inl refl)

-- Two peers to dial besides the two that are connected are one more than are wanted.
maintain_wraps_example :
    (n : ℕ) × (maintain_peer_count sizes manager 2
      ≡ push manager (PeerManagerEvent.discover_peers n))
    × (u64_mod ≤ n + connected_or_dialing manager)
unfolding filter
maintain_wraps_example =
    maintain_wraps sizes manager 2 (omega arith) refl (omega arith) (omega arith) (omega arith)
      (omega arith)

connected_peer-Live : Live integers integers-Literals 200 manager 1
unfolding Assoc.get ℕ_discrete
connected_peer-Live = record {
  info = connected_peer;
  score = start;
  held = refl;
  untrusted = refl;
  scored = refl;
  good = λ e. ground (arith, connected_peer-healthy);
  live = refl;
}

rpc_fatal-bans_example :
    IsBanned integers integers-Literals 200 manager
      (handle_rpc_error integers 200 manager 1 Protocol.ping RpcError.unsupported_protocol outgoing)
      1
      GoodbyeReason.bad_score
unfolding peer_action
rpc_fatal-bans_example =
    rpc_fatal-bans integers integers-Literals 200 manager 1 Protocol.ping
      RpcError.unsupported_protocol outgoing refl connected_peer-Live

goodbye-bans_example :
    IsBanned integers integers-Literals 200 manager
      (goodbye_peer integers 200 manager 1 GoodbyeReason.irrelevant_network)
      1
      GoodbyeReason.irrelevant_network
goodbye-bans_example =
    goodbye-bans integers integers-Literals 200 manager 1 GoodbyeReason.irrelevant_network
      connected_peer-Live

-- The peer 1 after a fatal report, with its connection.
abbrev bad_peer : PeerInfo ℤ ℕ ℕ
bad_peer = record connected_peer { score = real (apply_peer_action_real integers start fatal) }

abbrev bad_manager : Manager ℤ ℕ ℕ
bad_manager = new (record four_peers { peers = (1, bad_peer) ∷ [] }) 1 true

bad_peer-banned : score_state integers bad_peer ≡ ScoreState.banned
unfolding score_state
bad_peer-banned = fatal_bans integers integers-Literals start

rebanned-kept_example :
    let m' = inject_connection_established integers sizes 200 bad_manager 1 (listener []) 0 in
    (m'.events ≡ PeerManagerEvent.meta_data 1 ∷ [])
    × (peer_info m'.peers 1 ≡ some (apply_peer_action_to_score integers bad_peer fatal))
unfolding Assoc.get ℕ_discrete
rebanned-kept_example =
    rebanned-kept integers 200 sizes bad_manager 1 bad_peer (listener []) 0 integers-Literals refl
      bad_peer-banned

abbrev nothing_pruned : Pruned
nothing_pruned = record { peers_to_prune = []; outbound_peers_pruned = 0 }

-- Two connected peers on one attestation subnet.
abbrev on_subnet : PeerInfo ℤ ℕ ℕ
on_subnet = record connected_peer {
  meta_data = some (record { seq_number = 1; attnets = true ∷ []; syncnets = none });
}

third_stage_ends_example :
    let l = limits sizes manager in
    let g = group_all no_fields l nothing_pruned ((1, on_subnet) ∷ (5, on_subnet) ∷ []) no_groups in
    let (p', g') =
      prune_grouped no_fields l unshuffled (suc (entries g.subnet_to_peer)) nothing_pruned g in
    (l.excess ≤ length p'.peers_to_prune) ⊎ (entries g'.subnet_to_peer ≡ 0)
third_stage_ends_example =
    third_stage_ends no_fields (limits sizes manager) unshuffled nothing_pruned
      ((1, on_subnet) ∷ (5, on_subnet) ∷ []) unshuffled-Perm
