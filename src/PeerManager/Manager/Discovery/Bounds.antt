-- ===== src/PeerManager/Manager/Discovery/Bounds.antt =====
-- How many peers the searches of src/peer_manager/mod.rs dial and ask for.
use consentry.Common.{
  ℕ, ◌+◌, ◌-◌, ◌==◌, ◌<◌, ◌≤◌, ◌≡◌, ◌⊎◌, inl, inr, refl, ltb, ltb→lt, ltb→le, lt→ltb, le→ltb,
  u64_mod, u64_sub, max, Bool-cases, true, not, ◌&&◌, Option, none, some, List, [], ◌∷◌, length,
  arith,
}
use consentry.PeerManager.Score.{F64}
use consentry.PeerManager.PeerDb.{PeerDb}
use consentry.PeerManager.PeerDb.Queries.{connected_outbound_only_peers}
use consentry.PeerManager.Manager.{Manager, Sizes, PeerManagerEvent, push, connected_or_dialing}
use consentry.PeerManager.Manager.Discovery.{
  wanted_peers, maintain_peer_count, dials, needed, choose_peers, peers_discovered,
}

module _ {F E M : Type 0} (f : F64 F) (now : ℕ) (sizes : Sizes) (m : Manager F E M) where
  abbrev pub most_dialed : ℕ
  most_dialed = max (sizes.max_peers m.target_peers) (sizes.max_priority_peers m.target_peers)

  dials_room :
      (connected found peer_id : ℕ) (peers : PeerDb F E M) (min_ttl : Option ℕ)
      → dials f now sizes m connected peers found peer_id min_ttl ≡ true
      → connected + found < most_dialed
  dials_room connected found peer_id peers none d =
      let room = ltb→lt (connected + found) (sizes.max_peers m.target_peers) (ground arith) in
      omega arith
  dials_room connected found peer_id peers (some ttl) d =
      elim (Bool-cases (ltb (connected + found) (sizes.max_peers m.target_peers))) [
        | inl l ↦ let room = ltb→lt _ _ l in omega arith
        | inr full ↦
            let room =
              ltb→lt (connected + found) (sizes.max_priority_peers m.target_peers) (ground arith) in
            omega arith
      ]

  choose_peers-bounded :
      (connected found : ℕ) (peers : PeerDb F E M) (results : List (ℕ × Option ℕ))
      → connected + found ≤ max connected most_dialed
      → connected + found + length (choose_peers f now sizes m connected found peers results).1
        ≤ max connected most_dialed
  unfolding choose_peers
  choose_peers-bounded connected found peers [] le = omega arith
  choose_peers-bounded connected found peers ((peer_id, min_ttl) ∷ rest) le =
      elim (Bool-cases (dials f now sizes m connected peers found peer_id min_ttl)) [
        | inl dialed ↦
            let room = dials_room connected found peer_id peers min_ttl dialed in
            let next =
              choose_peers-bounded connected (found + 1) (needed f now peers peer_id min_ttl) rest
                (omega arith) in
            rw dialed (omega arith)
        | inr passed ↦ rw passed (choose_peers-bounded connected found peers rest le)
      ]

  -- However many peers a search returns, those that are chosen to be dialed and those that are connected or
  -- dialed already are at most as many as the larger of `max_peers` and `max_priority_peers`, unless there
  -- were more before, and then none is chosen.
  pub discovered_bounded :
      (results : List (ℕ × Option ℕ))
      → connected_or_dialing m + length (peers_discovered f now sizes m results).1
        ≤ max (connected_or_dialing m) most_dialed
  unfolding peers_discovered
  discovered_bounded results =
      let chosen = choose_peers-bounded (connected_or_dialing m) 0 m.peers results (omega arith) in
      omega arith

module _ {F E M : Type 0} (sizes : Sizes) (m : Manager F E M) where
  abbrev pub most_outbound : ℕ
  most_outbound = sizes.max_outbound_dialing_peers m.target_peers

  wanted-bounded :
      (dialing count outbound : ℕ)
      → most_outbound < u64_mod
      → (dialing ≡ 0) ⊎ (count + dialing ≤ most_outbound)
      → 0 < wanted_peers sizes m dialing count outbound
      → count + dialing + wanted_peers sizes m dialing count outbound
        ≤ max m.target_peers most_outbound
  wanted-bounded dialing count outbound fits few some_wanted =
      elim (Bool-cases (ltb count (m.target_peers - dialing))) [
        | inl short ↦ let l = ltb→lt _ _ short in rw short (omega arith)
        | inr enough ↦
            let g = ltb→le _ _ enough in
            elim (Bool-cases (
              ltb outbound (sizes.min_outbound_only_peers m.target_peers)
              && ltb count most_outbound)) [
                | inl missing ↦
                    let l = ltb→lt count most_outbound (ground arith) in
                    rw (enough, missing)
                      (elim few [ inl z ↦ rw z (omega arith) | inr le ↦ omega arith ])
                | inr fine ↦
                    let quiet : wanted_peers sizes m dialing count outbound ≡ 0 =
                      rw (enough, fine) refl in
                    absurd (omega arith)
              ]
      ]

  -- Where the limit of outbound dials is a `usize`, and no peer is about to be dialed or those that are do
  -- not exceed that limit with those that are connected or dialed, `maintain_peer_count` changes nothing or
  -- asks for a number of peers, not zero, that with those peers is at most the larger of the target and of
  -- the limit.
  pub maintain_bounded :
      (dialing : ℕ)
      → most_outbound < u64_mod
      → (dialing ≡ 0) ⊎ (connected_or_dialing m + dialing ≤ most_outbound)
      → (maintain_peer_count sizes m dialing ≡ m)
        ⊎ ((n : ℕ) × (maintain_peer_count sizes m dialing
              ≡ push m (PeerManagerEvent.discover_peers n))
            × (0 < n)
            × (connected_or_dialing m + dialing + n ≤ max m.target_peers most_outbound))
  unfolding maintain_peer_count
  maintain_bounded dialing fits few =
      let count = connected_or_dialing m in
      let outbound = length (connected_outbound_only_peers m.peers) in
      let wanted = wanted_peers sizes m dialing count outbound in
      elim (Bool-cases (m.discovery_enabled && not (wanted == 0))) [
        | inl asks ↦
            let n : 0 < wanted = ground arith in
            rw asks (inr (wanted, refl, n, wanted-bounded dialing count outbound fits few n))
        | inr quiet ↦ rw quiet (inl refl)
      ]

  -- Where discovery is enabled, as many peers as the target are connected or dialed, too few of them
  -- outbound, and their number is below the limit of outbound dials (a `usize`) but above what that limit
  -- leaves beside the peers about to be dialed, `maintain_peer_count` asks for at least 2^64 peers less
  -- those that are connected or dialed.
  pub maintain_wraps :
      (dialing : ℕ)
      → most_outbound < u64_mod
      → m.discovery_enabled ≡ true
      → m.target_peers ≤ connected_or_dialing m
      → length (connected_outbound_only_peers m.peers)
        < sizes.min_outbound_only_peers m.target_peers
      → connected_or_dialing m < most_outbound
      → most_outbound - dialing < connected_or_dialing m
      → (n : ℕ) × (maintain_peer_count sizes m dialing ≡ push m (PeerManagerEvent.discover_peers n))
        × (u64_mod ≤ n + connected_or_dialing m)
  unfolding maintain_peer_count
  maintain_wraps dialing fits enabled enough few below above =
      let count = connected_or_dialing m in
      let outbound = length (connected_outbound_only_peers m.peers) in
      let n = u64_sub (most_outbound - dialing) count in
      let a = le→ltb count (m.target_peers - dialing) (omega arith) in
      let b = lt→ltb outbound (sizes.min_outbound_only_peers m.target_peers) few in
      let c = lt→ltb count most_outbound below in
      let large : u64_mod ≤ n + count = omega arith in
      let asks : not (n == 0) ≡ true = ground arith in rw (a, b, c, enabled, asks) (n, refl, large)
