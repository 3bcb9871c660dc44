-- ===== src/PeerManager/PeerDb/Transitions.antt =====
-- `update_connection_state` and the database's counters beside what its peers count for.
use consentry.Common.Assoc
use consentry.Common.Assoc.{Distinct}
use consentry.Common.Totals.{total, weight, total-insert, weight-le-total}
use consentry.Common.{
  ℕ, suc, ◌+◌, ◌*◌, ◌≤◌, ◌<◌, ◌≡◌, refl, u64_mod, Bool, true, Option, none, some, List, [], ◌∷◌,
  length, arith, ℕ_discrete, map,
}
use consentry.PeerManager.Score.{F64}
use consentry.PeerManager.PeerInfo.{
  SocketAddr, PeerConnectionStatus, set_connection_status, PeerInfo, IpAddr, is_banned,
  apply_peer_action_to_score, trusted_peer_info, default,
}
use consentry.PeerManager.BannedPeers.{count_of, occurrences}
use consentry.PeerManager.PeerDb.{
  to_disconnecting, PeerDb, Local, NewConnectionState, entry, fresh, or_fresh, punish, transition,
  write_back, update_connection_state,
}
use consentry.PeerManager.PeerDb.Counters.{
  as_disconnected, as_banned, as_banned_at, Counted, Follows, IsCounted, transition-Follows,
  transition-seen,
}

occurrences-map :
    (ip : IpAddr) (ss : List SocketAddr) → occurrences ip (map (λ s. s.ip) ss) ≤ length ss
unfolding occurrences
occurrences-map ip [] = omega arith
occurrences-map ip (s ∷ ss) = ground (arith, occurrences-map ip ss)

module _ {F E M : Type 0} where
  -- Each key stands once, and each counter is the sum over the peers.
  pub record Coherent (db : PeerDb F E M) : Type 0 where
    pub distinct : Distinct ℕ_discrete db.peers
    pub disconnected : db.disconnected_peers ≡ total as_disconnected db.peers
    pub banned : db.banned_peers_count.banned_peers ≡ total as_banned db.peers
    pub at : (ip : IpAddr) → count_of db.banned_peers_count ip ≡ total (as_banned_at ip) db.peers

  -- The records that the map holds: one for each peer and one for each address that it was seen at.
  abbrev pub records : PeerInfo F E M → ℕ
  records i = suc (length i.seen_addresses)

  -- Twice the records fit a machine word, also after `calls` changes of a connection.
  abbrev pub HasRoom : ℕ → PeerDb F E M → Type 0
  HasRoom calls db = total records db.peers + total records db.peers + 4 * calls + 2 < u64_mod

  total_mono :
      (v w : PeerInfo F E M → ℕ)
      → ((i : PeerInfo F E M) → v i ≤ w i)
      → (m : List (ℕ × PeerInfo F E M)) → total v m ≤ total w m
  unfolding total
  total_mono v w h [] = omega arith
  total_mono v w h ((k, i) ∷ m) = omega (arith, h i, total_mono v w h m)

  as_banned_at-le : (ip : IpAddr) (i : PeerInfo F E M) → as_banned_at ip i ≤ records i
  as_banned_at-le ip i = ground (arith, occurrences-map ip i.seen_addresses)

  as_disconnected-le : (i : PeerInfo F E M) → as_disconnected i ≤ records i
  as_disconnected-le i = ground arith

  as_banned-le : (i : PeerInfo F E M) → as_banned i ≤ records i
  as_banned-le i = ground arith

module _ {F E M : Type 0} (f : F64 F) (now : ℕ) where
  -- Neither a new entry nor a punishment changes what a peer counts for.
  record SameCounts (o : Option (PeerInfo F E M)) (i : PeerInfo F E M) : Type 0 where
    disconnected : as_disconnected i ≡ weight as_disconnected o
    banned : as_banned i ≡ weight as_banned o
    at : (ip : IpAddr) → as_banned_at ip i ≡ weight (as_banned_at ip) o
    seen : length i.seen_addresses ≤ weight records o

  fresh-SameCounts : (state : NewConnectionState E) → SameCounts none (fresh f now state)
  unfolding default trusted_peer_info
  fresh-SameCounts (NewConnectionState.dialing trusted enr) = record {
    disconnected = ground arith;
    banned = ground arith;
    at = λ ip. ground arith;
    seen = ground arith;
  }
  fresh-SameCounts (NewConnectionState.connected x y z) = record {
    disconnected = refl;
    banned = refl;
    at = λ ip. refl;
    seen = omega arith;
  }
  fresh-SameCounts _ = record {
    disconnected = refl;
    banned = refl;
    at = λ ip. refl;
    seen = omega arith;
  }

  pub punish-keeps :
      (state : NewConnectionState E) (i : PeerInfo F E M)
      → ((punish f state i).connection_status ≡ i.connection_status)
        × ((punish f state i).seen_addresses ≡ i.seen_addresses)
  unfolding apply_peer_action_to_score
  punish-keeps NewConnectionState.banned i = (ground arith, ground arith)
  punish-keeps _ i = (refl, refl)

  entry-SameCounts :
      (state : NewConnectionState E) (o : Option (PeerInfo F E M))
      → SameCounts o (punish f state (or_fresh f now state o))
  entry-SameCounts state none =
      let v = fresh-SameCounts state in
      let (p, q) = punish-keeps state (fresh f now state) in
      record {
        disconnected = rw p v.disconnected;
        banned = rw p v.banned;
        at = λ ip. rw (p, q) (v.at ip);
        seen = rw q v.seen;
      }
  entry-SameCounts state (some i) =
      let (p, q) = punish-keeps state i in
      record { disconnected = rw p; banned = rw p; at = λ ip. rw (p, q); seen = rw q (omega arith) }

  local_of : PeerDb F E M → ℕ → NewConnectionState E → Local F E M
  local_of db peer_id state = record {
    info = entry f db now peer_id state;
    disconnected_count = db.disconnected_peers;
    banned_count = db.banned_peers_count;
  }

  local_of-Counted :
      (db : PeerDb F E M) (peer_id : ℕ) (state : NewConnectionState E)
      → Coherent db
      → HasRoom 0 db
      → Counted (local_of db peer_id state)
  unfolding local_of
  local_of-Counted db peer_id state c room =
      let same = entry-SameCounts state (Assoc.get ℕ_discrete peer_id db.peers) in
      let e1 = same.disconnected in
      let e2 = same.banned in
      let e4 = same.seen in
      let c1 = c.disconnected in
      let c2 = c.banned in
      record {
        disconnected_in =
            omega (arith, weight-le-total ℕ_discrete as_disconnected peer_id db.peers);
        disconnected_room =
            omega (arith, total_mono as_disconnected records as_disconnected-le db.peers);
        banned_in = omega (arith, weight-le-total ℕ_discrete as_banned peer_id db.peers);
        banned_room = omega (arith, total_mono as_banned records as_banned-le db.peers);
        at_in = λ ip.
            let e3 = same.at ip in
            let c3 = c.at ip in
            omega (arith, weight-le-total ℕ_discrete (as_banned_at ip) peer_id db.peers);
        at_room = λ ip.
            let c3 = c.at ip in
            omega (
              arith,
              total_mono (as_banned_at ip) records (as_banned_at-le ip) db.peers,
              occurrences-map ip (entry f db now peer_id state).seen_addresses,
              weight-le-total ℕ_discrete records peer_id db.peers,
            );
      }

  write_back-Coherent :
      (db : PeerDb F E M) (peer_id : ℕ) (state : NewConnectionState E) (y : Local F E M)
      → Coherent db
      → Follows (local_of db peer_id state) y
      → Coherent (write_back f db peer_id y)
  unfolding local_of
  write_back-Coherent db peer_id state y c w =
      let same = entry-SameCounts state (Assoc.get ℕ_discrete peer_id db.peers) in
      let e1 = same.disconnected in
      let e2 = same.banned in
      let c1 = c.disconnected in
      let c2 = c.banned in
      let w1 = w.disconnected in
      let w2 = w.banned in
      record {
        distinct = Assoc.insert-Distinct ℕ_discrete peer_id y.info db.peers c.distinct;
        disconnected =
            omega (arith, total-insert ℕ_discrete as_disconnected peer_id y.info db.peers);
        banned = omega (arith, total-insert ℕ_discrete as_banned peer_id y.info db.peers);
        at = λ ip.
            let e3 = same.at ip in
            let c3 = c.at ip in
            let w3 = w.at ip in
            omega (arith, total-insert ℕ_discrete (as_banned_at ip) peer_id y.info db.peers);
      }

  pub update_connection_state-Coherent :
      (db : PeerDb F E M) (peer_id : ℕ) (state : NewConnectionState E)
      → Coherent db
      → HasRoom 0 db
      → IsCounted now state (entry f db now peer_id state)
      → Coherent (update_connection_state f db now peer_id state).0
  unfolding update_connection_state local_of
  update_connection_state-Coherent db peer_id state c room n =
      write_back-Coherent db peer_id state _ c (
        transition-Follows now state (local_of db peer_id state) n
          (local_of-Counted db peer_id state c room))

  -- A change of a connection adds two records at most: the peer's and an address.
  pub update_connection_state-HasRoom :
      (db : PeerDb F E M) (peer_id calls : ℕ) (state : NewConnectionState E)
      → HasRoom (suc calls) db
      → HasRoom calls (update_connection_state f db now peer_id state).0
  unfolding update_connection_state local_of
  update_connection_state-HasRoom db peer_id calls state room =
      let x = local_of db peer_id state in
      let y = (transition now state x).0 in
      let same = (entry-SameCounts state (Assoc.get ℕ_discrete peer_id db.peers)).seen in
      omega (
        arith,
        total-insert ℕ_discrete records peer_id y.info db.peers,
        transition-seen now state x,
      )

  -- A defect: a known banned peer that is set to disconnecting stays in the count of the banned,
  -- so that a coherent database is no longer coherent.
  pub disconnecting_banned-not_Coherent :
      (db : PeerDb F E M) (peer_id : ℕ) (i : PeerInfo F E M) (to_ban : Bool)
      → Coherent db
      → Assoc.get ℕ_discrete peer_id db.peers ≡ some i
      → is_banned i ≡ true
      → ¬ Coherent
          (update_connection_state f db now peer_id (NewConnectionState.disconnecting to_ban)).0
  unfolding update_connection_state to_disconnecting
  disconnecting_banned-not_Coherent db peer_id i to_ban c held banned c' =
      let e1 = c.banned in
      let e2 = c'.banned in
      ground (
        arith,
        total-insert ℕ_discrete as_banned peer_id
            (set_connection_status i (PeerConnectionStatus.disconnecting to_ban)) db.peers,
      )
