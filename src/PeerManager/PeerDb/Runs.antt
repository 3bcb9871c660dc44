-- ===== src/PeerManager/PeerDb/Runs.antt =====
-- Sequences of the peer database's operations, in any order in which the peer manager may call them.
-- Left out are the operations that change neither a connection nor a score.
use consentry.Common.Assoc
use consentry.Common.Assoc.{Distinct}
use consentry.Common.Totals.{total, total-insert}
use consentry.Common.{
  Option, ℕ, ◌≤◌, ◌≡◌, refl, sym, subst, List, [], ◌∷◌, length, arith, ℕ_discrete,
}
use consentry.PeerManager.Score.{F64, PeerAction}
use consentry.PeerManager.PeerInfo.{PeerInfo, trusted_peer_info}
use consentry.PeerManager.BannedPeers.{count_of}
use consentry.PeerManager.PeerDb.{
  PeerDb, NewConnectionState, entry, update_connection_state, new, max_banned_peers, max_dc_peers,
}
use consentry.PeerManager.PeerDb.Counters.{IsCounted, as_disconnected, as_banned, as_banned_at}
use consentry.PeerManager.PeerDb.Transitions.{Coherent, HasRoom, update_connection_state-Coherent}
use consentry.PeerManager.PeerDb.Limits.{shrink_to_fit, inject_disconnect}
use consentry.PeerManager.PeerDb.Limits.Bounds.{shrink_to_fit_lem}
use consentry.PeerManager.PeerDb.Queries.{ids}
use consentry.PeerManager.PeerDb.Queries.Writes.{timed_out, cleanup_dialing_peers}
use consentry.PeerManager.PeerDb.Queries.Cleanup.{cleanup_dialing_peers_lem}
use consentry.PeerManager.PeerDb.Scores.{
  report_peer, update_scores, peers_to_unban, update_gossipsub_scores, with_scores,
}
use consentry.PeerManager.PeerDb.Scores.Gossipsub.{update_gossipsub_scores-Coherent}
use consentry.PeerManager.PeerDb.Scores.Coherence.{report_peer-Coherent, update_scores-Coherent}

pub data Call (F E : Type 0) : Type 0 where
  change : ℕ → NewConnectionState E → Call F E
  report : ℕ → PeerAction → Call F E
  disconnect : ℕ → Call F E
  gossip : ℕ → (ℕ → Option F) → Call F E
  decay shrink cleanup : Call F E

module _ {F : Type 0} (E M : Type 0) (f : F64 F) where
  new-Distinct : (ks : List ℕ) → Distinct ℕ_discrete (new {E = E} {M = M} f ks).peers
  unfolding new
  new-Distinct [] = tt
  new-Distinct (k ∷ ks) =
      Assoc.insert-Distinct ℕ_discrete k (trusted_peer_info f) _ (new-Distinct ks)

module _ {F E M : Type 0} (f : F64 F) where
  -- A call at an instant, without its result.
  abbrev pub after : Call F E → ℕ → PeerDb F E M → PeerDb F E M
  after (change peer_id state) now db = (update_connection_state f db now peer_id state).0
  after (report peer_id action) now db = (report_peer f db now peer_id action).0
  after (disconnect peer_id) now db = (inject_disconnect f db now peer_id).0
  after decay now db = (update_scores f db now).0
  after (gossip allowed peer_score) now db = (update_gossipsub_scores f db now allowed peer_score).0
  after shrink now db = (shrink_to_fit db).0
  after cleanup now db = cleanup_dialing_peers f db now

  -- The database has room for what the call adds, and no banned peer is set to disconnecting.
  abbrev pub Allowed : Call F E → ℕ → PeerDb F E M → Type 0
  Allowed (change peer_id state) now db =
      HasRoom 0 db × IsCounted now state (entry f db now peer_id state)
  Allowed (report _ _) now db = HasRoom 0 db
  Allowed (disconnect _) now db = HasRoom 0 db
  Allowed decay now db = HasRoom (length (peers_to_unban f now db.peers)) db
  Allowed (gossip _ peer_score) now db = HasRoom (length (with_scores f peer_score db.peers)) db
  Allowed shrink now db = Unit {0}
  Allowed cleanup now db = HasRoom (length (ids (timed_out now) db)) db

  -- The databases that calls reach from one.
  pub data Reaches (start : PeerDb F E M) : PeerDb F E M → Type 0 where
    here : Reaches start start
    then_call :
        {db db' : PeerDb F E M}
        → Reaches start db
        → (call : Call F E) → (now : ℕ) → Allowed call now db
        → after call now db ≡ db'
        → Reaches start db'

  after-Coherent :
      (call : Call F E) (now : ℕ) (db : PeerDb F E M)
      → Allowed call now db
      → Coherent db
      → Coherent (after call now db)
  unfolding inject_disconnect
  after-Coherent (change peer_id state) now db (room, counted) c =
      update_connection_state-Coherent f now db peer_id state c room counted
  after-Coherent (report peer_id action) now db room c =
      report_peer-Coherent f db now peer_id action c room
  after-Coherent (disconnect peer_id) now db room c =
      (shrink_to_fit_lem _ (
        update_connection_state-Coherent f now db peer_id NewConnectionState.disconnected c room
          tt)).0
  after-Coherent decay now db room c = update_scores-Coherent f db now c room
  after-Coherent (gossip allowed peer_score) now db room c =
      update_gossipsub_scores-Coherent f now db allowed peer_score c room
  after-Coherent shrink now db room c = (shrink_to_fit_lem db c).0
  after-Coherent cleanup now db room c = (cleanup_dialing_peers_lem f now db c room).0

  Reaches-Coherent : {start db : PeerDb F E M} → Coherent start → Reaches start db → Coherent db
  Reaches-Coherent c here = c
  Reaches-Coherent c (then_call {db} r call now allowed e) =
      subst Coherent e (after-Coherent call now db allowed (Reaches-Coherent c r))

  new-none :
      (w : PeerInfo F E M → ℕ)
      → w (trusted_peer_info f) ≡ 0
      → (ks : List ℕ) → total w (new f ks).peers ≡ 0
  unfolding total new
  new-none w zero [] = refl
  new-none w zero (k ∷ ks) = omega (
    arith,
    new-none w zero ks,
    total-insert ℕ_discrete w k (trusted_peer_info f) (new f ks).peers,
  )

  -- A new database counts none of its trusted peers.
  pub new-Coherent : (ks : List ℕ) → Coherent (new {E = E} {M = M} f ks)
  new-Coherent ks = record {
    distinct = new-Distinct E M f ks;
    disconnected =
        unfold new in sym (new-none as_disconnected (unfold trusted_peer_info in refl) ks);
    banned = unfold new in sym (new-none as_banned (unfold trusted_peer_info in refl) ks);
    at = λ ip.
        unfold new count_of Assoc.get in
        sym (new-none (as_banned_at ip) (unfold trusted_peer_info in refl) ks);
  }

  pub Reaches-new-Coherent :
      (trusted_peers : List ℕ) {db : PeerDb F E M} → Reaches (new f trusted_peers) db → Coherent db
  Reaches-new-Coherent trusted_peers r = Reaches-Coherent (new-Coherent trusted_peers) r

  -- In whatever database such a sequence of calls makes of a new one, a disconnect leaves at most
  -- 1000 banned and 500 disconnected peers, counted over the peers themselves, where the database
  -- has room for it.
  pub Reaches-disconnect_bounded :
      (trusted_peers : List ℕ) {db : PeerDb F E M} (now peer_id : ℕ)
      → Reaches (new f trusted_peers) db
      → HasRoom 0 db
      → let db' = (inject_disconnect f db now peer_id).0 in
        (total as_banned db'.peers ≤ max_banned_peers)
        × (total as_disconnected db'.peers ≤ max_dc_peers)
  unfolding inject_disconnect
  Reaches-disconnect_bounded trusted_peers {db} now peer_id r room =
      let c = Reaches-new-Coherent trusted_peers r in
      let (c', banned, disconnected, told) = shrink_to_fit_lem _ (
        update_connection_state-Coherent f now db peer_id NewConnectionState.disconnected c room
          tt) in
      let e1 = c'.banned in let e2 = c'.disconnected in (omega arith, omega arith)
