-- ===== src/PeerManager/PeerDb/Queries/Dialing.antt =====
-- `should_dial` and the peer that is dialed next.
use consentry.Common.Assoc
use consentry.Common.{ℕ, ◌≡◌, Bool, true, false, Option, none, some, arith, ℕ_discrete}
use consentry.PeerManager.Score.{F64}
use consentry.PeerManager.PeerInfo.{
  PeerInfo, PeerConnectionStatus, set_dialing_peer, default, trusted_peer_info,
}
use consentry.PeerManager.PeerDb.{
  PeerDb, Local, NewConnectionState, not_banned, update_connection_state, to_dialing, or_fresh,
  entry,
}
use consentry.PeerManager.PeerDb.Queries.{
  idle, connection_status, is_connected_or_dialing, ban_status, score_state_banned_or_disconnected,
  should_dial, status_of,
}
use consentry.PeerManager.PeerDb.Queries.Writes.{dialing_peer}

module _ {F E M : Type 0} (f : F64 F) where
  to_dialing-status :
      (now : ℕ) (trusted : Bool) (enr : Option E) (x : Local F E M)
      → idle (some x.info.connection_status) ≡ true
      → (to_dialing now trusted enr x).info.connection_status ≡ PeerConnectionStatus.dialing now
  unfolding to_dialing set_dialing_peer
  to_dialing-status now trusted enr x h = ground arith

  -- The two tests of a peer's standing agree.
  not_shunned :
      (db : PeerDb F E M) (peer_id : ℕ)
      → score_state_banned_or_disconnected f db peer_id ≡ false
      → ban_status f db peer_id ≡ not_banned
  unfolding score_state_banned_or_disconnected ban_status
  not_shunned db peer_id h = ground arith

  or_fresh-idle :
      (now : ℕ) (enr : Option E) (trusted : Bool) (o : Option (PeerInfo F E M))
      → idle (status_of o) ≡ true
      → idle (some (or_fresh f now (NewConnectionState.dialing trusted enr) o).connection_status)
        ≡ true
  unfolding default trusted_peer_info
  or_fresh-idle now enr trusted none h = ground arith
  or_fresh-idle now enr trusted (some i) h = h

  dialing_peer-status :
      (db : PeerDb F E M) (now peer_id : ℕ) (enr : Option E) (trusted : Bool)
      → idle (connection_status db peer_id) ≡ true
      → connection_status (dialing_peer f db now peer_id enr trusted) peer_id
        ≡ some (PeerConnectionStatus.dialing now)
  unfolding connection_status dialing_peer update_connection_state
  dialing_peer-status db now peer_id enr trusted h =
      let state = NewConnectionState.dialing trusted enr in
      let x : Local F E M = record {
        info = entry f db now peer_id state;
        disconnected_count = db.disconnected_peers;
        banned_count = db.banned_peers_count;
      } in
      rw (
        Assoc.get-insert_self ℕ_discrete peer_id (to_dialing now trusted enr x).info db.peers,
        to_dialing-status now trusted enr x
            (or_fresh-idle now enr trusted (Assoc.get ℕ_discrete peer_id db.peers) h),
      )

  -- A peer that should be dialed is neither banned, by its score or an address, nor connected or
  -- being dialed; when it is dialed, its status says that and since when, and it should not be
  -- dialed again.
  should_dial-dialing_peer :
      (db : PeerDb F E M) (now peer_id : ℕ) (enr : Option E) (trusted : Bool)
      → should_dial f db peer_id ≡ true
      → let db' = dialing_peer f db now peer_id enr trusted in
        (ban_status f db peer_id ≡ not_banned)
        × (is_connected_or_dialing db peer_id ≡ false)
        × (connection_status db' peer_id ≡ some (PeerConnectionStatus.dialing now))
        × (should_dial f db' peer_id ≡ false)
  unfolding should_dial is_connected_or_dialing
  should_dial-dialing_peer db now peer_id enr trusted h =
      let dialed = dialing_peer-status db now peer_id enr trusted (ground arith) in
      (not_shunned db peer_id (ground arith), ground arith, dialed, ground arith)
