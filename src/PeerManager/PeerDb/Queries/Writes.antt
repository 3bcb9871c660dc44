-- ===== src/PeerManager/PeerDb/Queries/Writes.antt =====
-- The operations of src/peer_manager/peerdb.rs that write a single peer, and the cleanup of dials.
use consentry.Common.Assoc
use consentry.Common.{
  ℕ, ◌+◌, ◌*◌, ltb, if◌then◌else◌, Bool, true, false, ◌&&◌, Option, none, some, List, [], ◌∷◌,
  ℕ_discrete,
}
use consentry.PeerManager.Score.{F64}
use consentry.PeerManager.SyncStatus.{SyncStatus}
use consentry.PeerManager.PeerInfo.{
  PeerInfo, PeerConnectionStatus, ConnectionDirection, incoming, outgoing, Subnet, IpAddr,
  seen_ip_addresses, is_connected, is_dialing, is_disconnected, is_banned, is_outbound_only,
  is_good_gossipsub_peer, on_subnet_metadata, on_subnet_gossipsub, score_state, score_is_banned,
  insert_subnet, remove_subnet,
}
use consentry.PeerManager.PeerInfo
use consentry.PeerManager.PeerDb.{PeerDb, Part, NewConnectionState, update_connection_state}
use consentry.PeerManager.PeerDb.Queries.{peer_info, ids}

-- `DIAL_TIMEOUT` seconds, in nanoseconds
abbrev pub dial_timeout : ℕ
dial_timeout = 15 * 1000000000

-- `info.min_ttl().is_none() || Some(&min_ttl) > info.min_ttl()`
abbrev pub longer : ℕ → Option ℕ → Bool
longer min_ttl none = true
longer min_ttl (some ttl) = ltb ttl min_ttl

module _ {F E M : Type 0} where
  abbrev change :
      (PeerInfo F E M → PeerInfo F E M) → PeerDb F E M → ℕ → Option (PeerInfo F E M) → PeerDb F E M
  change g db peer_id none = db
  change g db peer_id (some info) = record db {
    peers = Assoc.insert ℕ_discrete peer_id (g info) db.peers;
  }

  -- `PeerDB::add_subscription`
  unfoldable pub add_subscription : PeerDb F E M → ℕ → Subnet → PeerDb F E M
  add_subscription db peer_id subnet =
      change (λ info. insert_subnet info subnet) db peer_id (peer_info db peer_id)

  -- `PeerDB::remove_subscription`
  unfoldable pub remove_subscription : PeerDb F E M → ℕ → Subnet → PeerDb F E M
  remove_subscription db peer_id subnet =
      change (λ info. remove_subnet info subnet) db peer_id (peer_info db peer_id)

  abbrev renew :
      SyncStatus → PeerDb F E M → ℕ → Option (PeerInfo F E M) → PeerDb F E M × Option Bool
  renew status db peer_id none = (db, none)
  renew status db peer_id (some info) =
      let (info', changed) = PeerInfo.update_sync_status info status in
      (record db { peers = Assoc.insert ℕ_discrete peer_id info' db.peers }, some changed)

  -- `PeerDB::update_sync_status`
  unfoldable pub update_sync_status : PeerDb F E M → ℕ → SyncStatus → PeerDb F E M × Option Bool
  update_sync_status db peer_id status = renew status db peer_id (peer_info db peer_id)

  abbrev pub extend : PeerInfo F E M → ℕ → PeerInfo F E M
  extend info min_ttl =
      if longer min_ttl info.min_ttl then record info { min_ttl = some min_ttl } else info

  -- `PeerDB::extend_peers_on_subnet`
  unfoldable pub extend_peers : Subnet → ℕ → List (ℕ × PeerInfo F E M) → List (ℕ × PeerInfo F E M)
  extend_peers subnet min_ttl [] = []
  extend_peers subnet min_ttl ((k, info) ∷ m) =
      (
        k,
        if is_connected info && on_subnet_metadata info subnet && on_subnet_gossipsub info subnet
            then extend info min_ttl
            else info,
      )
      ∷ extend_peers subnet min_ttl m

  unfoldable pub extend_peers_on_subnet : PeerDb F E M → Subnet → ℕ → PeerDb F E M
  extend_peers_on_subnet db subnet min_ttl = record db {
    peers = extend_peers subnet min_ttl db.peers;
  }

  -- The peers that have been dialed for longer than the timeout.
  abbrev pub timed_out : ℕ → PeerInfo F E M → Bool
  timed_out now info = elim info.connection_status [
    | PeerConnectionStatus.dialing since ↦ ltb (since + dial_timeout) now
    | _ ↦ false
  ]

module _ {F E M : Type 0} (f : F64 F) where
  abbrev known_or_default : ℕ → Option (PeerInfo F E M) → PeerInfo F E M
  known_or_default now none = PeerInfo.default f now
  known_or_default now (some info) = info

  -- `PeerDB::update_min_ttl`: an unknown peer is entered.
  unfoldable pub update_min_ttl : PeerDb F E M → ℕ → ℕ → ℕ → PeerDb F E M
  update_min_ttl db now peer_id min_ttl =
      let info = known_or_default now (peer_info db peer_id) in
      record db { peers = Assoc.insert ℕ_discrete peer_id (extend info min_ttl) db.peers }

  -- `PeerDB::dialing_peer`
  unfoldable pub dialing_peer : PeerDb F E M → ℕ → ℕ → Option E → Bool → PeerDb F E M
  dialing_peer db now peer_id enr trusted =
      (update_connection_state f db now peer_id (NewConnectionState.dialing trusted enr)).0

  -- `PeerDB::connect_ingoing`
  unfoldable pub connect_ingoing : PeerDb F E M → ℕ → ℕ → List Part → Option E → PeerDb F E M
  connect_ingoing db now peer_id seen_address enr =
      (update_connection_state f db now peer_id
        (NewConnectionState.connected enr seen_address incoming)).0

  -- `PeerDB::connect_outgoing`
  unfoldable pub connect_outgoing : PeerDb F E M → ℕ → ℕ → List Part → Option E → PeerDb F E M
  connect_outgoing db now peer_id seen_address enr =
      (update_connection_state f db now peer_id
        (NewConnectionState.connected enr seen_address outgoing)).0

  -- `PeerDB::notify_disconnecting`
  unfoldable pub notify_disconnecting : PeerDb F E M → ℕ → ℕ → Bool → PeerDb F E M
  notify_disconnecting db now peer_id to_ban =
      (update_connection_state f db now peer_id (NewConnectionState.disconnecting to_ban)).0

  -- The loop of `cleanup_dialing_peers`.
  unfoldable pub disconnect_all : PeerDb F E M → ℕ → List ℕ → PeerDb F E M
  disconnect_all db now [] = db
  disconnect_all db now (k ∷ ks) =
      disconnect_all (update_connection_state f db now k NewConnectionState.disconnected).0 now ks

  -- `PeerDB::cleanup_dialing_peers`; the code reads the clock anew for each peer.
  unfoldable pub cleanup_dialing_peers : PeerDb F E M → ℕ → PeerDb F E M
  cleanup_dialing_peers db now = disconnect_all db now (ids (timed_out now) db)
