-- ===== src/PeerManager/PeerDb/Queries.antt =====
-- The getters of src/peer_manager/peerdb.rs. An iterator over
-- the map is the list of its peers in the map's order.
pub mod Dialing
pub mod Cleanup
pub mod Writes
use consentry.Common.Assoc
use consentry.Common.{
  ℕ, ◌+◌, ◌*◌, ltb, if◌then◌else◌, Bool, true, false, not, ◌&&◌, ◌||◌, Option, none, some, List, [],
  ◌∷◌, filter, map, ℕ_discrete,
}
use consentry.PeerManager.Score.{F64, ScoreState, healthy}
use consentry.PeerManager.SyncStatus.{SyncStatus, is_synced, is_advanced}
use consentry.PeerManager.PeerInfo.{
  PeerInfo, PeerConnectionStatus, ConnectionDirection, incoming, outgoing, Subnet, IpAddr,
  seen_ip_addresses, is_connected, is_dialing, is_disconnected, is_banned, is_outbound_only,
  is_good_gossipsub_peer, on_subnet_metadata, on_subnet_gossipsub, score_state, score_is_banned,
  insert_subnet, remove_subnet,
}
use consentry.PeerManager.PeerInfo
use consentry.PeerManager.BannedPeers
use consentry.PeerManager.PeerDb.{
  PeerDb, Part, NewConnectionState, BanResult, bad_score, not_banned, update_connection_state,
}

abbrev pub first : (IpAddr → Bool) → List IpAddr → Option IpAddr
first p [] = none
first p (ip ∷ ips) = if p ip then some ip else first p ips

abbrev connecting : Option PeerConnectionStatus → Bool
connecting (some (PeerConnectionStatus.connected _ _)) = true
connecting (some (PeerConnectionStatus.dialing _)) = true
connecting _ = false

abbrev leaving : Option PeerConnectionStatus → Bool
leaving (some (PeerConnectionStatus.connected _ _)) = true
leaving (some (PeerConnectionStatus.disconnecting _)) = true
leaving _ = false

abbrev pub idle : Option PeerConnectionStatus → Bool
idle (some (PeerConnectionStatus.disconnected _)) = true
idle (some PeerConnectionStatus.unknown) = true
idle none = true
idle _ = false

abbrev pub from_banned_ip : Option IpAddr → BanResult
from_banned_ip none = not_banned
from_banned_ip (some ip) = BanResult.banned_ip ip

abbrev is_some : Option IpAddr → Bool
is_some none = false
is_some (some ip) = true

module _ {F E M : Type 0} where
  abbrev pub peer_info : PeerDb F E M → ℕ → Option (PeerInfo F E M)
  peer_info db peer_id = Assoc.get ℕ_discrete peer_id db.peers

  abbrev pub status_of : Option (PeerInfo F E M) → Option PeerConnectionStatus
  status_of none = none
  status_of (some info) = some info.connection_status

  -- `PeerDB::connection_status`
  unfoldable pub connection_status : PeerDb F E M → ℕ → Option PeerConnectionStatus
  connection_status db peer_id = status_of (peer_info db peer_id)

  -- `PeerDB::is_connected_or_dialing`
  unfoldable pub is_connected_or_dialing : PeerDb F E M → ℕ → Bool
  unfolding connection_status
  is_connected_or_dialing db peer_id = connecting (connection_status db peer_id)

  -- `PeerDB::is_connected_or_disconnecting`
  unfoldable pub is_connected_or_disconnecting : PeerDb F E M → ℕ → Bool
  unfolding connection_status
  is_connected_or_disconnecting db peer_id = leaving (connection_status db peer_id)

  abbrev synced_status : Option (PeerInfo F E M) → Bool
  synced_status none = false
  synced_status (some info) = is_synced info.sync_status

  -- `PeerDB::is_synced`
  unfoldable pub peer_is_synced : PeerDb F E M → ℕ → Bool
  peer_is_synced db peer_id = synced_status (peer_info db peer_id)

  -- `PeerDB::ip_is_banned`: the first banned address of the peer.
  unfoldable pub banned_ip_of : PeerDb F E M → PeerInfo F E M → Option IpAddr
  banned_ip_of db peer =
      first (λ ip. BannedPeers.ip_is_banned db.banned_peers_count ip) (seen_ip_addresses peer)

  -- The keys of the peers that a getter selects.
  abbrev pub ids : (PeerInfo F E M → Bool) → PeerDb F E M → List ℕ
  ids p db = map (λ x. x.0) (filter (λ x. p x.1) db.peers)

  abbrev pub connected_peer_ids : PeerDb F E M → List ℕ
  connected_peer_ids = ids is_connected

  abbrev pub connected_or_dialing_peers : PeerDb F E M → List ℕ
  connected_or_dialing_peers = ids (λ info. is_connected info || is_dialing info)

  abbrev pub connected_outbound_only_peers : PeerDb F E M → List ℕ
  connected_outbound_only_peers = ids is_outbound_only

  abbrev pub synced_peers : PeerDb F E M → List ℕ
  synced_peers = ids (λ info.
      if is_synced info.sync_status || is_advanced info.sync_status
      then is_connected info
      else false)

  abbrev pub advanced_peers : PeerDb F E M → List ℕ
  advanced_peers = ids (λ info. if is_advanced info.sync_status then is_connected info else false)

  abbrev pub disconnected_peer_ids : PeerDb F E M → List ℕ
  disconnected_peer_ids = ids is_disconnected

  abbrev pub banned_peer_ids : PeerDb F E M → List ℕ
  banned_peer_ids = ids is_banned
  -- A write through `get_mut`, where the peer is known.

module _ {F E M : Type 0} (f : F64 F) where
  abbrev ban_status_of : PeerDb F E M → Option (PeerInfo F E M) → BanResult
  ban_status_of db none = not_banned
  ban_status_of db (some peer) = elim (score_state f peer) [
    | ScoreState.banned ↦ bad_score
    | _ ↦ from_banned_ip (banned_ip_of db peer)
  ]

  -- `PeerDB::ban_status`
  unfoldable pub ban_status : PeerDb F E M → ℕ → BanResult
  ban_status db peer_id = ban_status_of db (peer_info db peer_id)

  abbrev shunned : PeerDb F E M → Option (PeerInfo F E M) → Bool
  shunned db none = false
  shunned db (some peer) = elim (score_state f peer) [
    | healthy ↦ is_some (banned_ip_of db peer)
    | _ ↦ true
  ]

  -- `PeerDB::score_state_banned_or_disconnected`
  unfoldable pub score_state_banned_or_disconnected : PeerDb F E M → ℕ → Bool
  score_state_banned_or_disconnected db peer_id = shunned db (peer_info db peer_id)

  -- `PeerDB::should_dial`
  unfoldable pub should_dial : PeerDb F E M → ℕ → Bool
  unfolding connection_status score_state_banned_or_disconnected
  should_dial db peer_id =
      idle (connection_status db peer_id) && not (score_state_banned_or_disconnected db peer_id)

  abbrev pub good_peers_on_subnet : PeerDb F E M → Subnet → List ℕ
  good_peers_on_subnet db subnet =
      ids
        (λ info.
          is_connected info
          && on_subnet_metadata info subnet
          && on_subnet_gossipsub info subnet
          && is_good_gossipsub_peer f info)
        db

  abbrev pub banned_peers_by_score : PeerDb F E M → List ℕ
  banned_peers_by_score = ids (score_is_banned f)
