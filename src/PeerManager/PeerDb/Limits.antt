-- ===== src/PeerManager/PeerDb/Limits.antt =====
-- `shrink_to_fit` and `inject_disconnect` of src/peer_manager/peerdb.rs. Each loop takes for
-- fuel the counter that its test reads.
pub mod Bounds
use consentry.Common.Assoc
use consentry.Common.{
  ℕ, zero, suc, ◌-◌, ltb, leb, if◌then◌else◌, Bool, true, false, not, Option, none, some, List, [],
  ◌∷◌, ◌++◌, filter, ℕ_discrete,
}
use consentry.PeerManager.Score.{F64}
use consentry.PeerManager.PeerInfo.{PeerInfo, PeerConnectionStatus, IpAddr, seen_ip_addresses}
use consentry.PeerManager.BannedPeers.{remove_banned_peer, ip_is_banned}
use consentry.PeerManager.BannedPeers
use consentry.PeerManager.PeerDb.{
  PeerDb, BanOperation, NewConnectionState, max_banned_peers, max_dc_peers, update_connection_state,
}

abbrev pub banned_since : PeerConnectionStatus → Option ℕ
banned_since (PeerConnectionStatus.banned since) = some since
banned_since _ = none

abbrev pub disconnected_since : PeerConnectionStatus → Option ℕ
disconnected_since (PeerConnectionStatus.disconnected since) = some since
disconnected_since _ = none

abbrev pub Found : Type 0 → Type 0 → Type 0 → Type 0
Found F E M = Option (ℕ × PeerInfo F E M × ℕ)

module _ {F E M : Type 0} where
  abbrev pub earlier : ℕ → PeerInfo F E M → Option ℕ → Found F E M → Found F E M
  earlier k i none rest = rest
  earlier k i (some since) none = some (k, i, since)
  earlier k i (some since) (some (j, other, least)) =
      if leb since least then some (k, i, since) else some (j, other, least)

  -- `min_by_key` over the peers whose status has an instant: the first of the least.
  unfoldable pub oldest :
      (PeerConnectionStatus → Option ℕ) → List (ℕ × PeerInfo F E M) → Found F E M
  oldest since_of [] = none
  oldest since_of ((k, i) ∷ m) = earlier k i (since_of i.connection_status) (oldest since_of m)

  -- One round of the first loop: the oldest banned peer is dropped, with the addresses that its
  -- removal frees. Where there is none the counts are reset.
  unfoldable pub drop_banned : PeerDb F E M → PeerDb F E M × List (ℕ × List IpAddr)
  drop_banned db = elim (oldest banned_since db.peers) [
    | some (id, info, _) ↦
        let counts = remove_banned_peer db.banned_peers_count (seen_ip_addresses info) in
        let unbanned_ips = filter (λ ip. not (ip_is_banned counts ip)) (seen_ip_addresses info) in
        (
          record db { peers = Assoc.remove ℕ_discrete id db.peers; banned_peers_count = counts },
          (id, unbanned_ips) ∷ [],
        )
    | none ↦ (record db { banned_peers_count = BannedPeers.default }, [])
  ]

  unfoldable pub drop_all_banned :
      ℕ → PeerDb F E M → List (ℕ × List IpAddr) → PeerDb F E M × List (ℕ × List IpAddr)
  drop_all_banned zero db dropped = (db, dropped)
  drop_all_banned (suc fuel) db dropped =
      elim (ltb max_banned_peers db.banned_peers_count.banned_peers) [
        | true ↦ drop_all_banned fuel (drop_banned db).0 (dropped ++ (drop_banned db).1)
        | false ↦ (db, dropped)
      ]

  -- One round of the second loop: the oldest disconnected peer is dropped.
  unfoldable pub drop_disconnected : PeerDb F E M → PeerDb F E M
  drop_disconnected db = elim (oldest disconnected_since db.peers) [
    | some (id, _, _) ↦ record db {
      peers = Assoc.remove ℕ_discrete id db.peers;
      disconnected_peers = db.disconnected_peers - 1;
    }
    | none ↦ record db { disconnected_peers = db.disconnected_peers - 1 }
  ]

  unfoldable pub drop_all_disconnected : ℕ → PeerDb F E M → PeerDb F E M
  drop_all_disconnected zero db = db
  drop_all_disconnected (suc fuel) db = elim (ltb max_dc_peers db.disconnected_peers) [
    | true ↦ drop_all_disconnected fuel (drop_disconnected db)
    | false ↦ db
  ]

  -- `PeerDB::shrink_to_fit`
  unfoldable pub shrink_to_fit : PeerDb F E M → PeerDb F E M × List (ℕ × List IpAddr)
  shrink_to_fit db =
      let (db', unbanned_peers) = drop_all_banned db.banned_peers_count.banned_peers db [] in
      (drop_all_disconnected db'.disconnected_peers db', unbanned_peers)

  -- `PeerDB::inject_disconnect`
  unfoldable pub inject_disconnect :
      F64 F → PeerDb F E M → ℕ → ℕ → PeerDb F E M × Option BanOperation × List (ℕ × List IpAddr)
  inject_disconnect f db now peer_id =
      let (db', maybe_ban_op) =
        update_connection_state f db now peer_id NewConnectionState.disconnected in
      let (db'', purged_peers) = shrink_to_fit db' in (db'', maybe_ban_op, purged_peers)
