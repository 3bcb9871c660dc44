-- ===== src/PeerManager/PeerDb.antt =====
-- src/peer_manager/peerdb.rs: the database of known peers and the transitions of their connections.
-- `now` is the instant that the code reads off the clock; logging and metrics are left out.
pub mod Counters
pub mod Transitions
pub mod Limits
pub mod Scores
pub mod Queries
pub mod Runs
pub mod Examples
use consentry.Common.Assoc
use consentry.Common.{
  ℕ, ◌+◌, ◌-◌, u64, saturating_add, ltb, leb, if◌then◌else◌, Bool, true, false, not, ◌&&◌, ◌||◌,
  Option, none, some, List, [], ◌∷◌, map, filter, ℕ_discrete,
}
use consentry.PeerManager.Score.{F64, ScoreState, healthy, PeerAction, fatal}
use consentry.PeerManager.PeerInfo.{
  PeerInfo, PeerConnectionStatus, ConnectionDirection, incoming, outgoing, IpAddr, v4, v6,
  SocketAddr, IpAddr-discrete, contains, seen_ip_addresses, set_connection_status, set_enr,
  clear_subnets, is_connected_or_dialing,
}
use consentry.PeerManager.PeerInfo
use consentry.PeerManager.BannedPeers.{
  BannedPeersCount, remove_banned_peer, add_banned_peer, banned_ips, ip_is_banned,
}
use consentry.PeerManager.BannedPeers

abbrev pub max_dc_peers : ℕ
max_dc_peers = 500

abbrev pub max_banned_peers : ℕ
max_banned_peers = 1000

pub record PeerDb (F E M : Type 0) : Type 0 where
  pub peers : List (ℕ × PeerInfo F E M)
  pub disconnected_peers : ℕ
  pub banned_peers_count : BannedPeersCount

-- What the code reads of a multiaddress: its protocols in order.
pub data Part : Type 0 where
  ip4 ip6 tcp : ℕ → Part
  other : Part

pub data NewConnectionState (E : Type 0) : Type 0 where
  connected : Option E → List Part → ConnectionDirection → NewConnectionState E
  disconnecting : Bool → NewConnectionState E
  dialing : Bool → Option E → NewConnectionState E
  disconnected banned unbanned : NewConnectionState E

pub data BanOperation : Type 0 where
  disconnect_the_peer : BanOperation
  ready_to_ban : List IpAddr → BanOperation
  peer_disconnecting : BanOperation

pub data ScoreTransitionResult : Type 0 where
  disconnected banned unbanned no_action : ScoreTransitionResult

pub data ScoreUpdateResult : Type 0 where
  ban : BanOperation → ScoreUpdateResult
  disconnect : ScoreUpdateResult
  unbanned : List IpAddr → ScoreUpdateResult
  no_action : ScoreUpdateResult

-- `impl From<Option<BanOperation>> for ScoreUpdateResult`
unfoldable pub from_ban_operation : Option BanOperation → ScoreUpdateResult
from_ban_operation none = no_action
from_ban_operation (some op) = ban op

pub data BanResult : Type 0 where
  bad_score : BanResult
  banned_ip : IpAddr → BanResult
  not_banned : BanResult

-- The fold over the protocols of the seen address.
found : Option IpAddr × Option ℕ → List Part → Option IpAddr × Option ℕ
found (ip, port) [] = (ip, port)
found (ip, port) (ip4 n ∷ parts) = found (some (v4 n), port) parts
found (ip, port) (ip6 n ∷ parts) = found (some (v6 n), port) parts
found (ip, port) (tcp n ∷ parts) = found (ip, some n) parts
found (ip, port) (other ∷ parts) = found (ip, port) parts

both : Option IpAddr × Option ℕ → Option SocketAddr
both (some ip, some port) = some (record { ip = ip; port = port })
both _ = none

unfoldable pub socket_addr : List Part → Option SocketAddr
unfolding found both
socket_addr parts = both (found (none, none) parts)

module _ {F E M : Type 0} (f : F64 F) where
  -- `PeerDB::new`; the keys are collected into a map, so that a repeated one stands once.
  unfoldable pub new : List ℕ → PeerDb F E M
  new trusted_peers = record {
    peers = collect trusted_peers;
    disconnected_peers = 0;
    banned_peers_count = BannedPeers.default;
  }
    where
      collect : List ℕ → List (ℕ × PeerInfo F E M)
      collect [] = []
      collect (k ∷ ks) = Assoc.insert ℕ_discrete k (PeerInfo.trusted_peer_info f) (collect ks)

  -- The entry that `or_insert_with` makes of an unknown peer.
  abbrev pub fresh : ℕ → NewConnectionState E → PeerInfo F E M
  fresh now (NewConnectionState.dialing trusted enr) =
      if trusted then PeerInfo.trusted_peer_info f else PeerInfo.default f now
  fresh now _ = PeerInfo.default f now

  abbrev pub or_fresh : ℕ → NewConnectionState E → Option (PeerInfo F E M) → PeerInfo F E M
  or_fresh now state none = fresh now state
  or_fresh now state (some info) = info

  -- A ban of a peer whose score is not low enough is a fatal action.
  abbrev pub punish : NewConnectionState E → PeerInfo F E M → PeerInfo F E M
  punish NewConnectionState.banned info = elim (PeerInfo.score_state f info) [
    | ScoreState.banned ↦ info
    | _ ↦ PeerInfo.apply_peer_action_to_score f info fatal
  ]
  punish _ info = info

-- What a transition works on: the peer's entry, borrowed from the map, and the two counters.
pub record Local (F E M : Type 0) : Type 0 where
  pub info : PeerInfo F E M
  pub disconnected_count : ℕ
  pub banned_count : BannedPeersCount

module _ {F E M : Type 0} (now : ℕ) where
  -- `info.seen_ip_addresses().filter(|ip| known_banned_ips.contains(ip))`
  abbrev pub known_banned : Local F E M → List IpAddr
  known_banned x =
      filter (λ ip. contains IpAddr-discrete ip (banned_ips x.banned_count))
        (seen_ip_addresses x.info)

  abbrev pub move_to : Local F E M → PeerConnectionStatus → Local F E M
  move_to x status = record x { info = set_connection_status x.info status }

  abbrev pub count_ban : Local F E M → Local F E M
  count_ban x = record x {
    banned_count = add_banned_peer x.banned_count (seen_ip_addresses x.info);
  }

  abbrev pub uncount_ban : Local F E M → Local F E M
  uncount_ban x = record x {
    banned_count = remove_banned_peer x.banned_count (seen_ip_addresses x.info);
  }

  -- `saturating_sub(1)`
  abbrev pub uncount_disconnected : Local F E M → Local F E M
  uncount_disconnected x = record x { disconnected_count = x.disconnected_count - 1 }

  -- A ban that is final: the status, the counts and the addresses to report.
  abbrev pub finish_ban : Local F E M → Local F E M × Option BanOperation
  finish_ban x =
      let y = count_ban (move_to x (PeerConnectionStatus.banned now)) in
      (y, some (ready_to_ban (known_banned y)))

  -- The counters when a peer of this status is connected or dialed.
  abbrev pub leave : PeerConnectionStatus → Local F E M → Local F E M
  leave (PeerConnectionStatus.disconnected _) x = uncount_disconnected x
  leave (PeerConnectionStatus.banned _) x = uncount_ban x
  leave _ x = x

  abbrev pub meet : ConnectionDirection → Option SocketAddr → PeerInfo F E M → PeerInfo F E M
  meet incoming addr info = PeerInfo.connect_ingoing info addr
  meet outgoing addr info = PeerInfo.connect_outgoing info addr

  -- CONNECTED
  unfoldable pub to_connected :
      Option E → List Part → ConnectionDirection → Local F E M → Local F E M
  to_connected enr seen_address direction x =
      let y = leave x.info.connection_status (record x { info = set_enr x.info enr }) in
      record y { info = meet direction (socket_addr seen_address) y.info }

  abbrev pub trust : Bool → PeerInfo F E M → PeerInfo F E M
  trust trusted info = if trusted then record info { is_trusted = true } else info

  -- DIALING
  unfoldable pub to_dialing : Bool → Option E → Local F E M → Local F E M
  to_dialing trusted enr x =
      let y = leave x.info.connection_status x in
      record y { info = (PeerInfo.set_dialing_peer (trust trusted (set_enr y.info enr)) now).0 }

  abbrev pub drop : Local F E M → Local F E M × Option BanOperation
  drop x = (
    record (move_to x (PeerConnectionStatus.disconnected now)) {
      disconnected_count = u64 (x.disconnected_count + 1);
    },
    none,
  )

  abbrev pub disconnect_from :
      PeerConnectionStatus → Local F E M → Local F E M × Option BanOperation
  disconnect_from (PeerConnectionStatus.banned _) x = (x, none)
  disconnect_from (PeerConnectionStatus.disconnected _) x = (x, none)
  disconnect_from (PeerConnectionStatus.disconnecting to_ban) x =
      if to_ban then finish_ban x else drop x
  disconnect_from PeerConnectionStatus.unknown x = drop x
  disconnect_from (PeerConnectionStatus.connected _ _) x = drop x
  disconnect_from (PeerConnectionStatus.dialing _) x = drop x

  -- DISCONNECTED
  unfoldable pub to_disconnected : Local F E M → Local F E M × Option BanOperation
  to_disconnected x =
      disconnect_from x.info.connection_status (record x { info = clear_subnets x.info })

  abbrev pub disconnecting_from : PeerConnectionStatus → Bool → Local F E M → Local F E M
  disconnecting_from (PeerConnectionStatus.disconnected _) to_ban x =
      move_to (uncount_disconnected x) (PeerConnectionStatus.disconnecting to_ban)
  disconnecting_from _ to_ban x = move_to x (PeerConnectionStatus.disconnecting to_ban)

  -- DISCONNECTING
  unfoldable pub to_disconnecting : Bool → Local F E M → Local F E M
  to_disconnecting to_ban x = disconnecting_from x.info.connection_status to_ban x

  abbrev pub ban_from : PeerConnectionStatus → Local F E M → Local F E M × Option BanOperation
  ban_from (PeerConnectionStatus.disconnected _) x = finish_ban (uncount_disconnected x)
  ban_from (PeerConnectionStatus.disconnecting _) x =
      (move_to x (PeerConnectionStatus.disconnecting true), some peer_disconnecting)
  ban_from (PeerConnectionStatus.banned _) x = (x, some (ready_to_ban (known_banned x)))
  ban_from (PeerConnectionStatus.connected _ _) x =
      (move_to x (PeerConnectionStatus.disconnecting true), some disconnect_the_peer)
  ban_from (PeerConnectionStatus.dialing _) x =
      (move_to x (PeerConnectionStatus.disconnecting true), some disconnect_the_peer)
  ban_from PeerConnectionStatus.unknown x = finish_ban x

  -- BANNED
  unfoldable pub to_banned : Local F E M → Local F E M × Option BanOperation
  to_banned x = ban_from x.info.connection_status x

  abbrev pub unban_from : PeerConnectionStatus → Local F E M → Local F E M
  unban_from (PeerConnectionStatus.banned since) x =
      let y = uncount_ban (move_to x (PeerConnectionStatus.disconnected since)) in
      record y { disconnected_count = saturating_add y.disconnected_count 1 }
  unban_from _ x = x

  -- UNBANNED
  unfoldable pub to_unbanned : Local F E M → Local F E M
  to_unbanned x = unban_from x.info.connection_status x

  -- The match on the current status and the new state.
  abbrev pub transition : NewConnectionState E → Local F E M → Local F E M × Option BanOperation
  transition (NewConnectionState.connected enr seen_address direction) x =
      (to_connected enr seen_address direction x, none)
  transition (NewConnectionState.dialing trusted enr) x = (to_dialing trusted enr x, none)
  transition NewConnectionState.disconnected x = to_disconnected x
  transition (NewConnectionState.disconnecting to_ban) x = (to_disconnecting to_ban x, none)
  transition NewConnectionState.banned x = to_banned x
  transition NewConnectionState.unbanned x = (to_unbanned x, none)

module _ {F E M : Type 0} (f : F64 F) where
  abbrev pub entry : PeerDb F E M → ℕ → ℕ → NewConnectionState E → PeerInfo F E M
  entry db now peer_id state =
      punish f state (or_fresh f now state (Assoc.get ℕ_discrete peer_id db.peers))

  abbrev pub write_back : PeerDb F E M → ℕ → Local F E M → PeerDb F E M
  write_back db peer_id x = record {
    peers = Assoc.insert ℕ_discrete peer_id x.info db.peers;
    disconnected_peers = x.disconnected_count;
    banned_peers_count = x.banned_count;
  }

  -- `PeerDB::update_connection_state`
  unfoldable pub update_connection_state :
      PeerDb F E M → ℕ → ℕ → NewConnectionState E → PeerDb F E M × Option BanOperation
  update_connection_state db now peer_id new_state =
      let x : Local F E M = record {
        info = entry db now peer_id new_state;
        disconnected_count = db.disconnected_peers;
        banned_count = db.banned_peers_count;
      } in
      let (y, operation) = transition now new_state x in (write_back db peer_id y, operation)
