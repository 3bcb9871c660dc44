-- ===== src/PeerManager/Manager.antt =====
-- src/peer_manager/mod.rs: the peer manager, on the database of peers. `now` is the instant that the
-- code reads off the clock. The sets with a delay are the sets of their peers; their timers, logging and
-- metrics are left out. The products of the target number with `f32` factors are given by `Sizes`.
pub mod Errors
pub mod Messages
pub mod Discovery
pub mod Subnets
pub mod Pruning
pub mod Grouping
pub mod Selection
pub mod Heartbeat
mod Examples
pub mod Bans
pub mod Swarm
pub mod Admission
use consentry.Common.{
  ℕ, ltb, leb, if◌then◌else◌, Bool, true, false, not, ◌&&◌, Option, none, some, List, [], ◌∷◌, ◌++◌,
  map, length, ℕ_discrete,
}
use consentry.Common.Assoc
use consentry.Rpc.Methods.{GoodbyeReason}
use consentry.PeerManager.Score.{F64, PeerAction, fatal}
use consentry.PeerManager.SyncStatus.{SyncStatus}
use consentry.PeerManager.PeerInfo.{PeerInfo, IpAddr, Subnet, insert_new, delete}
use consentry.PeerManager.PeerInfo
use consentry.PeerManager.PeerDb.{PeerDb, Part, BanOperation, BanResult, ScoreUpdateResult}
use consentry.PeerManager.PeerDb
use consentry.PeerManager.PeerDb.Limits
use consentry.PeerManager.PeerDb.Scores
use consentry.PeerManager.PeerDb.Queries.{peer_info, connected_peer_ids, connected_or_dialing_peers}
use consentry.PeerManager.PeerDb.Queries
use consentry.PeerManager.PeerDb.Queries.Writes

-- `SubnetDiscovery`
pub record SubnetDiscovery : Type 0 where
  pub subnet : Subnet
  pub min_ttl : Option ℕ

pub data PeerManagerEvent : Type 0 where
  peer_connected_incoming peer_connected_outgoing peer_disconnected : ℕ → PeerManagerEvent
  status ping meta_data : ℕ → PeerManagerEvent
  disconnect_peer : ℕ → GoodbyeReason → PeerManagerEvent
  banned un_banned : ℕ → List IpAddr → PeerManagerEvent
  discover_peers : ℕ → PeerManagerEvent
  discover_subnet_peers : List SubnetDiscovery → PeerManagerEvent

-- `max_peers`, `max_priority_peers` and the like, of the target number of peers.
pub record Sizes : Type 0 where
  pub max_peers : ℕ → ℕ
  pub max_priority_peers : ℕ → ℕ
  pub min_outbound_only_peers : ℕ → ℕ
  pub target_outbound_peers : ℕ → ℕ
  pub max_outbound_dialing_peers : ℕ → ℕ

-- The database is that of the `network_globals`. A peer that is queued to be dialed comes with its ENR
-- and whether it is trusted.
pub record Manager (F E M : Type 0) : Type 0 where
  pub peers : PeerDb F E M
  pub events : List PeerManagerEvent
  pub inbound_ping_peers : List ℕ
  pub outbound_ping_peers : List ℕ
  pub status_peers : List ℕ
  pub target_peers : ℕ
  pub peers_to_dial : List (ℕ × (Option E × Bool))
  pub sync_committee_subnets : List (ℕ × ℕ)
  pub discovery_enabled : Bool

pub data ConnectingType : Type 0 where
  dialing : Bool → ConnectingType
  ingoing_connected outgoing_connected : List Part → ConnectingType

abbrev pub reason_or : Option GoodbyeReason → GoodbyeReason
reason_or none = GoodbyeReason.bad_score
reason_or (some reason) = reason

abbrev pub is_irrelevant : GoodbyeReason → Bool
is_irrelevant GoodbyeReason.irrelevant_network = true
is_irrelevant _ = false

abbrev pub un_banned_event : ℕ × List IpAddr → PeerManagerEvent
un_banned_event (peer_id, ips) = un_banned peer_id ips

module _ {F E M : Type 0} where
  -- `PeerManager::new`
  abbrev pub new : PeerDb F E M → ℕ → Bool → Manager F E M
  new peers target_peer_count discovery_enabled = record {
    peers = peers;
    events = [];
    inbound_ping_peers = [];
    outbound_ping_peers = [];
    status_peers = [];
    target_peers = target_peer_count;
    peers_to_dial = [];
    sync_committee_subnets = [];
    discovery_enabled = discovery_enabled;
  }

  -- `self.events.push(..)`
  abbrev pub push : Manager F E M → PeerManagerEvent → Manager F E M
  push m event = record m { events = m.events ++ event ∷ [] }

  -- `handle_ban_operation`
  unfoldable pub handle_ban_operation :
      Manager F E M → ℕ → BanOperation → Option GoodbyeReason → Manager F E M
  handle_ban_operation m peer_id BanOperation.disconnect_the_peer reason =
      push m (disconnect_peer peer_id (reason_or reason))
  handle_ban_operation m peer_id BanOperation.peer_disconnecting reason = m
  handle_ban_operation m peer_id (BanOperation.ready_to_ban banned_ips) reason =
      push m (banned peer_id banned_ips)

  abbrev without_pings : Manager F E M → ℕ → Manager F E M
  without_pings m peer_id = record m {
    inbound_ping_peers = delete ℕ_discrete peer_id m.inbound_ping_peers;
    outbound_ping_peers = delete ℕ_discrete peer_id m.outbound_ping_peers;
  }

  -- `handle_score_action`
  unfoldable pub handle_score_action :
      Manager F E M → ℕ → ScoreUpdateResult → Option GoodbyeReason → Manager F E M
  unfolding handle_ban_operation
  handle_score_action m peer_id (ScoreUpdateResult.ban operation) reason =
      handle_ban_operation m peer_id operation reason
  handle_score_action m peer_id ScoreUpdateResult.disconnect reason =
      push (without_pings m peer_id) (disconnect_peer peer_id GoodbyeReason.bad_score)
  handle_score_action m peer_id ScoreUpdateResult.no_action reason = m
  handle_score_action m peer_id (ScoreUpdateResult.unbanned ips) reason =
      push m (un_banned peer_id ips)

  -- The loop over the actions that a score update returns.
  unfoldable pub handle_score_actions : Manager F E M → List (ℕ × ScoreUpdateResult) → Manager F E M
  handle_score_actions m [] = m
  handle_score_actions m ((peer_id, action) ∷ rest) =
      handle_score_actions (handle_score_action m peer_id action none) rest

  -- `peer_statusd`
  abbrev pub peer_statusd : Manager F E M → ℕ → Manager F E M
  peer_statusd m peer_id = record m { status_peers = insert_new ℕ_discrete peer_id m.status_peers }

  abbrev keep_longer : Manager F E M → ℕ → ℕ → Option ℕ → Manager F E M
  keep_longer m subnet_id min_ttl none = record m {
    sync_committee_subnets = Assoc.insert ℕ_discrete subnet_id min_ttl m.sync_committee_subnets;
  }
  keep_longer m subnet_id min_ttl (some old) =
      if ltb old min_ttl
      then record m {
        sync_committee_subnets = Assoc.insert ℕ_discrete subnet_id min_ttl m.sync_committee_subnets;
      }
      else m

  -- `add_sync_subnet`
  unfoldable pub add_sync_subnet : Manager F E M → ℕ → ℕ → Manager F E M
  add_sync_subnet m subnet_id min_ttl =
      keep_longer m subnet_id min_ttl (Assoc.get ℕ_discrete subnet_id m.sync_committee_subnets)

  -- `dial_peer`
  abbrev pub dial_peer : Manager F E M → ℕ → Option E → Manager F E M
  dial_peer m peer_id enr = record m {
    peers_to_dial = m.peers_to_dial ++ (peer_id, (enr, false)) ∷ [];
  }

  -- `dial_trusted_peer`
  abbrev pub dial_trusted_peer : Manager F E M → ℕ → Option E → Manager F E M
  dial_trusted_peer m peer_id enr = record m {
    peers_to_dial = m.peers_to_dial ++ (peer_id, (enr, true)) ∷ [];
  }

  -- `NetworkGlobals::connected_peers`
  abbrev pub connected_peers : Manager F E M → ℕ
  connected_peers m = length (connected_peer_ids m.peers)

  -- `NetworkGlobals::connected_or_dialing_peers`
  abbrev pub connected_or_dialing : Manager F E M → ℕ
  connected_or_dialing m = length (connected_or_dialing_peers m.peers)

  -- `peer_limit_reached`
  abbrev pub peer_limit_reached : Sizes → Manager F E M → Bool → Bool
  peer_limit_reached sizes m count_dialing =
      if count_dialing
      then leb (sizes.max_peers m.target_peers) (connected_or_dialing m)
      else leb (sizes.max_outbound_dialing_peers m.target_peers) (connected_peers m)

  -- A write through `peer_info_mut`, where the peer is known.
  abbrev pub write_info :
      (PeerInfo F E M → PeerInfo F E M)
      → Manager F E M
      → ℕ
      → Option (PeerInfo F E M)
      → Manager F E M
  write_info g m peer_id none = m
  write_info g m peer_id (some info) = record m {
    peers = record m.peers { peers = Assoc.insert ℕ_discrete peer_id (g info) m.peers.peers };
  }

  -- `remove_trusted`
  abbrev pub remove_trusted : Manager F E M → ℕ → Manager F E M
  remove_trusted m peer_id =
      write_info (λ info. record info { is_trusted = false }) m peer_id (peer_info m.peers peer_id)

module _ {F E M : Type 0} (f : F64 F) (now : ℕ) where
  -- `report_peer`
  unfoldable pub report_peer : Manager F E M → ℕ → PeerAction → Option GoodbyeReason → Manager F E M
  report_peer m peer_id action reason =
      let (peers, result) = Scores.report_peer f m.peers now peer_id action in
      handle_score_action (record m { peers = peers }) peer_id result reason

  abbrev pub mark_irrelevant : Manager F E M → ℕ → GoodbyeReason → Manager F E M
  mark_irrelevant m peer_id reason =
      if is_irrelevant reason
      then write_info (λ info. (PeerInfo.update_sync_status info SyncStatus.irrelevant_peer).0) m
          peer_id (peer_info m.peers peer_id)
      else m

  -- `goodbye_peer`
  unfoldable pub goodbye_peer : Manager F E M → ℕ → GoodbyeReason → Manager F E M
  unfolding report_peer
  goodbye_peer m peer_id reason =
      report_peer (mark_irrelevant m peer_id reason) peer_id fatal (some reason)

  -- `disconnect_peer`
  unfoldable pub disconnect_the_peer : Manager F E M → ℕ → GoodbyeReason → Manager F E M
  disconnect_the_peer m peer_id reason = record (push m (disconnect_peer peer_id reason)) {
    peers = Writes.notify_disconnecting f m.peers now peer_id false;
  }

  abbrev handle_ban : Manager F E M → ℕ → Option BanOperation → Manager F E M
  handle_ban m peer_id none = m
  handle_ban m peer_id (some operation) = handle_ban_operation m peer_id operation none

  -- `inject_disconnect`
  unfoldable pub inject_disconnect : Manager F E M → ℕ → Manager F E M
  inject_disconnect m peer_id =
      let (peers, operation, purged_peers) = Limits.inject_disconnect f m.peers now peer_id in
      let m' = without_pings (handle_ban (record m { peers = peers }) peer_id operation) peer_id in
      record m' {
        status_peers = delete ℕ_discrete peer_id m'.status_peers;
        events = m'.events ++ map un_banned_event purged_peers;
      }

  -- `inject_peer_connection`; it answers `true` always.
  unfoldable pub inject_peer_connection :
      Manager F E M → ℕ → ConnectingType → Option E → Manager F E M
  inject_peer_connection m peer_id (dialing trusted) enr = record m {
    peers = Writes.dialing_peer f m.peers now peer_id enr trusted;
  }
  inject_peer_connection m peer_id (ingoing_connected multiaddr) enr = record m {
    peers = Writes.connect_ingoing f m.peers now peer_id multiaddr enr;
    inbound_ping_peers = insert_new ℕ_discrete peer_id m.inbound_ping_peers;
    status_peers = insert_new ℕ_discrete peer_id m.status_peers;
  }
  inject_peer_connection m peer_id (outgoing_connected multiaddr) enr = record m {
    peers = Writes.connect_outgoing f m.peers now peer_id multiaddr enr;
    outbound_ping_peers = insert_new ℕ_discrete peer_id m.outbound_ping_peers;
    status_peers = insert_new ℕ_discrete peer_id m.status_peers;
  }
