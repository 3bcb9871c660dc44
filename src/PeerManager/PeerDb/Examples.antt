-- ===== src/PeerManager/PeerDb/Examples.antt =====
-- Runs of the peer database on a small one.
use consentry.PeerManager.Examples.{integers, start, integers-Literals}
use consentry.Common.Assoc
use consentry.Common.Totals.{total}
use consentry.Common.Int.{ℤ}
use consentry.Common.{
  ℕ, ◌-◌, ◌≤◌, ◌≡◌, refl, Bool, true, false, List, [], ◌∷◌, length, none, some, arith, ℕ_discrete,
  min,
}
use consentry.PeerManager.Score.{
  F64, RealScore, Score, real, top, ScoreState, PeerAction, fatal, low_tolerance_error,
  high_tolerance_error, default_real, apply_peer_action_real, update_at,
  update_gossipsub_score_real, state, set_lighthouse_score, update_state, recompute_score,
}
use consentry.PeerManager.Score
use consentry.PeerManager.PeerInfo.{
  PeerInfo, PeerConnectionStatus, connected, SocketAddr, IpAddr, v4, score_state, IpAddr-discrete,
  score_update, set_dialing_peer, default, trusted_peer_info,
}
use consentry.PeerManager.SyncStatus.{SyncStatus}
use consentry.PeerManager.BannedPeers.{count_of, occurrences}
use consentry.PeerManager.PeerDb.{
  PeerDb, NewConnectionState, update_connection_state, max_banned_peers, max_dc_peers, new,
  to_dialing,
}
use consentry.PeerManager.PeerDb.Counters.{as_banned_at, as_banned, as_disconnected}
use consentry.PeerManager.PeerDb.Transitions.{Coherent, HasRoom, disconnecting_banned-not_Coherent}
use consentry.PeerManager.PeerDb.Limits.{shrink_to_fit}
use consentry.PeerManager.PeerDb.Limits.Bounds.{shrink_to_fit_lem}
use consentry.PeerManager.PeerDb.Scores.{report_peer, peers_to_unban, handle_score_transition}
use consentry.PeerManager.PeerDb.Scores.Coherence.{report_peer-Coherent}
use consentry.PeerManager.PeerDb.Scores.Reports.{ban_effect, addresses_to_ban, report-fatal}
use consentry.PeerManager.PeerDb.Queries.{
  should_dial, connection_status, score_state_banned_or_disconnected, banned_ip_of,
}
use consentry.Common.{filter, if◌then◌else◌, ◌==◌, Option}
use consentry.Common.Int.{negsuc}
use consentry.PeerManager.PeerDb.Scores.{with_scores}
use consentry.PeerManager.PeerDb.Queries.{ids}
use consentry.PeerManager.PeerDb.Queries.Writes.{timed_out, cleanup_dialing_peers}
use consentry.PeerManager.PeerDb.Queries.Cleanup.{cleanup_dialing_peers_lem}
use consentry.PeerManager.PeerDb.Limits.{inject_disconnect}
use consentry.PeerManager.PeerDb.Runs.{
  change, Reaches, here, then_call, Reaches-new-Coherent, Reaches-disconnect_bounded,
}

-- A peer that is connected, one that is disconnected, one that is banned, and a trusted one.
abbrev peer : PeerConnectionStatus → List SocketAddr → Bool → PeerInfo ℤ ℕ ℕ
peer status seen trusted = record {
  score = real start;
  connection_status = status;
  listening_addresses = [];
  seen_addresses = seen;
  subnets = [];
  sync_status = SyncStatus.unknown;
  meta_data = none;
  min_ttl = none;
  is_trusted = trusted;
  connection_direction = none;
  enr = none;
}

abbrev pub connected_peer : PeerInfo ℤ ℕ ℕ
connected_peer = peer (connected 1 0) ((record { ip = v4 7; port = 9000 }) ∷ []) false

abbrev disconnected_peer : PeerInfo ℤ ℕ ℕ
disconnected_peer = peer (PeerConnectionStatus.disconnected 40) [] false

abbrev banned_peer : PeerInfo ℤ ℕ ℕ
banned_peer =
    peer (PeerConnectionStatus.banned 50)
      ((record { ip = v4 7; port = 9001 }) ∷ (record { ip = v4 8; port = 9001 }) ∷ []) false

abbrev trusted_peer : PeerInfo ℤ ℕ ℕ
trusted_peer = peer (connected 0 1) [] true

abbrev pub four_peers : PeerDb ℤ ℕ ℕ
four_peers = record {
  peers = (1, connected_peer) ∷ (2, disconnected_peer) ∷ (3, banned_peer) ∷ (4, trusted_peer) ∷ [];
  disconnected_peers = 1;
  banned_peers_count = record {
    banned_peers = 1;
    banned_peers_per_ip = (v4 7, 1) ∷ (v4 8, 1) ∷ [];
  };
}

four_peers-at :
    (ip : IpAddr)
    → count_of four_peers.banned_peers_count ip ≡ total (as_banned_at ip) four_peers.peers
unfolding total Assoc.get count_of occurrences IpAddr-discrete
four_peers-at ip = grind arith

four_peers-Coherent : Coherent four_peers
unfolding total Assoc.get ℕ_discrete
four_peers-Coherent = record {
  distinct = (refl, (refl, (refl, (refl, tt))));
  disconnected = refl;
  banned = refl;
  at = four_peers-at;
}

four_peers-HasRoom : HasRoom 0 four_peers
unfolding total
four_peers-HasRoom = omega arith

disconnecting_banned-not_Coherent_example :
    ¬ Coherent
      (update_connection_state integers four_peers 100 3 (NewConnectionState.disconnecting false)).0
unfolding Assoc.get ℕ_discrete
disconnecting_banned-not_Coherent_example =
    disconnecting_banned-not_Coherent integers 100 four_peers 3 banned_peer false
      four_peers-Coherent refl refl

shrink_to_fit_lem_example :
    let (db', unbanned_peers) = shrink_to_fit four_peers in
    Coherent db'
    × (db'.banned_peers_count.banned_peers ≡ min 1 max_banned_peers)
    × (db'.disconnected_peers ≡ min 1 max_dc_peers)
    × (length unbanned_peers ≡ 1 - max_banned_peers)
shrink_to_fit_lem_example = shrink_to_fit_lem four_peers four_peers-Coherent

pub connected_peer-healthy : score_state integers connected_peer ≡ ScoreState.healthy
unfolding score_state Score.state Score.score_of
connected_peer-healthy = refl

report-fatal_example :
    let (db', result) = report_peer integers four_peers 100 1 fatal in
    (j : PeerInfo ℤ ℕ ℕ) × (Assoc.get ℕ_discrete 1 db'.peers ≡ some j)
    × (score_state integers j ≡ ScoreState.banned)
    × ((result, j.connection_status)
        ≡ ban_effect 100 (addresses_to_ban integers db' connected_peer) (connected 1 0))
unfolding Assoc.get ℕ_discrete
report-fatal_example =
    report-fatal integers four_peers 100 1 connected_peer start integers-Literals refl refl refl
      (λ e. ground (arith, connected_peer-healthy))

report_peer-Coherent_example : Coherent (report_peer integers four_peers 100 1 fatal).0
report_peer-Coherent_example =
    report_peer-Coherent integers four_peers 100 1 fatal four_peers-Coherent four_peers-HasRoom

four_peers-HasRoom_to_unban :
    HasRoom (length (peers_to_unban integers 100 four_peers.peers)) four_peers
unfolding total peers_to_unban handle_score_transition score_state score_update Score.update state
four_peers-HasRoom_to_unban = ground arith

disconnected_peer-to_dial : should_dial integers four_peers 2 ≡ true
unfolding should_dial connection_status score_state_banned_or_disconnected Assoc.get ℕ_discrete
    score_state Score.state Score.score_of banned_ip_of
disconnected_peer-to_dial = refl

-- A new database in which a peer is dialed.
abbrev dial : NewConnectionState ℕ
dial = NewConnectionState.dialing false none

abbrev dialed : PeerDb ℤ ℕ ℕ
dialed = (update_connection_state integers (new integers (5 ∷ [])) 100 6 dial).0

new-HasRoom : HasRoom 0 (new {E = ℕ} {M = ℕ} integers (5 ∷ []))
unfolding total new Assoc.insert trusted_peer_info
new-HasRoom = omega arith

dialed-Reaches : Reaches integers (new integers (5 ∷ [])) dialed
dialed-Reaches = then_call here (change 6 dial) 100 (new-HasRoom, tt) refl

dialed-HasRoom : HasRoom 0 dialed
unfolding update_connection_state total new Assoc.insert Assoc.get ℕ_discrete trusted_peer_info
    default to_dialing set_dialing_peer
dialed-HasRoom = omega arith

Reaches-disconnect_bounded_example :
    let db' = (inject_disconnect integers dialed 200 6).0 in
    (total as_banned db'.peers ≤ max_banned_peers)
    × (total as_disconnected db'.peers ≤ max_dc_peers)
Reaches-disconnect_bounded_example =
    Reaches-disconnect_bounded integers (5 ∷ []) 200 6 dialed-Reaches dialed-HasRoom

-- Twenty seconds later the dial is over.
abbrev later : ℕ
later = 20000000000

dialed-Coherent : Coherent dialed
dialed-Coherent = Reaches-new-Coherent integers (5 ∷ []) dialed-Reaches

dialed-HasRoom_to_cleanup : HasRoom (length (ids (timed_out later) dialed)) dialed
unfolding update_connection_state total new Assoc.insert Assoc.get ℕ_discrete trusted_peer_info
    default to_dialing set_dialing_peer filter
dialed-HasRoom_to_cleanup = omega arith

cleanup_dialing_peers_lem_example :
    let db' = cleanup_dialing_peers integers dialed later in
    Coherent db'
    × ((k : ℕ) (i : PeerInfo ℤ ℕ ℕ)
        → Assoc.get ℕ_discrete k db'.peers ≡ some i
        → timed_out later i ≡ false)
cleanup_dialing_peers_lem_example =
    cleanup_dialing_peers_lem integers later dialed dialed-Coherent dialed-HasRoom_to_cleanup

-- The first peer's gossipsub score alone is known.
abbrev peer_score : ℕ → Option ℤ
peer_score k = if k == 1 then some (negsuc 40) else none

four_peers-HasRoom_to_score :
    HasRoom (length (with_scores integers peer_score four_peers.peers)) four_peers
unfolding total with_scores
four_peers-HasRoom_to_score = omega arith
