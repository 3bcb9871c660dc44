-- ===== src/PeerManager/PeerDb/Scores.antt =====
-- The score updates of src/peer_manager/peerdb.rs: reports, the periodic decay and the gossipsub
-- scores, and what each change of a score does to the connection.
pub mod Reports
pub mod Coherence
pub mod Sorting
pub mod Gossipsub
use consentry.Common.Assoc
use consentry.Common.{
  ℕ, zero, suc, ◌-◌, ltb, leb, if◌then◌else◌, Bool, true, false, not, ◌&&◌, Option, none, some,
  List, [], ◌∷◌, ◌++◌, filter, ℕ_discrete, map,
}
use consentry.PeerManager.Score.{F64, ScoreState, healthy, PeerAction}
use consentry.PeerManager.PeerInfo.{
  PeerInfo, IpAddr, seen_ip_addresses, is_connected, is_connected_or_dialing, score_state,
  score_update, apply_peer_action_to_score, update_gossipsub_score,
}
use consentry.PeerManager.BannedPeers.{ip_is_banned}
use consentry.PeerManager.PeerDb.{
  PeerDb, NewConnectionState, ScoreTransitionResult, ScoreUpdateResult, update_connection_state,
  from_ban_operation,
}

-- `handle_score_transition`, on the new state, the previous one and whether the peer is connected or
-- being dialed
abbrev pub score_transition : ScoreState → ScoreState → Bool → ScoreTransitionResult
score_transition ScoreState.banned ScoreState.healthy _ = ScoreTransitionResult.banned
score_transition ScoreState.banned ScoreState.disconnected _ = ScoreTransitionResult.banned
score_transition ScoreState.disconnected ScoreState.banned up =
    if up then ScoreTransitionResult.disconnected else ScoreTransitionResult.unbanned
score_transition ScoreState.disconnected ScoreState.healthy up =
    if up then ScoreTransitionResult.disconnected else ScoreTransitionResult.no_action
score_transition healthy ScoreState.disconnected _ = ScoreTransitionResult.no_action
score_transition healthy ScoreState.banned _ = ScoreTransitionResult.unbanned
score_transition healthy healthy _ = ScoreTransitionResult.no_action
score_transition ScoreState.disconnected ScoreState.disconnected _ = ScoreTransitionResult.no_action
score_transition ScoreState.banned ScoreState.banned _ = ScoreTransitionResult.no_action

abbrev pub unbans : ScoreTransitionResult → ℕ → List ℕ → List ℕ
unbans ScoreTransitionResult.unbanned k rest = k ∷ rest
unbans _ k rest = rest

abbrev pub noted :
    ℕ → ScoreUpdateResult → List (ℕ × ScoreUpdateResult) → List (ℕ × ScoreUpdateResult)
noted k ScoreUpdateResult.no_action rest = rest
noted k result rest = (k, result) ∷ rest

module _ {F : Type 0} (f : F64 F) where
  -- The sort is descending; among equal scores the order is not specified.
  unfoldable pub place : ℕ × F → List (ℕ × F) → List (ℕ × F)
  place (k, s) [] = (k, s) ∷ []
  place (k, s) ((j, r) ∷ rest) =
      let after = (j, r) ∷ place (k, s) rest in if f.lt s r then after else (k, s) ∷ (j, r) ∷ rest

  unfoldable pub sort_by_score : List (ℕ × F) → List (ℕ × F)
  sort_by_score [] = []
  sort_by_score (x ∷ xs) = place x (sort_by_score xs)

module _ {F E M : Type 0} (f : F64 F) where
  unfoldable pub handle_score_transition : ScoreState → PeerInfo F E M → ScoreTransitionResult
  handle_score_transition previous_state info =
      score_transition (score_state f info) previous_state (is_connected_or_dialing info)

  -- The addresses of a peer that are not banned, where it is known.
  abbrev pub free_addresses : PeerDb F E M → Option (PeerInfo F E M) → List IpAddr
  free_addresses db none = []
  free_addresses db (some info) =
      filter (λ ip. not (ip_is_banned db.banned_peers_count ip)) (seen_ip_addresses info)

  abbrev pub put : PeerDb F E M → ℕ → PeerInfo F E M → PeerDb F E M
  put db peer_id info = record db { peers = Assoc.insert ℕ_discrete peer_id info db.peers }

  -- What `report_peer` makes of the transition.
  abbrev pub act_on_report :
      PeerDb F E M → ℕ → ℕ → ScoreTransitionResult → PeerDb F E M × ScoreUpdateResult
  act_on_report db now peer_id ScoreTransitionResult.banned =
      let (db', op) = update_connection_state f db now peer_id NewConnectionState.banned in
      (db', from_ban_operation op)
  act_on_report db now peer_id ScoreTransitionResult.disconnected = (
    (update_connection_state f db now peer_id (NewConnectionState.disconnecting false)).0,
    ScoreUpdateResult.disconnect,
  )
  act_on_report db now peer_id ScoreTransitionResult.no_action = (db, ScoreUpdateResult.no_action)
  act_on_report db now peer_id ScoreTransitionResult.unbanned = (db, ScoreUpdateResult.no_action)

  abbrev pub report_known :
      PeerDb F E M → ℕ → ℕ → PeerAction → Option (PeerInfo F E M) → PeerDb F E M × ScoreUpdateResult
  report_known db now peer_id action none = (db, ScoreUpdateResult.no_action)
  report_known db now peer_id action (some info) =
      let changed = apply_peer_action_to_score f info action in
      act_on_report (put db peer_id changed) now peer_id
        (handle_score_transition (score_state f info) changed)

  -- `PeerDB::report_peer`
  unfoldable pub report_peer : PeerDb F E M → ℕ → ℕ → PeerAction → PeerDb F E M × ScoreUpdateResult
  report_peer db now peer_id action =
      report_known db now peer_id action (Assoc.get ℕ_discrete peer_id db.peers)

  -- The first loop of `update_scores`: every score decays, and the peers to unban are collected in
  -- the map's order.
  unfoldable pub decay_all : ℕ → List (ℕ × PeerInfo F E M) → List (ℕ × PeerInfo F E M)
  decay_all now [] = []
  decay_all now ((k, i) ∷ m) = (k, score_update f i now) ∷ decay_all now m

  unfoldable pub peers_to_unban : ℕ → List (ℕ × PeerInfo F E M) → List ℕ
  peers_to_unban now [] = []
  peers_to_unban now ((k, i) ∷ m) =
      unbans (handle_score_transition (score_state f i) (score_update f i now)) k
        (peers_to_unban now m)

  -- One round of the second loop, also an arm of `update_gossipsub_scores`.
  unfoldable pub unban : PeerDb F E M → ℕ → ℕ → PeerDb F E M × ScoreUpdateResult
  unban db now peer_id =
      let db' = (update_connection_state f db now peer_id NewConnectionState.unbanned).0 in
      (
        db',
        ScoreUpdateResult.unbanned (free_addresses db' (Assoc.get ℕ_discrete peer_id db'.peers)),
      )

  unfoldable pub unban_all : PeerDb F E M → ℕ → List ℕ → PeerDb F E M × List (ℕ × ScoreUpdateResult)
  unban_all db now [] = (db, [])
  unban_all db now (k ∷ ks) =
      let (db', result) = unban db now k in
      let (db'', results) = unban_all db' now ks in (db'', (k, result) ∷ results)

  -- `PeerDB::update_scores`
  unfoldable pub update_scores : PeerDb F E M → ℕ → PeerDb F E M × List (ℕ × ScoreUpdateResult)
  update_scores db now =
      unban_all (record db { peers = decay_all now db.peers }) now (peers_to_unban now db.peers)

  -- `update_gossipsub_scores`: the connected peers that have a gossipsub score.
  abbrev pub scored : (ℕ → Option F) → ℕ → PeerInfo F E M → List (ℕ × F) → List (ℕ × F)
  scored peer_score k i rest =
      if is_connected i
      then (elim (peer_score k) [ none ↦ rest | some s ↦ (k, s) ∷ rest ])
      else rest

  unfoldable pub with_scores : (ℕ → Option F) → List (ℕ × PeerInfo F E M) → List (ℕ × F)
  with_scores peer_score [] = []
  with_scores peer_score ((k, i) ∷ m) = scored peer_score k i (with_scores peer_score m)

  abbrev pub rescore :
      PeerDb F E M
      → ℕ
      → ℕ
      → F
      → Bool
      → Option (PeerInfo F E M)
      → PeerDb F E M × ScoreTransitionResult
  rescore db now k s ignore none = (db, ScoreTransitionResult.no_action)
  rescore db now k s ignore (some info) =
      let changed = update_gossipsub_score f info now s ignore in
      (put db k changed, handle_score_transition (score_state f info) changed)

  -- The loop that gives the scores: the best negative ones are ignored, as many as are allowed.
  unfoldable pub give_scores :
      PeerDb F E M → ℕ → ℕ → List (ℕ × F) → PeerDb F E M × List (ℕ × ScoreTransitionResult)
  give_scores db now to_ignore [] = (db, [])
  give_scores db now to_ignore ((k, s) ∷ rest) =
      let ignore = f.lt s (f.of_ℕ 0) && ltb 0 to_ignore in
      let (db', action) = rescore db now k s ignore (Assoc.get ℕ_discrete k db.peers) in
      let (db'', actions) =
        give_scores db' now (if ignore then to_ignore - 1 else to_ignore) rest in
      (db'', (k, action) ∷ actions)

  abbrev pub act_on_score :
      PeerDb F E M → ℕ → ℕ → ScoreTransitionResult → PeerDb F E M × ScoreUpdateResult
  act_on_score db now peer_id ScoreTransitionResult.unbanned = unban db now peer_id
  act_on_score db now peer_id result = act_on_report db now peer_id result

  unfoldable pub act_on_all :
      PeerDb F E M
      → ℕ
      → List (ℕ × ScoreTransitionResult)
      → PeerDb F E M × List (ℕ × ScoreUpdateResult)
  act_on_all db now [] = (db, [])
  act_on_all db now ((k, action) ∷ rest) =
      let (db', result) = act_on_score db now k action in
      let (db'', results) = act_on_all db' now rest in (db'', noted k result results)

  -- `PeerDB::update_gossipsub_scores`; `allowed` is `(target_peers as f32 * 0.1).ceil()`, and
  -- `peer_score` is gossipsub's.
  unfoldable pub update_gossipsub_scores :
      PeerDb F E M → ℕ → ℕ → (ℕ → Option F) → PeerDb F E M × List (ℕ × ScoreUpdateResult)
  update_gossipsub_scores db now allowed peer_score =
      let (db', actions) =
        give_scores db now allowed (sort_by_score f (with_scores peer_score db.peers)) in
      act_on_all db' now actions
