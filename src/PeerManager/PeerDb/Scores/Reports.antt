-- ===== src/PeerManager/PeerDb/Scores/Reports.antt =====
-- What a report does to the peer that it is about, and to one that no report punishes.
use consentry.Common.Assoc
use consentry.Common.{
  ℕ, ◌≡◌, ◌≢◌, refl, true, false, some, arith, ℕ_discrete, ◌∙◌, ap, List, filter, ◌⊎◌, inl, inr,
}
use consentry.PeerManager.Score.{
  F64, RealScore, Score, top, real, ScoreState, PeerAction, fatal, apply_peer_action, apply,
}
use consentry.PeerManager.Score
use consentry.PeerManager.Score.Banning.{Literals, fatal_bans}
use consentry.PeerManager.BannedPeers.{banned_ips}
use consentry.PeerManager.PeerInfo.{
  contains, IpAddr-discrete, seen_ip_addresses, PeerInfo, PeerConnectionStatus, IpAddr,
  apply_peer_action_to_score, score_state,
}
use consentry.PeerManager.PeerDb.{
  Local, known_banned, punish, entry, PeerDb, disconnect_the_peer, ready_to_ban, peer_disconnecting,
  NewConnectionState, ScoreTransitionResult, ScoreUpdateResult, ban, update_connection_state,
  to_banned, from_ban_operation,
}
use consentry.PeerManager.PeerDb.Scores.{put, report_known, report_peer, handle_score_transition}

-- What a ban asks for and leaves, by the connection that it finds.
abbrev pub ban_effect :
    ℕ → List IpAddr → PeerConnectionStatus → ScoreUpdateResult × PeerConnectionStatus
ban_effect now ips (PeerConnectionStatus.connected _ _) =
    (ban disconnect_the_peer, PeerConnectionStatus.disconnecting true)
ban_effect now ips (PeerConnectionStatus.dialing _) =
    (ban disconnect_the_peer, PeerConnectionStatus.disconnecting true)
ban_effect now ips (PeerConnectionStatus.disconnecting _) =
    (ban peer_disconnecting, PeerConnectionStatus.disconnecting true)
ban_effect now ips (PeerConnectionStatus.disconnected _) =
    (ban (ready_to_ban ips), PeerConnectionStatus.banned now)
ban_effect now ips PeerConnectionStatus.unknown =
    (ban (ready_to_ban ips), PeerConnectionStatus.banned now)
ban_effect now ips (PeerConnectionStatus.banned since) =
    (ban (ready_to_ban ips), PeerConnectionStatus.banned since)

module _ {F E M : Type 0} (f : F64 F) where
  -- A ban's report of addresses: those of the peer that are banned when it is done.
  abbrev pub addresses_to_ban : PeerDb F E M → PeerInfo F E M → List IpAddr
  addresses_to_ban db i =
      filter (λ ip. contains IpAddr-discrete ip (banned_ips db.banned_peers_count))
        (seen_ip_addresses i)

  to_banned-effect :
      (now : ℕ) (x : Local F E M)
      → let (y, op) = to_banned now x in
        ((from_ban_operation op, y.info.connection_status)
          ≡ ban_effect now
              (known_banned now (record x { banned_count = y.banned_count }))
              x.info.connection_status)
        × (y.info.score ≡ x.info.score)
        × (y.info.seen_addresses ≡ x.info.seen_addresses)
  unfolding to_banned from_ban_operation
  to_banned-effect now x = (ground arith, ground arith, ground arith)

  ban-effect :
      (db : PeerDb F E M) (now k : ℕ) (i : PeerInfo F E M)
      → Assoc.get ℕ_discrete k db.peers ≡ some i
      → score_state f i ≡ ScoreState.banned
      → let (db', op) = update_connection_state f db now k NewConnectionState.banned in
        (j : PeerInfo F E M) × (Assoc.get ℕ_discrete k db'.peers ≡ some j)
        × (j.score ≡ i.score)
        × ((from_ban_operation op, j.connection_status)
            ≡ ban_effect now (addresses_to_ban db' i) i.connection_status)
  unfolding update_connection_state
  ban-effect db now k i held bad =
      let x : Local F E M = record {
        info = i;
        disconnected_count = db.disconnected_peers;
        banned_count = db.banned_peers_count;
      } in
      let (effect, score, seen) = to_banned-effect now x in
      let same : entry f db now k NewConnectionState.banned ≡ i = rw held (rw (bad, punish)) in
      rw same
        ((to_banned now x).0.info, Assoc.get-insert_self ℕ_discrete k _ db.peers, score, effect)

  fatal-score_state :
      Literals f
      → (i : PeerInfo F E M) (r : RealScore F) → i.is_trusted ≡ false
      → i.score ≡ real r
      → score_state f (apply_peer_action_to_score f i fatal) ≡ ScoreState.banned
  unfolding score_state apply_peer_action_to_score apply_peer_action
  fatal-score_state l i r t e = rw (t, e) (fatal_bans f l r)

  score_state-eq : (i j : PeerInfo F E M) → j.score ≡ i.score → score_state f j ≡ score_state f i
  unfolding score_state
  score_state-eq i j e = ap (Score.state f) e

  action-keeps :
      (i : PeerInfo F E M) (action : PeerAction)
      → ((apply_peer_action_to_score f i action).connection_status ≡ i.connection_status)
        × ((apply_peer_action_to_score f i action).seen_addresses ≡ i.seen_addresses)
  unfolding apply_peer_action_to_score
  action-keeps i action = (ground arith, ground arith)

  fatal-transition :
      (i j : PeerInfo F E M)
      → score_state f j ≡ ScoreState.banned
      → score_state f i ≢ ScoreState.banned
      → handle_score_transition f (score_state f i) j ≡ ScoreTransitionResult.banned
  unfolding handle_score_transition
  fatal-transition i j bad good = ground arith

  -- Where the literals of `f64` are ordered as numbers are, a fatal report of a known, untrusted
  -- peer, whose score is a real one (not the maximal one that a peer keeps from when it was trusted)
  -- that does not ban it yet, makes its score state banned and bans it: a connected or
  -- dialed peer is to be disconnected and banned then, a disconnecting one is banned when that
  -- ends, and any other is banned at once, those of its addresses being reported that are banned
  -- afterwards.
  pub report-fatal :
      (db : PeerDb F E M) (now k : ℕ) (i : PeerInfo F E M) (r : RealScore F)
      → Literals f
      → Assoc.get ℕ_discrete k db.peers ≡ some i
      → i.is_trusted ≡ false
      → i.score ≡ real r
      → score_state f i ≢ ScoreState.banned
      → let (db', result) = report_peer f db now k fatal in
        (j : PeerInfo F E M) × (Assoc.get ℕ_discrete k db'.peers ≡ some j)
        × (score_state f j ≡ ScoreState.banned)
        × ((result, j.connection_status)
            ≡ ban_effect now (addresses_to_ban db' i) i.connection_status)
  unfolding report_peer apply_peer_action_to_score
  report-fatal db now k i r l held t e good =
      let j = apply_peer_action_to_score f i fatal in
      let bad = fatal-score_state l i r t e in
      let (m, there, score, effect) =
        ban-effect (put f db k j) now k j (Assoc.get-insert_self ℕ_discrete k j db.peers) bad in
      rw (held, report_known, fatal-transition i j bad good)
        (
          m,
          there,
          score_state-eq j m score ∙ bad,
          (let (p, q) = action-keeps i fatal in rw (p, q) at effect),
        )

  no_transition :
      (i : PeerInfo F E M)
      → handle_score_transition f (score_state f i) i ≡ ScoreTransitionResult.no_action
  unfolding handle_score_transition
  no_transition i = ground arith

  max-unpunished :
      (i : PeerInfo F E M) (action : PeerAction)
      → i.score ≡ top
      → apply_peer_action_to_score f i action ≡ i
  unfolding apply_peer_action_to_score apply_peer_action
  max-unpunished i action e = ground arith

  trusted-unpunished :
      (i : PeerInfo F E M) (action : PeerAction)
      → i.is_trusted ≡ true
      → apply_peer_action_to_score f i action ≡ i
  unfolding apply_peer_action_to_score
  trusted-unpunished i action t = ground arith

  report-unpunished :
      (db : PeerDb F E M) (now k other : ℕ) (action : PeerAction) (i : PeerInfo F E M)
      → Assoc.get ℕ_discrete k db.peers ≡ some i
      → apply_peer_action_to_score f i action ≡ i
      → let (db', result) = report_peer f db now k action in
        (result ≡ ScoreUpdateResult.no_action)
        × (Assoc.get ℕ_discrete other db'.peers ≡ Assoc.get ℕ_discrete other db.peers)
        × (db'.disconnected_peers ≡ db.disconnected_peers)
        × (db'.banned_peers_count ≡ db.banned_peers_count)
  unfolding report_peer
  report-unpunished db now k other action i held same =
      let written = Assoc.get-insert ℕ_discrete k other i db.peers in
      rw held (rw same (rw (no_transition i) (refl, ground arith, refl, refl)))

  -- A report of a known peer that is trusted, or has the maximal score, asks for nothing, with any
  -- action, and leaves every peer and both counters as they were.
  report-immune :
      (db : PeerDb F E M) (now k other : ℕ) (action : PeerAction) (i : PeerInfo F E M)
      → Assoc.get ℕ_discrete k db.peers ≡ some i
      → (i.is_trusted ≡ true) ⊎ (i.score ≡ top)
      → let (db', result) = report_peer f db now k action in
        (result ≡ ScoreUpdateResult.no_action)
        × (Assoc.get ℕ_discrete other db'.peers ≡ Assoc.get ℕ_discrete other db.peers)
        × (db'.disconnected_peers ≡ db.disconnected_peers)
        × (db'.banned_peers_count ≡ db.banned_peers_count)
  report-immune db now k other action i held (inl t) =
      report-unpunished db now k other action i held (trusted-unpunished i action t)
  report-immune db now k other action i held (inr e) =
      report-unpunished db now k other action i held (max-unpunished i action e)
