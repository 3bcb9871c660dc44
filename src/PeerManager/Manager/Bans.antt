-- ===== src/PeerManager/Manager/Bans.antt =====
-- What the peer manager of src/peer_manager/mod.rs does with a peer that it reports as fatal.
use consentry.Common.Assoc
use consentry.Common.{
  ℕ, ◌≡◌, ◌≢◌, refl, ap, ◌∙◌, Bool-cases, true, false, Option, none, some, List, [], ◌∷◌, ◌++◌,
  arith, ℕ_discrete, inl, inr,
}
use consentry.Rpc.Methods.{GoodbyeReason}
use consentry.Rpc.Protocol.{Protocol, RpcError}
use consentry.PeerManager.Score.{F64, RealScore, real, ScoreState, fatal}
use consentry.PeerManager.Score.Banning.{Literals}
use consentry.PeerManager.SyncStatus.{SyncStatus}
use consentry.PeerManager.PeerInfo.{
  PeerInfo, PeerConnectionStatus, ConnectionDirection, score_state, is_connected_or_dialing,
  update_sync_status,
}
use consentry.PeerManager.PeerDb.{disconnect_the_peer, ban}
use consentry.PeerManager.PeerDb.Scores
use consentry.PeerManager.PeerDb.Scores.Reports.{ban_effect, addresses_to_ban, report-fatal}
use consentry.PeerManager.Manager.{
  Manager, PeerManagerEvent, reason_or, is_irrelevant, mark_irrelevant, report_peer, goodbye_peer,
  handle_score_action, handle_ban_operation,
}
use consentry.PeerManager.Manager.Errors.{peer_action, handle_rpc_error}

-- A peer that is connected or dialed is to be disconnected when it is banned.
live_effect :
    {F E M : Type 0} (now : ℕ) (ips : List _) (i : PeerInfo F E M)
    → is_connected_or_dialing i ≡ true
    → ban_effect now ips i.connection_status
      ≡ (ban disconnect_the_peer, PeerConnectionStatus.disconnecting true)
live_effect now ips i live = ground arith

module _ {F E M : Type 0} (f : F64 F) (literals : Literals f) (now : ℕ) where
  -- A peer that is connected or dialed, untrusted, and whose score is a real one that does not ban it.
  -- An untrusted peer may have the maximal score too: `remove_trusted` leaves the score of a peer that
  -- was trusted when it was entered.
  pub record Live (m : Manager F E M) (k : ℕ) : Type 0 where
    pub info : PeerInfo F E M
    pub score : RealScore F
    pub held : Assoc.get ℕ_discrete k m.peers.peers ≡ some info
    pub untrusted : info.is_trusted ≡ false
    pub scored : info.score ≡ real score
    pub good : score_state f info ≢ ScoreState.banned
    pub live : is_connected_or_dialing info ≡ true

  -- The peer is banned by its score and being disconnected, the swarm is asked to disconnect it with
  -- that reason, and nothing else is asked.
  pub record IsBanned (m m' : Manager F E M) (k : ℕ) (reason : GoodbyeReason) : Type 0 where
    pub info : PeerInfo F E M
    pub held : Assoc.get ℕ_discrete k m'.peers.peers ≡ some info
    pub bad : score_state f info ≡ ScoreState.banned
    pub leaving : info.connection_status ≡ PeerConnectionStatus.disconnecting true
    pub asked : m'.events ≡ m.events ++ PeerManagerEvent.disconnect_peer k reason ∷ []

  report_fatal_IsBanned :
      (m : Manager F E M) (k : ℕ) (reason : Option GoodbyeReason)
      → Live m k
      → IsBanned m (report_peer f now m k fatal reason) k (reason_or reason)
  unfolding report_peer handle_score_action handle_ban_operation
  report_fatal_IsBanned m k reason p =
      let (j, held, bad, effect) =
        report-fatal f m.peers now k p.info p.score literals p.held p.untrusted p.scored p.good in
      let (db', result) = Scores.report_peer f m.peers now k fatal in
      let both = effect ∙ live_effect now (addresses_to_ban f db' p.info) p.info p.live in
      let banned : result ≡ ban disconnect_the_peer = ap (λ x. x.0) both in
      rw banned
        (record { info = j; held = held; bad = bad; leaving = ap (λ x. x.1) both; asked = refl })

  -- Where the literals of `f64` are ordered as numbers are, an RPC error that counts as fatal, from an
  -- untrusted peer that is connected or dialed, and whose score is a real one (not the maximal one that a
  -- peer keeps from when it was trusted) that does not ban it yet, makes its score state banned, sets it
  -- to disconnect and be banned then, and asks the swarm for one thing, to disconnect it with the reason
  -- of a bad score.
  pub rpc_fatal-bans :
      (m : Manager F E M) (k : ℕ) (protocol : Protocol) (err : RpcError)
      (direction : ConnectionDirection)
      → peer_action err protocol direction ≡ some fatal
      → Live m k
      → IsBanned m (handle_rpc_error f now m k protocol err direction) k GoodbyeReason.bad_score
  unfolding handle_rpc_error
  rpc_fatal-bans m k protocol err direction e p = rw e (report_fatal_IsBanned m k none p)

  mark_irrelevant-Live :
      (m : Manager F E M) (k : ℕ) (reason : GoodbyeReason)
      → Live m k
      → Live (mark_irrelevant f now m k reason) k
  unfolding update_sync_status score_state
  mark_irrelevant-Live m k reason p = elim (Bool-cases (is_irrelevant reason)) [
    | inl marked ↦
        let i = (update_sync_status p.info SyncStatus.irrelevant_peer).0 in
        rw (marked, p.held)
          (record {
            info = i;
            score = p.score;
            held = Assoc.get-insert_self ℕ_discrete k i m.peers.peers;
            untrusted = p.untrusted;
            scored = p.scored;
            good = p.good;
            live = p.live;
          })
    | inr other ↦ rw other p
  ]

  mark_irrelevant-events :
      (m : Manager F E M) (k : ℕ) (reason : GoodbyeReason)
      → (mark_irrelevant f now m k reason).events ≡ m.events
  mark_irrelevant-events m k reason = ground arith

  -- Where the literals of `f64` are ordered as numbers are, a goodbye to an untrusted peer that is connected
  -- or dialed, and whose score is a real one (not the maximal one that a peer keeps from when it was
  -- trusted) that does not ban it yet, makes its score state banned, sets it to disconnect and be banned
  -- then, and asks the swarm for one thing, to disconnect it with the reason of the goodbye.
  pub goodbye-bans :
      (m : Manager F E M) (k : ℕ) (reason : GoodbyeReason)
      → Live m k
      → IsBanned m (goodbye_peer f now m k reason) k reason
  unfolding goodbye_peer
  goodbye-bans m k reason p =
      let b =
        report_fatal_IsBanned (mark_irrelevant f now m k reason) k (some reason)
          (mark_irrelevant-Live m k reason p) in
      record {
        info = b.info;
        held = b.held;
        bad = b.bad;
        leaving = b.leaving;
        asked =
            b.asked
            ∙ ap (λ e. e ++ PeerManagerEvent.disconnect_peer k reason ∷ [])
                (mark_irrelevant-events m k reason);
      }
