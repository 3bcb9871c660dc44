-- ===== src/PeerManager/Manager/Admission.antt =====
-- What becomes of a new connection in src/peer_manager/network_behaviour.rs.
use consentry.Common.Assoc
use consentry.Common.{ℕ, ◌≡◌, refl, Bool-cases, some, ◌==◌, arith, ℕ_discrete, inl, inr}
use consentry.Rpc.Methods.{GoodbyeReason}
use consentry.PeerManager.Score.{F64, Score, top, real, ScoreState, fatal, apply_peer_action, apply}
use consentry.PeerManager.Score
use consentry.PeerManager.Score.Banning.{Literals, fatal_bans}
use consentry.PeerManager.PeerInfo.{PeerInfo, score_state, apply_peer_action_to_score}
use consentry.PeerManager.PeerDb.{BanResult, ScoreTransitionResult}
use consentry.PeerManager.PeerDb.Scores.{report_known, handle_score_transition, act_on_report, put}
use consentry.PeerManager.PeerDb.Scores
use consentry.PeerManager.PeerDb.Queries.{peer_info, ban_status}
use consentry.PeerManager.Manager.{
  Manager, Sizes, push, PeerManagerEvent, goodbye_peer, report_peer, handle_score_action,
}
use consentry.PeerManager.Manager.Swarm.{
  ConnectedPoint, inject_connection_established, request_meta_data,
}

module _ {F E M : Type 0} (f : F64 F) (now : ℕ) where
  -- A fatal action leaves a banned score banned.
  fatal-banned :
      (i : PeerInfo F E M)
      → Literals f
      → score_state f i ≡ ScoreState.banned
      → score_state f (apply_peer_action_to_score f i fatal) ≡ ScoreState.banned
  unfolding apply_peer_action_to_score score_state apply_peer_action apply
  fatal-banned i l bad = elim (Bool-cases i.is_trusted) [
    | inl trusted ↦ rw trusted bad
    | inr not_trusted ↦ rw not_trusted (of_score i.score bad)
  ]
    where
      of_score :
          (s : Score F)
          → Score.state f s ≡ ScoreState.banned
          → Score.state f (apply_peer_action f s fatal) ≡ ScoreState.banned
      of_score top bad = bad
      of_score (real r) bad = fatal_bans f l r

  banned_again :
      (i j : PeerInfo F E M)
      → score_state f i ≡ ScoreState.banned
      → score_state f j ≡ ScoreState.banned
      → handle_score_transition f (score_state f i) j ≡ ScoreTransitionResult.no_action
  unfolding handle_score_transition
  banned_again i j bad still = ground arith

  goodbye_again :
      (m : Manager F E M) (k : ℕ) (i : PeerInfo F E M)
      → Literals f
      → Assoc.get ℕ_discrete k m.peers.peers ≡ some i
      → score_state f i ≡ ScoreState.banned
      → goodbye_peer f now m k GoodbyeReason.banned
        ≡ record m { peers = put f m.peers k (apply_peer_action_to_score f i fatal) }
  unfolding goodbye_peer report_peer handle_score_action Scores.report_peer
  goodbye_again m k i l held bad =
      rw
        (
          held,
          report_known,
          banned_again i (apply_peer_action_to_score f i fatal) bad (fatal-banned i l bad),
        )
        refl

  bad_status :
      (m : Manager F E M) (k : ℕ) (i : PeerInfo F E M)
      → Assoc.get ℕ_discrete k m.peers.peers ≡ some i
      → score_state f i ≡ ScoreState.banned
      → ban_status f m.peers k ≡ BanResult.bad_score
  unfolding ban_status
  bad_status m k i held bad = ground arith

  -- Where the literals of `f64` are ordered as numbers are, a connection of a peer whose score bans it
  -- already adds no event but the request for metadata of a first connection, and leaves the peer's entry
  -- as a fatal action on its score makes it: it is neither banned nor disconnected.
  pub rebanned-kept :
      (sizes : Sizes) (m : Manager F E M) (k : ℕ) (i : PeerInfo F E M) (endpoint : ConnectedPoint)
      (others : ℕ)
      → Literals f
      → Assoc.get ℕ_discrete k m.peers.peers ≡ some i
      → score_state f i ≡ ScoreState.banned
      → let m' = inject_connection_established f sizes now m k endpoint others in
        (m'.events ≡ (request_meta_data f sizes now m k others).events)
        × (peer_info m'.peers k ≡ some (apply_peer_action_to_score f i fatal))
  unfolding inject_connection_established
  rebanned-kept sizes m k i endpoint others l held bad =
      let status = bad_status m k i held bad in
      let here =
        Assoc.get-insert_self ℕ_discrete k (apply_peer_action_to_score f i fatal) m.peers.peers in
      elim (Bool-cases (others == 0)) [
        | inl first ↦
            let m1 = push m (PeerManagerEvent.meta_data k) in
            rw (first, status, goodbye_again m1 k i l held bad) (refl, here)
        | inr again ↦ rw (again, status, goodbye_again m k i l held bad) (refl, here)
      ]
