-- ===== src/PeerManager/PeerDb/Scores/Coherence.antt =====
-- `report_peer`, `update_scores` and the counters of the database.
use consentry.Common.Assoc
use consentry.Common.Assoc.{Distinct}
use consentry.Common.Totals.{total, total-insert}
use consentry.Common.{
  ℕ, ◌≡◌, refl, false, none, some, List, [], ◌∷◌, length, arith, ℕ_discrete, inl, inr, Option-cases,
  sym, ◌∙◌,
}
use consentry.PeerManager.Score.{F64, PeerAction, ScoreState}
use consentry.PeerManager.PeerInfo.{
  PeerInfo, is_banned, apply_peer_action_to_score, score_update, score_state,
}
use consentry.PeerManager.PeerDb.{PeerDb, NewConnectionState, ScoreTransitionResult}
use consentry.PeerManager.PeerDb.Counters.{as_disconnected, as_banned, as_banned_at}
use consentry.PeerManager.PeerDb.Transitions.{
  Coherent, HasRoom, records, update_connection_state-Coherent, update_connection_state-HasRoom,
}
use consentry.PeerManager.PeerDb.Scores.{
  put, act_on_report, report_known, report_peer, handle_score_transition, decay_all, unban,
  unban_all, update_scores, peers_to_unban,
}

module _ {F E M : Type 0} (f : F64 F) where
  -- A write that leaves the connection and the addresses as they are.
  pub record SameConnection (i j : PeerInfo F E M) : Type 0 where
    pub status : j.connection_status ≡ i.connection_status
    pub seen : j.seen_addresses ≡ i.seen_addresses

  pub put-Coherent :
      (db : PeerDb F E M) (k : ℕ) (i j : PeerInfo F E M)
      → Assoc.get ℕ_discrete k db.peers ≡ some i
      → SameConnection i j
      → Coherent db
      → Coherent (put f db k j)
  put-Coherent db k i j held same c =
      let p = same.status in
      let q = same.seen in
      let c1 = c.disconnected in
      let c2 = c.banned in
      record {
        distinct = Assoc.insert-Distinct ℕ_discrete k j db.peers c.distinct;
        disconnected = ground (arith, total-insert ℕ_discrete as_disconnected k j db.peers);
        banned = ground (arith, total-insert ℕ_discrete as_banned k j db.peers);
        at = λ ip.
            let c3 = c.at ip in
            ground (arith, total-insert ℕ_discrete (as_banned_at ip) k j db.peers);
      }

  pub put-HasRoom :
      (db : PeerDb F E M) (k calls : ℕ) (i j : PeerInfo F E M)
      → Assoc.get ℕ_discrete k db.peers ≡ some i
      → SameConnection i j
      → HasRoom calls db
      → HasRoom calls (put f db k j)
  put-HasRoom db k calls i j held same room =
      let q = same.seen in ground (arith, total-insert ℕ_discrete records k j db.peers)

  action-SameConnection :
      (i : PeerInfo F E M) (action : PeerAction)
      → SameConnection i (apply_peer_action_to_score f i action)
  unfolding apply_peer_action_to_score
  action-SameConnection i action = record { status = ground arith; seen = ground arith }

  act_on_report-Coherent :
      (db : PeerDb F E M) (now k : ℕ) (i : PeerInfo F E M) (result : ScoreTransitionResult)
      → Assoc.get ℕ_discrete k db.peers ≡ some i
      → (result ≡ ScoreTransitionResult.disconnected → is_banned i ≡ false)
      → Coherent db
      → HasRoom 0 db
      → Coherent (act_on_report f db now k result).0
  act_on_report-Coherent db now k i ScoreTransitionResult.banned held up c room =
      update_connection_state-Coherent f now db k NewConnectionState.banned c room tt
  act_on_report-Coherent db now k i ScoreTransitionResult.disconnected held up c room =
      update_connection_state-Coherent f now db k (NewConnectionState.disconnecting false) c room
        (rw held (up refl))
  act_on_report-Coherent db now k i ScoreTransitionResult.unbanned held up c room = c
  act_on_report-Coherent db now k i ScoreTransitionResult.no_action held up c room = c

  -- Only a peer that is connected or being dialed is to be disconnected.
  disconnected-up :
      (old : ScoreState) (i : PeerInfo F E M)
      → handle_score_transition f old i ≡ ScoreTransitionResult.disconnected
      → is_banned i ≡ false
  unfolding handle_score_transition
  disconnected-up old i h = ground arith

  -- A report of a peer, known or not and with any action, keeps a coherent database coherent,
  -- where it has room.
  pub report_peer-Coherent :
      (db : PeerDb F E M) (now k : ℕ) (action : PeerAction)
      → Coherent db
      → HasRoom 0 db
      → Coherent (report_peer f db now k action).0
  unfolding report_peer
  report_peer-Coherent db now k action c room =
      elim (Option-cases (Assoc.get ℕ_discrete k db.peers)) [
        | inl unknown ↦ rw (unknown, report_known) c
        | inr (i, held) ↦
            let j = apply_peer_action_to_score f i action in
            let same = action-SameConnection i action in
            rw (held, report_known)
              (act_on_report-Coherent (put f db k j) now k j _
                (Assoc.get-insert_self ℕ_discrete k j db.peers)
                (disconnected-up (score_state f i) j) (put-Coherent db k i j held same c)
                (put-HasRoom db k 0 i j held same room))
      ]

  decay_all-total :
      (w : PeerInfo F E M → ℕ) (now : ℕ)
      → ((i : PeerInfo F E M) → w (score_update f i now) ≡ w i)
      → (m : List (ℕ × PeerInfo F E M)) → total w (decay_all f now m) ≡ total w m
  unfolding total decay_all
  decay_all-total w now h [] = refl
  decay_all-total w now h ((k, i) ∷ m) = omega (arith, h i, decay_all-total w now h m)

  get-decay_all :
      (now k : ℕ) (m : List (ℕ × PeerInfo F E M))
      → Assoc.get ℕ_discrete k m ≡ none
      → Assoc.get ℕ_discrete k (decay_all f now m) ≡ none
  unfolding Assoc.get decay_all
  get-decay_all now k [] h = refl
  get-decay_all now k ((j, i) ∷ m) h = ground (arith, get-decay_all now k m)

  decay_all-Distinct :
      (now : ℕ) (m : List (ℕ × PeerInfo F E M))
      → Distinct ℕ_discrete m
      → Distinct ℕ_discrete (decay_all f now m)
  unfolding decay_all
  decay_all-Distinct now [] d = tt
  decay_all-Distinct now ((j, i) ∷ m) d = (get-decay_all now j m d.0, decay_all-Distinct now m d.1)

  update-SameConnection : (i : PeerInfo F E M) (now : ℕ) → SameConnection i (score_update f i now)
  unfolding score_update
  update-SameConnection i now = record { status = ground arith; seen = ground arith }

  decayed-Coherent :
      (db : PeerDb F E M) (now : ℕ)
      → Coherent db
      → Coherent (record db { peers = decay_all f now db.peers })
  decayed-Coherent db now c =
      let same = λ (i : PeerInfo F E M). update-SameConnection i now in
      record {
        distinct = decay_all-Distinct now db.peers c.distinct;
        disconnected =
            c.disconnected
            ∙ sym (decay_all-total as_disconnected now (λ i. rw (same i).status) db.peers);
        banned = c.banned ∙ sym (decay_all-total as_banned now (λ i. rw (same i).status) db.peers);
        at = λ ip.
            c.at ip
            ∙ sym (
                decay_all-total (as_banned_at ip) now (λ i. rw ((same i).status, (same i).seen))
                  db.peers);
      }

  unban_all-Coherent :
      (ks : List ℕ) (db : PeerDb F E M) (now : ℕ)
      → Coherent db
      → HasRoom (length ks) db
      → Coherent (unban_all f db now ks).0
  unfolding unban_all unban
  unban_all-Coherent [] db now c room = c
  unban_all-Coherent (k ∷ ks) db now c room =
      unban_all-Coherent ks _ now
        (update_connection_state-Coherent f now db k NewConnectionState.unbanned c (omega arith) tt)
        (update_connection_state-HasRoom f now db k (length ks) NewConnectionState.unbanned room)

  -- The periodic update of the scores keeps a coherent database coherent, whichever peers it
  -- unbans, where there is room for a call for each of them.
  pub update_scores-Coherent :
      (db : PeerDb F E M) (now : ℕ)
      → Coherent db
      → HasRoom (length (peers_to_unban f now db.peers)) db
      → Coherent (update_scores f db now).0
  unfolding update_scores
  update_scores-Coherent db now c room =
      unban_all-Coherent (peers_to_unban f now db.peers) _ now (decayed-Coherent db now c) (
        rw (decay_all-total records now (λ i. rw (update-SameConnection i now).seen) db.peers) room)
