-- ===== src/PeerManager/PeerDb/Scores/Gossipsub.antt =====
-- `update_gossipsub_scores` and the counters of the database.
use consentry.Common.Assoc
use consentry.Common.Assoc.{Distinct}
use consentry.Common.{
  ℕ, suc, ◌-◌, ◌≡◌, refl, Bool, true, false, ◌&&◌, Option, none, some, List, [], ◌∷◌, length, ltb,
  arith, ℕ_discrete, inl, inr, Option-cases, Bool-cases, if◌then◌else◌,
}
use consentry.PeerManager.Score.{F64}
use consentry.PeerManager.PeerInfo.{
  PeerInfo, PeerConnectionStatus, is_connected, is_banned, update_gossipsub_score,
}
use consentry.PeerManager.PeerDb.{
  PeerDb, Local, NewConnectionState, ScoreTransitionResult, entry, transition,
  update_connection_state, to_banned, to_disconnecting, to_unbanned,
}
use consentry.PeerManager.PeerDb.Counters.{IsCounted}
use consentry.PeerManager.PeerDb.Transitions.{
  Coherent, HasRoom, punish-keeps, update_connection_state-Coherent,
  update_connection_state-HasRoom,
}
use consentry.PeerManager.PeerDb.Scores.{
  put, act_on_score, act_on_all, rescore, give_scores, with_scores, scored, sort_by_score, unban,
  update_gossipsub_scores,
}
use consentry.PeerManager.PeerDb.Scores.Coherence.{SameConnection, put-Coherent, put-HasRoom}
use consentry.PeerManager.PeerDb.Scores.Sorting.{All, All-mono, sort-All, length-sort_by_score}

abbrev up : PeerConnectionStatus → Bool
up (PeerConnectionStatus.connected _ _) = true
up (PeerConnectionStatus.disconnecting _) = true
up _ = false

-- The states that a score can ask for.
module _ {E : Type 0} where
  abbrev Stays : NewConnectionState E → Type 0
  Stays NewConnectionState.banned = Unit {0}
  Stays NewConnectionState.unbanned = Unit {0}
  Stays (NewConnectionState.disconnecting _) = Unit {0}
  Stays _ = ⊥

module _ {F E M : Type 0} (f : F64 F) (now : ℕ) where
  -- A known peer that is connected or disconnecting.
  abbrev up_entry : Option (PeerInfo F E M) → Bool
  up_entry none = false
  up_entry (some i) = up i.connection_status

  abbrev Up : PeerDb F E M → ℕ → Type 0
  Up db k = up_entry (Assoc.get ℕ_discrete k db.peers) ≡ true

  up_entry-cons :
      (v : PeerInfo F E M) (j k : ℕ) (m : List (ℕ × PeerInfo F E M))
      → Assoc.get ℕ_discrete j m ≡ none
      → up_entry (Assoc.get ℕ_discrete k m) ≡ true
      → up_entry (Assoc.get ℕ_discrete k ((j, v) ∷ m)) ≡ true
  unfolding Assoc.get
  up_entry-cons v j k m absent h = ground arith

  with_scores-Up :
      (peer_score : ℕ → Option F) (m : List (ℕ × PeerInfo F E M))
      → Distinct ℕ_discrete m
      → All (λ k. up_entry (Assoc.get ℕ_discrete k m) ≡ true) (with_scores f peer_score m)
  unfolding with_scores Assoc.get
  with_scores-Up peer_score [] d = tt
  with_scores-Up peer_score ((j, v) ∷ m) d =
      let rest =
        All-mono _ _ (λ k p. up_entry-cons v j k m d.0 p) (with_scores f peer_score m)
          (with_scores-Up peer_score m d.1) in
      elim (Bool-cases (is_connected v)) [
        | inl connected ↦ elim (Option-cases (peer_score j)) [
          | inl unscored ↦ rw (connected, scored) (rw (unscored, scored) rest)
          | inr (s, e) ↦ rw (connected, scored) (rw (e, scored) (ground arith, rest))
        ]
        | inr other ↦ rw (other, scored) rest
      ]

  transition-up :
      (state : NewConnectionState E) (x : Local F E M)
      → Stays state
      → up x.info.connection_status ≡ true
      → up (transition now state x).0.info.connection_status ≡ true
  unfolding to_banned to_disconnecting to_unbanned
  transition-up NewConnectionState.banned x s h = ground arith
  transition-up NewConnectionState.unbanned x s h = ground arith
  transition-up (NewConnectionState.disconnecting to_ban) x s h = ground arith
  transition-up (NewConnectionState.connected _ _ _) x s h = absurd s
  transition-up (NewConnectionState.dialing _ _) x s h = absurd s
  transition-up NewConnectionState.disconnected x s h = absurd s

  update-Up :
      (db : PeerDb F E M) (j k : ℕ) (state : NewConnectionState E)
      → Stays state
      → Up db j
      → Up db k
      → Up (update_connection_state f db now j state).0 k
  unfolding update_connection_state
  update-Up db j k state s hj hk = elim (Option-cases (Assoc.get ℕ_discrete j db.peers)) [
    | inl absent ↦ ground arith
    | inr (i, held) ↦
        let x : Local F E M = record {
          info = entry f db now j state;
          disconnected_count = db.disconnected_peers;
          banned_count = db.banned_peers_count;
        } in
        let (p, q) = punish-keeps f now state i in
        let same : x.info.connection_status ≡ i.connection_status = rw held p in
        let after = transition-up state x s (ground arith) in
        let written = Assoc.get-insert ℕ_discrete j k (transition now state x).0.info db.peers in
        ground (arith, after, written)
  ]

  -- What a step keeps.
  record Kept (room : ℕ) (db db' : PeerDb F E M) : Type 0 where
    coherent : Coherent db'
    has_room : HasRoom room db'
    keeps : (k : ℕ) → Up db k → Up db' k

  rescored-SameConnection :
      (i : PeerInfo F E M) (s : F) (ignore : Bool)
      → SameConnection f i (update_gossipsub_score f i now s ignore)
  unfolding update_gossipsub_score
  rescored-SameConnection i s ignore = record { status = refl; seen = refl }

  put-Up :
      (db : PeerDb F E M) (j k : ℕ) (i i' : PeerInfo F E M)
      → Assoc.get ℕ_discrete j db.peers ≡ some i
      → i'.connection_status ≡ i.connection_status
      → Up db k
      → Up (put f db j i') k
  put-Up db j k i i' held same h =
      let written = Assoc.get-insert ℕ_discrete j k i' db.peers in ground arith

  rescore-Kept :
      (room : ℕ) (db : PeerDb F E M) (k : ℕ) (s : F) (ignore : Bool)
      → Up db k
      → Coherent db
      → HasRoom room db
      → Kept room db (rescore f db now k s ignore (Assoc.get ℕ_discrete k db.peers)).0
  rescore-Kept room db k s ignore h c r = elim (Option-cases (Assoc.get ℕ_discrete k db.peers)) [
    | inl absent ↦ absurd (ground arith)
    | inr (i, held) ↦
        let i' = update_gossipsub_score f i now s ignore in
        let same = rescored-SameConnection i s ignore in
        rw (held, rescore)
          (record {
            coherent = put-Coherent f db k i i' held same c;
            has_room = put-HasRoom f db k room i i' held same r;
            keeps = λ j u. put-Up db k j i i' held same.status u;
          })
  ]

  record Scored (room : ℕ) (db db' : PeerDb F E M) (n : ℕ)
      (actions : List (ℕ × ScoreTransitionResult)) : Type 0 where
    kept : Kept room db db'
    listed : All (Up db') actions
    all : length actions ≡ n

  give_scores-Scored :
      (room ignored : ℕ) (l : List (ℕ × F)) (db : PeerDb F E M)
      → All (Up db) l
      → Coherent db
      → HasRoom room db
      → let (db', actions) = give_scores f db now ignored l in Scored room db db' (length l) actions
  unfolding give_scores
  give_scores-Scored room ignored [] db a c r = record {
    kept = record { coherent = c; has_room = r; keeps = λ k u. u };
    listed = tt;
    all = refl;
  }
  give_scores-Scored room ignored ((k, s) ∷ l) db a c r =
      let ignore = f.lt s (f.of_ℕ 0) && ltb 0 ignored in
      let one = rescore-Kept room db k s ignore a.0 c r in
      let rest =
        give_scores-Scored room (if ignore then ignored - 1 else ignored) l _
          (All-mono _ _ one.keeps l a.1) one.coherent one.has_room in
      let same = rest.all in
      record {
        kept = record {
          coherent = rest.kept.coherent;
          has_room = rest.kept.has_room;
          keeps = λ j u. rest.kept.keeps j (one.keeps j u);
        };
        listed = (rest.kept.keeps k (one.keeps k a.0), rest.listed);
        all = omega arith;
      }

  update-Kept :
      (room : ℕ) (db : PeerDb F E M) (j : ℕ) (state : NewConnectionState E)
      → Stays state
      → IsCounted now state (entry f db now j state)
      → Up db j
      → Coherent db
      → HasRoom (suc room) db
      → Kept room db (update_connection_state f db now j state).0
  update-Kept room db j state s n h c r = record {
    coherent = update_connection_state-Coherent f now db j state c (omega arith) n;
    has_room = update_connection_state-HasRoom f now db j room state r;
    keeps = λ k u. update-Up db j k state s h u;
  }

  Up-not_banned :
      (db : PeerDb F E M) (j : ℕ) (to_ban : Bool)
      → Up db j
      → is_banned (entry f db now j (NewConnectionState.disconnecting to_ban)) ≡ false
  Up-not_banned db j to_ban h = elim (Option-cases (Assoc.get ℕ_discrete j db.peers)) [
    | inl absent ↦ absurd (ground arith)
    | inr (i, held) ↦ rw held (ground arith)
  ]

  act_on_score-Kept :
      (room : ℕ) (db : PeerDb F E M) (j : ℕ) (action : ScoreTransitionResult)
      → Up db j
      → Coherent db
      → HasRoom (suc room) db
      → Kept room db (act_on_score f db now j action).0
  unfolding unban
  act_on_score-Kept room db j ScoreTransitionResult.banned h c r =
      update-Kept room db j NewConnectionState.banned tt tt h c r
  act_on_score-Kept room db j ScoreTransitionResult.unbanned h c r =
      update-Kept room db j NewConnectionState.unbanned tt tt h c r
  act_on_score-Kept room db j ScoreTransitionResult.disconnected h c r =
      update-Kept room db j (NewConnectionState.disconnecting false) tt (Up-not_banned db j false h)
        h c r
  act_on_score-Kept room db j ScoreTransitionResult.no_action h c r = record {
    coherent = c;
    has_room = omega arith;
    keeps = λ k u. u;
  }

  act_on_all-Coherent :
      (actions : List (ℕ × ScoreTransitionResult)) (db : PeerDb F E M)
      → All (Up db) actions
      → Coherent db
      → HasRoom (length actions) db
      → Coherent (act_on_all f db now actions).0
  unfolding act_on_all
  act_on_all-Coherent [] db a c r = c
  act_on_all-Coherent ((k, action) ∷ rest) db a c r =
      let one = act_on_score-Kept (length rest) db k action a.0 c r in
      act_on_all-Coherent rest _ (All-mono _ _ one.keeps rest a.1) one.coherent one.has_room

  -- The update of the gossipsub scores keeps a coherent database coherent, whatever the scores are
  -- and however many of them are ignored, where there is room for a call for each connected peer that
  -- has a score.
  pub update_gossipsub_scores-Coherent :
      (db : PeerDb F E M) (allowed : ℕ) (peer_score : ℕ → Option F)
      → Coherent db
      → HasRoom (length (with_scores f peer_score db.peers)) db
      → Coherent (update_gossipsub_scores f db now allowed peer_score).0
  unfolding update_gossipsub_scores
  update_gossipsub_scores-Coherent db allowed peer_score c r =
      let scores = with_scores f peer_score db.peers in
      let given =
        give_scores-Scored (length scores) allowed (sort_by_score f scores) db
          (sort-All f (Up db) scores (with_scores-Up peer_score db.peers c.distinct)) c r in
      act_on_all-Coherent _ _ given.listed given.kept.coherent
        (rw (given.all, length-sort_by_score f scores) given.kept.has_room)
