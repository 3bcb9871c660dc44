-- ===== src/PeerManager/Score/Banning.antt =====
-- How a score bans a peer, and for how long.
use consentry.Common.{ℕ, ◌+◌, ◌≤◌, ◌<◌, ◌≡◌, leb, Bool, true, false, not, arith}
use consentry.PeerManager.Score.{
  F64, RealScore, real, top, banned, healthy, PeerAction, fatal, low_tolerance_error,
  mid_tolerance_error, high_tolerance_error, min_score, max_score, min_score_before_ban,
  banned_before_decay, recompute_score, update_state, set_lighthouse_score, add_score, limit,
  apply_peer_action_real, update_at, update_gossipsub_score_real, score_of, state,
}

-- What the code relies on of `f64`: the order of its small integer literals, and that every number
-- is below infinity.
pub record Literals {F : Type 0} (f : F64 F) : Type 0 where
  pub neg_le :
      (a b : ℕ) → a ≤ 1000 → b ≤ 1000 → f.le (f.neg (f.of_ℕ a)) (f.neg (f.of_ℕ b)) ≡ leb b a
  pub infinity_above : (a : ℕ) → a ≤ 1000 → f.le f.infinity (f.neg (f.of_ℕ a)) ≡ false

-- The order of `f64` away from NaN.
pub record Order {F : Type 0} (f : F64 F) (is_nan : F → Bool) : Type 0 where
  pub total : (a b : F) → is_nan a ≡ false → is_nan b ≡ false → f.le a b ≡ not (f.lt b a)
  pub literal : (a : ℕ) → is_nan (f.of_ℕ a) ≡ false
  pub negated : (a : ℕ) → is_nan (f.neg (f.of_ℕ a)) ≡ false
  pub irreflexive : (a : F) → f.lt a a ≡ false
  pub sum : (a : F) (n : ℕ) → is_nan a ≡ false → is_nan (f.add a (f.neg (f.of_ℕ n))) ≡ false
  pub signs : f.lt (f.of_ℕ 100) (f.neg (f.of_ℕ 100)) ≡ false

module _ {F : Type 0} (f : F64 F) where
  -- A fatal action bans: whatever the scores were, the state is banned, where the literals of
  -- `f64` are ordered as numbers are.
  pub fatal_bans :
      Literals f → (r : RealScore F) → state f (real (apply_peer_action_real f r fatal)) ≡ banned
  unfolding apply_peer_action_real set_lighthouse_score update_state recompute_score state score_of
  fatal_bans l r = ground (
    arith,
    l.neg_le 100 60 (omega arith) (omega arith),
    l.neg_le 100 50 (omega arith) (omega arith),
  )

  pub top-healthy : Literals f → state f top ≡ healthy
  unfolding state score_of
  top-healthy l =
      ground (arith, l.infinity_above 50 (omega arith), l.infinity_above 20 (omega arith))

  update_state-last_updated :
      (r : RealScore F)
      → f.lt (min_score_before_ban f) r.score ≡ true
      → f.le (update_state f r).score (min_score_before_ban f) ≡ true
      → (update_state f r).last_updated ≡ r.last_updated + banned_before_decay
  unfolding update_state recompute_score
  update_state-last_updated r h b = ground arith

  action-last_updated :
      (r : RealScore F) (action : PeerAction)
      → f.lt (min_score_before_ban f) r.score ≡ true
      → f.le (apply_peer_action_real f r action).score (min_score_before_ban f) ≡ true
      → (apply_peer_action_real f r action).last_updated ≡ r.last_updated + banned_before_decay
  unfolding apply_peer_action_real add_score set_lighthouse_score
  action-last_updated r fatal h b = update_state-last_updated _ h b
  action-last_updated r low_tolerance_error h b = update_state-last_updated _ h b
  action-last_updated r mid_tolerance_error h b = update_state-last_updated _ h b
  action-last_updated r high_tolerance_error h b = update_state-last_updated _ h b

  -- A ban lasts: after an action that takes a score from above the ban threshold to it or below,
  -- neither decay nor a gossipsub score changes anything until 12 hours past the last update that
  -- the score had before.
  pub ban_lasts :
      (r : RealScore F) (action : PeerAction) (now : ℕ) (gossip : F) (ignore : Bool)
      → f.lt (min_score_before_ban f) r.score ≡ true
      → f.le (apply_peer_action_real f r action).score (min_score_before_ban f) ≡ true
      → now < r.last_updated + banned_before_decay
      → let s = apply_peer_action_real f r action in
        (update_at f s now ≡ s) × (update_gossipsub_score_real f s now gossip ignore ≡ s)
  unfolding update_at update_gossipsub_score_real
  ban_lasts r action now gossip ignore h b early =
      let e = action-last_updated r action h b in (ground arith, ground arith)

  -- A lighthouse score that is a number between -100 and 100.
  pub record InRange (is_nan : F → Bool) (x : F) : Type 0 where
    pub number : is_nan x ≡ false
    pub above : f.le (min_score f) x ≡ true
    pub below : f.le x (max_score f) ≡ true

  limit-InRange :
      (is_nan : F → Bool) → Order f is_nan → (x : F) → is_nan x ≡ false → InRange is_nan (limit f x)
  unfolding limit
  limit-InRange is_nan o x n =
      let hi = o.literal 100 in
      let lo = o.negated 100 in
      let signs = o.signs in
      record {
        number = ground arith;
        above = ground (
          arith,
          o.total (min_score f) x lo n,
          o.total (min_score f) (max_score f) lo hi,
          o.total (min_score f) (min_score f) lo lo,
          o.irreflexive (min_score f),
        );
        below = ground (
          arith,
          o.total x (max_score f) n hi,
          o.total (max_score f) (max_score f) hi hi,
          o.irreflexive (max_score f),
          o.total (min_score f) (max_score f) lo hi,
        );
      }

  update_state-lighthouse_score :
      (r : RealScore F) → (update_state f r).lighthouse_score ≡ r.lighthouse_score
  unfolding update_state recompute_score
  update_state-lighthouse_score r = ground arith

  -- Every action keeps a lighthouse score that is a number between -100 and 100 such a number,
  -- where `f64` is ordered as it is away from NaN.
  action-InRange :
      (is_nan : F → Bool)
      → Order f is_nan
      → (r : RealScore F) (action : PeerAction) → InRange is_nan r.lighthouse_score
      → InRange is_nan (apply_peer_action_real f r action).lighthouse_score
  unfolding apply_peer_action_real add_score set_lighthouse_score
  action-InRange is_nan o r fatal v = rw update_state-lighthouse_score (record {
    number = o.negated 100;
    above = rw (o.total _ _ (o.negated 100) (o.negated 100), o.irreflexive (min_score f));
    below = rw (o.total _ _ (o.negated 100) (o.literal 100), o.signs);
  })
  action-InRange is_nan o r low_tolerance_error v =
      rw update_state-lighthouse_score (limit-InRange is_nan o _ (o.sum _ 10 v.number))
  action-InRange is_nan o r mid_tolerance_error v =
      rw update_state-lighthouse_score (limit-InRange is_nan o _ (o.sum _ 5 v.number))
  action-InRange is_nan o r high_tolerance_error v =
      rw update_state-lighthouse_score (limit-InRange is_nan o _ (o.sum _ 1 v.number))
