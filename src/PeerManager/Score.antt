-- ===== src/PeerManager/Score.antt =====
-- src/peer_manager/peerdb/score.rs. The type of `f64` and its operations are parameters: `F64` is
-- what the code calls, and tests are false where an operand is not a number. An instant is a number
-- of nanoseconds.
pub mod Banning
use consentry.Common.{ℕ, ◌+◌, ◌-◌, ◌*◌, ◌/◌, leb, if◌then◌else◌, Bool, true, false, not, ◌&&◌}

pub record F64 (F : Type 0) : Type 0 where
  pub of_ℕ : ℕ → F
  pub neg : F → F
  pub add : F → F → F
  pub mul : F → F → F
  pub div : F → F → F
  pub ln : F → F
  pub exp : F → F
  pub infinity : F
  pub le : F → F → Bool
  pub lt : F → F → Bool

abbrev pub nanos_per_sec : ℕ
nanos_per_sec = 1000000000

-- `BANNED_BEFORE_DECAY`: 12 hours
abbrev pub banned_before_decay : ℕ
banned_before_decay = 12 * 3600 * nanos_per_sec

pub data PeerAction : Type 0 where
  fatal low_tolerance_error mid_tolerance_error high_tolerance_error : PeerAction

pub data ReportSource : Type 0 where
  gossipsub rpc processor sync_service peer_manager : ReportSource

pub data ScoreState : Type 0 where
  healthy disconnected banned : ScoreState

pub record RealScore (F : Type 0) : Type 0 where
  pub lighthouse_score : F
  pub gossipsub_score : F
  pub ignore_negative_gossipsub_score : Bool
  pub score : F
  pub last_updated : ℕ

pub data Score (F : Type 0) : Type 0 where
  top : Score F
  real : RealScore F → Score F

module _ {F : Type 0} (f : F64 F) where
  open f use {of_ℕ, neg, add, mul, div, ln, exp, infinity, le, lt}

  abbrev pub default_score : F
  default_score = of_ℕ 0

  abbrev pub min_score_before_disconnect : F
  min_score_before_disconnect = neg (of_ℕ 20)

  abbrev pub min_score_before_ban : F
  min_score_before_ban = neg (of_ℕ 50)

  abbrev pub min_lighthouse_score_before_ban : F
  min_lighthouse_score_before_ban = neg (of_ℕ 60)

  abbrev pub max_score : F
  max_score = of_ℕ 100

  abbrev pub min_score : F
  min_score = neg (of_ℕ 100)

  abbrev pub score_halflife : F
  score_halflife = of_ℕ 600

  -- `HALFLIFE_DECAY`
  abbrev pub halflife_decay : F
  halflife_decay = div (neg (ln (of_ℕ 2))) score_halflife

  -- `GREYLIST_THRESHOLD` of network/gossipsub_scoring_parameters.rs
  abbrev pub gossipsub_greylist_threshold : F
  gossipsub_greylist_threshold = neg (of_ℕ 16000)

  abbrev pub gossipsub_negative_score_weight : F
  gossipsub_negative_score_weight =
      div (add min_score_before_disconnect (of_ℕ 1)) gossipsub_greylist_threshold

  abbrev pub gossipsub_positive_score_weight : F
  gossipsub_positive_score_weight = gossipsub_negative_score_weight

  -- `impl Default for RealScore`
  abbrev pub default_real : ℕ → RealScore F
  default_real now = record {
    lighthouse_score = default_score;
    gossipsub_score = default_score;
    score = default_score;
    last_updated = now;
    ignore_negative_gossipsub_score = false;
  }

  -- `RealScore::recompute_score`
  unfoldable pub recompute_score : RealScore F → RealScore F
  recompute_score s =
      if le lighthouse_score min_lighthouse_score_before_ban
      then record s { score = lighthouse_score }
      else if le (of_ℕ 0) gossipsub_score
      then record s {
        score = add lighthouse_score (mul gossipsub_score gossipsub_positive_score_weight);
      }
      else if not ignore_negative_gossipsub_score
      then record s {
        score = add lighthouse_score (mul gossipsub_score gossipsub_negative_score_weight);
      }
      else record s { score = lighthouse_score }
    where
      open s use {lighthouse_score, gossipsub_score, ignore_negative_gossipsub_score}

  -- `RealScore::update_state`
  unfoldable pub update_state : RealScore F → RealScore F
  update_state s =
      let was_not_banned = lt min_score_before_ban s.score in
      let r = recompute_score s in
      if was_not_banned && le r.score min_score_before_ban
      then record r { last_updated = r.last_updated + banned_before_decay }
      else r

  -- `RealScore::set_lighthouse_score`
  unfoldable pub set_lighthouse_score : RealScore F → F → RealScore F
  set_lighthouse_score s new_score = update_state (record s { lighthouse_score = new_score })

  -- The limits of `RealScore::add`
  unfoldable pub limit : F → F
  limit new_score =
      let capped = if lt max_score new_score then max_score else new_score in
      if lt capped min_score then min_score else capped

  -- `RealScore::add`
  unfoldable pub add_score : RealScore F → F → RealScore F
  add_score s score = set_lighthouse_score s (limit (add s.lighthouse_score score))

  -- `RealScore::apply_peer_action`
  unfoldable pub apply_peer_action_real : RealScore F → PeerAction → RealScore F
  apply_peer_action_real s fatal = set_lighthouse_score s min_score
  apply_peer_action_real s low_tolerance_error = add_score s (neg (of_ℕ 10))
  apply_peer_action_real s mid_tolerance_error = add_score s (neg (of_ℕ 5))
  apply_peer_action_real s high_tolerance_error = add_score s (neg (of_ℕ 1))

  -- e ^ (-ln 2 / halflife * secs)
  unfoldable pub decay_factor : ℕ → F
  decay_factor secs = exp (mul halflife_decay (of_ℕ secs))

  -- `RealScore::update_at`
  unfoldable pub update_at : RealScore F → ℕ → RealScore F
  update_at s now =
      if leb s.last_updated now
      then update_state (record s {
        lighthouse_score =
            mul s.lighthouse_score (decay_factor ((now - s.last_updated) / nanos_per_sec));
        last_updated = now;
      })
      else s

  -- `RealScore::update_gossipsub_score`, with the clock's instant
  unfoldable pub update_gossipsub_score_real : RealScore F → ℕ → F → Bool → RealScore F
  update_gossipsub_score_real s now new_score ignore =
      if leb s.last_updated now
      then update_state
          (record s { gossipsub_score = new_score; ignore_negative_gossipsub_score = ignore })
      else s

  -- The macro `apply!` makes each method of `RealScore` one of `Score`.
  unfoldable pub apply : (RealScore F → RealScore F) → Score F → Score F
  apply method top = top
  apply method (real s) = real (method s)

  unfoldable pub apply_peer_action : Score F → PeerAction → Score F
  unfolding apply
  apply_peer_action s action = apply (λ r. apply_peer_action_real r action) s

  unfoldable pub update : Score F → ℕ → Score F
  unfolding apply
  update s now = apply (λ r. update_at r now) s

  unfoldable pub update_gossipsub_score : Score F → ℕ → F → Bool → Score F
  unfolding apply
  update_gossipsub_score s now new_score ignore =
      apply (λ r. update_gossipsub_score_real r now new_score ignore) s

  -- `Score::score`
  unfoldable pub score_of : Score F → F
  score_of top = infinity
  score_of (real s) = s.score

  -- `Score::state`
  unfoldable pub state : Score F → ScoreState
  state s =
      if le (score_of s) min_score_before_ban
      then banned
      else if le (score_of s) min_score_before_disconnect
      then disconnected
      else healthy

  -- `Score::is_good_gossipsub_peer`
  unfoldable pub is_good_gossipsub_peer : Score F → Bool
  is_good_gossipsub_peer top = true
  is_good_gossipsub_peer (real s) = le (of_ℕ 0) s.gossipsub_score
