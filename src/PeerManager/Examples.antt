-- ===== src/PeerManager/Examples.antt =====
-- The scores on small inputs. For `f64` stand integers: enough for the additions and
-- tests of the scores, with a decay that loses everything at once.
use consentry.Common.Int.{ℤ, pos, negate, ltb_ℤ, ◌+ℤ◌, ◌*ℤ◌}
use consentry.Common.{◌≡◌, refl, Bool, false, not, arith}
use consentry.PeerManager.Score.{
  F64, RealScore, fatal, default_real, apply_peer_action_real, update_at,
  update_gossipsub_score_real, set_lighthouse_score, update_state, recompute_score,
}
use consentry.PeerManager.Score.Banning.{Literals, Order, ban_lasts}

abbrev pub integers : F64 ℤ
integers = record {
  of_ℕ = pos;
  neg = negate;
  add = ◌+ℤ◌;
  mul = ◌*ℤ◌;
  div = λ a b. a;
  ln = λ a. a;
  exp = λ a. pos 0;
  infinity = pos 1000000;
  le = λ a b. not (ltb_ℤ b a);
  lt = ltb_ℤ;
}

pub integers-Literals : Literals integers
integers-Literals = record {
  neg_le = λ a b p q. ground arith;
  infinity_above = λ a p. ground arith;
}

abbrev never : ℤ → Bool
never x = false

integers-Order : Order integers never
integers-Order = record {
  total = λ a b p q. refl;
  literal = λ a. refl;
  negated = λ a. refl;
  irreflexive = λ a. ground arith;
  sum = λ a n p. refl;
  signs = refl;
}

abbrev pub start : RealScore ℤ
start = default_real integers 100

ban_lasts_example :
    let s = apply_peer_action_real integers start fatal in
    (update_at integers s 5000 ≡ s)
    × (update_gossipsub_score_real integers s 5000 (pos 7) false ≡ s)
unfolding apply_peer_action_real set_lighthouse_score update_state recompute_score
ban_lasts_example = ban_lasts integers start fatal 5000 (pos 7) false refl refl (omega arith)
