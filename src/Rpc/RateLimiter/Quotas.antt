-- ===== src/Rpc/RateLimiter/Quotas.antt =====
-- The limiters that `Limiter::from_quota` and `RPCRateLimiterBuilder::build` make.
use consentry.Common.{
  ℕ, ◌+◌, ◌*◌, ◌<◌, ◌≤◌, ◌≡◌, refl, ◌⊎◌, ◌↔◌, inl, inr, u64_mod, [], Option, some, arith, subst,
  ◌/◌, ℕ_discrete, Bool-cases, ltb, ltb→lt, ltb→le,
}
use consentry.Rpc.RateLimiter.{
  Quota, Limiter, ok, err, ConfigErr, no_tokens, no_replenish_time, too_long, no_quota, from_quota,
  try_into, Builder, RpcRateLimiter, build,
}

-- What a limiter made from a quota promises: it starts empty, and `max_tokens` replenishment steps
-- of `t` fall short of `tau` by less than one nanosecond a token.
pub record Implements {K : Type 0} (q : Quota) (l : Limiter K) : Type 0 where
  pub some_tokens : 0 < q.max_tokens
  pub some_time : 0 < l.tau
  pub fits : l.tau < u64_mod
  pub whole : l.tau ≡ q.replenish_all_every
  pub empty : l.tat_per_key ≡ []
  pub step_below : l.t * q.max_tokens ≤ l.tau
  pub step_above : l.tau < l.t * q.max_tokens + q.max_tokens

-- Why a quota is refused.
abbrev pub Refuses : Quota → ConfigErr → Type 0
Refuses q no_tokens = q.max_tokens ≡ 0
Refuses q no_replenish_time = (0 < q.max_tokens) × (q.replenish_all_every ≡ 0)
Refuses q too_long = (0 < q.max_tokens) × (u64_mod ≤ q.replenish_all_every)
Refuses q (no_quota _) = ⊥

div-le : (a b : ℕ) → a / b ≤ a
div-le a b = grind arith

div_step : (a b : ℕ) → 0 < b → (a / b * b ≤ a) × (a < a / b * b + b)
div_step a b h = grind arith

module _ {K : Type 0} where
  made : Quota → Limiter K
  made q = record {
    tau = q.replenish_all_every;
    t = q.replenish_all_every / q.max_tokens;
    tat_per_key = [];
  }

  from_quota-ok :
      (q : Quota)
      → 0 < q.max_tokens
      → 0 < q.replenish_all_every
      → q.replenish_all_every < u64_mod
      → (from_quota q ≡ ok (made q)) × Implements q (made q)
  unfolding from_quota try_into made
  from_quota-ok q n p h = (
    ground (arith, div-le q.replenish_all_every q.max_tokens),
    record {
      some_tokens = n;
      some_time = p;
      fits = h;
      whole = refl;
      empty = refl;
      step_below = (div_step q.replenish_all_every q.max_tokens n).0;
      step_above = (div_step q.replenish_all_every q.max_tokens n).1;
    },
  )

  from_quota-too_long :
      (q : Quota)
      → 0 < q.max_tokens
      → u64_mod ≤ q.replenish_all_every
      → from_quota {K = K} q ≡ err too_long
  unfolding from_quota try_into
  from_quota-too_long q n h = ground arith

  -- Every quota either makes a limiter that implements it (empty, with the quota's period for
  -- `tau`, of which `max_tokens` steps of `t` fall short by less than a nanosecond a token), or is
  -- refused with an error that says why.
  from_quota_lem :
      (q : Quota)
      → ((l : Limiter K) × (from_quota q ≡ ok l) × Implements q l)
        ⊎ ((e : ConfigErr) × (from_quota {K = K} q ≡ err e) × Refuses q e)
  unfolding from_quota
  from_quota_lem q = elim (ℕ_discrete q.max_tokens 0) [
    | yes none_given ↦ inr (no_tokens, ground arith, none_given)
    | no given ↦ elim (ℕ_discrete q.replenish_all_every 0) [
      | yes none_given ↦ inr (no_replenish_time, ground arith, (omega arith, none_given))
      | no timed ↦ elim (Bool-cases (ltb q.replenish_all_every u64_mod)) [
        | inl short ↦
            let done = from_quota-ok q (omega arith) (omega arith) (ltb→lt _ _ short) in
            inl (made q, done.0, done.1)
        | inr long ↦
            let over = ltb→le _ _ long in
            inr (too_long, from_quota-too_long q (omega arith) over, (omega arith, over))
      ]
    ]
  ]

  pub from_quota-Implements : (q : Quota) (l : Limiter K) → from_quota q ≡ ok l → Implements q l
  from_quota-Implements q l h = elim (from_quota_lem q) [
    | inl (m, e, v) ↦ let same : m ≡ l = cc in subst (Implements q) same v
    | inr (x, e, _) ↦ cc
  ]

-- `r` has, for each protocol, the limiter of the quota that the builder was given.
abbrev Makes : Option Quota → Limiter ℕ → Type 0
Makes o l = (q : Quota) × (o ≡ some q) × (from_quota q ≡ ok l)

pub record Configures (b : Builder) (r : RpcRateLimiter) : Type 0 where
  pub goodbye : Makes b.goodbye_quota r.goodbye_rl
  pub ping : Makes b.ping_quota r.ping_rl
  pub metadata : Makes b.metadata_quota r.metadata_rl
  pub status : Makes b.status_quota r.status_rl
  pub bbrange : Makes b.bbrange_quota r.bbrange_rl
  pub bbroots : Makes b.bbroots_quota r.bbroots_rl

-- `build` succeeds with a limiter exactly when every protocol was given a quota and each of its
-- limiters is the one that `from_quota` makes of that protocol's quota.
build_iff : (b : Builder) (r : RpcRateLimiter) → (build b ≡ ok r) ↔ Configures b r
unfolding build
build_iff b r = (
  λ h. record {
    goodbye = ground arith;
    ping = ground arith;
    metadata = ground arith;
    status = ground arith;
    bbrange = ground arith;
    bbroots = ground arith;
  },
  λ c. ground arith,
)
