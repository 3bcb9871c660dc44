-- ===== src/Rpc/RateLimiter.antt =====
-- src/rpc/rate_limiter.rs. Durations are nanoseconds; a time is the duration since the limiter's
-- creation, which the callers of the code read off the clock. `u64` arithmetic wraps, as in a
-- release build.
pub mod Quotas
pub mod Decisions
pub mod Conformance
pub mod Pruning
pub mod Isolation
use consentry.Common.Assoc
use consentry.Common.{
  ℕ, ◌+◌, ◌-◌, ◌*◌, ◌/◌, ltb, leb, ◌==◌, if◌then◌else◌, u64, u64_mod, max, List, [], ◌∷◌, Option,
  none, some, ℕ_discrete,
}
use consentry.Rpc.Protocol.{Protocol, InboundRequest, expected_responses, protocol}

pub record Quota : Type 0 where
  pub replenish_all_every : ℕ
  pub max_tokens : ℕ

pub data RateLimitedErr : Type 0 where
  too_large : RateLimitedErr
  too_soon : ℕ → RateLimitedErr

pub data Verdict : Type 0 where
  accept : Verdict
  refuse : RateLimitedErr → Verdict

-- The messages of the errors with which a limiter or its builder is refused.
pub data ConfigErr : Type 0 where
  no_tokens no_replenish_time too_long : ConfigErr
  no_quota : Protocol → ConfigErr

pub data Result {ℓ} (A : Type ℓ) : Type ℓ where
  ok : A → Result A
  err : ConfigErr → Result A

infixl 5 ◌>>=◌
abbrev pub ◌>>=◌ {ℓ κ} : {A : Type ℓ} {B : Type κ} → Result A → (A → Result B) → Result B
ok a >>= f = f a
err e >>= f = err e

pub record Limiter (K : Type 0) : Type 0 where
  pub tau : ℕ
  pub t : ℕ
  pub tat_per_key : List (K × ℕ)

-- `try_into` from `u128` to `u64`
try_into : ℕ → Result ℕ
try_into n = if ltb n u64_mod then ok n else err too_long

-- `Limiter::from_quota`
unfoldable pub from_quota : {K : Type 0} → Quota → Result (Limiter K)
unfolding try_into
from_quota {K} quota =
    if quota.max_tokens == 0
    then err no_tokens
    else if quota.replenish_all_every == 0
    then err no_replenish_time
    else do
      t ← try_into (quota.replenish_all_every / quota.max_tokens)
      tau ← try_into quota.replenish_all_every
      ok (record { tau = tau; t = t; tat_per_key = [] })

abbrev pub stored_or : Option ℕ → ℕ → ℕ
stored_or none now = now
stored_or (some tat) now = tat

module _ {K : Type 0} (eq : Discrete K) where
  -- The entry's value after `entry(key).or_insert(now)`.
  abbrev pub tat_of : Limiter K → K → ℕ → ℕ
  tat_of l key now = stored_or (Assoc.get eq key l.tat_per_key) now

  unfoldable pub write : Limiter K → K → ℕ → Limiter K
  write l key tat = record l { tat_per_key = Assoc.insert eq key tat l.tat_per_key }

  -- `Limiter::allows`
  unfoldable pub allows : Limiter K → ℕ → K → ℕ → Limiter K × Verdict
  unfolding write
  allows l time_since_start key tokens =
      if ltb tau additional_time
      then (l, refuse too_large)
      else if ltb now earliest_time
      then (write l key tat, refuse (too_soon (earliest_time - now)))
      else (write l key (u64 (max now tat + additional_time)), accept)
    where
      open l use {tau, t}

      now : ℕ
      now = u64 time_since_start

      additional_time : ℕ
      additional_time = u64 (t * tokens)

      tat : ℕ
      tat = tat_of l key now

      earliest_time : ℕ
      earliest_time = u64 (tat + additional_time) - tau

-- `Limiter::prune`
unfoldable pub prune : {K : Type 0} → Discrete K → Limiter K → ℕ → Limiter K
prune eq l time_limit = record l {
  tat_per_key = Assoc.retain eq (λ _ tat. leb (u64 time_limit) tat) l.tat_per_key;
}

pub record RpcRateLimiter : Type 0 where
  pub goodbye_rl : Limiter ℕ
  pub ping_rl : Limiter ℕ
  pub metadata_rl : Limiter ℕ
  pub status_rl : Limiter ℕ
  pub bbrange_rl : Limiter ℕ
  pub bbroots_rl : Limiter ℕ

pub record Builder : Type 0 where
  pub goodbye_quota : Option Quota
  pub ping_quota : Option Quota
  pub metadata_quota : Option Quota
  pub status_quota : Option Quota
  pub bbrange_quota : Option Quota
  pub bbroots_quota : Option Quota

-- `RPCRateLimiterBuilder::new`
abbrev pub builder : Builder
builder = record {
  goodbye_quota = none;
  ping_quota = none;
  metadata_quota = none;
  status_quota = none;
  bbrange_quota = none;
  bbroots_quota = none;
}

-- `RPCRateLimiterBuilder::set_quota`
unfoldable pub set_quota : Builder → Protocol → Quota → Builder
set_quota b Protocol.ping quota = record b { ping_quota = some quota }
set_quota b Protocol.status quota = record b { status_quota = some quota }
set_quota b Protocol.meta_data quota = record b { metadata_quota = some quota }
set_quota b Protocol.goodbye quota = record b { goodbye_quota = some quota }
set_quota b Protocol.blocks_by_range quota = record b { bbrange_quota = some quota }
set_quota b Protocol.blocks_by_root quota = record b { bbroots_quota = some quota }

-- `RPCRateLimiterBuilder::n_every`
unfoldable pub n_every : Builder → Protocol → ℕ → ℕ → Builder
unfolding set_quota
n_every b p n time_period =
    set_quota b p (record { max_tokens = n; replenish_all_every = time_period })

-- `RPCRateLimiterBuilder::one_every`
unfoldable pub one_every : Builder → Protocol → ℕ → Builder
unfolding set_quota
one_every b p time_period =
    set_quota b p (record { replenish_all_every = time_period; max_tokens = 1 })

ok_or : Option Quota → Protocol → Result Quota
ok_or none p = err (no_quota p)
ok_or (some q) p = ok q

-- `RPCRateLimiterBuilder::build`
unfoldable pub build : Builder → Result RpcRateLimiter
unfolding ok_or
build b = do
  ping_quota ← ok_or b.ping_quota Protocol.ping
  metadata_quota ← ok_or b.metadata_quota Protocol.meta_data
  status_quota ← ok_or b.status_quota Protocol.status
  goodbye_quota ← ok_or b.goodbye_quota Protocol.goodbye
  bbroots_quota ← ok_or b.bbroots_quota Protocol.blocks_by_root
  bbrange_quota ← ok_or b.bbrange_quota Protocol.blocks_by_range
  ping_rl ← from_quota ping_quota
  metadata_rl ← from_quota metadata_quota
  status_rl ← from_quota status_quota
  goodbye_rl ← from_quota goodbye_quota
  bbroots_rl ← from_quota bbroots_quota
  bbrange_rl ← from_quota bbrange_quota
  ok (record {
    goodbye_rl = goodbye_rl;
    ping_rl = ping_rl;
    metadata_rl = metadata_rl;
    status_rl = status_rl;
    bbrange_rl = bbrange_rl;
    bbroots_rl = bbroots_rl;
  })

-- The limiter that a request's protocol selects, and the write back to it.
unfoldable pub limiter_of : RpcRateLimiter → Protocol → Limiter ℕ
limiter_of r Protocol.ping = r.ping_rl
limiter_of r Protocol.status = r.status_rl
limiter_of r Protocol.meta_data = r.metadata_rl
limiter_of r Protocol.goodbye = r.goodbye_rl
limiter_of r Protocol.blocks_by_range = r.bbrange_rl
limiter_of r Protocol.blocks_by_root = r.bbroots_rl

unfoldable pub write_limiter : RpcRateLimiter → Protocol → Limiter ℕ → RpcRateLimiter
write_limiter r Protocol.ping l = record r { ping_rl = l }
write_limiter r Protocol.status l = record r { status_rl = l }
write_limiter r Protocol.meta_data l = record r { metadata_rl = l }
write_limiter r Protocol.goodbye l = record r { goodbye_rl = l }
write_limiter r Protocol.blocks_by_range l = record r { bbrange_rl = l }
write_limiter r Protocol.blocks_by_root l = record r { bbroots_rl = l }

-- `RPCRateLimiter::allows`
unfoldable pub allows_request : RpcRateLimiter → ℕ → ℕ → InboundRequest → RpcRateLimiter × Verdict
unfolding limiter_of write_limiter expected_responses protocol
allows_request r time_since_start peer_id request =
    let tokens = max (expected_responses request) 1 in
    let p = protocol request in
    let (l, verdict) = allows ℕ_discrete (limiter_of r p) time_since_start peer_id tokens in
    (write_limiter r p l, verdict)

-- `RPCRateLimiter::prune`
unfoldable pub prune_all : RpcRateLimiter → ℕ → RpcRateLimiter
prune_all r time_since_start = record {
  goodbye_rl = prune ℕ_discrete r.goodbye_rl time_since_start;
  ping_rl = prune ℕ_discrete r.ping_rl time_since_start;
  metadata_rl = prune ℕ_discrete r.metadata_rl time_since_start;
  status_rl = prune ℕ_discrete r.status_rl time_since_start;
  bbrange_rl = prune ℕ_discrete r.bbrange_rl time_since_start;
  bbroots_rl = prune ℕ_discrete r.bbroots_rl time_since_start;
}

-- `Future::poll`: one prune for each tick of the interval that is ready, at the time of the prune.
unfoldable pub poll : RpcRateLimiter → List ℕ → RpcRateLimiter
poll r [] = r
poll r (now ∷ ticks) = poll (prune_all r now) ticks

-- The configuration of `RPC::new` in src/rpc/mod.rs
unfoldable pub default_config : Builder
unfolding n_every one_every
default_config =
    n_every
      (n_every
        (one_every
          (n_every
            (n_every (n_every builder Protocol.meta_data 2 (5 * 1000000000)) Protocol.ping 2
              (10 * 1000000000))
            Protocol.status 5 (15 * 1000000000))
          Protocol.goodbye (10 * 1000000000))
        Protocol.blocks_by_range 1024 (10 * 1000000000))
      Protocol.blocks_by_root 128 (10 * 1000000000)
