-- ===== src/Rpc/Examples.antt =====
-- Runs of the request/response code on small inputs: the rate limiter of four tokens every 2000
-- nanoseconds, its quotas and its histories.
use consentry.Common.Assoc
use consentry.Common.{ℕ, ◌+◌, ◌*◌, ◌-◌, ◌<◌, ◌≤◌, ◌≡◌, refl, ◌↔◌, List, [], ◌∷◌, arith, ℕ_discrete}
use consentry.Rpc.Methods.{RpcCodedResponse, error, rate_limited}
use consentry.Rpc.Protocol.{InboundRequest}
use consentry.Rpc.RateLimiter.{
  default_config, Quota, Limiter, ok, accept, refuse, too_soon, RpcRateLimiter, from_quota, allows,
  prune, build, tat_of,
}
use consentry.Rpc.RateLimiter.Decisions.{
  Fits, allows-accept_iff, allows-too_soon_exact, allows-overflow,
}
use consentry.Rpc.RateLimiter.Conformance.{Call, request, tick, granted, run, granted_bounded}
use consentry.Rpc.RateLimiter.Pruning.{verdicts, without_ticks, prune_unobservable}
use consentry.Rpc.RateLimiter.Isolation.{verdicts_for, only, allows_isolated}

abbrev four_every_2000 : Quota
four_every_2000 = record { replenish_all_every = 2000; max_tokens = 4 }

abbrev empty_limiter : Limiter ℕ
empty_limiter = record { tau = 2000; t = 500; tat_per_key = [] }

made : from_quota four_every_2000 ≡ ok empty_limiter
unfolding from_quota
made = refl

-- Test `it_works_a` of the source, in milliseconds.
abbrev it_works_a : List (Call ℕ)
it_works_a =
    request 0 10 4
    ∷ tick 100
    ∷ request 100 10 1
    ∷ request 500 10 1
    ∷ request 1000 10 1
    ∷ request 1400 10 1
    ∷ request 2000 10 2
    ∷ []

it_works_a-verdicts :
    verdicts ℕ_discrete empty_limiter it_works_a
    ≡ accept ∷ refuse (too_soon 400) ∷ accept ∷ accept ∷ refuse (too_soon 100) ∷ accept ∷ []
unfolding verdicts allows prune Assoc.get Assoc.insert Assoc.retain ℕ_discrete
it_works_a-verdicts = refl

abbrev more : List (Call ℕ)
more = request 2000 10 4 ∷ request 2500 7 1 ∷ request 3000 10 1 ∷ []

granted_bounded_example :
    500 * granted ℕ_discrete 10 (run ℕ_discrete empty_limiter it_works_a) more
    ≤ 2000 + (3000 - 2000)
granted_bounded_example =
    granted_bounded ℕ_discrete four_every_2000 empty_limiter 10 0 2000 3000 it_works_a more made
      (omega arith) (omega arith) (omega arith)

prune_unobservable_example :
    verdicts ℕ_discrete empty_limiter it_works_a
    ≡ verdicts ℕ_discrete empty_limiter (without_ticks it_works_a)
prune_unobservable_example =
    prune_unobservable ℕ_discrete four_every_2000 empty_limiter 0 2000 it_works_a made (omega arith)
      (omega arith)

allows_isolated_example :
    verdicts_for ℕ_discrete 10 empty_limiter more
    ≡ verdicts ℕ_discrete empty_limiter (only ℕ_discrete 10 more)
allows_isolated_example = allows_isolated ℕ_discrete 10 empty_limiter more tt

abbrev used_limiter : Limiter ℕ
used_limiter = record { tau = 2000; t = 500; tat_per_key = (10, 2000) ∷ [] }

used_limiter-Fits : Fits ℕ_discrete used_limiter 100 10 1
unfolding Assoc.get ℕ_discrete
used_limiter-Fits = record { cost = omega arith; later = omega arith; stored = omega arith }

allows-accept_iff_example :
    ((allows ℕ_discrete used_limiter 100 10 1).1 ≡ accept)
    ↔ ((500 * 1 ≤ 2000) × (tat_of ℕ_discrete used_limiter 10 100 + 500 * 1 ≤ 100 + 2000))
allows-accept_iff_example = allows-accept_iff ℕ_discrete used_limiter 100 10 1 used_limiter-Fits

refused : allows ℕ_discrete used_limiter 100 10 1 ≡ (used_limiter, refuse (too_soon 400))
unfolding allows Assoc.get Assoc.insert ℕ_discrete
refused = refl

allows-too_soon_exact_example :
    (0 < 400)
    × ((e : ℕ)
        → e < 400
        → (allows ℕ_discrete used_limiter (100 + e) 10 1).1 ≡ refuse (too_soon (400 - e)))
    × ((allows ℕ_discrete used_limiter (100 + 400) 10 1).1 ≡ accept)
allows-too_soon_exact_example =
    allows-too_soon_exact ℕ_discrete used_limiter used_limiter 100 400 10 1 (omega arith) refused

-- The limiter for block ranges that the node configures: 1024 blocks every 10 seconds.
abbrev range_limiter : Limiter ℕ
range_limiter = record { tau = 10000000000; t = 9765625; tat_per_key = [] }

-- It accepts a request for 1888946593148 blocks.
allows-overflow_example : (allows ℕ_discrete range_limiter 0 10 1888946593148).1 ≡ accept
unfolding Assoc.get
allows-overflow_example =
    allows-overflow ℕ_discrete range_limiter 0 10 1888946593148 refl (omega arith) (omega arith)
      (omega arith)

abbrev seconds : ℕ → ℕ
seconds n = n * 1000000000

abbrev limiter : ℕ → ℕ → Limiter ℕ
limiter tau t = record { tau = tau; t = t; tat_per_key = [] }

abbrev rpc_limiter : RpcRateLimiter
rpc_limiter = record {
  goodbye_rl = limiter (seconds 10) (seconds 10);
  ping_rl = limiter (seconds 10) (seconds 5);
  metadata_rl = limiter (seconds 5) 2500000000;
  status_rl = limiter (seconds 15) (seconds 3);
  bbrange_rl = limiter (seconds 10) 9765625;
  bbroots_rl = limiter (seconds 10) 78125000;
}

-- The configuration of the node is valid, as its `expect` relies on.
default_config_builds : build default_config ≡ ok rpc_limiter
unfolding build from_quota default_config
default_config_builds = refl

abbrev range_request : InboundRequest
range_request = InboundRequest.blocks_by_range (record { start_slot = 5; count = 64; step = 1 })

abbrev limited : RpcCodedResponse ℕ ℕ
limited = error rate_limited (87 ∷ [])
