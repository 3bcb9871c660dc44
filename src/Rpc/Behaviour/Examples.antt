-- ===== src/Rpc/Behaviour/Examples.antt =====
-- The behaviour with four tokens every 2000 nanoseconds for each protocol.
use consentry.Common.{ℕ, ◌+◌, ◌*◌, ◌-◌, ◌≤◌, ◌≡◌, refl, List, [], ◌∷◌, ◌++◌, ℕ_discrete, arith}
use consentry.Common.Text.{Text, codes}
use consentry.Common.Decimal.{format}
use consentry.Rpc.Messages.{RpcReceived}
use consentry.Rpc.Protocol.{Protocol, InboundRequest, protocol, expected_responses}
use consentry.Rpc.Handler.{HandlerEvent, received}
use consentry.Rpc.RateLimiter.{Quota, from_quota, Limiter, limiter_of}
use consentry.Rpc.RateLimiter.Conformance.{granted}
use consentry.Rpc.RateLimiter.Conformance
use consentry.Rpc.Behaviour.{Rpc}
use consentry.Rpc.Behaviour.Order.{Call, inject, polled, request, run, all_due, run-fifo}
use consentry.Rpc.Behaviour.Quota.{forwarded, calls_of, forwarded-granted, forwarded_bounded}

abbrev four_every_2000 : Quota
four_every_2000 = record { replenish_all_every = 2000; max_tokens = 4 }

abbrev empty_limiter : Limiter ℕ
empty_limiter = record { tau = 2000; t = 500; tat_per_key = [] }

abbrev fresh : Rpc ℕ ℕ ℕ
fresh = record {
  limiter = record {
    goodbye_rl = empty_limiter;
    ping_rl = empty_limiter;
    metadata_rl = empty_limiter;
    status_rl = empty_limiter;
    bbrange_rl = empty_limiter;
    bbroots_rl = empty_limiter;
  };
  events = [];
}

abbrev nanoseconds : ℕ → Text
nanoseconds n = format n ++ codes "ns"

abbrev ping_event : ℕ → HandlerEvent ℕ ℕ ℕ
ping_event id = received (RpcReceived.request id (InboundRequest.ping (record { «data» = 1 })))

abbrev ping_at : ℕ → ℕ → Call ℕ ℕ ℕ
ping_at now id = inject now 10 0 (ping_event id)

abbrev five_pings : List (Call ℕ ℕ ℕ)
five_pings = ping_at 0 1 ∷ ping_at 0 2 ∷ ping_at 0 3 ∷ ping_at 0 4 ∷ ping_at 0 5 ∷ []

abbrev later : List (Call ℕ ℕ ℕ)
later = polled [] ∷ ping_at 600 6 ∷ request 10 7 InboundRequest.meta_data ∷ polled (700 ∷ []) ∷ []

run-fifo_example :
    (run nanoseconds fresh five_pings).1 ++ (run nanoseconds fresh five_pings).0.events
    ≡ [] ++ all_due nanoseconds fresh.limiter five_pings
run-fifo_example = run-fifo nanoseconds fresh five_pings

forwarded_bounded_example :
    (n : ℕ) × (forwarded Protocol.ping 10 (
        (run nanoseconds (run nanoseconds fresh five_pings).0 later).1
        ++ (run nanoseconds (run nanoseconds fresh five_pings).0 later).0.events)
      ≡ forwarded Protocol.ping 10 (run nanoseconds fresh five_pings).0.events + n)
    × (500 * n ≤ 2000 + (700 - 0))
unfolding limiter_of calls_of protocol expected_responses from_quota
forwarded_bounded_example =
    forwarded_bounded nanoseconds Protocol.ping four_every_2000 fresh 10 0 0 700 five_pings later
      refl (omega arith) (omega arith) (omega arith)

abbrev busy : Rpc ℕ ℕ ℕ
busy = (run nanoseconds fresh five_pings).0

forwarded-granted_example :
    (forwarded Protocol.ping 10
        ((run nanoseconds busy later).1 ++ (run nanoseconds busy later).0.events)
      ≡ forwarded Protocol.ping 10 busy.events
        + granted ℕ_discrete 10
            (limiter_of busy.limiter Protocol.ping)
            (calls_of Protocol.ping later))
    × (limiter_of (run nanoseconds busy later).0.limiter Protocol.ping
        ≡ Conformance.run ℕ_discrete
            (limiter_of busy.limiter Protocol.ping)
            (calls_of Protocol.ping later))
forwarded-granted_example = forwarded-granted nanoseconds Protocol.ping 10 busy later
