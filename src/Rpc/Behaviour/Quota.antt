-- ===== src/Rpc/Behaviour/Quota.antt =====
-- The behaviour's requests as the calls of a protocol's limiter, and the rate that follows for them.
use consentry.Common.{
  ℕ, ◌+◌, ◌*◌, ◌-◌, ◌≤◌, ◌<◌, ◌≡◌, refl, sym, ap, ◌∙◌, max, u64_mod, ite, List, [], ◌∷◌, ◌++◌,
  ℕ_discrete, arith,
}
use consentry.Common.Text.{Text}
use consentry.Rpc.Messages.{RpcReceived}
use consentry.Rpc.Protocol.{Protocol, InboundRequest, protocol, expected_responses}
use consentry.Rpc.Handler.{received, failed}
use consentry.Rpc.RateLimiter.{
  Quota, from_quota, ok, Limiter, RpcRateLimiter, Verdict, accept, refuse, allows_request,
  limiter_of, prune, prune_all,
}
use consentry.Rpc.RateLimiter
use consentry.Rpc.RateLimiter.Isolation.{allows_request_lem}
use consentry.Rpc.RateLimiter.Conformance.{granted, granted_bounded, Timed, granted_by}
use consentry.Rpc.RateLimiter.Conformance
use consentry.Rpc.Behaviour.{Action, notify_handler, generate_event, Rpc}
use consentry.Rpc.Behaviour.Order.{
  Call, inject, respond, request, close, polled, verdict_action, limiter_after, all_due, step,
  step-limiter, run, run-fifo,
}

Protocol-discrete : Discrete Protocol
Protocol-discrete = hlevel

abbrev pub tokens_of : InboundRequest → ℕ
tokens_of req = max (expected_responses req) 1

abbrev ticks_of : List ℕ → List (Conformance.Call ℕ) → List (Conformance.Call ℕ)
ticks_of [] rest = rest
ticks_of (now ∷ ticks) rest = Conformance.tick now ∷ ticks_of ticks rest

module _ {ReqId Block MetaData : Type 0} (p : Protocol) where
  -- What the calls are for the limiter of the protocol.
  unfoldable pub calls_of : List (Call ReqId Block MetaData) → List (Conformance.Call ℕ)
  unfolding Protocol-discrete
  calls_of [] = []
  calls_of (inject now peer_id conn_id (received (RpcReceived.request id req)) ∷ cs) =
      let rest = calls_of cs in
      ite (Protocol-discrete (protocol req) p)
        (Conformance.request now peer_id (tokens_of req) ∷ rest) rest
  calls_of (inject now peer_id conn_id (received (RpcReceived.response id resp)) ∷ cs) = calls_of cs
  calls_of (inject now peer_id conn_id (received (RpcReceived.end_of_stream id t)) ∷ cs) =
      calls_of cs
  calls_of (inject now peer_id conn_id (failed e) ∷ cs) = calls_of cs
  calls_of (respond peer_id conn_id id event ∷ cs) = calls_of cs
  calls_of (request peer_id id req ∷ cs) = calls_of cs
  calls_of (close peer_id id reason ∷ cs) = calls_of cs
  calls_of (polled ticks ∷ cs) = ticks_of ticks (calls_of cs)

  -- The tokens of the protocol's requests by a peer that an action hands to the application.
  unfoldable pub forwarded_by : ℕ → Action ReqId Block MetaData → ℕ
  unfolding Protocol-discrete
  forwarded_by peer (generate_event m) = elim m.event [
    | received (RpcReceived.request id req) ↦
        ite (Protocol-discrete (protocol req) p) (ite (ℕ_discrete m.peer_id peer) (tokens_of req) 0)
          0
    | received (RpcReceived.response id resp) ↦ 0
    | received (RpcReceived.end_of_stream id t) ↦ 0
    | failed e ↦ 0
  ]
  forwarded_by peer (notify_handler _ _ _) = 0

  unfoldable pub forwarded : ℕ → List (Action ReqId Block MetaData) → ℕ
  forwarded peer [] = 0
  forwarded peer (a ∷ actions) = forwarded_by peer a + forwarded peer actions

  forwarded-append :
      (peer : ℕ) (a b : List (Action ReqId Block MetaData))
      → forwarded peer (a ++ b) ≡ forwarded peer a + forwarded peer b
  unfolding forwarded
  forwarded-append peer [] b = omega arith
  forwarded-append peer (x ∷ a) b = omega (arith, forwarded-append peer a b)

limiter_of-prune_all :
    (l : RpcRateLimiter) (p : Protocol) (now : ℕ)
    → limiter_of (prune_all l now) p ≡ prune ℕ_discrete (limiter_of l p) now
unfolding limiter_of prune_all
limiter_of-prune_all l Protocol.status now = refl
limiter_of-prune_all l Protocol.goodbye now = refl
limiter_of-prune_all l Protocol.blocks_by_range now = refl
limiter_of-prune_all l Protocol.blocks_by_root now = refl
limiter_of-prune_all l Protocol.ping now = refl
limiter_of-prune_all l Protocol.meta_data now = refl

granted-ticks :
    (l : RpcRateLimiter) (p : Protocol) (key : ℕ) (ticks : List ℕ) (cs : List (Conformance.Call ℕ))
    → granted ℕ_discrete key (limiter_of l p) (ticks_of ticks cs)
      ≡ granted ℕ_discrete key (limiter_of (RateLimiter.poll l ticks) p) cs
unfolding granted RateLimiter.poll
granted-ticks l p key [] cs = refl
granted-ticks l p key (now ∷ ticks) cs =
    ap (λ m. granted ℕ_discrete key m (ticks_of ticks cs)) (sym (limiter_of-prune_all l p now))
    ∙ granted-ticks (prune_all l now) p key ticks cs

run-ticks :
    (l : RpcRateLimiter) (p : Protocol) (ticks : List ℕ) (cs : List (Conformance.Call ℕ))
    → Conformance.run ℕ_discrete (limiter_of l p) (ticks_of ticks cs)
      ≡ Conformance.run ℕ_discrete (limiter_of (RateLimiter.poll l ticks) p) cs
unfolding Conformance.run RateLimiter.poll
run-ticks l p [] cs = refl
run-ticks l p (now ∷ ticks) cs =
    ap (λ m. Conformance.run ℕ_discrete m (ticks_of ticks cs)) (sym (limiter_of-prune_all l p now))
    ∙ run-ticks (prune_all l now) p ticks cs

-- What a verdict hands on is what it grants.
verdict-forwarded :
    (ReqId Block MetaData : Type 0) (wait_text : ℕ → Text) (p : Protocol)
    (key peer_id conn_id id : ℕ) (req : InboundRequest) (v : Verdict)
    → forwarded_by {ReqId = ReqId} {Block = Block} {MetaData = MetaData} p key
        (verdict_action wait_text peer_id conn_id id req v)
      ≡ ite
          (Protocol-discrete (protocol req) p)
          (ite (ℕ_discrete peer_id key) (granted_by v (tokens_of req)) 0)
          0
unfolding forwarded_by
verdict-forwarded R B M wait_text p key peer_id conn_id id req accept = refl
verdict-forwarded R B M wait_text p key peer_id conn_id id req (refuse e) = ground arith

module _ {ReqId Block MetaData : Type 0} (wait_text : ℕ → Text) (p : Protocol) where
  -- The actions that are due hand on what the protocol's limiter alone grants.
  due-granted :
      (key : ℕ) (l : RpcRateLimiter) (cs : List (Call ReqId Block MetaData))
      → forwarded p key (all_due wait_text l cs)
        ≡ granted ℕ_discrete key (limiter_of l p) (calls_of p cs)
  unfolding all_due forwarded forwarded_by calls_of granted
  due-granted key l [] = refl
  due-granted key l (inject now peer_id conn_id (received (RpcReceived.request id req)) ∷ cs) =
      let v =
        verdict-forwarded ReqId Block MetaData wait_text p key peer_id conn_id id req
          (allows_request l now peer_id req).1 in
      let ih = due-granted key (allows_request l now peer_id req).0 cs in
      let (same_verdict, own, others) = allows_request_lem l now peer_id req p in
      elim (Protocol-discrete (protocol req) p) [
        | yes e ↦ grind arith
        | no far ↦ let kept = others (λ q. far (sym q)) in grind arith
      ]
  due-granted key l (inject now peer_id conn_id (received (RpcReceived.response id resp)) ∷ cs) =
      omega (arith, due-granted key l cs)
  due-granted key l (inject now peer_id conn_id (received (RpcReceived.end_of_stream id t)) ∷ cs) =
      omega (arith, due-granted key l cs)
  due-granted key l (inject now peer_id conn_id (failed e) ∷ cs) =
      omega (arith, due-granted key l cs)
  due-granted key l (respond peer_id conn_id id event ∷ cs) = omega (arith, due-granted key l cs)
  due-granted key l (request peer_id id req ∷ cs) = omega (arith, due-granted key l cs)
  due-granted key l (close peer_id id reason ∷ cs) = omega (arith, due-granted key l cs)
  due-granted key l (polled ticks ∷ cs) =
      due-granted key (RateLimiter.poll l ticks) cs
      ∙ sym (granted-ticks l p key ticks (calls_of p cs))

  after-calls :
      (l : RpcRateLimiter) (c : Call ReqId Block MetaData) (cs : List (Call ReqId Block MetaData))
      → Conformance.run ℕ_discrete (limiter_of (limiter_after l c) p) (calls_of p cs)
        ≡ Conformance.run ℕ_discrete (limiter_of l p) (calls_of p (c ∷ cs))
  unfolding calls_of Conformance.run
  after-calls l (inject now peer_id conn_id (received (RpcReceived.request id req))) cs =
      let (same_verdict, own, others) = allows_request_lem l now peer_id req p in
      elim (Protocol-discrete (protocol req) p) [
        | yes e ↦ grind arith
        | no far ↦ let kept = others (λ q. far (sym q)) in grind arith
      ]
  after-calls l (inject now peer_id conn_id (received (RpcReceived.response id resp))) cs = refl
  after-calls l (inject now peer_id conn_id (received (RpcReceived.end_of_stream id t))) cs = refl
  after-calls l (inject now peer_id conn_id (failed e)) cs = refl
  after-calls l (respond peer_id conn_id id event) cs = refl
  after-calls l (request peer_id id req) cs = refl
  after-calls l (close peer_id id reason) cs = refl
  after-calls l (polled ticks) cs = sym (run-ticks l p ticks (calls_of p cs))

  run-calls :
      (r : Rpc ReqId Block MetaData) (cs : List (Call ReqId Block MetaData))
      → limiter_of (run wait_text r cs).0.limiter p
        ≡ Conformance.run ℕ_discrete (limiter_of r.limiter p) (calls_of p cs)
  unfolding run calls_of Conformance.run
  run-calls r [] = refl
  run-calls r (c ∷ cs) =
      run-calls (step wait_text r c).0 cs
      ∙ (ap (λ l. Conformance.run ℕ_discrete (limiter_of l p) (calls_of p cs))
            (step-limiter wait_text r c)
          ∙ after-calls r.limiter c cs)

  -- A refinement: run the behaviour through any calls, from any state. Of one protocol and one peer, the
  -- tokens of the requests that it then has handed to the application or has still queued for it are
  -- those that were queued at the start, and those that this protocol's limiter, run alone, grants the
  -- peer over the part of the calls that is meant for it: the protocol's requests and the ticks of the
  -- polls. And the behaviour ends with that limiter in the state that the limiter alone ends in.
  pub forwarded-granted :
      (key : ℕ) (r : Rpc ReqId Block MetaData) (cs : List (Call ReqId Block MetaData))
      → let (end, out) = run wait_text r cs in
        (forwarded p key (out ++ end.events)
          ≡ forwarded p key r.events
            + granted ℕ_discrete key (limiter_of r.limiter p) (calls_of p cs))
        × (limiter_of end.limiter p
            ≡ Conformance.run ℕ_discrete (limiter_of r.limiter p) (calls_of p cs))
  forwarded-granted key r cs = (
    ap (forwarded p key) (run-fifo wait_text r cs)
        ∙ forwarded-append p key r.events (all_due wait_text r.limiter cs)
        ∙ ap (λ n. forwarded p key r.events + n) (due-granted key r.limiter cs),
    run-calls r cs,
  )

  -- The rate limit of the behaviour: let one protocol's limiter be made from a quota. After any calls,
  -- and in any window of calls that follows, what is handed to the application of a peer's requests
  -- of that protocol, or is left in the queue, is what was queued when the window began and at most
  -- what the quota allows for the window's length. The protocol's calls come in order of time, no
  -- request's cost overflows, and two `tau` past the window's end still fit a `u64`.
  pub forwarded_bounded :
      (q : Quota) (r : Rpc ReqId Block MetaData) (key start first last : ℕ)
      (before window : List (Call ReqId Block MetaData))
      → from_quota q ≡ ok (limiter_of r.limiter p)
      → last + (limiter_of r.limiter p).tau + (limiter_of r.limiter p).tau < u64_mod
      → Timed (limiter_of r.limiter p).t start (calls_of p before) first
      → Timed (limiter_of r.limiter p).t first (calls_of p window) last
      → let middle = (run wait_text r before).0 in
        let (end, out) = run wait_text middle window in
        (n : ℕ) × (forwarded p key (out ++ end.events) ≡ forwarded p key middle.events + n)
        × ((limiter_of r.limiter p).t * n ≤ (limiter_of r.limiter p).tau + (last - first))
  forwarded_bounded q r key start first last before window made fits h w =
      let middle = (run wait_text r before).0 in
      let n = forwarded p key (all_due wait_text middle.limiter window) in
      let same : n
          ≡ granted ℕ_discrete key
              (Conformance.run ℕ_discrete (limiter_of r.limiter p) (calls_of p before))
              (calls_of p window) =
        due-granted key middle.limiter window
        ∙ ap (λ l. granted ℕ_discrete key l (calls_of p window)) (run-calls r before) in
      (
        n,
        ap (forwarded p key) (run-fifo wait_text middle window)
            ∙ forwarded-append p key middle.events (all_due wait_text middle.limiter window),
        rw same (
            granted_bounded ℕ_discrete q (limiter_of r.limiter p) key start first last
              (calls_of p before) (calls_of p window) made fits h w),
      )
