-- ===== src/Rpc/Behaviour/Order.antt =====
-- What the behaviour queues and what the swarm polls.
use consentry.Common.{
  ℕ, ◌≡◌, refl, sym, ap, ◌∙◌, List, [], ◌∷◌, ◌++◌, Option, none, some, List-cases, inl, inr, arith,
}
use mathlib.Core.List.{append_assoc, append-nil}
use consentry.Common.Text.{Text}
use consentry.Rpc.Methods.{GoodbyeReason, RpcCodedResponse}
use consentry.Rpc.Messages.{RpcReceived, RpcSend}
use consentry.Rpc.Protocol.{InboundRequest}
use consentry.Rpc.Handler.{HandlerEvent, received, failed}
use consentry.Rpc.RateLimiter.{RpcRateLimiter, Verdict, accept, refuse, allows_request}
use consentry.Rpc.RateLimiter
use consentry.Rpc.Behaviour.{
  NotifyHandler, Action, notify_handler, generate_event, Rpc, send_response, send_request, shutdown,
  poll, refusal, answer, inject_event,
}

-- A call of the behaviour; the application's calls queue one action each.
pub data Call (ReqId Block MetaData : Type 0) : Type 0 where
  inject : ℕ → ℕ → ℕ → HandlerEvent ReqId Block MetaData → Call ReqId Block MetaData
  respond : ℕ → ℕ → ℕ → RpcCodedResponse Block MetaData → Call ReqId Block MetaData
  request : ℕ → ReqId → InboundRequest → Call ReqId Block MetaData
  close : ℕ → ReqId → GoodbyeReason → Call ReqId Block MetaData
  polled : List ℕ → Call ReqId Block MetaData

module _ {ReqId Block MetaData : Type 0} where
  -- The limiter after a call.
  abbrev pub limiter_after : RpcRateLimiter → Call ReqId Block MetaData → RpcRateLimiter
  limiter_after l (inject now peer_id conn_id (received (RpcReceived.request id req))) =
      (allows_request l now peer_id req).0
  limiter_after l (polled ticks) = RateLimiter.poll l ticks
  limiter_after l _ = l

module _ {ReqId Block MetaData : Type 0} (wait_text : ℕ → Text) where
  abbrev pub polled_action :
      Option (Action ReqId Block MetaData) → List (Action ReqId Block MetaData)
  polled_action none = []
  polled_action (some a) = a ∷ []

  -- A call, and the action that it returns.
  unfoldable pub step :
      Rpc ReqId Block MetaData
      → Call ReqId Block MetaData
      → Rpc ReqId Block MetaData × List (Action ReqId Block MetaData)
  step r (inject now peer_id conn_id event) =
      (inject_event wait_text r now peer_id conn_id event, [])
  step r (respond peer_id conn_id id event) = (send_response r peer_id conn_id id event, [])
  step r (request peer_id id req) = (send_request r peer_id id req, [])
  step r (close peer_id id reason) = (shutdown r peer_id id reason, [])
  step r (polled ticks) = let (r', a) = poll r ticks in (r', polled_action a)

  unfoldable pub run :
      Rpc ReqId Block MetaData
      → List (Call ReqId Block MetaData)
      → Rpc ReqId Block MetaData × List (Action ReqId Block MetaData)
  unfolding step
  run r [] = (r, [])
  run r (c ∷ cs) = let (r', out) = step r c in let (last, outs) = run r' cs in (last, out ++ outs)

  -- What a request that comes in is answered with, by the limiter's verdict alone.
  abbrev pub verdict_action : ℕ → ℕ → ℕ → InboundRequest → Verdict → Action ReqId Block MetaData
  verdict_action peer_id conn_id id req accept = generate_event (record {
    peer_id = peer_id;
    conn_id = conn_id;
    event = received (RpcReceived.request id req);
  })
  verdict_action peer_id conn_id id req (refuse e) =
      notify_handler peer_id (NotifyHandler.one conn_id) (RpcSend.response id (refusal wait_text e))

  abbrev event_action :
      RpcRateLimiter → ℕ → ℕ → ℕ → HandlerEvent ReqId Block MetaData → Action ReqId Block MetaData
  event_action l now peer_id conn_id (received (RpcReceived.request id req)) =
      verdict_action peer_id conn_id id req (allows_request l now peer_id req).1
  event_action l now peer_id conn_id event =
      generate_event (record { peer_id = peer_id; conn_id = conn_id; event = event })

  -- The specification: each call but a poll makes one action, which hangs on the limiter alone.
  abbrev pub due : RpcRateLimiter → Call ReqId Block MetaData → List (Action ReqId Block MetaData)
  due l (inject now peer_id conn_id event) = event_action l now peer_id conn_id event ∷ []
  due l (respond peer_id conn_id id event) =
      notify_handler peer_id (NotifyHandler.one conn_id) (RpcSend.response id event) ∷ []
  due l (request peer_id id req) =
      notify_handler peer_id NotifyHandler.any (RpcSend.request id req) ∷ []
  due l (close peer_id id reason) =
      notify_handler peer_id NotifyHandler.any (RpcSend.shutdown id reason) ∷ []
  due l (polled ticks) = []

  -- The specification of a sequence of calls; it is no code, and `run-fifo` is what ties it to the code.
  unfoldable pub all_due :
      RpcRateLimiter → List (Call ReqId Block MetaData) → List (Action ReqId Block MetaData)
  all_due l [] = []
  all_due l (c ∷ cs) = due l c ++ all_due (limiter_after l c) cs

  pub step-limiter :
      (r : Rpc ReqId Block MetaData) (c : Call ReqId Block MetaData)
      → (step r c).0.limiter ≡ limiter_after r.limiter c
  unfolding step inject_event send_response send_request shutdown poll
  step-limiter r c = ground arith

  answered :
      (r : Rpc ReqId Block MetaData) (peer_id conn_id id : ℕ) (req : InboundRequest)
      (d : RpcRateLimiter × Verdict)
      → (answer wait_text (record r { limiter = d.0 }) peer_id conn_id id req d.1).events
        ≡ r.events ++ verdict_action peer_id conn_id id req d.1 ∷ []
  unfolding send_response
  answered r peer_id conn_id id req (l, accept) = refl
  answered r peer_id conn_id id req (l, refuse e) = refl

  step-due :
      (r : Rpc ReqId Block MetaData) (c : Call ReqId Block MetaData)
      → (step r c).1 ++ (step r c).0.events ≡ r.events ++ due r.limiter c
  unfolding step inject_event send_response send_request shutdown poll
  step-due r (inject now peer_id conn_id (received (RpcReceived.request id req))) =
      answered r peer_id conn_id id req (allows_request r.limiter now peer_id req)
  step-due r (inject now peer_id conn_id (received (RpcReceived.response id resp))) = refl
  step-due r (inject now peer_id conn_id (received (RpcReceived.end_of_stream id t))) = refl
  step-due r (inject now peer_id conn_id (failed e)) = refl
  step-due r (respond peer_id conn_id id event) = refl
  step-due r (request peer_id id req) = refl
  step-due r (close peer_id id reason) = refl
  step-due r (polled ticks) = elim (List-cases r.events) [
    | inl e ↦ ground arith
    | inr (a, rest, e) ↦ ground (arith, append-nil r.events)
  ]

  -- First in, first out: whatever is called, what has been polled and what is still queued are, in
  -- this order, what was queued and then one action for each call but a poll: for a request that
  -- comes in the forwarded event or the refusal that the limiter's verdict says, for the others what they ask.
  pub run-fifo :
      (r : Rpc ReqId Block MetaData) (cs : List (Call ReqId Block MetaData))
      → (run r cs).1 ++ (run r cs).0.events ≡ r.events ++ all_due r.limiter cs
  unfolding run all_due
  run-fifo r [] = sym (append-nil r.events)
  run-fifo r (c ∷ cs) =
      let (r', out) = step r c in
      append_assoc out (run r' cs).1 (run r' cs).0.events
      ∙ (ap (λ x. out ++ x) (run-fifo r' cs)
          ∙ (sym (append_assoc out r'.events (all_due r'.limiter cs))
              ∙ (ap (λ x. x ++ all_due r'.limiter cs) (step-due r c)
                  ∙ (append_assoc r.events (due r.limiter c) (all_due r'.limiter cs)
                      ∙ ap (λ l. r.events ++ (due r.limiter c ++ all_due l cs))
                          (step-limiter r c)))))
