-- ===== src/Rpc/Behaviour.antt =====
-- src/rpc/mod.rs: the behaviour, which checks the requests that come in and queues what the swarm
-- polls. The text of a waiting time is a parameter; the waker is left out.
mod Order
mod Quota
mod Examples
use consentry.Common.{ℕ, Bool, List, [], ◌∷◌, ◌++◌, Option, none, some}
use consentry.Common.Text.{Text, codes}
use consentry.Rpc.Methods.{GoodbyeReason, RpcCodedResponse, error, RpcResponseErrorCode}
use consentry.Rpc.Messages.{RpcReceived, RpcSend}
use consentry.Rpc.Messages
use consentry.Rpc.Protocol.{InboundRequest}
use consentry.Rpc.Handler.{HandlerEvent, received, failed}
use consentry.Rpc.RateLimiter.{
  RpcRateLimiter, Verdict, accept, refuse, RateLimitedErr, too_large, too_soon, ConfigErr,
  allows_request, default_config, build,
}
use consentry.Rpc.RateLimiter

-- `NotifyHandler`
pub data NotifyHandler : Type 0 where
  any : NotifyHandler
  one : ℕ → NotifyHandler

-- `RPCMessage`
pub record RpcMessage (ReqId Block MetaData : Type 0) : Type 0 where
  pub peer_id : ℕ
  pub conn_id : ℕ
  pub event : HandlerEvent ReqId Block MetaData

-- `NetworkBehaviourAction`, as far as the behaviour makes one
pub data Action (ReqId Block MetaData : Type 0) : Type 0 where
  notify_handler : ℕ → NotifyHandler → RpcSend ReqId Block MetaData → Action ReqId Block MetaData
  generate_event : RpcMessage ReqId Block MetaData → Action ReqId Block MetaData

-- `RPC`
pub record Rpc (ReqId Block MetaData : Type 0) : Type 0 where
  pub limiter : RpcRateLimiter
  pub events : List (Action ReqId Block MetaData)

abbrev pub refusal :
    {Block MetaData : Type 0} → (ℕ → Text) → RateLimitedErr → RpcCodedResponse Block MetaData
refusal wait_text too_large =
    error RpcResponseErrorCode.rate_limited (codes "Rate limited. Request too large")
refusal wait_text (too_soon wait_time) =
    error RpcResponseErrorCode.rate_limited (codes "Wait " ++ wait_text wait_time)

module _ {ReqId Block MetaData : Type 0} where
  abbrev pub push :
      Rpc ReqId Block MetaData → Action ReqId Block MetaData → Rpc ReqId Block MetaData
  push r a = record r { events = r.events ++ a ∷ [] }

  -- `RPC::send_response`
  unfoldable pub send_response :
      Rpc ReqId Block MetaData
      → ℕ
      → ℕ
      → ℕ
      → RpcCodedResponse Block MetaData
      → Rpc ReqId Block MetaData
  send_response r peer_id conn_id id event =
      push r (notify_handler peer_id (one conn_id) (RpcSend.response id event))

  -- `RPC::send_request`
  unfoldable pub send_request :
      Rpc ReqId Block MetaData → ℕ → ReqId → InboundRequest → Rpc ReqId Block MetaData
  send_request r peer_id request_id event =
      push r (notify_handler peer_id any (RpcSend.request request_id event))

  -- `RPC::shutdown`
  unfoldable pub shutdown :
      Rpc ReqId Block MetaData → ℕ → ReqId → GoodbyeReason → Rpc ReqId Block MetaData
  shutdown r peer_id id reason = push r (notify_handler peer_id any (RpcSend.shutdown id reason))

  abbrev generate :
      Rpc ReqId Block MetaData
      → ℕ
      → ℕ
      → HandlerEvent ReqId Block MetaData
      → Rpc ReqId Block MetaData
  generate r peer_id conn_id event =
      push r (generate_event (record { peer_id = peer_id; conn_id = conn_id; event = event }))

  -- `RPC::poll`: `ticks` are the times at which the limiter's interval was found ready.
  unfoldable pub poll :
      Rpc ReqId Block MetaData
      → List ℕ
      → Rpc ReqId Block MetaData × Option (Action ReqId Block MetaData)
  poll r ticks = elim r.events [
    | [] ↦ (record r { limiter = RateLimiter.poll r.limiter ticks }, none)
    | a ∷ rest ↦ (record { limiter = RateLimiter.poll r.limiter ticks; events = rest }, some a)
  ]

  module _ (wait_text : ℕ → Text) where
    abbrev pub answer :
        Rpc ReqId Block MetaData → ℕ → ℕ → ℕ → InboundRequest → Verdict → Rpc ReqId Block MetaData
    answer r peer_id conn_id id req accept =
        generate r peer_id conn_id (received (RpcReceived.request id req))
    answer r peer_id conn_id id req (refuse e) =
        send_response r peer_id conn_id id (refusal wait_text e)

    -- `RPC::inject_event`, at the time since the limiter's start
    unfoldable pub inject_event :
        Rpc ReqId Block MetaData
        → ℕ
        → ℕ
        → ℕ
        → HandlerEvent ReqId Block MetaData
        → Rpc ReqId Block MetaData
    inject_event r now peer_id conn_id (received (RpcReceived.request id req)) =
        let (limiter, verdict) = allows_request r.limiter now peer_id req in
        answer (record r { limiter = limiter }) peer_id conn_id id req verdict
    inject_event r now peer_id conn_id (received (RpcReceived.response id resp)) =
        generate r peer_id conn_id (received (RpcReceived.response id resp))
    inject_event r now peer_id conn_id (received (RpcReceived.end_of_stream id t)) =
        generate r peer_id conn_id (received (RpcReceived.end_of_stream id t))
    inject_event r now peer_id conn_id (failed e) = generate r peer_id conn_id (failed e)
