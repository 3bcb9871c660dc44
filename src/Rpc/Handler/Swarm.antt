-- ===== src/Rpc/Handler/Swarm.antt =====
-- The handler of src/rpc/handler.rs in its swarm: the substreams that the swarm negotiates for it, the
-- events that it has reported, and the calls that it gets in any order.
use consentry.Common.{
  ℕ, zero, suc, ◌+◌, ◌<◌, ◌≡◌, ltb, u64_mod, u8, Bool, ◌&&◌, List, [], ◌∷◌, ◌++◌, if◌then◌else◌,
}
use consentry.Rpc.Protocol.{InboundRequest}
use consentry.Rpc.Messages.{RpcSend}
use consentry.Rpc.Handler.{RpcHandler, HandlerEvent, UpgradeErr, is_io_error, io_error_retries, new}
use consentry.Rpc.Handler.Inject.{
  inject_event, inject_fully_negotiated_inbound, inject_fully_negotiated_outbound,
  inject_dial_upgrade_error,
}
use consentry.Rpc.Handler.Poll.{Answers, PollResult, custom, outbound_substream_request, poll}

-- `asked` are the requests that the application sent. `retried` counts the upgrade errors on which
-- `inject_dial_upgrade_error` returns early, in any state of the handler.
pub record System (ReqId Block MetaData : Type 0) : Type 0 where
  pub handler : RpcHandler ReqId Block MetaData
  pub negotiating : List (ReqId × InboundRequest)
  pub reported : List (HandlerEvent ReqId Block MetaData)
  pub asked : List (ReqId × InboundRequest)
  pub retried : ℕ

module _ {ReqId Block MetaData : Type 0} where
  abbrev pub start : System ReqId Block MetaData
  start = record { handler = new; negotiating = []; reported = []; asked = []; retried = 0 }

  abbrev pub asks : RpcSend ReqId Block MetaData → List (ReqId × InboundRequest)
  asks (RpcSend.request id req) = (id, req) ∷ []
  asks _ = []

  abbrev pub opened : PollResult ReqId Block MetaData → List (ReqId × InboundRequest)
  opened (outbound_substream_request id req) = (id, req) ∷ []
  opened _ = []

  abbrev pub events_of : PollResult ReqId Block MetaData → List (HandlerEvent ReqId Block MetaData)
  events_of (custom e) = e ∷ []
  events_of _ = []

  -- Whether `inject_dial_upgrade_error` returns early, behind its call of `send_request`: that dials
  -- again where the handler is active, and reports the request as disconnected where it is not.
  abbrev pub is_retried : RpcHandler ReqId Block MetaData → UpgradeErr → Bool
  is_retried h err = is_io_error err && ltb (u8 (h.outbound_io_error_retries + 1)) io_error_retries

  -- A number of polls with the same answers: the handler after them and their results in order.
  unfoldable pub polls :
      ℕ
      → Answers Block MetaData
      → RpcHandler ReqId Block MetaData
      → RpcHandler ReqId Block MetaData × List (PollResult ReqId Block MetaData)
  polls zero a h = (h, [])
  polls (suc n) a h =
      let (h', result) = poll a h in let (h'', results) = polls n a h' in (h'', result ∷ results)

  -- A call of the handler. The swarm answers each substream that it was asked for once.
  pub data Step (s t : System ReqId Block MetaData) : Type 0 where
    told :
        (e : RpcSend ReqId Block MetaData)
        → t ≡ record s { handler = inject_event s.handler e; asked = asks e ++ s.asked }
        → Step s t
    inbound :
        (req : InboundRequest)
        → t ≡ record s { handler = inject_fully_negotiated_inbound s.handler req }
        → Step s t
    negotiated :
        (before after : List (ReqId × InboundRequest)) (id : ReqId) (req : InboundRequest)
        → s.negotiating ≡ before ++ (id, req) ∷ after
        → s.handler.current_outbound_substream_id + 1 < u64_mod
        → t ≡ record s {
          handler = inject_fully_negotiated_outbound s.handler id req;
          negotiating = before ++ after;
        }
        → Step s t
    upgrade_failed :
        (before after : List (ReqId × InboundRequest)) (id : ReqId) (req : InboundRequest)
        (err : UpgradeErr)
        → s.negotiating ≡ before ++ (id, req) ∷ after
        → t ≡ record s {
          handler = inject_dial_upgrade_error s.handler id req err;
          negotiating = before ++ after;
          retried = if is_retried s.handler err then suc s.retried else s.retried;
        }
        → Step s t
    polled :
        (a : Answers Block MetaData)
        → t ≡ record s {
          handler = (poll a s.handler).0;
          negotiating = opened (poll a s.handler).1 ++ s.negotiating;
          reported = events_of (poll a s.handler).1 ++ s.reported;
        }
        → Step s t

  -- What sequences of calls reach from a new handler.
  pub data Reaches : System ReqId Block MetaData → Type 0 where
    begun : Reaches start
    then_step : {s t : System ReqId Block MetaData} → Reaches s → Step s t → Reaches t
