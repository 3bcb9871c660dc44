-- ===== src/Rpc/Handler/Closing.antt =====
-- The end of a connection that the handler of src/rpc/handler.rs shuts down.
use consentry.Common.{suc, ◌≡◌, refl, ap, true, List, [], ◌∷◌, ◌++◌, map, length}
use consentry.Rpc.Protocol.{RpcError}
use consentry.Rpc.Handler.{RpcHandler, HandlerEvent, HandlerState}
use consentry.Rpc.Handler.Poll.{Answers, custom, close}
use consentry.Rpc.Handler.Polled.{poll-reports, poll-deactivates}
use consentry.Rpc.Handler.Swarm.{polls}

module _ {ReqId Block MetaData : Type 0} (a : Answers Block MetaData)
    (fired : a.shutdown_timer ≡ true) where
  polls-drain :
      (events : List (HandlerEvent ReqId Block MetaData)) (h : RpcHandler ReqId Block MetaData)
      → h.events_out ≡ events
      → h.state ≡ HandlerState.shutting_down
      → polls (suc (length events)) a h ≡ (
        record h { events_out = []; state = HandlerState.deactivated },
        map custom events ++ close RpcError.disconnected ∷ [],
      )
  unfolding polls
  polls-drain [] h quiet shutting = rw (poll-deactivates a h quiet (rw (shutting, fired) refl)) (
      ap
        (λ q. (
          record h { events_out = q; state = HandlerState.deactivated },
          close RpcError.disconnected ∷ [],
        ))
        quiet)
  polls-drain (e ∷ es) h first shutting =
      let rest = polls-drain es (record h { events_out = es }) refl shutting in
      rw (poll-reports a h e es first) (ap (λ x. (x.0, custom e ∷ x.1)) rest)

  -- Where the shutdown timer has fired, a handler that shuts down with n events to report reports them
  -- in order in the next n polls, and in one more it closes with `Disconnected` and is deactivated.
  pub shutdown_ends :
      (h : RpcHandler ReqId Block MetaData)
      → h.state ≡ HandlerState.shutting_down
      → polls (suc (length h.events_out)) a h ≡ (
        record h { events_out = []; state = HandlerState.deactivated },
        map custom h.events_out ++ close RpcError.disconnected ∷ [],
      )
  shutdown_ends h shutting = polls-drain h.events_out h refl shutting
