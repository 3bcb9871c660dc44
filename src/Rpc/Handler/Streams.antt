-- ===== src/Rpc/Handler/Streams.antt =====
-- The inbound substreams in `poll` of src/rpc/handler.rs: each is driven as far as its futures are
-- ready. What the futures answer is given: the results of a send and of a close, one pair for each
-- future that is ready, in order; after them the next future is pending.
use consentry.Common.{
  ℕ, ◌-◌, leb, if◌then◌else◌, Bool, true, false, not, Option, none, some, List, [], ◌∷◌, ◌++◌,
}
use consentry.Rpc.Methods.{RpcCodedResponse, success, error, stream_termination, close_after}
use consentry.Rpc.Protocol.{RpcError, disconnected}
use consentry.Rpc.Handler.{HandlerEvent, HandlerErr, failed, InboundInfo, idle, busy, TimerCall}

-- What a send and a close come to: nothing, or an error.
pub record Sent : Type 0 where
  pub send : Option RpcError
  pub close : Option RpcError

pub data Sending : Type 0 where
  sent : Bool → Sending
  send_failed : RpcError → Sending

abbrev pub closed : Option RpcError → Sending
closed none = sent true
closed (some e) = send_failed e

abbrev pub send_message : Bool → Sent → Sending
send_message ends r = elim r.send [
  | some e ↦ send_failed e
  | none ↦ if ends then closed r.close else sent false
]

module _ {Block MetaData : Type 0} where
  abbrev pub is_error : RpcCodedResponse Block MetaData → Bool
  is_error (error _ _) = true
  is_error _ = false

  -- `send_message_to_inbound_substream`: whether it closed the substream.
  unfoldable pub send_message_to_inbound_substream :
      RpcCodedResponse Block MetaData → Bool → Sent → Sending
  send_message_to_inbound_substream (stream_termination _) last_chunk r = closed r.close
  send_message_to_inbound_substream (success x) last_chunk r = send_message last_chunk r
  send_message_to_inbound_substream (error code message) last_chunk r = send_message true r

  -- The last pending response, if it leaves the stream open.
  unfoldable pub ends_open : List (RpcCodedResponse Block MetaData) → Bool
  ends_open [] = false
  ends_open (m ∷ []) = not (close_after m)
  ends_open (m ∷ n ∷ ms) = ends_open (n ∷ ms)

  abbrev pub pop :
      List (RpcCodedResponse Block MetaData)
      → List (RpcCodedResponse Block MetaData)
      → InboundInfo Block MetaData
      → InboundInfo Block MetaData
  pop [] substream info = record info { state = idle substream }
  pop (message ∷ rest) substream info = record info {
    state = busy substream message (leb info.remaining_chunks 1);
    pending_items = rest;
  }

-- What the driving of one substream comes to. `removed` says that it is closed.
pub record Driven (ReqId Block MetaData : Type 0) : Type 0 where
  pub info : InboundInfo Block MetaData
  pub removed : Bool
  pub events : List (HandlerEvent ReqId Block MetaData)
  pub timers : List TimerCall

module _ {Block MetaData : Type 0} where
  -- An idle substream takes the next message, unless the handler is deactivated.
  abbrev pub next_message :
      Bool
      → List (RpcCodedResponse Block MetaData)
      → InboundInfo Block MetaData
      → InboundInfo Block MetaData
  next_message deactivated substream info =
      if deactivated
      then record info { state = idle substream }
      else pop info.pending_items substream info

  -- The substream of a busy state that has sent its message goes on.
  abbrev pub sent_chunk :
      Bool
      → List (RpcCodedResponse Block MetaData)
      → RpcCodedResponse Block MetaData
      → InboundInfo Block MetaData
      → InboundInfo Block MetaData
  sent_chunk deactivated substream message info =
      next_message deactivated (substream ++ message ∷ [])
        (record info { remaining_chunks = info.remaining_chunks - 1 })

  abbrev timer : TimerCall → InboundInfo Block MetaData → List TimerCall
  timer call info = if info.delay_key then call ∷ [] else []

module _ {ReqId Block MetaData : Type 0} (deactivated : Bool) (id : ℕ) where
  abbrev pub stopped : InboundInfo Block MetaData → Driven ReqId Block MetaData
  stopped info = record { info = info; removed = false; events = []; timers = [] }

  abbrev pub ended :
      InboundInfo Block MetaData
      → List (HandlerEvent ReqId Block MetaData)
      → Driven ReqId Block MetaData
  ended info events = record {
    info = info;
    removed = true;
    events = events;
    timers = timer (TimerCall.remove id) info;
  }

  -- The rounds of the inner loop from a busy state on.
  unfoldable pub pump : List Sent → InboundInfo Block MetaData → Driven ReqId Block MetaData
  pump [] info = stopped info
  pump (r ∷ rs) info = elim info.state [
    | idle _ ↦ stopped info
    | busy substream message last_chunk ↦
        elim (send_message_to_inbound_substream message last_chunk r) [
          | sent true ↦ ended info []
          | sent false ↦
              let rest = pump rs (sent_chunk deactivated substream message info) in
              record rest { timers = rest.timers ++ timer (TimerCall.reset id) info }
          | send_failed e ↦ ended info (failed (HandlerErr.inbound id info.protocol e) ∷ [])
        ]
  ]

  abbrev close_error :
      InboundInfo Block MetaData → Option RpcError → List (HandlerEvent ReqId Block MetaData)
  close_error info none = []
  close_error info (some e) = failed (HandlerErr.inbound id info.protocol e) ∷ []

  abbrev unsent : InboundInfo Block MetaData → List (HandlerEvent ReqId Block MetaData)
  unsent info =
      if ends_open info.pending_items
      then failed (HandlerErr.inbound id info.protocol disconnected) ∷ []
      else []

  -- An idle substream of a deactivated handler; `none` says that it cannot be closed yet.
  abbrev pub close_idle :
      InboundInfo Block MetaData → Option (Option RpcError) → Driven ReqId Block MetaData
  close_idle info none = stopped info
  close_idle info (some result) = ended info (close_error info result ++ unsent info)

  -- The inner loop of `poll` for one inbound substream.
  unfoldable pub drive :
      List Sent
      → Option (Option RpcError)
      → InboundInfo Block MetaData
      → Driven ReqId Block MetaData
  drive answers closing info = elim info.state [
    | idle substream ↦
        if deactivated
        then close_idle info closing
        else pump answers (next_message deactivated substream info)
    | busy _ _ _ ↦ pump answers info
  ]
