-- ===== src/Rpc/Handler.antt =====
-- src/rpc/handler.rs: the connection handler of one peer. `ReqId` is the application's request
-- identifier; blocks and metadata are type parameters. The delay queues keep their timers outside:
-- the handler's state has the calls that it made on them, the latest first, and what they answer
-- is an argument of `poll`. The waker is left out.
pub mod Inject
pub mod Streams
pub mod Poll
pub mod Order
pub mod Swarm
pub mod Frames
pub mod Outbound
pub mod Polled
pub mod Calls
mod Examples
pub mod Closing
pub mod Negotiation
pub mod Tracking
pub mod Requests
use consentry.Common.Assoc
use consentry.Common.{
  ℕ, ◌+◌, ◌==◌, ltb, leb, u64, u32, u32_pred, u8, if◌then◌else◌, Bool, true, false, not, ◌&&◌,
  Option, none, some, List, [], ◌∷◌, ◌++◌, length, ℕ_discrete, map,
}
use consentry.Rpc.Methods.{
  GoodbyeReason, RpcResponse, RpcCodedResponse, success, error, stream_termination,
  ResponseTermination, RpcResponseErrorCode,
}
use consentry.Rpc.Messages.{RpcReceived}
use consentry.Rpc.Protocol.{
  Protocol, InboundRequest, expected_responses, protocol, Text, RpcError, disconnected,
  handler_rejected,
}

abbrev pub io_error_retries : ℕ
io_error_retries = 3

abbrev pub max_inbound_substreams : ℕ
max_inbound_substreams = 32

abbrev pub max_dial_negotiated : ℕ
max_dial_negotiated = 8

pub data TimerCall : Type 0 where
  insert reset remove : ℕ → TimerCall

pub data HandlerErr (ReqId : Type 0) : Type 0 where
  inbound : ℕ → Protocol → RpcError → HandlerErr ReqId
  outbound : ReqId → Protocol → RpcError → HandlerErr ReqId

pub data HandlerState : Type 0 where
  active shutting_down deactivated : HandlerState

-- The state of an outbound substream; the substream itself is left out.
pub data OutboundSubstreamState : Type 0 where
  request_pending_response : InboundRequest → OutboundSubstreamState
  closing : OutboundSubstreamState

pub record OutboundInfo (ReqId : Type 0) : Type 0 where
  pub state : OutboundSubstreamState
  pub proto : Protocol
  pub remaining_chunks : Option ℕ
  pub req_id : ReqId

-- `HandlerEvent`
pub data HandlerEvent (ReqId Block MetaData : Type 0) : Type 0 where
  received : RpcReceived ReqId Block MetaData → HandlerEvent ReqId Block MetaData
  failed : HandlerErr ReqId → HandlerEvent ReqId Block MetaData

-- A substream is the messages that were sent on it so far. A busy one is the future that sends a
-- message, the last one or not, on its substream.
pub data InboundState (Block MetaData : Type 0) : Type 0 where
  idle : List (RpcCodedResponse Block MetaData) → InboundState Block MetaData
  busy :
      List (RpcCodedResponse Block MetaData)
      → RpcCodedResponse Block MetaData
      → Bool
      → InboundState Block MetaData

-- `delay_key` tells whether the timer runs.
pub record InboundInfo (Block MetaData : Type 0) : Type 0 where
  pub state : InboundState Block MetaData
  pub pending_items : List (RpcCodedResponse Block MetaData)
  pub protocol : Protocol
  pub remaining_chunks : ℕ
  pub delay_key : Bool

pub record RpcHandler (ReqId Block MetaData : Type 0) : Type 0 where
  pub events_out : List (HandlerEvent ReqId Block MetaData)
  pub dial_queue : List (ReqId × InboundRequest)
  pub dial_negotiated : ℕ
  pub inbound_substreams : List (ℕ × InboundInfo Block MetaData)
  pub inbound_substreams_delay : List TimerCall
  pub outbound_substreams : List (ℕ × OutboundInfo ReqId)
  pub outbound_substreams_delay : List TimerCall
  pub current_inbound_substream_id : ℕ
  pub current_outbound_substream_id : ℕ
  pub state : HandlerState
  pub outbound_io_error_retries : ℕ

-- `ConnectionHandlerUpgrErr`
pub data UpgradeErr : Type 0 where
  timer timeout : UpgradeErr
  apply : RpcError → UpgradeErr
  negotiation_failed : UpgradeErr
  protocol_io_error : Text → UpgradeErr
  invalid_protocol invalid_message too_many_protocols : UpgradeErr

abbrev pub timer_failed : Text
timer_failed = 84 ∷ 105 ∷ 109 ∷ 101 ∷ 114 ∷ 32 ∷ 102 ∷ 97 ∷ 105 ∷ 108 ∷ 101 ∷ 100 ∷ []

abbrev pub deemed_invalid : Text
deemed_invalid =
    80 ∷ 114 ∷ 111 ∷ 116 ∷ 111 ∷ 99 ∷ 111 ∷ 108 ∷ 32 ∷ 119 ∷ 97 ∷ 115 ∷ 32 ∷ 100 ∷ 101 ∷ 101 ∷ 109
    ∷ 101 ∷ 100 ∷ 32 ∷ 105 ∷ 110 ∷ 118 ∷ 97 ∷ 108 ∷ 105 ∷ 100 ∷ []

abbrev pub invalid_during_negotiation : Text
invalid_during_negotiation =
    73 ∷ 110 ∷ 118 ∷ 97 ∷ 108 ∷ 105 ∷ 100 ∷ 32 ∷ 109 ∷ 101 ∷ 115 ∷ 115 ∷ 97 ∷ 103 ∷ 101 ∷ 32 ∷ 100
    ∷ 117 ∷ 114 ∷ 105 ∷ 110 ∷ 103 ∷ 32 ∷ 110 ∷ 101 ∷ 103 ∷ 111 ∷ 116 ∷ 105 ∷ 97 ∷ 116 ∷ 105 ∷ 111
    ∷ 110 ∷ []

-- The error that a failed upgrade is reported as.
abbrev pub upgrade_error : UpgradeErr → RpcError
upgrade_error timer = RpcError.internal_error timer_failed
upgrade_error timeout = RpcError.negotiation_timeout
upgrade_error (apply e) = e
upgrade_error negotiation_failed = RpcError.unsupported_protocol
upgrade_error (protocol_io_error e) = RpcError.io_error e
upgrade_error invalid_protocol = RpcError.internal_error deemed_invalid
upgrade_error invalid_message = RpcError.invalid_data invalid_during_negotiation
upgrade_error too_many_protocols = RpcError.invalid_data invalid_during_negotiation

abbrev pub is_io_error : UpgradeErr → Bool
is_io_error (apply (RpcError.io_error _)) = true
is_io_error _ = false

abbrev pub is_active : HandlerState → Bool
is_active active = true
is_active _ = false

abbrev pub is_deactivated : HandlerState → Bool
is_deactivated deactivated = true
is_deactivated _ = false

abbrev pub is_empty : {A : Type 0} → List A → Bool
is_empty [] = true
is_empty (_ ∷ _) = false

abbrev pub goodbye_message :
    {ReqId : Type 0} → Option (ReqId × GoodbyeReason) → List (ReqId × InboundRequest)
goodbye_message none = []
goodbye_message (some (id, reason)) = (id, InboundRequest.goodbye reason) ∷ []

module _ {ReqId Block MetaData : Type 0} where
  -- `RPCHandler::new`
  abbrev pub new : RpcHandler ReqId Block MetaData
  new = record {
    events_out = [];
    dial_queue = [];
    dial_negotiated = 0;
    inbound_substreams = [];
    inbound_substreams_delay = [];
    outbound_substreams = [];
    outbound_substreams_delay = [];
    current_inbound_substream_id = 0;
    current_outbound_substream_id = 0;
    state = active;
    outbound_io_error_retries = 0;
  }

  -- `self.events_out.push(..)`
  abbrev pub emit :
      RpcHandler ReqId Block MetaData
      → HandlerEvent ReqId Block MetaData
      → RpcHandler ReqId Block MetaData
  emit h e = record h { events_out = h.events_out ++ e ∷ [] }

  abbrev pub drop_request : ReqId × InboundRequest → HandlerEvent ReqId Block MetaData
  drop_request (id, req) = failed (HandlerErr.outbound id (protocol req) disconnected)

  -- The queue is emptied from its end.
  unfoldable pub drop_all : List (ReqId × InboundRequest) → List (HandlerEvent ReqId Block MetaData)
  drop_all [] = []
  drop_all (x ∷ xs) = drop_all xs ++ drop_request x ∷ []

  -- `RPCHandler::shutdown`
  unfoldable pub shutdown :
      RpcHandler ReqId Block MetaData
      → Option (ReqId × GoodbyeReason)
      → RpcHandler ReqId Block MetaData
  shutdown h goodbye_reason =
      if is_active h.state
      then record h {
        events_out = h.events_out ++ drop_all h.dial_queue;
        dial_queue = goodbye_message goodbye_reason;
        state = shutting_down;
      }
      else h

  -- `RPCHandler::send_request`
  unfoldable pub send_request :
      RpcHandler ReqId Block MetaData → ReqId → InboundRequest → RpcHandler ReqId Block MetaData
  send_request h id req =
      if is_active h.state
      then record h { dial_queue = h.dial_queue ++ (id, req) ∷ [] }
      else emit h (drop_request (id, req))

  abbrev pub report_error :
      RpcHandler ReqId Block MetaData
      → ℕ
      → Protocol
      → RpcCodedResponse Block MetaData
      → RpcHandler ReqId Block MetaData
  report_error h id proto (error code reason) =
      emit h (failed (HandlerErr.inbound id proto (RpcError.error_response code reason)))
  report_error h id proto _ = h

  abbrev pub set_inbound :
      RpcHandler ReqId Block MetaData
      → ℕ
      → InboundInfo Block MetaData
      → RpcHandler ReqId Block MetaData
  set_inbound h id info = record h {
    inbound_substreams = Assoc.insert ℕ_discrete id info h.inbound_substreams;
  }

  abbrev pub queue_response :
      RpcHandler ReqId Block MetaData
      → ℕ
      → RpcCodedResponse Block MetaData
      → Option (InboundInfo Block MetaData)
      → RpcHandler ReqId Block MetaData
  queue_response h id response none = h
  queue_response h id response (some info) =
      let h' = report_error h id info.protocol response in
      if is_deactivated h.state
      then h'
      else set_inbound h' id (record info { pending_items = info.pending_items ++ response ∷ [] })

  -- `RPCHandler::send_response`
  unfoldable pub send_response :
      RpcHandler ReqId Block MetaData
      → ℕ
      → RpcCodedResponse Block MetaData
      → RpcHandler ReqId Block MetaData
  send_response h inbound_id response =
      queue_response h inbound_id response (Assoc.get ℕ_discrete inbound_id h.inbound_substreams)
