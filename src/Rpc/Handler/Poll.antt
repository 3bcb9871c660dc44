-- ===== src/Rpc/Handler/Poll.antt =====
-- `poll` of src/rpc/handler.rs. What the objects that it polls answer is an argument: the shutdown
-- timer, the expired timers of the delay queues up to the first pending one (`none` for a failure),
-- and for each substream what its futures and its stream come to.
use consentry.Common.Assoc
use consentry.Common.{
  ℕ, ◌+◌, ◌-◌, ◌==◌, ltb, u32, if◌then◌else◌, Bool, true, false, not, ◌&&◌, Option, none, some,
  List, [], ◌∷◌, ◌++◌, ℕ_discrete, map,
}
use consentry.Rpc.Methods.{
  RpcCodedResponse, success, error, ResponseTermination, close_after, server_error,
}
use consentry.Rpc.Protocol.{
  Protocol, InboundRequest, expected_responses, protocol, stream_termination, Text, RpcError,
  disconnected,
}
use consentry.Rpc.Messages.{RpcReceived}
use consentry.Rpc.Handler.{
  RpcHandler, HandlerErr, HandlerEvent, received, failed, InboundInfo, OutboundInfo,
  OutboundSubstreamState, request_pending_response, closing, HandlerState, shutting_down, TimerCall,
  is_deactivated, max_dial_negotiated, emit, set_inbound,
}
use consentry.Rpc.Handler.Inject.{is_drained}
use consentry.Rpc.Handler.Streams.{Sent, Driven, drive, ends_open}

pub data PollResult (ReqId Block MetaData : Type 0) : Type 0 where
  custom : HandlerEvent ReqId Block MetaData → PollResult ReqId Block MetaData
  close : RpcError → PollResult ReqId Block MetaData
  outbound_substream_request : ReqId → InboundRequest → PollResult ReqId Block MetaData
  pending : PollResult ReqId Block MetaData

-- What the stream of an outbound substream comes to.
pub data Next (Block MetaData : Type 0) : Type 0 where
  item : RpcCodedResponse Block MetaData → Next Block MetaData
  item_error : RpcError → Next Block MetaData
  end pending : Next Block MetaData

pub record Answers (Block MetaData : Type 0) : Type 0 where
  pub shutdown_timer : Bool
  pub inbound_expired : List (Option ℕ)
  pub outbound_expired : List (Option ℕ)
  pub inbound_sent : ℕ → List Sent
  pub inbound_close : ℕ → Option (Option RpcError)
  pub outbound_next : ℕ → Next Block MetaData
  pub outbound_close : ℕ → Bool

abbrev pub request_timed_out : Text
request_timed_out =
    82 ∷ 101 ∷ 113 ∷ 117 ∷ 101 ∷ 115 ∷ 116 ∷ 32 ∷ 116 ∷ 105 ∷ 109 ∷ 101 ∷ 100 ∷ 32 ∷ 111 ∷ 117 ∷ 116
    ∷ []

abbrev pub inbound_timer : Text
inbound_timer =
    67 ∷ 111 ∷ 117 ∷ 108 ∷ 100 ∷ 32 ∷ 110 ∷ 111 ∷ 116 ∷ 32 ∷ 112 ∷ 111 ∷ 108 ∷ 108 ∷ 32 ∷ 105 ∷ 110
    ∷ 98 ∷ 111 ∷ 117 ∷ 110 ∷ 100 ∷ 32 ∷ 115 ∷ 116 ∷ 114 ∷ 101 ∷ 97 ∷ 109 ∷ 32 ∷ 116 ∷ 105 ∷ 109
    ∷ 101 ∷ 114 ∷ []

abbrev pub outbound_timer : Text
outbound_timer =
    67 ∷ 111 ∷ 117 ∷ 108 ∷ 100 ∷ 32 ∷ 110 ∷ 111 ∷ 116 ∷ 32 ∷ 112 ∷ 111 ∷ 108 ∷ 108 ∷ 32 ∷ 111 ∷ 117
    ∷ 116 ∷ 98 ∷ 111 ∷ 117 ∷ 110 ∷ 100 ∷ 32 ∷ 115 ∷ 116 ∷ 114 ∷ 101 ∷ 97 ∷ 109 ∷ 32 ∷ 116 ∷ 105
    ∷ 109 ∷ 101 ∷ 114 ∷ []

-- The end of a stream of several responses, as it is reported when the stream closes.
abbrev pub termination_of : Protocol → Option ResponseTermination
termination_of Protocol.blocks_by_range = some ResponseTermination.blocks_by_range
termination_of Protocol.blocks_by_root = some ResponseTermination.blocks_by_root
termination_of _ = none

abbrev pub is_shutting_down : HandlerState → Bool
is_shutting_down shutting_down = true
is_shutting_down _ = false

abbrev pub expected_end : InboundRequest → Option ResponseTermination
expected_end request =
    if ltb 1 (expected_responses request) then stream_termination request else none

module _ {Block MetaData : Type 0} where
  abbrev append_timeout : InboundInfo Block MetaData → InboundInfo Block MetaData
  append_timeout info =
      if ends_open info.pending_items
      then record info {
        pending_items = info.pending_items ++ error server_error request_timed_out ∷ [];
      }
      else info

abbrev pub left_after : Option ℕ → ℕ
left_after none = 0
left_after (some count) = count - 1

module _ {ReqId Block MetaData : Type 0} where
  abbrev pub expire_inbound :
      RpcHandler ReqId Block MetaData
      → ℕ
      → Option (InboundInfo Block MetaData)
      → RpcHandler ReqId Block MetaData
  expire_inbound h id none = h
  expire_inbound h id (some info) =
      emit (set_inbound h id (append_timeout (record info { delay_key = false })))
        (failed (HandlerErr.inbound id info.protocol RpcError.stream_timeout))

  -- The loop over the expired timers of inbound substreams; `true` says that the timer failed.
  unfoldable pub purge_inbound :
      List (Option ℕ) → RpcHandler ReqId Block MetaData → RpcHandler ReqId Block MetaData × Bool
  purge_inbound [] h = (h, false)
  purge_inbound (none ∷ _) h = (h, true)
  purge_inbound (some id ∷ rest) h =
      purge_inbound rest (expire_inbound h id (Assoc.get ℕ_discrete id h.inbound_substreams))

  abbrev pub without_outbound :
      RpcHandler ReqId Block MetaData → ℕ → RpcHandler ReqId Block MetaData
  without_outbound h id = record h {
    outbound_substreams = Assoc.remove ℕ_discrete id h.outbound_substreams;
  }

  abbrev pub outbound_error : OutboundInfo ReqId → RpcError → HandlerEvent ReqId Block MetaData
  outbound_error info e = failed (HandlerErr.outbound info.req_id info.proto e)

  -- The loop over the expired timers of outbound substreams, up to the first whose substream is known.
  unfoldable pub purge_outbound :
      List (Option ℕ)
      → RpcHandler ReqId Block MetaData
      → RpcHandler ReqId Block MetaData × Option (PollResult ReqId Block MetaData)
  purge_outbound [] h = (h, none)
  purge_outbound (none ∷ _) h = (h, some (close (RpcError.internal_error outbound_timer)))
  purge_outbound (some id ∷ rest) h = elim (Assoc.get ℕ_discrete id h.outbound_substreams) [
    | some info ↦
        (without_outbound h id, some (custom (outbound_error info RpcError.stream_timeout)))
    | none ↦ purge_outbound rest h
  ]

  -- The inbound substreams after each is driven; the closed ones are removed.
  abbrev pub keep_open :
      ℕ
      → Driven ReqId Block MetaData
      → List (ℕ × InboundInfo Block MetaData)
      → List (ℕ × InboundInfo Block MetaData)
  keep_open id d rest = if d.removed then rest else (id, d.info) ∷ rest

  unfoldable pub drive_all :
      Bool
      → Answers Block MetaData
      → List (ℕ × InboundInfo Block MetaData)
      → List (ℕ × InboundInfo Block MetaData)
        × List (HandlerEvent ReqId Block MetaData)
        × List TimerCall
  drive_all deact a [] = ([], [], [])
  drive_all deact a ((id, info) ∷ rest) =
      let d = drive deact id (a.inbound_sent id) (a.inbound_close id) info in
      let (left, events, timers) = drive_all deact a rest in
      (keep_open id d left, d.events ++ events, timers ++ d.timers)

  unfoldable pub drive_inbound :
      Answers Block MetaData → RpcHandler ReqId Block MetaData → RpcHandler ReqId Block MetaData
  drive_inbound a h =
      let (left, events, timers) = drive_all (is_deactivated h.state) a h.inbound_substreams in
      record h {
        inbound_substreams = left;
        events_out = h.events_out ++ events;
        inbound_substreams_delay = timers ++ h.inbound_substreams_delay;
      }

  abbrev pub set_outbound :
      RpcHandler ReqId Block MetaData → ℕ → OutboundInfo ReqId → RpcHandler ReqId Block MetaData
  set_outbound h id info = record h {
    outbound_substreams = Assoc.insert ℕ_discrete id info h.outbound_substreams;
  }

  -- The substream and its timer are dropped.
  abbrev pub drop_outbound : RpcHandler ReqId Block MetaData → ℕ → RpcHandler ReqId Block MetaData
  drop_outbound h id = record (without_outbound h id) {
    outbound_substreams_delay = TimerCall.remove id ∷ h.outbound_substreams_delay;
  }

  abbrev pub close_outbound :
      RpcHandler ReqId Block MetaData → ℕ → OutboundInfo ReqId → RpcHandler ReqId Block MetaData
  close_outbound h id info = set_outbound h id (record info { state = closing })

  -- The substream after a response.
  abbrev pub after_response :
      RpcHandler ReqId Block MetaData
      → ℕ
      → OutboundInfo ReqId
      → InboundRequest
      → RpcCodedResponse Block MetaData
      → RpcHandler ReqId Block MetaData
  after_response h id info request answer =
      if ltb 1 (expected_responses request) && not (close_after answer)
      then (if left_after info.remaining_chunks == 0
          then close_outbound h id info
          else record (set_outbound h id
              (record info { remaining_chunks = some (left_after info.remaining_chunks) })) {
                outbound_substreams_delay = TimerCall.reset id ∷ h.outbound_substreams_delay;
              })
      else close_outbound h id info

  abbrev pub received_response :
      OutboundInfo ReqId → RpcCodedResponse Block MetaData → HandlerEvent ReqId Block MetaData
  received_response info (RpcCodedResponse.stream_termination t) =
      received (RpcReceived.end_of_stream info.req_id t)
  received_response info (success resp) = received (RpcReceived.response info.req_id resp)
  received_response info (error code r) = outbound_error info (RpcError.error_response code r)

  -- The report of a stream that its peer closed; `stream_termination` has no value where the code
  -- does not get to.
  abbrev pub end_report :
      OutboundInfo ReqId
      → InboundRequest
      → Option ResponseTermination
      → HandlerEvent ReqId Block MetaData
  end_report info request (some t) = received (RpcReceived.end_of_stream info.req_id t)
  end_report info request none =
      failed (HandlerErr.outbound info.req_id (protocol request) RpcError.incomplete_stream)

  abbrev pub on_next :
      RpcHandler ReqId Block MetaData
      → ℕ
      → OutboundInfo ReqId
      → InboundRequest
      → Next Block MetaData
      → RpcHandler ReqId Block MetaData × Option (PollResult ReqId Block MetaData)
  on_next h id info request (item answer) =
      (after_response h id info request answer, some (custom (received_response info answer)))
  on_next h id info request end =
      (drop_outbound h id, some (custom (end_report info request (expected_end request))))
  on_next h id info request pending = (h, none)
  on_next h id info request (item_error e) =
      (drop_outbound h id, some (custom (outbound_error info e)))

  abbrev pub ended_stream :
      OutboundInfo ReqId → Option ResponseTermination → Option (PollResult ReqId Block MetaData)
  ended_stream info none = none
  ended_stream info (some t) = some (custom (received (RpcReceived.end_of_stream info.req_id t)))

  abbrev pub drive_state :
      Answers Block MetaData
      → RpcHandler ReqId Block MetaData
      → ℕ
      → OutboundInfo ReqId
      → OutboundSubstreamState
      → RpcHandler ReqId Block MetaData × Option (PollResult ReqId Block MetaData)
  drive_state a h id info (request_pending_response request) =
      if is_deactivated h.state
      then (emit (close_outbound h id info) (outbound_error info disconnected), none)
      else on_next h id info request (a.outbound_next id)
  drive_state a h id info closing =
      if a.outbound_close id
      then (drop_outbound h id, ended_stream info (termination_of info.proto))
      else (h, none)

  abbrev pub drive_known :
      Answers Block MetaData
      → RpcHandler ReqId Block MetaData
      → ℕ
      → Option (OutboundInfo ReqId)
      → RpcHandler ReqId Block MetaData × Option (PollResult ReqId Block MetaData)
  drive_known a h id none = (h, none)
  drive_known a h id (some info) = drive_state a h id info info.state

  abbrev pub driven_key :
      Answers Block MetaData
      → RpcHandler ReqId Block MetaData
      → ℕ
      → RpcHandler ReqId Block MetaData × Option (PollResult ReqId Block MetaData)
  driven_key a h id = drive_known a h id (Assoc.get ℕ_discrete id h.outbound_substreams)

  -- The loop over the keys of the outbound substreams, up to the first that has something to report.
  unfoldable pub drive_outbound :
      Answers Block MetaData
      → List ℕ
      → RpcHandler ReqId Block MetaData
      → RpcHandler ReqId Block MetaData × Option (PollResult ReqId Block MetaData)
  drive_outbound a [] h = (h, none)
  drive_outbound a (id ∷ ids) h = elim (driven_key a h id).1 [
    | some result ↦ ((driven_key a h id).0, some result)
    | none ↦ drive_outbound a ids (driven_key a h id).0
  ]

  abbrev pub idle_result :
      RpcHandler ReqId Block MetaData → HandlerState → PollResult ReqId Block MetaData
  idle_result h shutting_down = if is_drained h then close disconnected else pending
  idle_result h _ = pending

  -- The end of `poll`: a substream is opened, or the handler closes once it is drained.
  abbrev pub establish :
      RpcHandler ReqId Block MetaData
      → List (ReqId × InboundRequest)
      → RpcHandler ReqId Block MetaData × PollResult ReqId Block MetaData
  establish h [] = (h, idle_result h h.state)
  establish h ((id, req) ∷ rest) =
      if ltb h.dial_negotiated max_dial_negotiated
      then (
        record h { dial_negotiated = u32 (h.dial_negotiated + 1); dial_queue = rest },
        outbound_substream_request id req,
      )
      else (h, idle_result h h.state)

  abbrev pub keys : RpcHandler ReqId Block MetaData → List ℕ
  keys h = map (λ x. x.0) h.outbound_substreams

  -- `poll` from the outbound substreams on.
  abbrev pub poll_outbound :
      Answers Block MetaData
      → RpcHandler ReqId Block MetaData
      → RpcHandler ReqId Block MetaData × PollResult ReqId Block MetaData
  poll_outbound a h = elim (drive_outbound a (keys h) h).1 [
    | some result ↦ ((drive_outbound a (keys h) h).0, result)
    | none ↦ establish (drive_outbound a (keys h) h).0 (drive_outbound a (keys h) h).0.dial_queue
  ]

  -- `poll` from the expired outbound timers on.
  abbrev pub poll_expired :
      Answers Block MetaData
      → RpcHandler ReqId Block MetaData
      → RpcHandler ReqId Block MetaData × PollResult ReqId Block MetaData
  poll_expired a h = elim (purge_outbound a.outbound_expired h).1 [
    | some result ↦ ((purge_outbound a.outbound_expired h).0, result)
    | none ↦ poll_outbound a (drive_inbound a (purge_outbound a.outbound_expired h).0)
  ]

  -- `poll` once the events are reported and the shutdown timer is read.
  abbrev pub poll_streams :
      Answers Block MetaData
      → RpcHandler ReqId Block MetaData
      → RpcHandler ReqId Block MetaData × PollResult ReqId Block MetaData
  poll_streams a h = elim (purge_inbound a.inbound_expired h).1 [
    | true ↦ ((purge_inbound a.inbound_expired h).0, close (RpcError.internal_error inbound_timer))
    | false ↦ poll_expired a (purge_inbound a.inbound_expired h).0
  ]

  -- `poll`
  unfoldable pub poll :
      Answers Block MetaData
      → RpcHandler ReqId Block MetaData
      → RpcHandler ReqId Block MetaData × PollResult ReqId Block MetaData
  poll a h = elim h.events_out [
    | event ∷ events ↦ (record h { events_out = events }, custom event)
    | [] ↦
        if is_shutting_down h.state && a.shutdown_timer
        then (record h { state = HandlerState.deactivated }, close disconnected)
        else poll_streams a h
  ]
