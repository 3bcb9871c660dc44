-- ===== src/Rpc/Handler/Inject.antt =====
-- What the swarm tells the handler of src/rpc/handler.rs, and its wish to keep the connection.
use consentry.Common.Assoc
use consentry.Common.{
  ℕ, ◌+◌, ◌==◌, ltb, u64, u32_pred, u8, if◌then◌else◌, Bool, true, false, not, ◌&&◌, Option, none,
  some, [], ◌∷◌, length, ℕ_discrete,
}
use consentry.Rpc.Protocol.{InboundRequest, expected_responses, protocol, RpcError}
use consentry.Rpc.Messages.{RpcSend, RpcReceived}
use consentry.Rpc.Handler.{
  RpcHandler, HandlerErr, received, failed, idle, request_pending_response, HandlerState, TimerCall,
  UpgradeErr, upgrade_error, is_io_error, is_active, is_deactivated, is_empty, io_error_retries,
  max_inbound_substreams, emit, drop_request, shutdown, send_request, send_response, set_inbound,
}

abbrev pub several : ℕ → Option ℕ
several expected = if ltb 1 expected then some expected else none

abbrev should_shutdown : HandlerState → Bool → Bool
should_shutdown HandlerState.shutting_down drained = drained
should_shutdown HandlerState.deactivated drained = true
should_shutdown HandlerState.active drained = false

module _ {ReqId Block MetaData : Type 0} where
  -- A stored request, with its timer. That memory is set aside for all expected responses
  -- (`VecDeque::with_capacity`) is left out.
  abbrev pub await_responses :
      RpcHandler ReqId Block MetaData → InboundRequest → RpcHandler ReqId Block MetaData
  await_responses h req =
      let id = h.current_inbound_substream_id in
      record (set_inbound h id (record {
        state = idle [];
        pending_items = [];
        protocol = protocol req;
        remaining_chunks = expected_responses req;
        delay_key = true;
      })) { inbound_substreams_delay = TimerCall.insert id ∷ h.inbound_substreams_delay }

  abbrev pub shutdown_on_goodbye :
      RpcHandler ReqId Block MetaData → InboundRequest → RpcHandler ReqId Block MetaData
  shutdown_on_goodbye h (InboundRequest.goodbye _) = shutdown h none
  shutdown_on_goodbye h _ = h

  -- The end of `inject_fully_negotiated_inbound`.
  abbrev pub accept_request :
      RpcHandler ReqId Block MetaData → InboundRequest → RpcHandler ReqId Block MetaData
  accept_request h req =
      let h' = shutdown_on_goodbye h req in
      record (emit h' (received (RpcReceived.request h'.current_inbound_substream_id req))) {
        current_inbound_substream_id = u64 (h'.current_inbound_substream_id + 1);
      }

  abbrev pub reject_request :
      RpcHandler ReqId Block MetaData → InboundRequest → RpcHandler ReqId Block MetaData
  reject_request h req =
      shutdown
        (emit h (
          failed (
            HandlerErr.inbound h.current_inbound_substream_id (protocol req)
              RpcError.handler_rejected)))
        none

  -- `inject_fully_negotiated_inbound`
  unfoldable pub inject_fully_negotiated_inbound :
      RpcHandler ReqId Block MetaData → InboundRequest → RpcHandler ReqId Block MetaData
  inject_fully_negotiated_inbound h req =
      if not (is_active h.state)
      then h
      else if ltb 0 (expected_responses req)
      then (if ltb (length h.inbound_substreams) max_inbound_substreams
          then accept_request (await_responses h req) req
          else reject_request h req)
      else accept_request h req

  -- The end of `inject_fully_negotiated_outbound`, for a request that expects responses.
  abbrev pub await_peer :
      RpcHandler ReqId Block MetaData → ReqId → InboundRequest → RpcHandler ReqId Block MetaData
  await_peer h id request =
      let substream_id = h.current_outbound_substream_id in
      record h {
        outbound_substreams_delay = TimerCall.insert substream_id ∷ h.outbound_substreams_delay;
        outbound_substreams =
            Assoc.insert ℕ_discrete substream_id
              (record {
                state = request_pending_response request;
                proto = protocol request;
                remaining_chunks = several (expected_responses request);
                req_id = id;
              })
              h.outbound_substreams;
        current_outbound_substream_id = u64 (substream_id + 1);
      }

  -- `inject_fully_negotiated_outbound`; a deactivated handler reports the request and goes on.
  unfoldable pub inject_fully_negotiated_outbound :
      RpcHandler ReqId Block MetaData → ReqId → InboundRequest → RpcHandler ReqId Block MetaData
  inject_fully_negotiated_outbound h id request =
      let counted = record h { dial_negotiated = u32_pred h.dial_negotiated } in
      let told =
        if is_deactivated h.state then emit counted (drop_request (id, request)) else counted in
      if ltb 0 (expected_responses request) then await_peer told id request else told

  -- `inject_event`
  unfoldable pub inject_event :
      RpcHandler ReqId Block MetaData
      → RpcSend ReqId Block MetaData
      → RpcHandler ReqId Block MetaData
  inject_event h (RpcSend.request id req) = send_request h id req
  inject_event h (RpcSend.response inbound_id response) = send_response h inbound_id response
  inject_event h (RpcSend.shutdown id reason) = shutdown h (some (id, reason))

  -- A dial that is given up.
  abbrev pub fail_dial :
      RpcHandler ReqId Block MetaData
      → ReqId
      → InboundRequest
      → UpgradeErr
      → RpcHandler ReqId Block MetaData
  fail_dial h id req err =
      emit
        (record h { dial_negotiated = u32_pred h.dial_negotiated; outbound_io_error_retries = 0 })
        (failed (HandlerErr.outbound id (protocol req) (upgrade_error err)))

  -- `inject_dial_upgrade_error`
  unfoldable pub inject_dial_upgrade_error :
      RpcHandler ReqId Block MetaData
      → ReqId
      → InboundRequest
      → UpgradeErr
      → RpcHandler ReqId Block MetaData
  inject_dial_upgrade_error h id req err =
      let retries = u8 (h.outbound_io_error_retries + 1) in
      if is_io_error err
      then (if ltb retries io_error_retries
          then send_request (record h { outbound_io_error_retries = retries }) id req
          else fail_dial (record h { outbound_io_error_retries = retries }) id req err)
      else fail_dial h id req err

  -- What `ShuttingDown` waits for.
  abbrev pub is_drained : RpcHandler ReqId Block MetaData → Bool
  is_drained h =
      is_empty h.dial_queue
      && is_empty h.outbound_substreams
      && is_empty h.inbound_substreams
      && is_empty h.events_out
      && (h.dial_negotiated == 0)

  -- `connection_keep_alive`: whether it answers `KeepAlive::Yes`.
  unfoldable pub connection_keep_alive : RpcHandler ReqId Block MetaData → Bool
  connection_keep_alive h = not (should_shutdown h.state (is_drained h))
