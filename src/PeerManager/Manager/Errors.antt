-- ===== src/PeerManager/Manager/Errors.antt =====
-- What errors of the RPC cost a peer: `handle_rpc_error` of src/peer_manager/mod.rs.
use consentry.Common.{ℕ, Option, none, some}
use consentry.Rpc.Methods.{
  RpcResponseErrorCode, unknown, resource_unavailable, server_error, invalid_request, rate_limited,
}
use consentry.Rpc.Protocol.{
  Protocol, RpcError, ssz_decode_error, io_error, error_response, stream_timeout,
  unsupported_protocol, incomplete_stream, invalid_data, internal_error, negotiation_timeout,
  handler_rejected, disconnected,
}
use consentry.PeerManager.Score.{
  F64, PeerAction, fatal, low_tolerance_error, mid_tolerance_error, high_tolerance_error,
}
use consentry.PeerManager.PeerInfo.{ConnectionDirection, incoming, outgoing}
use consentry.PeerManager.Manager.{Manager, report_peer}

abbrev on_rate_limit : Protocol → PeerAction
on_rate_limit Protocol.ping = mid_tolerance_error
on_rate_limit Protocol.blocks_by_range = mid_tolerance_error
on_rate_limit Protocol.blocks_by_root = mid_tolerance_error
on_rate_limit Protocol.goodbye = low_tolerance_error
on_rate_limit Protocol.meta_data = low_tolerance_error
on_rate_limit Protocol.status = low_tolerance_error

abbrev on_error_code : RpcResponseErrorCode → Protocol → ConnectionDirection → Option PeerAction
on_error_code unknown protocol direction = some high_tolerance_error
on_error_code resource_unavailable protocol outgoing = some fatal
on_error_code resource_unavailable protocol incoming = none
on_error_code server_error protocol direction = some mid_tolerance_error
on_error_code invalid_request protocol direction = some low_tolerance_error
on_error_code rate_limited protocol direction = some (on_rate_limit protocol)

abbrev on_unsupported : Protocol → Option PeerAction
on_unsupported Protocol.ping = some fatal
on_unsupported Protocol.blocks_by_range = none
on_unsupported Protocol.blocks_by_root = none
on_unsupported Protocol.goodbye = none
on_unsupported Protocol.meta_data = some low_tolerance_error
on_unsupported Protocol.status = some low_tolerance_error

abbrev on_timeout : Protocol → Option PeerAction
on_timeout Protocol.ping = some low_tolerance_error
on_timeout Protocol.blocks_by_range = some mid_tolerance_error
on_timeout Protocol.blocks_by_root = some mid_tolerance_error
on_timeout Protocol.goodbye = none
on_timeout Protocol.meta_data = none
on_timeout Protocol.status = none

-- The match of `handle_rpc_error`; `none` where it returns.
unfoldable pub peer_action : RpcError → Protocol → ConnectionDirection → Option PeerAction
peer_action incomplete_stream protocol direction = some mid_tolerance_error
peer_action (internal_error e) protocol direction = none
peer_action handler_rejected protocol direction = some fatal
peer_action (invalid_data e) protocol direction = some fatal
peer_action (io_error e) protocol direction = some high_tolerance_error
peer_action (error_response code e) protocol direction = on_error_code code protocol direction
peer_action (ssz_decode_error e) protocol direction = some fatal
peer_action unsupported_protocol protocol direction = on_unsupported protocol
peer_action stream_timeout protocol incoming = none
peer_action stream_timeout protocol outgoing = on_timeout protocol
peer_action negotiation_timeout protocol direction = some low_tolerance_error
peer_action disconnected protocol direction = none

module _ {F E M : Type 0} (f : F64 F) (now : ℕ) where
  abbrev penalise : Manager F E M → ℕ → Option PeerAction → Manager F E M
  penalise m peer_id none = m
  penalise m peer_id (some action) = report_peer f now m peer_id action none

  -- `handle_rpc_error`
  unfoldable pub handle_rpc_error :
      Manager F E M → ℕ → Protocol → RpcError → ConnectionDirection → Manager F E M
  handle_rpc_error m peer_id protocol err direction =
      penalise m peer_id (peer_action err protocol direction)
