-- ===== src/Rpc/Protocol.antt =====
-- src/rpc/protocol.rs and outbound.rs: protocol identifiers, limits and requests. Inbound and
-- outbound requests have the same variants and the same bodies of these functions.
use consentry.Common.{
  ℕ, Bool, true, false, ltb, min, ◌||◌, List, [], ◌∷◌, length, Option, none, some,
}
use consentry.Rpc.Methods.{
  StatusMessage, Ping, GoodbyeReason, OldBlocksByRangeRequest, BlocksByRootRequest,
  ResponseTermination, RpcResponseErrorCode,
}

pub data Protocol : Type 0 where
  status goodbye blocks_by_range blocks_by_root ping meta_data : Protocol

pub data Version : Type 0 where
  v1 v2 : Version

pub data Encoding : Type 0 where
  ssz_snappy : Encoding

pub record RpcLimits : Type 0 where
  pub lower : ℕ
  pub upper : ℕ

-- `RpcLimits::is_out_of_bounds`
unfoldable pub is_out_of_bounds : RpcLimits → ℕ → ℕ → Bool
is_out_of_bounds limits length max_rpc_size =
    ltb (min limits.upper max_rpc_size) length || ltb length limits.lower

-- The identifier's text is a function of the other three fields.
pub record ProtocolId : Type 0 where
  pub message_name : Protocol
  pub version : Version
  pub encoding : Encoding

context_bytes_of : Version → Protocol → Bool
context_bytes_of v2 blocks_by_range = true
context_bytes_of v2 blocks_by_root = true
context_bytes_of _ _ = false

-- `ProtocolId::has_context_bytes`
unfoldable pub has_context_bytes : ProtocolId → Bool
unfolding context_bytes_of
has_context_bytes id = context_bytes_of id.version id.message_name

pub data InboundRequest : Type 0 where
  status : StatusMessage → InboundRequest
  goodbye : GoodbyeReason → InboundRequest
  blocks_by_range : OldBlocksByRangeRequest → InboundRequest
  blocks_by_root : BlocksByRootRequest → InboundRequest
  ping : Ping → InboundRequest
  meta_data : InboundRequest

-- `InboundRequest::expected_responses`
unfoldable pub expected_responses : InboundRequest → ℕ
expected_responses (InboundRequest.status _) = 1
expected_responses (InboundRequest.goodbye _) = 0
expected_responses (InboundRequest.blocks_by_range req) = req.count
expected_responses (InboundRequest.blocks_by_root req) = length req.block_roots
expected_responses (InboundRequest.ping _) = 1
expected_responses InboundRequest.meta_data = 1

-- `InboundRequest::protocol`
unfoldable pub protocol : InboundRequest → Protocol
protocol (InboundRequest.status _) = status
protocol (InboundRequest.goodbye _) = goodbye
protocol (InboundRequest.blocks_by_range _) = blocks_by_range
protocol (InboundRequest.blocks_by_root _) = blocks_by_root
protocol (InboundRequest.ping _) = ping
protocol InboundRequest.meta_data = meta_data

-- `InboundRequest::supported_protocols`
unfoldable pub supported_protocols : InboundRequest → List ProtocolId
supported_protocols (InboundRequest.status _) =
    record { message_name = status; version = v1; encoding = ssz_snappy } ∷ []
supported_protocols (InboundRequest.goodbye _) =
    record { message_name = goodbye; version = v1; encoding = ssz_snappy } ∷ []
supported_protocols (InboundRequest.blocks_by_range _) =
    record { message_name = blocks_by_range; version = v2; encoding = ssz_snappy }
    ∷ record { message_name = blocks_by_range; version = v1; encoding = ssz_snappy }
    ∷ []
supported_protocols (InboundRequest.blocks_by_root _) =
    record { message_name = blocks_by_root; version = v2; encoding = ssz_snappy }
    ∷ record { message_name = blocks_by_root; version = v1; encoding = ssz_snappy }
    ∷ []
supported_protocols (InboundRequest.ping _) =
    record { message_name = ping; version = v1; encoding = ssz_snappy } ∷ []
supported_protocols InboundRequest.meta_data =
    record { message_name = meta_data; version = v2; encoding = ssz_snappy }
    ∷ record { message_name = meta_data; version = v1; encoding = ssz_snappy }
    ∷ []

-- `InboundRequest::stream_termination`; `none` stands for `unreachable!()`.
unfoldable pub stream_termination : InboundRequest → Option ResponseTermination
stream_termination (InboundRequest.blocks_by_range _) = some ResponseTermination.blocks_by_range
stream_termination (InboundRequest.blocks_by_root _) = some ResponseTermination.blocks_by_root
stream_termination (InboundRequest.status _) = none
stream_termination (InboundRequest.goodbye _) = none
stream_termination (InboundRequest.ping _) = none
stream_termination InboundRequest.meta_data = none

-- The text of a message is its bytes.
abbrev pub Text : Type 0
Text = List ℕ

-- `RPCError`; an SSZ error is a number.
pub data RpcError : Type 0 where
  ssz_decode_error : ℕ → RpcError
  io_error : Text → RpcError
  error_response : RpcResponseErrorCode → Text → RpcError
  stream_timeout unsupported_protocol incomplete_stream : RpcError
  invalid_data internal_error : Text → RpcError
  negotiation_timeout handler_rejected disconnected : RpcError
