-- ===== src/Rpc/Methods.antt =====
-- src/rpc/methods.rs: the messages of the request/response protocol and their codes on the wire.
-- Hashes, slots and epochs are numbers; a block and a metadata record are type parameters.
pub mod Codes
use consentry.Common.{ℕ, ◌==◌, if◌then◌else◌, Bool, true, false, List, Option, none, some}

pub record StatusMessage : Type 0 where
  pub fork_digest : List ℕ
  pub finalized_root : ℕ
  pub finalized_epoch : ℕ
  pub head_root : ℕ
  pub head_slot : ℕ

pub record Ping : Type 0 where
  pub «data» : ℕ

pub data GoodbyeReason : Type 0 where
  client_shutdown irrelevant_network fault unable_to_verify_network : GoodbyeReason
  too_many_peers bad_score banned banned_ip unknown : GoodbyeReason

-- `impl From<u64> for GoodbyeReason`
unfoldable pub goodbye_from_u64 : ℕ → GoodbyeReason
goodbye_from_u64 id =
    if id == 1
    then client_shutdown
    else if id == 2
    then irrelevant_network
    else if id == 3
    then fault
    else if id == 128
    then unable_to_verify_network
    else if id == 129
    then too_many_peers
    else if id == 250
    then bad_score
    else if id == 251
    then banned
    else if id == 252
    then banned_ip
    else unknown

-- `impl From<GoodbyeReason> for u64`, by the discriminants of the enum
unfoldable pub goodbye_to_u64 : GoodbyeReason → ℕ
goodbye_to_u64 client_shutdown = 1
goodbye_to_u64 irrelevant_network = 2
goodbye_to_u64 fault = 3
goodbye_to_u64 unable_to_verify_network = 128
goodbye_to_u64 too_many_peers = 129
goodbye_to_u64 bad_score = 250
goodbye_to_u64 banned = 251
goodbye_to_u64 banned_ip = 252
goodbye_to_u64 unknown = 0

pub record OldBlocksByRangeRequest : Type 0 where
  pub start_slot : ℕ
  pub count : ℕ
  pub step : ℕ

pub record BlocksByRootRequest : Type 0 where
  pub block_roots : List ℕ

pub data RpcResponse (Block MetaData : Type 0) : Type 0 where
  status : StatusMessage → RpcResponse Block MetaData
  blocks_by_range : Block → RpcResponse Block MetaData
  blocks_by_root : Block → RpcResponse Block MetaData
  pong : Ping → RpcResponse Block MetaData
  meta_data : MetaData → RpcResponse Block MetaData

pub data ResponseTermination : Type 0 where
  blocks_by_range blocks_by_root : ResponseTermination

pub data RpcResponseErrorCode : Type 0 where
  rate_limited invalid_request server_error resource_unavailable unknown : RpcResponseErrorCode

-- The error message is its bytes.
pub data RpcCodedResponse (Block MetaData : Type 0) : Type 0 where
  success : RpcResponse Block MetaData → RpcCodedResponse Block MetaData
  error : RpcResponseErrorCode → List ℕ → RpcCodedResponse Block MetaData
  stream_termination : ResponseTermination → RpcCodedResponse Block MetaData

-- `RPCResponseErrorCode::as_u8`
unfoldable pub error_code_as_u8 : RpcResponseErrorCode → ℕ
error_code_as_u8 invalid_request = 1
error_code_as_u8 server_error = 2
error_code_as_u8 resource_unavailable = 3
error_code_as_u8 unknown = 255
error_code_as_u8 rate_limited = 139

-- `RPCCodedResponse::is_response`
unfoldable pub is_response : ℕ → Bool
is_response response_code = response_code == 0

module _ {Block MetaData : Type 0} where
  -- `RPCCodedResponse::as_u8`
  unfoldable pub as_u8 : RpcCodedResponse Block MetaData → Option ℕ
  unfolding error_code_as_u8
  as_u8 (success _) = some 0
  as_u8 (error code _) = some (error_code_as_u8 code)
  as_u8 (stream_termination _) = none

  -- `RPCCodedResponse::from_error`
  unfoldable pub from_error : ℕ → List ℕ → RpcCodedResponse Block MetaData
  from_error response_code err =
      if response_code == 1
      then error invalid_request err
      else if response_code == 2
      then error server_error err
      else if response_code == 3
      then error resource_unavailable err
      else if response_code == 139
      then error rate_limited err
      else error unknown err

  -- `RPCCodedResponse::multiple_responses`
  unfoldable pub multiple_responses : RpcCodedResponse Block MetaData → Bool
  multiple_responses (success (status _)) = false
  multiple_responses (success (RpcResponse.blocks_by_range _)) = true
  multiple_responses (success (RpcResponse.blocks_by_root _)) = true
  multiple_responses (success (pong _)) = false
  multiple_responses (success (meta_data _)) = false
  multiple_responses (error _ _) = true
  multiple_responses (stream_termination _) = true

  -- `RPCCodedResponse::close_after`
  unfoldable pub close_after : RpcCodedResponse Block MetaData → Bool
  close_after (success _) = false
  close_after (error _ _) = true
  close_after (stream_termination _) = true
