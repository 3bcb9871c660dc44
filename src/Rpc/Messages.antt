-- ===== src/Rpc/Messages.antt =====
-- What the behaviour and the handlers of src/rpc/mod.rs tell each other.
use consentry.Common.{ℕ}
use consentry.Rpc.Methods.{GoodbyeReason, RpcResponse, RpcCodedResponse, ResponseTermination}
use consentry.Rpc.Protocol.{InboundRequest}

-- `RPCReceived`
pub data RpcReceived (ReqId Block MetaData : Type 0) : Type 0 where
  request : ℕ → InboundRequest → RpcReceived ReqId Block MetaData
  response : ReqId → RpcResponse Block MetaData → RpcReceived ReqId Block MetaData
  end_of_stream : ReqId → ResponseTermination → RpcReceived ReqId Block MetaData

-- `RPCSend`
pub data RpcSend (ReqId Block MetaData : Type 0) : Type 0 where
  request : ReqId → InboundRequest → RpcSend ReqId Block MetaData
  response : ℕ → RpcCodedResponse Block MetaData → RpcSend ReqId Block MetaData
  shutdown : ReqId → GoodbyeReason → RpcSend ReqId Block MetaData
