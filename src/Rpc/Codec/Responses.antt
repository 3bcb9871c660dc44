-- ===== src/Rpc/Codec/Responses.antt =====
-- Responses in src/rpc/codec/ssz_snappy.rs: written by the inbound codec, read by the outbound one.
use consentry.Common.{
  ℕ, Bool, false, if◌then◌else◌, ltb, ◌||◌, leb, ◌++◌, length, Option, none, some,
}
use consentry.Common.Result.{Result, ok, err}
use consentry.Common.Text.{Text, codes}
use consentry.Common.Slices.{take, drop}
use consentry.Common.Decimal.{format}
use consentry.Rpc.Methods.{
  RpcResponse, RpcCodedResponse, success, error, stream_termination, RpcResponseErrorCode,
}
use consentry.Rpc.Protocol.{
  Protocol, Version, ProtocolId, RpcError, has_context_bytes, is_out_of_bounds, invalid_data,
  internal_error, error_response,
}
use consentry.PeerManager.PeerInfo.{MetaData}
use consentry.Rpc.Codec.{
  Bytes, IoError, ForkName, Outside, rpc_response_limits, handle_length, handle_error, after_length,
}
use consentry.Rpc.Codec.Requests.{protocol_text, decoded, write_payload}

-- `SSZSnappyOutboundCodec`
pub record OutboundCodec : Type 0 where
  pub protocol : ProtocolId
  pub len : Option ℕ
  pub max_packet_size : ℕ
  pub fork_name : Option ForkName

abbrev pub set_outbound_len : OutboundCodec → Option ℕ → OutboundCodec
set_outbound_len codec len = record codec { len = len }

module _ {Block : Type 0} (o : Outside Block) where
  abbrev meta_data_bytes : Version → MetaData → Bytes
  meta_data_bytes Version.v1 res = o.formats.meta_data_v1.as_ssz_bytes (res.seq_number, res.attnets)
  meta_data_bytes Version.v2 res = elim res.syncnets [
    | some syncnets ↦ o.formats.meta_data_v2.as_ssz_bytes (res.seq_number, res.attnets, syncnets)
    | none ↦
        o.formats.meta_data_v2.as_ssz_bytes
          (res.seq_number, res.attnets, o.formats.default_syncnets)
  ]

  -- A block's bytes are those of its variant.
  abbrev block_bytes : Block → Bytes
  block_bytes b = (o.formats.block_of (o.formats.fork_of b)).as_ssz_bytes b

  unfoldable pub success_bytes : Version → RpcResponse Block MetaData → Bytes
  success_bytes version (RpcResponse.status res) = o.formats.status_message.as_ssz_bytes res
  success_bytes version (RpcResponse.blocks_by_range res) = block_bytes res
  success_bytes version (RpcResponse.blocks_by_root res) = block_bytes res
  success_bytes version (RpcResponse.pong res) = o.formats.u64_number.as_ssz_bytes res.«data»
  success_bytes version (RpcResponse.meta_data res) = meta_data_bytes version res

  -- `None` stands for `unreachable!()`.
  unfoldable pub response_bytes : Version → RpcCodedResponse Block MetaData → Option Bytes
  unfolding success_bytes
  response_bytes version (success resp) = some (success_bytes version resp)
  response_bytes version (error _ message) = some (o.formats.error_type.as_ssz_bytes message)
  response_bytes version (stream_termination _) = none

  abbrev pub fork_context_bytes : ForkName → Option Bytes
  fork_context_bytes ForkName.capella = o.fork_context.to_context_bytes ForkName.capella
  fork_context_bytes ForkName.merge = o.fork_context.to_context_bytes ForkName.merge
  fork_context_bytes ForkName.altair = o.fork_context.to_context_bytes ForkName.altair
  fork_context_bytes ForkName.base = some o.fork_context.genesis_context_bytes

  abbrev block_context : Block → Option Bytes
  block_context b = fork_context_bytes (o.formats.fork_of b)

  abbrev response_context : RpcCodedResponse Block MetaData → Option Bytes
  response_context (success (RpcResponse.blocks_by_range b)) = block_context b
  response_context (success (RpcResponse.blocks_by_root b)) = block_context b
  response_context _ = none

  -- `context_bytes`
  unfoldable pub context_bytes : ProtocolId → RpcCodedResponse Block MetaData → Option Bytes
  context_bytes protocol resp = if has_context_bytes protocol then response_context resp else none

  abbrev extend : Bytes → Option Bytes → Bytes
  extend dst (some bytes) = dst ++ bytes
  extend dst none = dst

  -- `Encoder<RPCCodedResponse>::encode` of a codec with this protocol and `max_packet_size`; `None`
  -- stands for the panic.
  unfoldable pub encode_response :
      ProtocolId
      → ℕ
      → RpcCodedResponse Block MetaData
      → Bytes
      → Option (Bytes × Result RpcError Unit)
  encode_response protocol max_packet_size item dst = elim (response_bytes protocol.version item) [
    | none ↦ none
    | some bytes ↦ some (
        if ltb max_packet_size (length bytes)
        then (dst, err (internal_error (codes "attempting to encode data > max_packet_size")))
        else write_payload o bytes (extend dst (context_bytes protocol item)))
  ]

  abbrev base_block :
      (Block → RpcResponse Block MetaData)
      → Bytes
      → Result RpcError (Option (RpcResponse Block MetaData))
  base_block wrap bytes = decoded (o.formats.block_of ForkName.base) wrap bytes

  -- `handle_v1_response`
  unfoldable pub handle_v1_response :
      Protocol → Bytes → Result RpcError (Option (RpcResponse Block MetaData))
  handle_v1_response Protocol.status bytes =
      decoded o.formats.status_message RpcResponse.status bytes
  handle_v1_response Protocol.goodbye bytes =
      err (invalid_data (codes "Goodbye RPC message has no valid response"))
  handle_v1_response Protocol.blocks_by_range bytes = base_block RpcResponse.blocks_by_range bytes
  handle_v1_response Protocol.blocks_by_root bytes = base_block RpcResponse.blocks_by_root bytes
  handle_v1_response Protocol.ping bytes =
      decoded o.formats.u64_number (λ n. RpcResponse.pong (record { «data» = n })) bytes
  handle_v1_response Protocol.meta_data bytes =
      decoded o.formats.meta_data_v1
        (λ m. RpcResponse.meta_data (record { seq_number = m.0; attnets = m.1; syncnets = none }))
        bytes

  abbrev v2_block :
      Protocol → ForkName → Bytes → Result RpcError (Option (RpcResponse Block MetaData))
  v2_block Protocol.blocks_by_range fork bytes =
      decoded (o.formats.block_of fork) RpcResponse.blocks_by_range bytes
  v2_block Protocol.blocks_by_root fork bytes =
      decoded (o.formats.block_of fork) RpcResponse.blocks_by_root bytes
  v2_block _ fork bytes =
      err (error_response RpcResponseErrorCode.invalid_request (codes "Invalid v2 request"))

  -- `handle_v2_response`: the result, and the fork name, which is taken unless it is metadata.
  unfoldable pub handle_v2_response :
      Protocol
      → Bytes
      → Option ForkName
      → Result RpcError (Option (RpcResponse Block MetaData)) × Option ForkName
  handle_v2_response Protocol.meta_data bytes fork_name = (
    decoded o.formats.meta_data_v2
        (λ m.
          RpcResponse.meta_data (record { seq_number = m.0; attnets = m.1; syncnets = some m.2 }))
        bytes,
    fork_name,
  )
  handle_v2_response protocol bytes (some fork) = (v2_block protocol fork bytes, none)
  handle_v2_response protocol bytes none = (
    err (
        error_response RpcResponseErrorCode.invalid_request
          (codes "No context bytes provided for " ++ protocol_text protocol ++ codes " response")),
    none,
  )

  abbrev pub Outcome : Type 0
  Outcome = Result RpcError (Option (RpcResponse Block MetaData)) × OutboundCodec × Bytes

  -- The response by the protocol's version.
  unfoldable pub handle_response : OutboundCodec → Bytes → Bytes → Outcome
  unfolding handle_v2_response
  handle_response codec bytes src = elim codec.protocol.version [
    | Version.v1 ↦ (handle_v1_response codec.protocol.message_name bytes, codec, src)
    | Version.v2 ↦
        let (result, fork_name) =
          handle_v2_response codec.protocol.message_name bytes codec.fork_name in
        (result, record codec { fork_name = fork_name }, src)
  ]

  unfoldable pub read_response : OutboundCodec → Bytes → ℕ → Result IoError Bytes × ℕ → Outcome
  read_response codec src length (ok bytes, n) =
      handle_response (record codec { len = none }) bytes (drop n src)
  read_response codec src length (err e, n) =
      (handle_error e n (o.snappy.max_compress_len length), codec, src)

  unfoldable pub decode_response_body : OutboundCodec → Bytes → ℕ → Outcome
  decode_response_body codec src length =
      if is_out_of_bounds
        (rpc_response_limits o.sizes o.fork_context.current_fork codec.protocol.message_name) length
        codec.max_packet_size
      then (
        err (invalid_data (codes "RPC response length is out of bounds, length " ++ format length)),
        codec,
        src,
      )
      else read_response codec src length
          (o.snappy.read_exact (take (o.snappy.max_compress_len length) src) length)

  -- The rest of `decode`, behind the context bytes.
  unfoldable pub decode_chunk : OutboundCodec → Bytes → Outcome
  decode_chunk codec src =
      after_length set_outbound_len decode_response_body codec
        (handle_length o.varint codec.len src)

  -- `context_bytes_to_fork_name`
  unfoldable pub context_bytes_to_fork_name : Bytes → Result RpcError ForkName
  context_bytes_to_fork_name bytes = elim (o.fork_context.from_context_bytes bytes) [
    | some fork ↦ ok fork
    | none ↦ err (
        error_response RpcResponseErrorCode.invalid_request
          (codes "Context bytes does not correspond to a valid fork"))
  ]

  abbrev pub awaits_context : OutboundCodec → Bool
  awaits_context codec = elim codec.fork_name [
    | none ↦ has_context_bytes codec.protocol
    | some _ ↦ false
  ]

  abbrev pub decode_named : OutboundCodec → Bytes → Result RpcError ForkName → Outcome
  decode_named codec src (ok fork) = decode_chunk (record codec { fork_name = some fork }) src
  decode_named codec src (err e) = (err e, codec, src)

  -- `SSZSnappyOutboundCodec::decode`
  unfoldable pub decode_response : OutboundCodec → Bytes → Outcome
  decode_response codec src =
      if awaits_context codec
      then (if leb 4 (length src)
          then decode_named codec (drop 4 src) (context_bytes_to_fork_name (take 4 src))
          else (ok none, codec, src))
      else decode_chunk codec src

  abbrev ErrorOutcome : Type 0
  ErrorOutcome = Result RpcError (Option Text) × OutboundCodec × Bytes

  unfoldable pub read_error : OutboundCodec → Bytes → ℕ → Result IoError Bytes × ℕ → ErrorOutcome
  read_error codec src length (ok bytes, n) =
      (decoded o.formats.error_type (λ text. text) bytes, record codec { len = none }, drop n src)
  read_error codec src length (err e, n) =
      (handle_error e n (o.snappy.max_compress_len length), codec, src)

  abbrev pub error_length_out_of_bounds : OutboundCodec → ℕ → Bool
  error_length_out_of_bounds codec length =
      (ltb codec.max_packet_size length || ltb o.sizes.error_type_max length)
      || ltb length o.sizes.error_type_min

  unfoldable pub decode_error_body : OutboundCodec → Bytes → ℕ → ErrorOutcome
  decode_error_body codec src length =
      if error_length_out_of_bounds codec length
      then (
        err (invalid_data (codes "RPC Error length is out of bounds, length " ++ format length)),
        codec,
        src,
      )
      else read_error codec src length
          (o.snappy.read_exact (take (o.snappy.max_compress_len length) src) length)

  -- `SSZSnappyOutboundCodec::decode_error`
  unfoldable pub decode_error : OutboundCodec → Bytes → ErrorOutcome
  decode_error codec src =
      after_length set_outbound_len decode_error_body codec (handle_length o.varint codec.len src)
