-- ===== src/Rpc/Codec/Requests.antt =====
-- Requests in src/rpc/codec/ssz_snappy.rs: written by the outbound codec, read by the inbound one.
use consentry.Common.{
  ℕ, Bool, true, false, if◌then◌else◌, ltb, [], ◌∷◌, ◌++◌, length, Option, none, some,
}
use consentry.Common.Result.{Result, ok, err}
use consentry.Common.Text.{Text, codes}
use consentry.Common.Slices.{take, drop}
use consentry.Common.Decimal.{format}
use consentry.Rpc.Methods.{goodbye_from_u64, goodbye_to_u64, RpcResponseErrorCode}
use consentry.Rpc.Protocol.{
  Protocol, Version, ProtocolId, InboundRequest, RpcError, is_out_of_bounds, invalid_data,
  internal_error, ssz_decode_error, error_response,
}
use consentry.Rpc.Codec.{
  Bytes, IoError, Ssz, Outside, rpc_request_limits, from_io_error, handle_length, handle_error,
  after_length,
}

-- `Display for Protocol`
unfoldable pub protocol_text : Protocol → Text
protocol_text Protocol.status = codes "status"
protocol_text Protocol.goodbye = codes "goodbye"
protocol_text Protocol.blocks_by_range = codes "beacon_blocks_by_range"
protocol_text Protocol.blocks_by_root = codes "beacon_blocks_by_root"
protocol_text Protocol.ping = codes "ping"
protocol_text Protocol.meta_data = codes "metadata"

-- `T::from_ssz_bytes(..)?`, wrapped as the item.
unfoldable pub decoded : {A B : Type 0} → Ssz A → (A → B) → Bytes → Result RpcError (Option B)
decoded f wrap bytes = elim (f.from_ssz_bytes bytes) [
  | ok a ↦ ok (some (wrap a))
  | err e ↦ err (ssz_decode_error e)
]

-- `SSZSnappyInboundCodec`; the varint codec has no state.
pub record InboundCodec : Type 0 where
  pub protocol : ProtocolId
  pub len : Option ℕ
  pub max_packet_size : ℕ

abbrev pub set_len : InboundCodec → Option ℕ → InboundCodec
set_len codec len = record codec { len = len }

module _ {Block : Type 0} (o : Outside Block) where
  -- The length prefix and the frames, in this order, behind what `dst` holds.
  unfoldable pub write_payload : Bytes → Bytes → Bytes × Result RpcError Unit
  write_payload bytes dst = elim (o.varint.encode (length bytes)) [
    | err e ↦ (dst, err (from_io_error e))
    | ok prefix ↦ elim (o.snappy.compress bytes) [
      | err e ↦ (dst ++ prefix, err (from_io_error e))
      | ok frames ↦ ((dst ++ prefix) ++ frames, ok tt)
    ]
  ]

  -- `None` for the metadata request, which has no bytes.
  unfoldable pub request_bytes : InboundRequest → Option Bytes
  request_bytes (InboundRequest.status req) = some (o.formats.status_message.as_ssz_bytes req)
  request_bytes (InboundRequest.goodbye req) =
      some (o.formats.u64_number.as_ssz_bytes (goodbye_to_u64 req))
  request_bytes (InboundRequest.blocks_by_range req) =
      some (o.formats.range_request.as_ssz_bytes req)
  request_bytes (InboundRequest.blocks_by_root req) =
      some (o.formats.block_roots.as_ssz_bytes req.block_roots)
  request_bytes (InboundRequest.ping req) = some (o.formats.ping_as_ssz_bytes req)
  request_bytes InboundRequest.meta_data = none

  -- `Encoder<OutboundRequest>::encode` of a codec with this `max_packet_size`
  unfoldable pub encode_request : ℕ → InboundRequest → Bytes → Bytes × Result RpcError Unit
  encode_request max_packet_size item dst = elim (request_bytes item) [
    | none ↦ (dst, ok tt)
    | some bytes ↦
        if ltb max_packet_size (length bytes)
        then (dst, err (internal_error (codes "attempting to encode data > max_packet_size")))
        else write_payload bytes dst
  ]

  abbrev empty_meta_data : RpcError → Bytes → Result RpcError (Option InboundRequest)
  empty_meta_data e [] = ok (some InboundRequest.meta_data)
  empty_meta_data e (_ ∷ _) = err e

  -- `handle_v1_request`
  unfoldable pub handle_v1_request : Protocol → Bytes → Result RpcError (Option InboundRequest)
  unfolding decoded
  handle_v1_request Protocol.status bytes =
      decoded o.formats.status_message InboundRequest.status bytes
  handle_v1_request Protocol.goodbye bytes =
      decoded o.formats.u64_number (λ n. InboundRequest.goodbye (goodbye_from_u64 n)) bytes
  handle_v1_request Protocol.blocks_by_range bytes =
      decoded o.formats.range_request InboundRequest.blocks_by_range bytes
  handle_v1_request Protocol.blocks_by_root bytes =
      decoded o.formats.block_roots
        (λ roots. InboundRequest.blocks_by_root (record { block_roots = roots })) bytes
  handle_v1_request Protocol.ping bytes =
      decoded o.formats.u64_number (λ n. InboundRequest.ping (record { «data» = n })) bytes
  handle_v1_request Protocol.meta_data bytes =
      empty_meta_data (internal_error (codes "Metadata requests shouldn't reach decoder")) bytes

  abbrev no_version_2 : Protocol → Result RpcError (Option InboundRequest)
  no_version_2 p = err (
      error_response RpcResponseErrorCode.invalid_request
        (protocol_text p ++ codes " does not support version 2"))

  -- `handle_v2_request`
  unfoldable pub handle_v2_request : Protocol → Bytes → Result RpcError (Option InboundRequest)
  unfolding decoded
  handle_v2_request Protocol.blocks_by_range bytes =
      decoded o.formats.range_request InboundRequest.blocks_by_range bytes
  handle_v2_request Protocol.blocks_by_root bytes =
      decoded o.formats.block_roots
        (λ roots. InboundRequest.blocks_by_root (record { block_roots = roots })) bytes
  handle_v2_request Protocol.meta_data bytes =
      empty_meta_data (invalid_data (codes "Metadata request")) bytes
  handle_v2_request p bytes = no_version_2 p

  unfoldable pub handle_request : ProtocolId → Bytes → Result RpcError (Option InboundRequest)
  handle_request id bytes = elim id.version [
    | Version.v1 ↦ handle_v1_request id.message_name bytes
    | Version.v2 ↦ handle_v2_request id.message_name bytes
  ]

  -- What reading the frames of `length` bytes comes to: the buffer must not have more than the
  -- longest frames; on success the length is forgotten and what was read is split off.
  unfoldable pub read_request :
      InboundCodec
      → Bytes
      → ℕ
      → Result IoError Bytes × ℕ
      → Result RpcError (Option InboundRequest) × InboundCodec × Bytes
  read_request codec src length (ok bytes, n) =
      (handle_request codec.protocol bytes, record codec { len = none }, drop n src)
  read_request codec src length (err e, n) =
      (handle_error e n (o.snappy.max_compress_len length), codec, src)

  unfoldable pub decode_body :
      InboundCodec → Bytes → ℕ → Result RpcError (Option InboundRequest) × InboundCodec × Bytes
  decode_body codec src length =
      if is_out_of_bounds (rpc_request_limits o.sizes codec.protocol.message_name) length
        codec.max_packet_size
      then (
        err (invalid_data (codes "RPC request length is out of bounds, length " ++ format length)),
        codec,
        src,
      )
      else read_request codec src length
          (o.snappy.read_exact (take (o.snappy.max_compress_len length) src) length)

  abbrev pub is_meta_data : Protocol → Bool
  is_meta_data Protocol.meta_data = true
  is_meta_data _ = false

  -- `SSZSnappyInboundCodec::decode`
  unfoldable pub decode_request :
      InboundCodec → Bytes → Result RpcError (Option InboundRequest) × InboundCodec × Bytes
  decode_request codec src =
      if is_meta_data codec.protocol.message_name
      then (ok (some InboundRequest.meta_data), codec, src)
      else after_length set_len decode_body codec (handle_length o.varint codec.len src)
