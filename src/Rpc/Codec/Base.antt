-- ===== src/Rpc/Codec/Base.antt =====
-- src/rpc/codec/base.rs over ssz_snappy.rs: the response code in front of a chunk. Requests pass
-- through, so that their base codecs are the inner ones.
use consentry.Common.{ℕ, if◌then◌else◌, leb, [], ◌∷◌, length, Option, none, some}
use consentry.Common.Result.{Result, ok, err}
use consentry.Common.Text.{Text}
use consentry.Rpc.Methods.{RpcResponse, RpcCodedResponse, success, as_u8, is_response, from_error}
use consentry.Rpc.Protocol.{ProtocolId, RpcError}
use consentry.PeerManager.PeerInfo.{MetaData}
use consentry.Rpc.Codec.{Bytes, Outside}
use consentry.Rpc.Codec.Responses.{OutboundCodec, encode_response, decode_response, decode_error}

-- `BaseOutboundCodec`
pub record BaseOutbound : Type 0 where
  pub inner : OutboundCodec
  pub current_response_code : Option ℕ

-- `BaseOutboundCodec::new` of `SSZSnappyOutboundCodec::new`
unfoldable pub new_outbound : ProtocolId → ℕ → BaseOutbound
new_outbound protocol max_packet_size = record {
  inner = record {
    protocol = protocol;
    len = none;
    max_packet_size = max_packet_size;
    fork_name = none;
  };
  current_response_code = none;
}

module _ {Block : Type 0} (o : Outside Block) where
  abbrev pub Chunk : Type 0
  Chunk = RpcCodedResponse Block MetaData

  -- `BaseInboundCodec::encode`: what `dst` held is cleared. `None` stands for a panic.
  unfoldable pub encode_coded :
      ProtocolId → ℕ → Chunk → Bytes → Option (Bytes × Result RpcError Unit)
  encode_coded protocol max_packet_size item dst = elim (as_u8 item) [
    | none ↦ none
    | some code ↦ encode_response o protocol max_packet_size item (code ∷ [])
  ]

  abbrev pub Coded : Type 0
  Coded = Result RpcError (Option Chunk) × BaseOutbound × Bytes

  -- The code is forgotten when a chunk is complete.
  abbrev pub as_success :
      ℕ → Result RpcError (Option (RpcResponse Block MetaData)) × OutboundCodec × Bytes → Coded
  as_success code (ok (some resp), inner, src) =
      (ok (some (success resp)), record { inner = inner; current_response_code = none }, src)
  as_success code (ok none, inner, src) =
      (ok none, record { inner = inner; current_response_code = some code }, src)
  as_success code (err e, inner, src) =
      (err e, record { inner = inner; current_response_code = some code }, src)

  abbrev pub as_error : ℕ → Result RpcError (Option Text) × OutboundCodec × Bytes → Coded
  as_error code (ok (some message), inner, src) = (
    ok (some (from_error code message)),
    record { inner = inner; current_response_code = none },
    src,
  )
  as_error code (ok none, inner, src) =
      (ok none, record { inner = inner; current_response_code = some code }, src)
  as_error code (err e, inner, src) =
      (err e, record { inner = inner; current_response_code = some code }, src)

  -- The chunk behind a known code.
  unfoldable pub decode_with : ℕ → OutboundCodec → Bytes → Coded
  decode_with code inner src =
      if is_response code
      then as_success code (decode_response o inner src)
      else as_error code (decode_error o inner src)

  abbrev pub decode_code : BaseOutbound → Option ℕ → Bytes → Coded
  decode_code codec (some code) src = decode_with code codec.inner src
  decode_code codec none (code ∷ src) = decode_with code codec.inner src
  decode_code codec none [] = (ok none, codec, [])

  -- `BaseOutboundCodec::decode`
  unfoldable pub decode_coded : BaseOutbound → Bytes → Coded
  decode_coded codec src =
      if leb (length src) 1
      then (ok none, codec, src)
      else decode_code codec codec.current_response_code src
