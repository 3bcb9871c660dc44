-- ===== src/Rpc/Codec/Examples.antt =====
-- The codec over the stand-ins.
use consentry.Common.{
  ℕ, ◌+◌, ◌/◌, ◌≡◌, ◌<◌, ◌⊎◌, refl, false, [], ◌∷◌, ◌++◌, length, Option, none, some, arith,
}
use consentry.Common.Result.{ok}
use consentry.Rpc.Methods.{RpcResponse, success, is_response}
use consentry.Rpc.Protocol.{
  Protocol, Version, Encoding, ProtocolId, InboundRequest, is_out_of_bounds, has_context_bytes,
  supported_protocols, protocol,
}
use consentry.PeerManager.PeerInfo.{MetaData}
use consentry.Rpc.Codec.{
  Bytes, ForkName, rpc_request_limits, rpc_response_limits, handle_length, handle_error,
}
use consentry.Rpc.Codec.Requests.{
  InboundCodec, decode_body, read_request, request_bytes, encode_request, decode_request,
}
use consentry.Rpc.Codec.Responses.{success_bytes, decode_response}
use consentry.Rpc.Codec.Base.{decode_with, BaseOutbound, new_outbound, encode_coded, decode_coded}
use consentry.Rpc.Codec.Resuming.{decode_request-resumes}
use consentry.Rpc.Codec.ResponseResuming.{decode_coded-resumes}
use consentry.Rpc.Codec.RequestRoundTrip.{request_round_trip}
use consentry.Rpc.Codec.ResponseRoundTrip.{Carries}
use consentry.Rpc.Codec.ChunkRoundTrip.{chunk_round_trip}
use consentry.Rpc.Codec.Bounds.{decode_request-bounded}
use consentry.Rpc.Codec.StandIns.{TestBlock, sizes, outside}

abbrev id_of : Protocol → Version → ProtocolId
id_of p v = record { message_name = p; version = v; encoding = Encoding.ssz_snappy }

abbrev ping_codec : Option ℕ → InboundCodec
ping_codec len = record {
  protocol = id_of Protocol.ping Version.v1;
  len = len;
  max_packet_size = 1024;
}

abbrev ping_7 : InboundRequest
ping_7 = InboundRequest.ping (record { «data» = 7 })

-- The length of a ping, and nothing behind it.
abbrev length_only : Bytes
length_only = 1 ∷ []

decode_request-length :
    decode_request outside (ping_codec none) (1 ∷ []) ≡ (ok none, ping_codec (some 1), [])
unfolding decode_request handle_length decode_body is_out_of_bounds rpc_request_limits read_request
    handle_error
decode_request-length = refl

decode_request-resumes_example :
    decode_request outside (ping_codec (some 1)) ([] ++ (7 ∷ []))
    ≡ decode_request outside (ping_codec none) ((1 ∷ []) ++ (7 ∷ []))
decode_request-resumes_example =
    decode_request-resumes outside (ping_codec none) (1 ∷ []) (7 ∷ []) {c' = ping_codec (some 1)}
      {s' = []} decode_request-length

decode_request-bounded_example :
    (((ping_codec (some 1)).len ≡ none) × ([] ≡ length_only))
    ⊎ ((n : ℕ) × ((ping_codec (some 1)).len ≡ some n)
        × (is_out_of_bounds (rpc_request_limits sizes Protocol.ping) n 1024 ≡ false)
        × (length {A = ℕ} [] < 32 + n + n / 6))
decode_request-bounded_example =
    decode_request-bounded outside (ping_codec none) (1 ∷ []) (ping_codec (some 1)) []
      decode_request-length

request_round_trip_example :
    (written : Bytes) × ((dst : Bytes)
      → encode_request outside 1024 ping_7 dst ≡ (dst ++ written, ok tt))
    × ((rest : Bytes)
        → decode_request outside (ping_codec none) (written ++ rest)
          ≡ (ok (some ping_7), ping_codec none, rest))
unfolding request_bytes supported_protocols protocol is_out_of_bounds rpc_request_limits
request_round_trip_example =
    request_round_trip outside (ping_codec none) ping_7 refl (omega arith) refl tt
      λ bytes h. ground arith

-- A block of the second fork, in version 2.
abbrev altair_block : RpcResponse TestBlock MetaData
altair_block = RpcResponse.blocks_by_range (ForkName.altair, 9)

abbrev range_v2 : ProtocolId
range_v2 = id_of Protocol.blocks_by_range Version.v2

chunk_round_trip_example :
    (written : Bytes) × ((dst : Bytes)
      → encode_coded outside range_v2 1024 (success altair_block) dst ≡ some (written, ok tt))
    × ((rest : Bytes)
        → decode_coded outside (new_outbound range_v2 1024) (written ++ rest)
          ≡ (ok (some (success altair_block)), new_outbound range_v2 1024, rest))
unfolding is_out_of_bounds rpc_response_limits success_bytes
chunk_round_trip_example =
    chunk_round_trip outside range_v2 1024 (success altair_block) (omega arith)
      (Carries.range_v2 (ForkName.altair, 9) (0 ∷ 0 ∷ 0 ∷ 1 ∷ []) refl, refl, refl)

-- Its response code and the first two context bytes.
abbrev waiting : BaseOutbound
waiting = record {
  inner = record { protocol = range_v2; len = none; max_packet_size = 1024; fork_name = none };
  current_response_code = some 0;
}

decode_coded-context :
    decode_coded outside (new_outbound range_v2 1024) (0 ∷ 0 ∷ 0 ∷ [])
    ≡ (ok none, waiting, 0 ∷ 0 ∷ [])
unfolding decode_coded new_outbound decode_with is_response decode_response has_context_bytes
decode_coded-context = refl

decode_coded-resumes_example :
    decode_coded outside waiting ((0 ∷ 0 ∷ []) ++ (0 ∷ 1 ∷ 1 ∷ 9 ∷ []))
    ≡ decode_coded outside (new_outbound range_v2 1024) ((0 ∷ 0 ∷ 0 ∷ []) ++ (0 ∷ 1 ∷ 1 ∷ 9 ∷ []))
decode_coded-resumes_example =
    decode_coded-resumes outside (new_outbound range_v2 1024) (0 ∷ 0 ∷ 0 ∷ []) (0 ∷ 1 ∷ 1 ∷ 9 ∷ [])
      waiting (0 ∷ 0 ∷ []) decode_coded-context (omega arith)
