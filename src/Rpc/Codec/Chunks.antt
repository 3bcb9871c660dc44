-- ===== src/Rpc/Codec/Chunks.antt =====
-- A chunk's bytes: how they are written, and what each part of them is read as.
use consentry.Common.{
  ℕ, ◌≡◌, ◌<◌, ◌≤◌, inl, inr, refl, sym, ap, ◌∙◌, true, false, le→leb, le→ltb, [], ◌∷◌, ◌++◌,
  length, length-append, Option, none, some, Option-cases, arith,
}
use mathlib.Core.List.{append_assoc}
use consentry.Common.Result.{ok}
use consentry.Common.Slices.{take, drop, drop-length, take-length}
use consentry.Rpc.Methods.{RpcResponse, success, as_u8, is_response, from_error}
use consentry.PeerManager.PeerInfo.{MetaData}
use consentry.Rpc.Protocol.{ProtocolId, has_context_bytes, is_out_of_bounds}
use consentry.Rpc.Codec.{Bytes, ForkName, Outside, rpc_response_limits, handle_length}
use consentry.Rpc.Codec.Requests.{write_payload}
use consentry.Rpc.Codec.Responses.{
  OutboundCodec, response_bytes, context_bytes, encode_response, handle_response, read_response,
  decode_response_body, decode_chunk, context_bytes_to_fork_name, decode_response, decode_error,
}
use consentry.Rpc.Codec.Base.{
  new_outbound, Chunk, encode_coded, as_success, as_error, decode_with, decode_coded,
}
use consentry.Rpc.Codec.ResponseRoundTrip.{codec_of}
use consentry.Rpc.Codec.ResponseResuming.{fresh_code}

pub append_assoc3 : (a b c d : Bytes) → ((a ++ b) ++ c) ++ d ≡ a ++ (b ++ (c ++ d))
append_assoc3 a b c d = append_assoc (a ++ b) c d ∙ append_assoc a b (c ++ d)

-- Where `s` is the SSZ of the item and `context` its context bytes, the chunk is these behind the code.
unfoldable pub chunk_bytes : ℕ → Option Bytes → Bytes → Bytes → Bytes
chunk_bytes code none prefix frames = (code ∷ prefix) ++ frames
chunk_bytes code (some context) prefix frames = ((code ∷ context) ++ prefix) ++ frames

module _ {Block : Type 0} (o : Outside Block) where
  pub decode_chunk-reads :
      (c : OutboundCodec) (s prefix frames rest : Bytes)
      → c.len ≡ none
      → is_out_of_bounds
          (rpc_response_limits o.sizes o.fork_context.current_fork c.protocol.message_name)
          (length s)
          c.max_packet_size
        ≡ false
      → handle_length o.varint none (prefix ++ (frames ++ rest))
        ≡ (ok (some (length s)), some (length s), frames ++ rest)
      → o.snappy.read_exact
          (take (o.snappy.max_compress_len (length s)) (frames ++ rest))
          (length s)
        ≡ (ok s, length frames)
      → decode_chunk o c (prefix ++ (frames ++ rest))
        ≡ handle_response o (record c { len = none }) s rest
  unfolding decode_chunk decode_response_body read_response
  decode_chunk-reads c s prefix frames rest fresh bounds known reads =
      rw
        (
          decode_chunk,
          fresh,
          known,
          decode_response_body,
          bounds,
          reads,
          read_response,
          drop-length frames rest,
        )
        refl

  pub decode_response-plain :
      (id : ProtocolId) (n : ℕ) (s : Bytes)
      → has_context_bytes id ≡ false
      → decode_response o (codec_of o id n none) s ≡ decode_chunk o (codec_of o id n none) s
  unfolding decode_response
  decode_response-plain id n s h = rw (decode_response, h) refl

  pub decode_response-named :
      (id : ProtocolId) (n : ℕ) (bytes s : Bytes) {fork : ForkName}
      → has_context_bytes id ≡ true
      → length bytes ≡ 4
      → o.fork_context.from_context_bytes bytes ≡ some fork
      → decode_response o (codec_of o id n none) (bytes ++ s)
        ≡ decode_chunk o (codec_of o id n (some fork)) s
  unfolding decode_response context_bytes_to_fork_name
  decode_response-named id n bytes s h four back =
      rw
        (
          decode_response,
          h,
          le→leb 4 (length (bytes ++ s)) (omega (arith, length-append bytes s, four)),
          ap (λ k. drop k (bytes ++ s)) (sym four) ∙ drop-length bytes s,
          ap (λ k. take k (bytes ++ s)) (sym four) ∙ take-length bytes s,
          context_bytes_to_fork_name,
          back,
        )
        refl

  pub encode_coded-writes :
      (id : ProtocolId) (n code : ℕ) (item : Chunk o) (s prefix frames dst : Bytes)
      → as_u8 item ≡ some code
      → response_bytes o id.version item ≡ some s
      → length s ≤ n
      → ((dst : Bytes) → write_payload o s dst ≡ ((dst ++ prefix) ++ frames, ok tt))
      → encode_coded o id n item dst
        ≡ some (chunk_bytes code (context_bytes o id item) prefix frames, ok tt)
  unfolding encode_coded encode_response chunk_bytes
  encode_coded-writes id n code item s prefix frames dst a b fits wrote =
      elim (Option-cases (context_bytes o id item)) [
        | inl none_needed ↦
            rw
              (
                encode_coded,
                a,
                encode_response,
                b,
                le→ltb n (length s) fits,
                none_needed,
                wrote (code ∷ []),
              )
              refl
        | inr (context, needed) ↦
            rw
              (
                encode_coded,
                a,
                encode_response,
                b,
                le→ltb n (length s) fits,
                needed,
                wrote ((code ∷ []) ++ context),
              )
              refl
      ]

  pub success-reads :
      (id : ProtocolId) (n : ℕ) (t rest : Bytes) (r : RpcResponse Block MetaData)
      → 0 < length t
      → decode_response o (codec_of o id n none) t ≡ (ok (some r), codec_of o id n none, rest)
      → decode_coded o (new_outbound id n) (0 ∷ t)
        ≡ (ok (some (success r)), new_outbound id n, rest)
  unfolding decode_with new_outbound is_response
  success-reads id n t rest r h d =
      fresh_code o (new_outbound id n) 0 t refl (ground arith) ∙ ap (as_success o 0) d

  pub error-reads :
      (id : ProtocolId) (n code : ℕ) (t rest message : Bytes)
      → 0 < length t
      → is_response code ≡ false
      → decode_error o (codec_of o id n none) t ≡ (ok (some message), codec_of o id n none, rest)
      → decode_coded o (new_outbound id n) (code ∷ t)
        ≡ (ok (some (from_error code message)), new_outbound id n, rest)
  unfolding decode_with new_outbound
  error-reads id n code t rest message h e d =
      fresh_code o (new_outbound id n) code t refl (ground arith)
      ∙ rw (decode_with, e) (ap (as_error o code) d)
