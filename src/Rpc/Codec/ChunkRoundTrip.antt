-- ===== src/Rpc/Codec/ChunkRoundTrip.antt =====
-- A chunk, its response code in front, written and read.
use consentry.Common.{
  ℕ, ◌≡◌, ◌<◌, ◌≤◌, inl, inr, refl, ap, ◌∙◌, false, ◌++◌, length, length-append, none, some, arith,
}
use mathlib.Core.List.{append_assoc}
use consentry.Common.Result.{ok}
use consentry.Common.Slices.{take, drop-length}
use consentry.Rpc.Methods.{
  RpcResponse, success, error, stream_termination, RpcResponseErrorCode, as_u8, error_code_as_u8,
  is_response, from_error,
}
use consentry.PeerManager.PeerInfo.{MetaData}
use consentry.Rpc.Protocol.{Version, ProtocolId, RpcLimits, is_out_of_bounds}
use consentry.Rpc.Codec.{Bytes, Outside, rpc_response_limits, handle_length}
use consentry.Rpc.Codec.Responses.{
  success_bytes, response_bytes, context_bytes, decode_response, read_error,
  error_length_out_of_bounds, decode_error_body, decode_error,
}
use consentry.Rpc.Codec.Base.{new_outbound, Chunk, encode_coded, decode_coded}
use consentry.Rpc.Codec.Payload.{write-read, within-bounds}
use consentry.Rpc.Codec.RequestRoundTrip.{decoded-as_ssz_bytes}
use consentry.Rpc.Codec.ResponseRoundTrip.{Carries, received, FitsResponse, codec_of, carried}
use consentry.Rpc.Codec.Chunks.{
  append_assoc3, decode_chunk-reads, decode_response-plain, decode_response-named,
  encode_coded-writes, success-reads, error-reads, chunk_bytes,
}

module _ {Block : Type 0} (o : Outside Block) where
  abbrev response_limits : ProtocolId → RpcLimits
  response_limits id = rpc_response_limits o.sizes o.fork_context.current_fork id.message_name

  -- What is written for a carried response is a chunk, and is read back.
  success_round_trip :
      (id : ProtocolId) (n : ℕ) (r : RpcResponse Block MetaData)
      → n < 4294967296
      → Carries o id.message_name id.version r
      → FitsResponse o id.version r
      → is_out_of_bounds (response_limits id) (length (success_bytes o id.version r)) n ≡ false
      → (written : Bytes) × ((dst : Bytes)
          → encode_coded o id n (success r) dst ≡ some (written, ok tt))
        × ((rest : Bytes)
            → decode_coded o (new_outbound id n) (written ++ rest)
              ≡ (ok (some (success (received o id.version r))), new_outbound id n, rest))
  unfolding chunk_bytes as_u8 response_bytes
  success_round_trip id n r small carries fits bounds =
      let s = success_bytes o id.version r in
      let short = within-bounds (response_limits id) (length s) n bounds in
      let (prefix, frames, some_prefix, wrote, known, reads) = write-read o s (omega arith) in
      elim (carried o id.message_name id.version id.encoding n r carries fits) [
        | inl (no_context, unneeded, handled) ↦ (
          chunk_bytes 0 none prefix frames,
          (λ dst.
              encode_coded-writes o id n 0 (success r) s prefix frames dst refl refl short wrote
              ∙ ap (λ x. some (chunk_bytes 0 x prefix frames, ok tt)) unneeded),
          λ rest.
              success-reads o id n ((prefix ++ frames) ++ rest) rest (received o id.version r)
                (omega (arith, length-append (prefix ++ frames) rest, length-append prefix frames))
                (ap (decode_response o (codec_of o id n none)) (append_assoc prefix frames rest)
                  ∙ (decode_response-plain o id n (prefix ++ (frames ++ rest)) no_context
                      ∙ (decode_chunk-reads o (codec_of o id n none) s prefix frames rest refl
                            bounds (known (frames ++ rest)) (reads rest)
                          ∙ handled rest))),
        )
        | inr (context_read, fork, context, needed, four, back, handled) ↦ (
          chunk_bytes 0 (some context) prefix frames,
          (λ dst.
              encode_coded-writes o id n 0 (success r) s prefix frames dst refl refl short wrote
              ∙ ap (λ x. some (chunk_bytes 0 x prefix frames, ok tt)) needed),
          λ rest.
              success-reads o id n (((context ++ prefix) ++ frames) ++ rest) rest
                (received o id.version r)
                (omega (
                  arith,
                  length-append ((context ++ prefix) ++ frames) rest,
                  length-append (context ++ prefix) frames,
                  length-append context prefix,
                ))
                (ap (decode_response o (codec_of o id n none))
                    (append_assoc3 context prefix frames rest)
                  ∙ (decode_response-named o id n context (prefix ++ (frames ++ rest)) context_read
                        four back
                      ∙ (decode_chunk-reads o (codec_of o id n (some fork)) s prefix frames rest
                            refl bounds (known (frames ++ rest)) (reads rest)
                          ∙ handled rest))),
        )
      ]

  decode_error-reads :
      (id : ProtocolId) (n : ℕ) (message prefix frames rest : Bytes)
      → o.formats.error_type.Fits message
      → error_length_out_of_bounds o
          (codec_of o id n none)
          (length (o.formats.error_type.as_ssz_bytes message))
        ≡ false
      → handle_length o.varint none (prefix ++ (frames ++ rest)) ≡ (
        ok (some (length (o.formats.error_type.as_ssz_bytes message))),
        some (length (o.formats.error_type.as_ssz_bytes message)),
        frames ++ rest,
      )
      → o.snappy.read_exact
          (take
            (o.snappy.max_compress_len (length (o.formats.error_type.as_ssz_bytes message)))
            (frames ++ rest))
          (length (o.formats.error_type.as_ssz_bytes message))
        ≡ (ok (o.formats.error_type.as_ssz_bytes message), length frames)
      → decode_error o (codec_of o id n none) (prefix ++ (frames ++ rest))
        ≡ (ok (some message), codec_of o id n none, rest)
  unfolding decode_error decode_error_body read_error
  decode_error-reads id n message prefix frames rest fits bounds known reads =
      rw
        (
          decode_error,
          known,
          decode_error_body,
          bounds,
          reads,
          read_error,
          drop-length frames rest,
          decoded-as_ssz_bytes o.formats.error_type (λ text. text) message fits,
        )
        refl

  error-code :
      (c : RpcResponseErrorCode) (message : Bytes)
      → (is_response (error_code_as_u8 c) ≡ false)
        × (from_error {Block = Block} {MetaData = MetaData} (error_code_as_u8 c) message
            ≡ error c message)
  unfolding is_response error_code_as_u8 from_error
  error-code c message = (ground arith, ground arith)

  error-context :
      (id : ProtocolId) (c : RpcResponseErrorCode) (message : Bytes)
      → context_bytes o id (error c message) ≡ none
  unfolding context_bytes
  error-context id c message = ground arith

  error_round_trip :
      (id : ProtocolId) (n : ℕ) (c : RpcResponseErrorCode) (message : Bytes)
      → n < 4294967296
      → o.formats.error_type.Fits message
      → error_length_out_of_bounds o
          (codec_of o id n none)
          (length (o.formats.error_type.as_ssz_bytes message))
        ≡ false
      → (written : Bytes) × ((dst : Bytes)
          → encode_coded o id n (error c message) dst ≡ some (written, ok tt))
        × ((rest : Bytes)
            → decode_coded o (new_outbound id n) (written ++ rest)
              ≡ (ok (some (error c message)), new_outbound id n, rest))
  unfolding chunk_bytes as_u8 response_bytes
  error_round_trip id n c message small fits bounds =
      let s = o.formats.error_type.as_ssz_bytes message in
      let short : length s ≤ n = ground arith in
      let (prefix, frames, some_prefix, wrote, known, reads) = write-read o s (omega arith) in
      let (is_error, back) = error-code c message in
      (
        chunk_bytes (error_code_as_u8 c) none prefix frames,
        (λ dst.
            encode_coded-writes o id n (error_code_as_u8 c) (error c message) s prefix frames dst
              refl refl short wrote
            ∙ ap (λ x. some (chunk_bytes (error_code_as_u8 c) x prefix frames, ok tt))
                (error-context id c message)),
        λ rest.
            error-reads o id n (error_code_as_u8 c) ((prefix ++ frames) ++ rest) rest message
              (omega (arith, length-append (prefix ++ frames) rest, length-append prefix frames))
              is_error
              (ap (decode_error o (codec_of o id n none)) (append_assoc prefix frames rest)
                ∙ decode_error-reads id n message prefix frames rest fits bounds
                    (known (frames ++ rest)) (reads rest))
            ∙ ap (λ x. (ok (some x), new_outbound id n, rest)) back,
      )

  -- A response of the protocol in its version, or an error of any code, whose fields are of their SSZ
  -- types and whose bytes are within the limits that the receiver has.
  abbrev pub IsSendable : ProtocolId → ℕ → Chunk o → Type 0
  IsSendable id n (success r) =
      Carries o id.message_name id.version r
      × FitsResponse o id.version r
      × (is_out_of_bounds (response_limits id) (length (success_bytes o id.version r)) n ≡ false)
  IsSendable id n (error c message) =
      o.formats.error_type.Fits message
      × (error_length_out_of_bounds o (codec_of o id n none)
            (length (o.formats.error_type.as_ssz_bytes message))
          ≡ false)
  IsSendable id n (stream_termination _) = ⊥

  -- A chunk as it is read: metadata in the version of the protocol, which is another than what was
  -- sent where that has `syncnets` in version 1 or none in version 2; all else as it was sent.
  abbrev pub chunk_received : Version → Chunk o → Chunk o
  chunk_received v (success r) = success (received o v r)
  chunk_received v (error c message) = error c message
  chunk_received v (stream_termination t) = stream_termination t

  -- Where the largest packet is below 4 GiB: a chunk that can be sent is written without error and
  -- replaces what the buffer held. From what is written, whatever follows, a codec that is new reads a
  -- chunk, leaves what follows, and is as new. The chunk read is the one that was sent, but for
  -- metadata: that comes without `syncnets` by a protocol of version 1, and by one of version 2 with
  -- the default ones where it had none.
  pub chunk_round_trip :
      (id : ProtocolId) (n : ℕ) (item : Chunk o)
      → n < 4294967296
      → IsSendable id n item
      → (written : Bytes) × ((dst : Bytes) → encode_coded o id n item dst ≡ some (written, ok tt))
        × ((rest : Bytes)
            → decode_coded o (new_outbound id n) (written ++ rest)
              ≡ (ok (some (chunk_received id.version item)), new_outbound id n, rest))
  chunk_round_trip id n (success r) small (carries, fits, bounds) =
      success_round_trip id n r small carries fits bounds
  chunk_round_trip id n (error c message) small (fits, bounds) =
      error_round_trip id n c message small fits bounds
  chunk_round_trip id n (stream_termination t) small h = absurd h
