-- ===== src/Rpc/Codec/RequestRoundTrip.antt =====
-- A request written by the outbound codec and read by the inbound one.
use consentry.Common.{
  ℕ, ◌≡◌, ◌<◌, ◌≤◌, ◌⊎◌, inl, inr, refl, sym, ap, ◌∙◌, false, List, [], ◌∷◌, ◌++◌, length, none,
  some, Option-cases, arith, le→ltb,
}
use mathlib.Core.List.{append_assoc, append-nil}
use consentry.Common.Result.{ok}
use consentry.Common.Slices.{take, drop-length}
use consentry.Rpc.Methods.{goodbye_to_u64, goodbye_from_u64}
use consentry.Rpc.Methods.Codes.{goodbye_round_trip}
use consentry.Rpc.Protocol.{
  ProtocolId, InboundRequest, protocol, supported_protocols, is_out_of_bounds,
}
use consentry.Rpc.Codec.{Bytes, Ssz, Outside, rpc_request_limits, handle_length}
use consentry.Rpc.Codec.Requests.{
  InboundCodec, request_bytes, encode_request, decoded, handle_v1_request, handle_v2_request,
  handle_request, read_request, decode_body, is_meta_data, decode_request,
}
use consentry.Rpc.Codec.Payload.{write-read, within-bounds}

-- `id` is one of the list.
abbrev pub OneOf : ProtocolId → List ProtocolId → Type 0
OneOf id [] = ⊥
OneOf id (x ∷ []) = id ≡ x
OneOf id (x ∷ y ∷ xs) = (id ≡ x) ⊎ OneOf id (y ∷ xs)

pub decoded-as_ssz_bytes :
    {A B : Type 0} (f : Ssz A) (wrap : A → B) (a : A)
    → f.Fits a
    → decoded f wrap (f.as_ssz_bytes a) ≡ ok (some (wrap a))
unfolding decoded
decoded-as_ssz_bytes f wrap a h = rw (decoded, f.from-as a h) refl

module _ {Block : Type 0} (o : Outside Block) where
  -- The fields of a request are what SSZ can write of their types.
  abbrev pub FitsRequest : InboundRequest → Type 0
  FitsRequest (InboundRequest.status req) = o.formats.status_message.Fits req
  FitsRequest (InboundRequest.goodbye req) = o.formats.u64_number.Fits (goodbye_to_u64 req)
  FitsRequest (InboundRequest.blocks_by_range req) = o.formats.range_request.Fits req
  FitsRequest (InboundRequest.blocks_by_root req) = o.formats.block_roots.Fits req.block_roots
  FitsRequest (InboundRequest.ping req) = o.formats.u64_number.Fits req.«data»
  FitsRequest InboundRequest.meta_data = Unit

  handle_request-bytes :
      (id : ProtocolId) (req : InboundRequest) (bytes : Bytes)
      → OneOf id (supported_protocols req)
      → FitsRequest req
      → request_bytes o req ≡ some bytes
      → handle_request o id bytes ≡ ok (some req)
  unfolding handle_request handle_v1_request handle_v2_request supported_protocols request_bytes
  handle_request-bytes id (InboundRequest.status req) bytes e fits b =
      grind (
        arith,
        e,
        b,
        decoded-as_ssz_bytes o.formats.status_message (InboundRequest.status) req fits,
      )
  handle_request-bytes id (InboundRequest.goodbye req) bytes e fits b = grind (
    arith,
    e,
    b,
    decoded-as_ssz_bytes o.formats.u64_number (λ n. InboundRequest.goodbye (goodbye_from_u64 n))
        (goodbye_to_u64 req) fits,
    goodbye_round_trip req 0,
  )
  handle_request-bytes id (InboundRequest.blocks_by_range req) bytes (inl e) fits b = grind (
    arith,
    e,
    b,
    decoded-as_ssz_bytes o.formats.range_request (InboundRequest.blocks_by_range) req fits,
  )
  handle_request-bytes id (InboundRequest.blocks_by_range req) bytes (inr e) fits b = grind (
    arith,
    e,
    b,
    decoded-as_ssz_bytes o.formats.range_request (InboundRequest.blocks_by_range) req fits,
  )
  handle_request-bytes id (InboundRequest.blocks_by_root req) bytes (inl e) fits b = grind (
    arith,
    e,
    b,
    decoded-as_ssz_bytes o.formats.block_roots
        (λ roots. InboundRequest.blocks_by_root (record { block_roots = roots })) req.block_roots
        fits,
  )
  handle_request-bytes id (InboundRequest.blocks_by_root req) bytes (inr e) fits b = grind (
    arith,
    e,
    b,
    decoded-as_ssz_bytes o.formats.block_roots
        (λ roots. InboundRequest.blocks_by_root (record { block_roots = roots })) req.block_roots
        fits,
  )
  handle_request-bytes id (InboundRequest.ping req) bytes e fits b = grind (
    arith,
    e,
    b,
    o.formats.ping-number req,
    decoded-as_ssz_bytes o.formats.u64_number (λ n. InboundRequest.ping (record { «data» = n }))
        req.«data» fits,
  )
  handle_request-bytes id InboundRequest.meta_data bytes m fits b = cc

  decode_body-reads :
      (c : InboundCodec) (s frames rest : Bytes)
      → is_out_of_bounds
          (rpc_request_limits o.sizes c.protocol.message_name)
          (length s)
          c.max_packet_size
        ≡ false
      → o.snappy.read_exact
          (take (o.snappy.max_compress_len (length s)) (frames ++ rest))
          (length s)
        ≡ (ok s, length frames)
      → decode_body o c (frames ++ rest) (length s)
        ≡ (handle_request o c.protocol s, record c { len = none }, rest)
  unfolding decode_body read_request
  decode_body-reads c s frames rest bounds reads =
      rw (decode_body, bounds, reads, read_request, drop-length frames rest) refl

  decode_request-reads :
      (c : InboundCodec) (s prefix frames rest : Bytes)
      → is_meta_data o c.protocol.message_name ≡ false
      → c.len ≡ none
      → is_out_of_bounds
          (rpc_request_limits o.sizes c.protocol.message_name)
          (length s)
          c.max_packet_size
        ≡ false
      → handle_length o.varint none (prefix ++ (frames ++ rest))
        ≡ (ok (some (length s)), some (length s), frames ++ rest)
      → o.snappy.read_exact
          (take (o.snappy.max_compress_len (length s)) (frames ++ rest))
          (length s)
        ≡ (ok s, length frames)
      → decode_request o c (prefix ++ (frames ++ rest))
        ≡ (handle_request o c.protocol s, record c { len = none }, rest)
  unfolding decode_request
  decode_request-reads c s prefix frames rest plain fresh bounds known reads =
      rw (decode_request, plain, fresh, known)
        (decode_body-reads (record c { len = some (length s) }) s frames rest bounds reads)

  abbrev pub Bounded : ℕ → InboundRequest → Type 0
  Bounded max_packet_size req =
      (bytes : Bytes)
      → request_bytes o req ≡ some bytes
      → is_out_of_bounds (rpc_request_limits o.sizes (protocol req)) (length bytes) max_packet_size
        ≡ false

  offered-protocol :
      (id : ProtocolId) (req : InboundRequest)
      → OneOf id (supported_protocols req)
      → id.message_name ≡ protocol req
  unfolding supported_protocols protocol
  offered-protocol id req h = ground arith

  sent-plain :
      (req : InboundRequest) (bytes : Bytes)
      → request_bytes o req ≡ some bytes
      → is_meta_data o (protocol req) ≡ false
  unfolding request_bytes protocol
  sent-plain req bytes b = ground arith

  written_request :
      (c : InboundCodec) (req : InboundRequest) (bytes : Bytes)
      → c.len ≡ none
      → c.max_packet_size < 4294967296
      → OneOf c.protocol (supported_protocols req)
      → FitsRequest req
      → request_bytes o req ≡ some bytes
      → is_out_of_bounds
          (rpc_request_limits o.sizes (protocol req))
          (length bytes)
          c.max_packet_size
        ≡ false
      → (written : Bytes) × ((dst : Bytes)
          → encode_request o c.max_packet_size req dst ≡ (dst ++ written, ok tt))
        × ((rest : Bytes) → decode_request o c (written ++ rest) ≡ (ok (some req), c, rest))
  unfolding encode_request
  written_request c req bytes fresh small offered fits b bounds =
      let short : length bytes ≤ c.max_packet_size =
        within-bounds _ (length bytes) c.max_packet_size bounds in
      let name = offered-protocol c.protocol req offered in
      let (prefix, frames, _, wrote, known, reads) = write-read o bytes (omega arith) in
      (
        prefix ++ frames,
        (λ dst.
            rw
              (
                encode_request,
                b,
                le→ltb c.max_packet_size (length bytes) short,
                wrote dst,
                append_assoc dst prefix frames,
              )
              refl),
        λ rest. rw (append_assoc prefix frames rest) (
            decode_request-reads c bytes prefix frames rest
              (ap (is_meta_data o) name ∙ sent-plain req bytes b) fresh
              (ap
                  (λ p.
                    is_out_of_bounds (rpc_request_limits o.sizes p) (length bytes)
                      c.max_packet_size)
                  name
                ∙ bounds)
              (known (frames ++ rest)) (reads rest)
            ∙ λ i. (
              handle_request-bytes c.protocol req bytes offered fits b i,
              record c { len = sym fresh i },
              rest,
            )),
      )

  unsent-decoded :
      (c : InboundCodec) (req : InboundRequest) (rest : Bytes)
      → OneOf c.protocol (supported_protocols req)
      → request_bytes o req ≡ none
      → decode_request o c rest ≡ (ok (some req), c, rest)
  unfolding request_bytes decode_request protocol
  unsent-decoded c (InboundRequest.status req) rest offered b = cc
  unsent-decoded c (InboundRequest.goodbye req) rest offered b = cc
  unsent-decoded c (InboundRequest.blocks_by_range req) rest offered b = cc
  unsent-decoded c (InboundRequest.blocks_by_root req) rest offered b = cc
  unsent-decoded c (InboundRequest.ping req) rest offered b = cc
  unsent-decoded c InboundRequest.meta_data rest offered b =
      rw
        (
          decode_request,
          ap (is_meta_data o) (offered-protocol c.protocol InboundRequest.meta_data offered),
        )
        refl

  -- A request that a peer writes under a protocol it offers is what is read of it: the bytes that are
  -- appended are taken from the front of the buffer, and the codec is as before. Its fields are of
  -- their SSZ types, its bytes within the limits, and the largest packet is below 4 GiB.
  pub request_round_trip :
      (c : InboundCodec) (req : InboundRequest)
      → c.len ≡ none
      → c.max_packet_size < 4294967296
      → OneOf c.protocol (supported_protocols req)
      → FitsRequest req
      → Bounded c.max_packet_size req
      → (written : Bytes) × ((dst : Bytes)
          → encode_request o c.max_packet_size req dst ≡ (dst ++ written, ok tt))
        × ((rest : Bytes) → decode_request o c (written ++ rest) ≡ (ok (some req), c, rest))
  unfolding encode_request decode_request
  request_round_trip c req fresh small offered fits bounded =
      elim (Option-cases (request_bytes o req)) [
        | inr (bytes, b) ↦ written_request c req bytes fresh small offered fits b (bounded bytes b)
        | inl none_sent ↦ (
          [],
          (λ dst. rw (encode_request, none_sent, append-nil dst) refl),
          λ rest. unsent-decoded c req rest offered none_sent,
        )
      ]
