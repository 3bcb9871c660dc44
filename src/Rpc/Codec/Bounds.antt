-- ===== src/Rpc/Codec/Bounds.antt =====
-- How much a request that is not complete can hold.
use consentry.Common.{
  ℕ, ◌≡◌, ◌<◌, ◌⊎◌, inl, inr, refl, sym, ap, ◌∙◌, false, Bool-cases, [], length, Option, none, some,
  arith,
}
use consentry.Common.Result.{Result, ok, err}
use consentry.Common.Slices.{take, length-take_le}
use consentry.Rpc.Protocol.{RpcError, is_out_of_bounds}
use consentry.Rpc.Codec.{
  Bytes, IoError, Outside, rpc_request_limits, handle_length, handle_error, after_length,
}
use consentry.Rpc.Codec.Requests.{
  InboundCodec, set_len, read_request, decode_body, is_meta_data, decode_request,
}
use consentry.Rpc.Codec.Resuming.{handle_request-done, handle_length-waits, handle_length-resumes}

module _ {Block : Type 0} (o : Outside Block) where
  abbrev InBounds : InboundCodec → ℕ → Type 0
  InBounds c n =
      is_out_of_bounds (rpc_request_limits o.sizes c.protocol.message_name) n c.max_packet_size
      ≡ false

  handle_error-waits :
      {A : Type 0} (e : IoError) (position limit : ℕ)
      → handle_error {A = A} e position limit ≡ ok none
      → (text : Bytes) × (e ≡ IoError.unexpected_eof text) × (position < limit)
  unfolding handle_error
  handle_error-waits (IoError.unexpected_eof text) position limit h = (text, refl, ground arith)
  handle_error-waits (IoError.other text) position limit h = cc

  read_request-bounded :
      (c : InboundCodec) (s : Bytes) (n : ℕ) (r : Result IoError Bytes × ℕ) (c' : InboundCodec)
      (s' : Bytes)
      → o.snappy.read_exact (take (o.snappy.max_compress_len n) s) n ≡ r
      → read_request o c s n r ≡ (ok none, c', s')
      → (s' ≡ s) × (c' ≡ c) × (length s < o.snappy.max_compress_len n)
  unfolding read_request
  read_request-bounded c s n (ok bytes, m) c' s' read h =
      absurd (handle_request-done o c.protocol bytes (ap (λ x. x.0) h))
  read_request-bounded c s n (err e, m) c' s' read h =
      let limit = o.snappy.max_compress_len n in
      let (text, is_eof, below) = handle_error-waits e m limit (ap (λ x. x.0) h) in
      let all =
        o.snappy.read_exact-eof (take limit s) n m text (read ∙ ap (λ x. (err x, m)) is_eof) in
      (sym (ap (λ x. x.2) h), sym (ap (λ x. x.1) h), ground (arith, length-take_le limit s))

  body-bounded :
      (c : InboundCodec) (s : Bytes) (n : ℕ) (c' : InboundCodec) (s' : Bytes)
      → decode_body o c s n ≡ (ok none, c', s')
      → InBounds c n × (c' ≡ c) × (length s' < o.snappy.max_compress_len n)
  unfolding decode_body
  body-bounded c s n c' s' h =
      elim (Bool-cases (
        is_out_of_bounds (rpc_request_limits o.sizes c.protocol.message_name) n
          c.max_packet_size)) [
            | inl y ↦ absurd (ground arith)
            | inr bounds ↦
                let (rest, codec, below) =
                  read_request-bounded c s n
                    (o.snappy.read_exact (take (o.snappy.max_compress_len n) s) n) c' s' refl
                    (ground arith) in
                (bounds, codec, ground arith)
          ]

  from-bounded :
      (c : InboundCodec) (s : Bytes) (r : Result RpcError (Option ℕ) × Option ℕ × Bytes)
      (c' : InboundCodec) (s' : Bytes)
      → handle_length o.varint c.len s ≡ r
      → after_length set_len (decode_body o) c r ≡ (ok none, c', s')
      → ((c'.len ≡ none) × (s' ≡ s))
        ⊎ ((n : ℕ) × (c'.len ≡ some n) × InBounds c n × (length s' < o.snappy.max_compress_len n))
  from-bounded c s (err e, len, rest) c' s' h d = cc
  from-bounded c s (ok none, len, rest) c' s' h d =
      let (kept, unread, unknown) = handle_length-waits o.varint c.len s h in
      inl (ap (λ x. x.len) (sym (ap (λ x. x.1) d)) ∙ kept, sym (ap (λ x. x.2) d) ∙ unread)
  from-bounded c s (ok (some n), len, rest) c' s' h d =
      let (bounds, codec, below) = body-bounded (set_len c len) rest n c' s' d in
      let (kept, again) = handle_length-resumes o.varint c.len s [] h in
      inr (n, ap (λ x. x.len) codec ∙ kept, bounds, below)

  -- While a request is waited for, either no length is kept and the buffer is as it came, or a length
  -- is kept, it is within the limits of the protocol and of the codec, and what is left in the
  -- buffer is shorter than the longest frames of that length.
  pub decode_request-bounded :
      (c : InboundCodec) (s : Bytes) (c' : InboundCodec) (s' : Bytes)
      → decode_request o c s ≡ (ok none, c', s')
      → ((c'.len ≡ none) × (s' ≡ s))
        ⊎ ((n : ℕ) × (c'.len ≡ some n)
            × (is_out_of_bounds
                  (rpc_request_limits o.sizes c.protocol.message_name)
                  n
                  c.max_packet_size
                ≡ false)
            × (length s' < o.snappy.max_compress_len n))
  unfolding decode_request
  decode_request-bounded c s c' s' h = elim (Bool-cases (is_meta_data o c.protocol.message_name)) [
    | inl y ↦ absurd (ground arith)
    | inr n ↦ from-bounded c s (handle_length o.varint c.len s) c' s' refl (ground arith)
  ]
