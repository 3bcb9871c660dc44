-- ===== src/Rpc/Codec/Payload.antt =====
-- A payload that is written is read back: its length prefix, then its frames.
use consentry.Common.{
  ℕ, ◌≡◌, ◌<◌, ◌≤◌, refl, ap, ◌∙◌, false, [], ◌∷◌, ◌++◌, length, none, some, arith,
}
use consentry.Common.Result.{ok}
use consentry.Common.Slices.{take, take-append}
use consentry.Rpc.Protocol.{RpcLimits, is_out_of_bounds}
use consentry.Rpc.Codec.{Bytes, Outside, handle_length}
use consentry.Rpc.Codec.Requests.{write_payload}

pub within-bounds :
    (limits : RpcLimits) (n max_packet_size : ℕ)
    → is_out_of_bounds limits n max_packet_size ≡ false
    → n ≤ max_packet_size
unfolding is_out_of_bounds
within-bounds limits n m h = ground arith

module _ {Block : Type 0} (o : Outside Block) where
  -- Nothing of the buffer behind the longest frames is read.
  read_exact-take :
      (s frames rest : Bytes)
      → length frames ≤ o.snappy.max_compress_len (length s)
      → ((r : Bytes) → o.snappy.read_exact (frames ++ r) (length s) ≡ (ok s, length frames))
      → o.snappy.read_exact
          (take (o.snappy.max_compress_len (length s)) (frames ++ rest))
          (length s)
        ≡ (ok s, length frames)
  read_exact-take s frames rest short reads =
      let (r, e) = take-append frames rest (o.snappy.max_compress_len (length s)) short in
      ap (λ t. o.snappy.read_exact t (length s)) e ∙ reads r

  prefix-ne-nil :
      (prefix : Bytes) (n : ℕ)
      → ((rest : Bytes) → o.varint.decode (prefix ++ rest) ≡ ok (some (n, rest)))
      → 0 < length prefix
  prefix-ne-nil [] n back = absurd (grind (arith, back [], o.varint.decode-nil))
  prefix-ne-nil (x ∷ prefix) n back = omega arith

  pub write-read :
      (s : Bytes)
      → length s < 4294967296
      → (prefix frames : Bytes) × (0 < length prefix)
        × ((dst : Bytes) → write_payload o s dst ≡ ((dst ++ prefix) ++ frames, ok tt))
        × ((rest : Bytes)
            → handle_length o.varint none (prefix ++ rest)
              ≡ (ok (some (length s)), some (length s), rest))
        × ((rest : Bytes)
            → o.snappy.read_exact
                (take (o.snappy.max_compress_len (length s)) (frames ++ rest))
                (length s)
              ≡ (ok s, length frames))
  unfolding write_payload handle_length
  write-read s h =
      let (prefix, wrote, back) = o.varint.decode-encode (length s) (omega arith) in
      let (frames, packed, short, reads) = o.snappy.read_exact-compress s h in
      (
        prefix,
        frames,
        prefix-ne-nil prefix (length s) back,
        (λ dst. rw (write_payload, wrote, packed) refl),
        (λ rest. rw (handle_length, back rest) refl),
        λ rest. read_exact-take s frames rest short reads,
      )
