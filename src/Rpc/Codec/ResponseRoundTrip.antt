-- ===== src/Rpc/Codec/ResponseRoundTrip.antt =====
-- A response written by the inbound codec and read by the outbound one.
use consentry.Common.{
  ℕ, ◌≡◌, ◌⊎◌, inl, inr, refl, sym, ap, ◌∙◌, Bool, true, false, List, length, Option, none, some,
}
use consentry.Common.Result.{ok}
use consentry.Rpc.Methods.{RpcResponse, success}
use consentry.PeerManager.PeerInfo.{MetaData}
use consentry.Rpc.Protocol.{Protocol, Version, Encoding, ProtocolId, has_context_bytes}
use consentry.Rpc.Codec.{Bytes, ForkName, Outside}
use consentry.Rpc.Codec.Requests.{decoded}
use consentry.Rpc.Codec.Responses.{
  OutboundCodec, success_bytes, fork_context_bytes, context_bytes, handle_v1_response,
  handle_v2_response, handle_response,
}
use consentry.Rpc.Codec.RequestRoundTrip.{decoded-as_ssz_bytes}

module _ {Block : Type 0} (o : Outside Block) where
  -- The responses of a protocol in a version. A block travels in version 1 if it is of the first
  -- fork, in version 2 if the fork has context bytes.
  pub data Carries : Protocol → Version → RpcResponse Block MetaData → Type 0 where
    status : (m : _) → Carries Protocol.status Version.v1 (RpcResponse.status m)
    range_v1 :
        (b : Block)
        → o.formats.fork_of b ≡ ForkName.base
        → Carries Protocol.blocks_by_range Version.v1 (RpcResponse.blocks_by_range b)
    root_v1 :
        (b : Block)
        → o.formats.fork_of b ≡ ForkName.base
        → Carries Protocol.blocks_by_root Version.v1 (RpcResponse.blocks_by_root b)
    range_v2 :
        (b : Block) (bytes : Bytes)
        → o.fork_context.to_context_bytes (o.formats.fork_of b) ≡ some bytes
        → Carries Protocol.blocks_by_range Version.v2 (RpcResponse.blocks_by_range b)
    root_v2 :
        (b : Block) (bytes : Bytes)
        → o.fork_context.to_context_bytes (o.formats.fork_of b) ≡ some bytes
        → Carries Protocol.blocks_by_root Version.v2 (RpcResponse.blocks_by_root b)
    pong : (p : _) → Carries Protocol.ping Version.v1 (RpcResponse.pong p)
    meta_data :
        (v : Version) (m : MetaData) → Carries Protocol.meta_data v (RpcResponse.meta_data m)

  -- Metadata is read in the version of the protocol.
  abbrev pub in_version : Version → MetaData → MetaData
  in_version Version.v1 m = record {
    seq_number = m.seq_number;
    attnets = m.attnets;
    syncnets = none;
  }
  in_version Version.v2 m = record {
    seq_number = m.seq_number;
    attnets = m.attnets;
    syncnets = elim m.syncnets [ some s ↦ some s | none ↦ some o.formats.default_syncnets ];
  }

  abbrev pub received : Version → RpcResponse Block MetaData → RpcResponse Block MetaData
  received v (RpcResponse.meta_data m) = RpcResponse.meta_data (in_version v m)
  received v (RpcResponse.status m) = RpcResponse.status m
  received v (RpcResponse.blocks_by_range b) = RpcResponse.blocks_by_range b
  received v (RpcResponse.blocks_by_root b) = RpcResponse.blocks_by_root b
  received v (RpcResponse.pong p) = RpcResponse.pong p

  abbrev pub FitsMetaData : Version → MetaData → Type 0
  FitsMetaData Version.v1 m = o.formats.meta_data_v1.Fits (m.seq_number, m.attnets)
  FitsMetaData Version.v2 m = elim m.syncnets [
    | some s ↦ o.formats.meta_data_v2.Fits (m.seq_number, m.attnets, s)
    | none ↦ o.formats.meta_data_v2.Fits (m.seq_number, m.attnets, o.formats.default_syncnets)
  ]

  abbrev pub FitsBlock : Block → Type 0
  FitsBlock b = (o.formats.block_of (o.formats.fork_of b)).Fits b

  abbrev pub FitsResponse : Version → RpcResponse Block MetaData → Type 0
  FitsResponse v (RpcResponse.meta_data m) = FitsMetaData v m
  FitsResponse v (RpcResponse.status m) = o.formats.status_message.Fits m
  FitsResponse v (RpcResponse.blocks_by_range b) = FitsBlock b
  FitsResponse v (RpcResponse.blocks_by_root b) = FitsBlock b
  FitsResponse v (RpcResponse.pong p) = o.formats.u64_number.Fits p.«data»

  abbrev pub id_of : Protocol → Version → Encoding → ProtocolId
  id_of p v e = record { message_name = p; version = v; encoding = e }

  abbrev pub codec_of : ProtocolId → ℕ → Option ForkName → OutboundCodec
  codec_of id n fork = record { protocol = id; len = none; max_packet_size = n; fork_name = fork }

  -- What follows from a response that is carried: without context bytes or with those of its fork,
  -- what the payload is read as.
  abbrev pub Plain : ProtocolId → ℕ → RpcResponse Block MetaData → Type 0
  Plain id n r =
      (has_context_bytes id ≡ false)
      × (context_bytes o id (success r) ≡ none)
      × ((rest : Bytes)
          → handle_response o (codec_of id n none) (success_bytes o id.version r) rest
            ≡ (ok (some (received id.version r)), codec_of id n none, rest))

  abbrev pub Named : ProtocolId → ℕ → RpcResponse Block MetaData → Type 0
  Named id n r =
      (has_context_bytes id ≡ true)
      × (fork : ForkName) × (bytes : Bytes) × (context_bytes o id (success r) ≡ some bytes)
      × (length bytes ≡ 4)
      × (o.fork_context.from_context_bytes bytes ≡ some fork)
      × ((rest : Bytes)
          → handle_response o (codec_of id n (some fork)) (success_bytes o id.version r) rest
            ≡ (ok (some (received id.version r)), codec_of id n none, rest))

  fork_context_bytes-to :
      (fork : ForkName) (bytes : Bytes)
      → o.fork_context.to_context_bytes fork ≡ some bytes
      → fork_context_bytes o fork ≡ some bytes
  fork_context_bytes-to ForkName.base bytes h = sym o.fork_context.to-base ∙ h
  fork_context_bytes-to ForkName.altair bytes h = h
  fork_context_bytes-to ForkName.merge bytes h = h
  fork_context_bytes-to ForkName.capella bytes h = h

  base_block-bytes :
      (wrap : Block → RpcResponse Block MetaData) (b : Block)
      → o.formats.fork_of b ≡ ForkName.base
      → FitsBlock b
      → decoded
          (o.formats.block_of ForkName.base)
          wrap
          ((o.formats.block_of (o.formats.fork_of b)).as_ssz_bytes b)
        ≡ ok (some (wrap b))
  base_block-bytes wrap b f fits =
      ap
        (λ k.
          decoded (o.formats.block_of k) wrap
            ((o.formats.block_of (o.formats.fork_of b)).as_ssz_bytes b))
        (sym f)
      ∙ decoded-as_ssz_bytes (o.formats.block_of (o.formats.fork_of b)) wrap b fits

  of_v2 : ℕ × List Bool × List Bool → RpcResponse Block MetaData
  of_v2 x = RpcResponse.meta_data (record { seq_number = x.0; attnets = x.1; syncnets = some x.2 })

  meta_v2-bytes :
      (seq_number : ℕ) (attnets : List Bool) (syncnets : Option (List Bool))
      → FitsMetaData Version.v2
          (record { seq_number = seq_number; attnets = attnets; syncnets = syncnets })
      → decoded o.formats.meta_data_v2 of_v2 (
          success_bytes o Version.v2 (
            RpcResponse.meta_data
              (record { seq_number = seq_number; attnets = attnets; syncnets = syncnets })))
        ≡ ok (
            some (
              RpcResponse.meta_data (
                in_version Version.v2
                  (record { seq_number = seq_number; attnets = attnets; syncnets = syncnets }))))
  unfolding success_bytes of_v2
  meta_v2-bytes n a (some s) fits = decoded-as_ssz_bytes o.formats.meta_data_v2 of_v2 (n, a, s) fits
  meta_v2-bytes n a none fits =
      decoded-as_ssz_bytes o.formats.meta_data_v2 of_v2 (n, a, o.formats.default_syncnets) fits

  pub carried :
      (p : Protocol) (v : Version) (e : Encoding) (n : ℕ) (r : RpcResponse Block MetaData)
      → Carries p v r
      → FitsResponse v r
      → Plain (id_of p v e) n r ⊎ Named (id_of p v e) n r
  unfolding of_v2 handle_response handle_v1_response handle_v2_response has_context_bytes
      context_bytes success_bytes
  carried p v e n r (Carries.status m) fits = inl (
    refl,
    refl,
    λ rest. rw (decoded-as_ssz_bytes o.formats.status_message RpcResponse.status m fits) refl,
  )
  carried p v e n r (Carries.range_v1 b f) fits =
      inl (refl, refl, λ rest. rw (base_block-bytes RpcResponse.blocks_by_range b f fits) refl)
  carried p v e n r (Carries.root_v1 b f) fits =
      inl (refl, refl, λ rest. rw (base_block-bytes RpcResponse.blocks_by_root b f fits) refl)
  carried p v e n r (Carries.range_v2 b bytes f) fits =
      let (four, back) = o.fork_context.from-to (o.formats.fork_of b) bytes f in
      inr (
        refl,
        o.formats.fork_of b,
        bytes,
        fork_context_bytes-to (o.formats.fork_of b) bytes f,
        four,
        back,
        λ rest.
            rw
              (decoded-as_ssz_bytes (o.formats.block_of (o.formats.fork_of b))
                RpcResponse.blocks_by_range b fits)
              refl,
      )
  carried p v e n r (Carries.root_v2 b bytes f) fits =
      let (four, back) = o.fork_context.from-to (o.formats.fork_of b) bytes f in
      inr (
        refl,
        o.formats.fork_of b,
        bytes,
        fork_context_bytes-to (o.formats.fork_of b) bytes f,
        four,
        back,
        λ rest.
            rw
              (decoded-as_ssz_bytes (o.formats.block_of (o.formats.fork_of b))
                RpcResponse.blocks_by_root b fits)
              refl,
      )
  carried p v e n r (Carries.pong m) fits = inl (
    refl,
    refl,
    λ rest.
        rw
          (decoded-as_ssz_bytes {B = RpcResponse Block MetaData} o.formats.u64_number
            (λ k. RpcResponse.pong (record { «data» = k })) m.«data» fits)
          refl,
  )
  carried p v e n r (Carries.meta_data Version.v1 m) fits = inl (
    refl,
    refl,
    λ rest.
        rw
          (decoded-as_ssz_bytes {B = RpcResponse Block MetaData} o.formats.meta_data_v1
            (λ x.
              RpcResponse.meta_data (record { seq_number = x.0; attnets = x.1; syncnets = none }))
            (m.seq_number, m.attnets) fits)
          refl,
  )
  carried p v e n r (Carries.meta_data Version.v2 m) fits =
      inl (refl, refl, λ rest. rw (meta_v2-bytes m.seq_number m.attnets m.syncnets fits) refl)
