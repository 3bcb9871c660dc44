-- ===== src/Rpc/Handler/Negotiation.antt =====
-- What the end of a negotiation does to the requests that the handler holds.
use consentry.Common.Assoc
use consentry.Common.{
  ℕ, ◌+◌, ◌<◌, ◌≤◌, ◌≡◌, inl, inr, refl, ◌∙◌, ltb, u32_pred, u64_mod, u8, true, false, none, arith,
  ℕ_discrete, Bool-cases, if◌then◌else◌,
}
use consentry.Rpc.Protocol.{InboundRequest, expected_responses, protocol}
use consentry.Rpc.Handler.{
  RpcHandler, OutboundInfo, request_pending_response, is_deactivated, emit, drop_request,
  UpgradeErr, io_error_retries, is_io_error,
}
use consentry.Rpc.Handler.Inject.{
  await_peer, several, inject_fully_negotiated_outbound, fail_dial, inject_dial_upgrade_error,
}
use consentry.Rpc.Handler.Swarm.{is_retried}
use consentry.Rpc.Handler.Frames.{Told-left, Told-right}
use consentry.Rpc.Handler.Calls.{Has, Calm, emit-Calm, send_request-Calm, send_request-Has}

module _ {ReqId Block MetaData : Type 0} where
  -- Keys from the next one on are free.
  abbrev pub IsFresh : RpcHandler ReqId Block MetaData → Type 0
  IsFresh h =
      (k : ℕ)
      → h.current_outbound_substream_id ≤ k
      → Assoc.get ℕ_discrete k h.outbound_substreams ≡ none

  -- A negotiated substream: what it keeps, and where its request goes.
  pub record Negotiated (h h' : RpcHandler ReqId Block MetaData) (j : ReqId) (req : InboundRequest)
      : Type 0 where
    pub dials : h'.dial_negotiated ≡ u32_pred h.dial_negotiated
    pub fresh : IsFresh h'
    pub keeps : (id : ReqId) → Has id h → Has id h'
    pub has : 0 < expected_responses req → Has j h'

  await_peer-Negotiated :
      (h : RpcHandler ReqId Block MetaData) (j : ReqId) (req : InboundRequest)
      → IsFresh h
      → h.current_outbound_substream_id + 1 < u64_mod
      → let h' = await_peer h j req in IsFresh h' × ((id : ReqId) → Has id h → Has id h') × Has j h'
  await_peer-Negotiated h j req fresh room =
      let c = h.current_outbound_substream_id in
      let info : OutboundInfo ReqId = record {
        state = request_pending_response req;
        proto = protocol req;
        remaining_chunks = several (expected_responses req);
        req_id = j;
      } in
      (
        λ k l.
            Assoc.get-insert_ne ℕ_discrete c k info h.outbound_substreams (λ e. ground arith)
            ∙ fresh k (omega arith),
        λ id x. elim x [
          | inl w ↦ inl w
          | inr (inl (k, i, held, w, same)) ↦ inr (
              inl (
                k,
                i,
                Assoc.get-insert_ne ℕ_discrete c k info h.outbound_substreams
                      (λ e. let free = fresh k (omega arith) in grind arith)
                    ∙ held,
                w,
                same,
              ))
          | inr (inr t) ↦ inr (inr t)
        ],
        inr (
            inl
              (c, info, Assoc.get-insert_self ℕ_discrete c info h.outbound_substreams, refl, refl)),
      )

  -- A handler whose substreams are as those of the one before but for the counter.
  outbound_told :
      (h t : RpcHandler ReqId Block MetaData) (j : ReqId) (req : InboundRequest)
      → IsFresh h
      → h.current_outbound_substream_id + 1 < u64_mod
      → t.dial_negotiated ≡ u32_pred h.dial_negotiated
      → t.current_outbound_substream_id ≡ h.current_outbound_substream_id
      → t.outbound_substreams ≡ h.outbound_substreams
      → ((id : ReqId) → Has id h → Has id t)
      → Negotiated h (if ltb 0 (expected_responses req) then await_peer t j req else t) j req
  outbound_told h t j req fresh room dials current streams keeps =
      let free : IsFresh t = λ k l. rw streams (fresh k (omega arith)) in
      elim (Bool-cases (ltb 0 (expected_responses req))) [
        | inl expects ↦
            let (f, k, has) = await_peer-Negotiated t j req free (omega arith) in
            rw expects (record {
              dials = dials;
              fresh = f;
              keeps = λ id x. k id (keeps id x);
              has = λ _. has;
            })
        | inr quiet ↦
            rw quiet
              (record { dials = dials; fresh = free; keeps = keeps; has = λ n. ground arith })
      ]

  pub outbound-Negotiated :
      (h : RpcHandler ReqId Block MetaData) (j : ReqId) (req : InboundRequest)
      → IsFresh h
      → h.current_outbound_substream_id + 1 < u64_mod
      → Negotiated h (inject_fully_negotiated_outbound h j req) j req
  unfolding inject_fully_negotiated_outbound
  outbound-Negotiated h j req fresh room =
      let counted = record h { dial_negotiated = u32_pred h.dial_negotiated } in
      elim (Bool-cases (is_deactivated h.state)) [
        | inl over ↦
            let c = emit-Calm counted (drop_request (j, req)) in
            rw over (
              outbound_told h (emit counted (drop_request (j, req))) j req fresh room refl refl refl
                (λ id x. c.keeps id x))
        | inr live ↦ rw live (outbound_told h counted j req fresh room refl refl refl (λ id x. x))
      ]

  pub Calm-Fresh : {h h' : RpcHandler ReqId Block MetaData} → Calm h h' → IsFresh h → IsFresh h'
  Calm-Fresh c fresh k l = let e = c.current in rw c.outbound (fresh k (omega arith))

  fail_dial-Negotiated :
      (h : RpcHandler ReqId Block MetaData) (j : ReqId) (req : InboundRequest) (err : UpgradeErr)
      → IsFresh h
      → Negotiated h (fail_dial h j req err) j req
  fail_dial-Negotiated h j req err fresh = record {
    dials = refl;
    fresh = fresh;
    keeps = λ id x. elim x [
      | inl w ↦ inl w
      | inr (inl o) ↦ inr (inl o)
      | inr (inr t) ↦ inr (inr (Told-left id h.events_out _ t))
    ];
    has = λ _. inr (inr (Told-right j h.events_out _ (inl refl)));
  }

  -- A dial that is retried leaves the counter as it is.
  pub upgrade-retried :
      (h : RpcHandler ReqId Block MetaData) (j : ReqId) (req : InboundRequest) (err : UpgradeErr)
      → is_retried h err ≡ true
      → Calm h (inject_dial_upgrade_error h j req err)
        × (0 < expected_responses req → Has j (inject_dial_upgrade_error h j req err))
  unfolding inject_dial_upgrade_error
  upgrade-retried h j req err again =
      let h' = record h { outbound_io_error_retries = u8 (h.outbound_io_error_retries + 1) } in
      let c = send_request-Calm h' j req in
      let io : is_io_error err ≡ true = ground arith in
      let few : ltb (u8 (h.outbound_io_error_retries + 1)) io_error_retries ≡ true = ground arith in
      rw (io, few)
        (
          record { dials = c.dials; current = c.current; outbound = c.outbound; keeps = c.keeps },
          λ n. send_request-Has h' j req n,
        )

  pub upgrade-failed :
      (h : RpcHandler ReqId Block MetaData) (j : ReqId) (req : InboundRequest) (err : UpgradeErr)
      → is_retried h err ≡ false
      → IsFresh h
      → Negotiated h (inject_dial_upgrade_error h j req err) j req
  unfolding inject_dial_upgrade_error
  upgrade-failed h j req err over fresh = elim (Bool-cases (is_io_error err)) [
    | inl io ↦
        let many : ltb (u8 (h.outbound_io_error_retries + 1)) io_error_retries ≡ false =
          ground arith in
        let n =
          fail_dial-Negotiated
            (record h { outbound_io_error_retries = u8 (h.outbound_io_error_retries + 1) }) j req
            err fresh in
        rw (io, many) (record { dials = n.dials; fresh = n.fresh; keeps = n.keeps; has = n.has })
    | inr other ↦ rw other (fail_dial-Negotiated h j req err fresh)
  ]
