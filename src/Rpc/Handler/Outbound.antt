-- ===== src/Rpc/Handler/Outbound.antt =====
-- The phases of `poll` that touch the outbound substreams.
use consentry.Common.Assoc
use consentry.Common.{
  ℕ, ◌≡◌, inl, inr, refl, sym, subst, true, Option, none, some, List, [], ◌∷◌, arith, ℕ_discrete,
  Option-cases, Bool-cases,
}
use consentry.Rpc.Methods.{RpcCodedResponse, success, error, ResponseTermination}
use consentry.Rpc.Protocol.{InboundRequest, RpcError}
use consentry.Rpc.Handler.{
  RpcHandler, HandlerErr, failed, OutboundInfo, OutboundSubstreamState, closing,
  request_pending_response, is_deactivated, emit,
}
use consentry.Rpc.Handler.Poll.{
  Answers, PollResult, custom, pending, Next, item, item_error, end, purge_outbound, drive_outbound,
  driven_key, drive_known, drive_state, on_next, drop_outbound, close_outbound, received_response,
  end_report, expected_end, ended_stream, termination_of, left_after, after_response,
}
use consentry.Rpc.Handler.Frames.{
  Phase, Phase-refl, Phase-trans, Touches, Touches-Phase, Told, Told-left, Told-right, About,
  awaits, ReportedBy, OpensNone,
}

module _ {ReqId Block MetaData : Type 0} where
  response-About :
      (i : OutboundInfo ReqId) (m : RpcCodedResponse Block MetaData)
      → About i.req_id (received_response i m)
  response-About i (success x) = refl
  response-About i (error code r) = refl
  response-About i (RpcCodedResponse.stream_termination t) = refl

module _ {ReqId : Type 0} (Block MetaData : Type 0) where
  end-About :
      (i : OutboundInfo ReqId) (req : InboundRequest) (o : Option ResponseTermination)
      → About {Block = Block} {MetaData = MetaData} i.req_id (end_report i req o)
  end-About i req none = refl
  end-About i req (some t) = refl

module _ {ReqId Block MetaData : Type 0} (h : RpcHandler ReqId Block MetaData) (k : ℕ)
    (i : OutboundInfo ReqId) where
  drop-Touches :
      (r : Option (PollResult ReqId Block MetaData))
      → Assoc.get ℕ_discrete k h.outbound_substreams ≡ some i
      → ((id : ReqId) → i.req_id ≡ id → awaits i.state ≡ true → ReportedBy id r)
      → OpensNone r
      → Touches h (drop_outbound h k) r k i
  drop-Touches r here own opens = record {
    here = here;
    others = λ j n. Assoc.get-remove_ne ℕ_discrete k j h.outbound_substreams n;
    queue = refl;
    dials = refl;
    current = refl;
    grows = λ id t. t;
    own = λ id e w. inr (own id e w);
    opens = opens;
  }

  after_response-events :
      (req : InboundRequest) (m : RpcCodedResponse Block MetaData)
      → (after_response h k i req m).events_out ≡ h.events_out
  after_response-events req m = ground arith

  after_response-Touches :
      (req : InboundRequest) (m : RpcCodedResponse Block MetaData)
      → Assoc.get ℕ_discrete k h.outbound_substreams ≡ some i
      → Touches h (after_response h k i req m) (some (custom (received_response i m))) k i
  after_response-Touches req m here = record {
    here = here;
    others = λ j n. ground (
      arith,
      Assoc.get-insert_ne ℕ_discrete k j (record i { state = closing }) h.outbound_substreams n,
      Assoc.get-insert_ne ℕ_discrete k j
          (record i { remaining_chunks = some (left_after i.remaining_chunks) })
          h.outbound_substreams n,
    );
    queue = ground arith;
    dials = ground arith;
    current = ground arith;
    grows = λ id t. subst (Told id) (sym (after_response-events req m)) t;
    own = λ id e w. inr (subst (λ x. About x (received_response i m)) e (response-About i m));
    opens = tt;
  }

  on_next-Phase :
      (req : InboundRequest) (next : Next Block MetaData)
      → Assoc.get ℕ_discrete k h.outbound_substreams ≡ some i
      → Phase h (on_next h k i req next).0 (on_next h k i req next).1
  on_next-Phase req (item m) here = Touches-Phase (after_response-Touches req m here)
  on_next-Phase req end here = Touches-Phase (
      drop-Touches _ here
        (λ id e w.
          subst
            (λ x.
              About {Block = Block} {MetaData = MetaData} x (end_report i req (expected_end req)))
            e (end-About Block MetaData i req (expected_end req)))
        tt)
  on_next-Phase req pending here = Phase-refl h
  on_next-Phase req (item_error x) here = Touches-Phase (drop-Touches _ here (λ id e w. e) tt)

  -- A deactivated handler reports the request and closes its substream.
  disconnect-Touches :
      Assoc.get ℕ_discrete k h.outbound_substreams ≡ some i
      → Touches h
          (emit
            (close_outbound h k i)
            (failed (HandlerErr.outbound i.req_id i.proto RpcError.disconnected)))
          none
          k
          i
  disconnect-Touches here = record {
    here = here;
    others = λ j n.
        Assoc.get-insert_ne ℕ_discrete k j (record i { state = closing }) h.outbound_substreams n;
    queue = refl;
    dials = refl;
    current = refl;
    grows = λ id t. Told-left id h.events_out _ t;
    own = λ id e w. inl (inr (Told-right id h.events_out _ (inl e)));
    opens = tt;
  }

  ended-opens :
      (o : Option ResponseTermination)
      → OpensNone (ended_stream {Block = Block} {MetaData = MetaData} i o)
  ended-opens none = tt
  ended-opens (some t) = tt

  drive_state-Phase :
      (a : Answers Block MetaData) (st : OutboundSubstreamState)
      → i.state ≡ st
      → Assoc.get ℕ_discrete k h.outbound_substreams ≡ some i
      → Phase h (drive_state a h k i st).0 (drive_state a h k i st).1
  drive_state-Phase a (request_pending_response req) e here =
      elim (Bool-cases (is_deactivated h.state)) [
        | inl over ↦ rw over (Touches-Phase (disconnect-Touches here))
        | inr live ↦ rw live (on_next-Phase req (a.outbound_next k) here)
      ]
  drive_state-Phase a closing e here = elim (Bool-cases (a.outbound_close k)) [
    | inl closed ↦ rw closed (
        Touches-Phase (
          drop-Touches (ended_stream i (termination_of i.proto)) here (λ id s w. ground arith)
            (ended-opens (termination_of i.proto))))
    | inr waiting ↦ rw waiting (Phase-refl h)
  ]

module _ {ReqId Block MetaData : Type 0} where
  pub purge_outbound-Phase :
      (l : List (Option ℕ)) (h : RpcHandler ReqId Block MetaData)
      → Phase h (purge_outbound l h).0 (purge_outbound l h).1
  unfolding purge_outbound
  purge_outbound-Phase [] h = Phase-refl h
  purge_outbound-Phase (none ∷ l) h = record {
    queue = refl;
    dials = refl;
    current = refl;
    no_key = λ k e. e;
    kept = λ id x. inl x;
    opens = tt;
  }
  purge_outbound-Phase (some k ∷ l) h =
      elim (Option-cases (Assoc.get ℕ_discrete k h.outbound_substreams)) [
        | inl unknown ↦ rw (unknown, purge_outbound) (purge_outbound-Phase l h)
        | inr (i, here) ↦
            rw (here, purge_outbound)
              (Touches-Phase (record {
                here = here;
                others = λ j n. Assoc.get-remove_ne ℕ_discrete k j h.outbound_substreams n;
                queue = refl;
                dials = refl;
                current = refl;
                grows = λ id t. t;
                own = λ id e w. inr e;
                opens = tt;
              }))
      ]

  driven_key-Phase :
      (a : Answers Block MetaData) (h : RpcHandler ReqId Block MetaData) (k : ℕ)
      → Phase h (driven_key a h k).0 (driven_key a h k).1
  driven_key-Phase a h k = elim (Option-cases (Assoc.get ℕ_discrete k h.outbound_substreams)) [
    | inl unknown ↦ rw (unknown, drive_known) (Phase-refl h)
    | inr (i, here) ↦ rw (here, drive_known) (drive_state-Phase h k i a i.state refl here)
  ]

  pub drive_outbound-Phase :
      (a : Answers Block MetaData) (ks : List ℕ) (h : RpcHandler ReqId Block MetaData)
      → Phase h (drive_outbound a ks h).0 (drive_outbound a ks h).1
  unfolding drive_outbound
  drive_outbound-Phase a [] h = Phase-refl h
  drive_outbound-Phase a (k ∷ ks) h = elim (Option-cases (driven_key a h k).1) [
    | inl quiet ↦
        let one = rw quiet at (driven_key-Phase a h k) in
        rw (quiet, drive_outbound)
          (Phase-trans one (drive_outbound-Phase a ks (driven_key a h k).0))
    | inr (result, e) ↦ let one = rw e at (driven_key-Phase a h k) in rw (e, drive_outbound) one
  ]
