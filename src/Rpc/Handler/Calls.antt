-- ===== src/Rpc/Handler/Calls.antt =====
-- What each call of the handler other than `poll` does to the requests that it holds.
use consentry.Common.Assoc
use consentry.Common.{
  ℕ, ◌<◌, ◌≡◌, ◌⊎◌, inl, inr, refl, ◌∙◌, ltb, Option, none, some, List, [], ◌∷◌, ◌++◌, ℕ_discrete,
  Bool-cases, length,
}
use consentry.Rpc.Methods.{GoodbyeReason, RpcCodedResponse, success, error, stream_termination}
use consentry.Rpc.Protocol.{Protocol, InboundRequest, expected_responses}
use consentry.Rpc.Messages.{RpcReceived}
use consentry.Rpc.Handler.{
  RpcHandler, HandlerEvent, received, InboundInfo, is_active, is_deactivated, emit,
  max_inbound_substreams, drop_request, drop_all, shutdown, send_request, report_error,
  queue_response, send_response,
}
use consentry.Rpc.Handler.Inject.{
  await_responses, shutdown_on_goodbye, accept_request, inject_fully_negotiated_inbound,
}
use consentry.Rpc.Handler.Frames.{Held, Told, Told-left, Told-right}

-- A request of that identifier that expects responses.
abbrev pub Waits : {ReqId : Type 0} → ReqId → List (ReqId × InboundRequest) → Type 0
Waits id [] = ⊥
Waits id ((j, req) ∷ q) = ((j ≡ id) × (0 < expected_responses req)) ⊎ Waits id q

module _ {ReqId : Type 0} (id : ReqId) where
  pub Waits-left : (xs ys : List (ReqId × InboundRequest)) → Waits id xs → Waits id (xs ++ ys)
  Waits-left [] ys w = absurd w
  Waits-left (x ∷ xs) ys (inl w) = inl w
  Waits-left (x ∷ xs) ys (inr w) = inr (Waits-left xs ys w)

  pub Waits-right : (xs ys : List (ReqId × InboundRequest)) → Waits id ys → Waits id (xs ++ ys)
  Waits-right [] ys w = w
  Waits-right (x ∷ xs) ys w = inr (Waits-right xs ys w)

  pub Waits-split :
      (xs ys : List (ReqId × InboundRequest)) → Waits id (xs ++ ys) → Waits id xs ⊎ Waits id ys
  Waits-split [] ys w = inr w
  Waits-split (x ∷ xs) ys (inl w) = inl (inl w)
  Waits-split (x ∷ xs) ys (inr w) = elim (Waits-split xs ys w) [
    | inl a ↦ inl (inr a)
    | inr b ↦ inr b
  ]

module _ {ReqId : Type 0} (Block MetaData : Type 0) where
  drop_all-Told :
      (id : ReqId) (q : List (ReqId × InboundRequest))
      → Waits id q
      → Told {Block = Block} {MetaData = MetaData} id (drop_all q)
  unfolding drop_all
  drop_all-Told id [] w = absurd w
  drop_all-Told id ((j, req) ∷ q) (inl (e, _)) = Told-right id (drop_all q) _ (inl e)
  drop_all-Told id ((j, req) ∷ q) (inr w) = Told-left id (drop_all q) _ (drop_all-Told id q w)

module _ {ReqId Block MetaData : Type 0} where
  -- The request is to be dialed, or the handler holds it.
  abbrev pub Has : ReqId → RpcHandler ReqId Block MetaData → Type 0
  Has id h = Waits id h.dial_queue ⊎ Held id h

  -- A call that opens and closes no outbound substream.
  pub record Calm (h h' : RpcHandler ReqId Block MetaData) : Type 0 where
    pub dials : h'.dial_negotiated ≡ h.dial_negotiated
    pub current : h'.current_outbound_substream_id ≡ h.current_outbound_substream_id
    pub outbound : h'.outbound_substreams ≡ h.outbound_substreams
    pub keeps : (id : ReqId) → Has id h → Has id h'

  Calm-refl : (h : RpcHandler ReqId Block MetaData) → Calm h h
  Calm-refl h = record { dials = refl; current = refl; outbound = refl; keeps = λ id x. x }

  Calm-trans : {h h' h'' : RpcHandler ReqId Block MetaData} → Calm h h' → Calm h' h'' → Calm h h''
  Calm-trans p q = record {
    dials = q.dials ∙ p.dials;
    current = q.current ∙ p.current;
    outbound = q.outbound ∙ p.outbound;
    keeps = λ id x. q.keeps id (p.keeps id x);
  }

  pub emit-Calm :
      (h : RpcHandler ReqId Block MetaData) (e : HandlerEvent ReqId Block MetaData)
      → Calm h (emit h e)
  emit-Calm h e = record {
    dials = refl;
    current = refl;
    outbound = refl;
    keeps = λ id x. elim x [
      | inl w ↦ inl w
      | inr (inl o) ↦ inr (inl o)
      | inr (inr t) ↦ inr (inr (Told-left id h.events_out _ t))
    ];
  }

  pub shutdown-Calm :
      (h : RpcHandler ReqId Block MetaData) (g : Option (ReqId × GoodbyeReason))
      → Calm h (shutdown h g)
  unfolding shutdown
  shutdown-Calm h g = elim (Bool-cases (is_active h.state)) [
    | inl live ↦ rw live (record {
      dials = refl;
      current = refl;
      outbound = refl;
      keeps = λ id x. elim x [
        | inl w ↦
            inr
              (inr (Told-right id h.events_out _ (drop_all-Told Block MetaData id h.dial_queue w)))
        | inr (inl o) ↦ inr (inl o)
        | inr (inr t) ↦ inr (inr (Told-left id h.events_out _ t))
      ];
    })
    | inr done ↦ rw done (Calm-refl h)
  ]

  pub send_request-Calm :
      (h : RpcHandler ReqId Block MetaData) (j : ReqId) (req : InboundRequest)
      → Calm h (send_request h j req)
  unfolding send_request
  send_request-Calm h j req = elim (Bool-cases (is_active h.state)) [
    | inl live ↦ rw live (record {
      dials = refl;
      current = refl;
      outbound = refl;
      keeps = λ id x. elim x [ inl w ↦ inl (Waits-left id h.dial_queue _ w) | inr held ↦ inr held ];
    })
    | inr done ↦ rw done (emit-Calm h (drop_request (j, req)))
  ]

  pub send_request-Has :
      (h : RpcHandler ReqId Block MetaData) (id : ReqId) (req : InboundRequest)
      → 0 < expected_responses req
      → Has id (send_request h id req)
  unfolding send_request
  send_request-Has h id req n = elim (Bool-cases (is_active h.state)) [
    | inl live ↦ rw live (inl (Waits-right id h.dial_queue _ (inl (refl, n))))
    | inr done ↦ rw done (inr (inr (Told-right id h.events_out _ (inl refl))))
  ]

  report_error-Calm :
      (h : RpcHandler ReqId Block MetaData) (k : ℕ) (p : Protocol)
      (m : RpcCodedResponse Block MetaData)
      → Calm h (report_error h k p m)
  report_error-Calm h k p (success x) = Calm-refl h
  report_error-Calm h k p (error c r) = emit-Calm h _
  report_error-Calm h k p (stream_termination t) = Calm-refl h

  pub send_response-Calm :
      (h : RpcHandler ReqId Block MetaData) (k : ℕ) (m : RpcCodedResponse Block MetaData)
      → Calm h (send_response h k m)
  unfolding send_response
  send_response-Calm h k m = queue-Calm (Assoc.get ℕ_discrete k h.inbound_substreams)
    where
      queue-Calm : (o : Option (InboundInfo Block MetaData)) → Calm h (queue_response h k m o)
      queue-Calm none = Calm-refl h
      queue-Calm (some i) = elim (Bool-cases (is_deactivated h.state)) [
        | inl over ↦ rw over (report_error-Calm h k i.protocol m)
        | inr live ↦
            let c = report_error-Calm h k i.protocol m in
            rw live (record {
              dials = c.dials;
              current = c.current;
              outbound = c.outbound;
              keeps = c.keeps;
            })
      ]

  shutdown_on_goodbye-Calm :
      (h : RpcHandler ReqId Block MetaData) (req : InboundRequest)
      → Calm h (shutdown_on_goodbye h req)
  shutdown_on_goodbye-Calm h (InboundRequest.goodbye _) = shutdown-Calm h none
  shutdown_on_goodbye-Calm h _ = Calm-refl h

  accept_request-Calm :
      (h : RpcHandler ReqId Block MetaData) (req : InboundRequest) → Calm h (accept_request h req)
  accept_request-Calm h req =
      let s = shutdown_on_goodbye-Calm h req in
      let c = Calm-trans s (
        emit-Calm (shutdown_on_goodbye h req) (
          received
            (RpcReceived.request (shutdown_on_goodbye h req).current_inbound_substream_id req))) in
      record { dials = c.dials; current = c.current; outbound = c.outbound; keeps = c.keeps }

  await_responses-Calm :
      (h : RpcHandler ReqId Block MetaData) (req : InboundRequest) → Calm h (await_responses h req)
  await_responses-Calm h req = record {
    dials = refl;
    current = refl;
    outbound = refl;
    keeps = λ id x. x;
  }

  pub inbound-Calm :
      (h : RpcHandler ReqId Block MetaData) (req : InboundRequest)
      → Calm h (inject_fully_negotiated_inbound h req)
  unfolding inject_fully_negotiated_inbound
  inbound-Calm h req = elim (Bool-cases (is_active h.state)) [
    | inl live ↦ rw live (elim (Bool-cases (ltb 0 (expected_responses req))) [
      | inl expects ↦
          rw expects (elim (Bool-cases (ltb (length h.inbound_substreams) max_inbound_substreams)) [
            | inl room ↦ rw room (
                Calm-trans (await_responses-Calm h req)
                  (accept_request-Calm (await_responses h req) req))
            | inr full ↦ rw full (Calm-trans (emit-Calm h _) (shutdown-Calm _ none))
          ])
      | inr quiet ↦ rw quiet (accept_request-Calm h req)
    ])
    | inr done ↦ rw done (Calm-refl h)
  ]
