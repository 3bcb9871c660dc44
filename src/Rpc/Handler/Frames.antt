-- ===== src/Rpc/Handler/Frames.antt =====
-- What each phase of `poll` keeps of the requests that the handler holds.
use consentry.Common.Assoc
use consentry.Common.{
  ℕ, ◌≡◌, ◌≢◌, ◌⊎◌, inl, inr, refl, subst, ◌∙◌, Bool, true, false, Option, none, some, List, [],
  ◌∷◌, ◌++◌, arith, ℕ_discrete,
}
use consentry.Rpc.Messages.{RpcReceived}
use consentry.Rpc.Handler.{
  RpcHandler, InboundInfo, HandlerErr, HandlerEvent, received, failed, OutboundInfo,
  OutboundSubstreamState, closing, request_pending_response,
}
use consentry.Rpc.Handler.Poll.{
  Answers, PollResult, custom, outbound_substream_request, purge_inbound, expire_inbound,
  drive_inbound,
}

-- A substream that has had no answer yet, in a handler that is not deactivated.
abbrev pub awaits : OutboundSubstreamState → Bool
awaits (request_pending_response _) = true
awaits closing = false

abbrev pub IsOpen : {ReqId : Type 0} → ReqId → List (ℕ × OutboundInfo ReqId) → Type 0
IsOpen {ReqId} id m =
    (k : ℕ) × (i : OutboundInfo ReqId) × (Assoc.get ℕ_discrete k m ≡ some i)
    × (awaits i.state ≡ true)
    × (i.req_id ≡ id)

module _ {ReqId Block MetaData : Type 0} where
  -- An event that reports on a request of the application.
  abbrev pub About : ReqId → HandlerEvent ReqId Block MetaData → Type 0
  About id (received (RpcReceived.request _ _)) = ⊥
  About id (received (RpcReceived.response j _)) = j ≡ id
  About id (received (RpcReceived.end_of_stream j _)) = j ≡ id
  About id (failed (HandlerErr.inbound _ _ _)) = ⊥
  About id (failed (HandlerErr.outbound j _ _)) = j ≡ id

  abbrev pub Told : ReqId → List (HandlerEvent ReqId Block MetaData) → Type 0
  Told id [] = ⊥
  Told id (e ∷ es) = About id e ⊎ Told id es

  -- The request has an open substream, or an event about it is to be reported.
  abbrev pub Held : ReqId → RpcHandler ReqId Block MetaData → Type 0
  Held id h = IsOpen id h.outbound_substreams ⊎ Told id h.events_out

  abbrev pub ReportedBy : ReqId → Option (PollResult ReqId Block MetaData) → Type 0
  ReportedBy id (some (custom e)) = About id e
  ReportedBy id _ = ⊥

  abbrev pub OpensNone : Option (PollResult ReqId Block MetaData) → Type 0
  OpensNone (some (outbound_substream_request _ _)) = ⊥
  OpensNone _ = Unit {0}

  pub Told-left :
      (id : ReqId) (xs ys : List (HandlerEvent ReqId Block MetaData))
      → Told id xs
      → Told id (xs ++ ys)
  Told-left id [] ys t = absurd t
  Told-left id (x ∷ xs) ys (inl a) = inl a
  Told-left id (x ∷ xs) ys (inr t) = inr (Told-left id xs ys t)

  pub Told-right :
      (id : ReqId) (xs ys : List (HandlerEvent ReqId Block MetaData))
      → Told id ys
      → Told id (xs ++ ys)
  Told-right id [] ys t = t
  Told-right id (x ∷ xs) ys t = inr (Told-right id xs ys t)

  pub record Phase (h h' : RpcHandler ReqId Block MetaData)
      (r : Option (PollResult ReqId Block MetaData)) : Type 0 where
    pub queue : h'.dial_queue ≡ h.dial_queue
    pub dials : h'.dial_negotiated ≡ h.dial_negotiated
    pub current : h'.current_outbound_substream_id ≡ h.current_outbound_substream_id
    pub no_key :
        (k : ℕ)
        → Assoc.get ℕ_discrete k h.outbound_substreams ≡ none
        → Assoc.get ℕ_discrete k h'.outbound_substreams ≡ none
    pub kept : (id : ReqId) → Held id h → Held id h' ⊎ ReportedBy id r
    pub opens : OpensNone r

  pub Phase-refl : (h : RpcHandler ReqId Block MetaData) → Phase h h none
  Phase-refl h = record {
    queue = refl;
    dials = refl;
    current = refl;
    no_key = λ k e. e;
    kept = λ id x. inl x;
    opens = tt;
  }

  pub Phase-trans :
      {h h' h'' : RpcHandler ReqId Block MetaData} {r : Option (PollResult ReqId Block MetaData)}
      → Phase h h' none
      → Phase h' h'' r
      → Phase h h'' r
  Phase-trans p q = record {
    queue = q.queue ∙ p.queue;
    dials = q.dials ∙ p.dials;
    current = q.current ∙ p.current;
    no_key = λ k e. q.no_key k (p.no_key k e);
    kept = λ id x. elim (p.kept id x) [ inl y ↦ q.kept id y | inr y ↦ absurd y ];
    opens = q.opens;
  }

  expire_inbound-Phase :
      (h : RpcHandler ReqId Block MetaData) (id : ℕ) (o : Option (InboundInfo Block MetaData))
      → Phase h (expire_inbound h id o) none
  expire_inbound-Phase h id none = Phase-refl h
  expire_inbound-Phase h id (some i) = record {
    queue = refl;
    dials = refl;
    current = refl;
    no_key = λ k e. e;
    kept =
        λ id x. elim x [ inl o ↦ inl (inl o) | inr t ↦ inl (inr (Told-left id h.events_out _ t)) ];
    opens = tt;
  }

  pub purge_inbound-Phase :
      (l : List (Option ℕ)) (h : RpcHandler ReqId Block MetaData)
      → Phase h (purge_inbound l h).0 none
  unfolding purge_inbound
  purge_inbound-Phase [] h = Phase-refl h
  purge_inbound-Phase (none ∷ l) h = Phase-refl h
  purge_inbound-Phase (some id ∷ l) h =
      Phase-trans (expire_inbound-Phase h id (Assoc.get ℕ_discrete id h.inbound_substreams))
        (purge_inbound-Phase l _)

  pub drive_inbound-Phase :
      (a : Answers Block MetaData) (h : RpcHandler ReqId Block MetaData)
      → Phase h (drive_inbound a h) none
  unfolding drive_inbound
  drive_inbound-Phase a h = record {
    queue = refl;
    dials = refl;
    current = refl;
    no_key = λ k e. e;
    kept =
        λ id x. elim x [ inl o ↦ inl (inl o) | inr t ↦ inl (inr (Told-left id h.events_out _ t)) ];
    opens = tt;
  }

  -- A phase that touches one substream.
  pub record Touches (h h' : RpcHandler ReqId Block MetaData)
      (r : Option (PollResult ReqId Block MetaData)) (k : ℕ) (i : OutboundInfo ReqId) : Type 0 where
    pub here : Assoc.get ℕ_discrete k h.outbound_substreams ≡ some i
    pub others :
        (j : ℕ)
        → k ≢ j
        → Assoc.get ℕ_discrete j h'.outbound_substreams
          ≡ Assoc.get ℕ_discrete j h.outbound_substreams
    pub queue : h'.dial_queue ≡ h.dial_queue
    pub dials : h'.dial_negotiated ≡ h.dial_negotiated
    pub current : h'.current_outbound_substream_id ≡ h.current_outbound_substream_id
    pub grows : (id : ReqId) → Told id h.events_out → Told id h'.events_out
    pub own : (id : ReqId) → i.req_id ≡ id → awaits i.state ≡ true → Held id h' ⊎ ReportedBy id r
    pub opens : OpensNone r

  Touches-no_key :
      {h h' : RpcHandler ReqId Block MetaData} {r : Option (PollResult ReqId Block MetaData)}
      {k : ℕ} {i : OutboundInfo ReqId}
      → Touches h h' r k i
      → (j : ℕ) → Assoc.get ℕ_discrete j h.outbound_substreams ≡ none
      → Assoc.get ℕ_discrete j h'.outbound_substreams ≡ none
  Touches-no_key {k = k} t j e = elim (ℕ_discrete k j) [
    | yes p ↦ let here = t.here in absurd (ground arith)
    | no n ↦ t.others j n ∙ e
  ]

  Touches-kept :
      {h h' : RpcHandler ReqId Block MetaData} {r : Option (PollResult ReqId Block MetaData)}
      {k : ℕ} {i : OutboundInfo ReqId}
      → Touches h h' r k i
      → (id : ReqId) → Held id h
      → Held id h' ⊎ ReportedBy id r
  Touches-kept t id (inr x) = inl (inr (t.grows id x))
  Touches-kept {k = k} {i = i} t id (inl (j, i', e, w, same)) = elim (ℕ_discrete k j) [
    | yes p ↦
        let here = t.here in
        let own : i' ≡ i = ground arith in
        t.own id (subst (λ x. x.req_id ≡ id) own same) (subst (λ x. awaits x.state ≡ true) own w)
    | no n ↦ inl (inl (j, i', t.others j n ∙ e, w, same))
  ]

  pub Touches-Phase :
      {h h' : RpcHandler ReqId Block MetaData} {r : Option (PollResult ReqId Block MetaData)}
      {k : ℕ} {i : OutboundInfo ReqId}
      → Touches h h' r k i
      → Phase h h' r
  Touches-Phase t = record {
    queue = t.queue;
    dials = t.dials;
    current = t.current;
    no_key = Touches-no_key t;
    kept = Touches-kept t;
    opens = t.opens;
  }
