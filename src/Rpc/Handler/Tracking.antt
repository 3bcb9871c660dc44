-- ===== src/Rpc/Handler/Tracking.antt =====
-- Where the requests of the handler of src/rpc/handler.rs are, from call to call.
use consentry.Common.Assoc
use consentry.Common.{
  suc, ◌+◌, ◌<◌, ◌≤◌, ◌≡◌, ◌⊎◌, inl, inr, refl, sym, ap, subst, ◌∙◌, List, ◌∷◌, ◌++◌, arith,
  Bool-cases, length, length-append,
}
use consentry.Rpc.Protocol.{InboundRequest, expected_responses}
use consentry.Rpc.Messages.{RpcSend}
use consentry.Rpc.Handler.{send_request, RpcHandler, max_dial_negotiated}
use consentry.Rpc.Handler.Inject.{inject_event}
use consentry.Rpc.Handler.Poll.{Answers, poll}
use consentry.Rpc.Handler.Frames.{Told, Told-left, Told-right}
use consentry.Rpc.Handler.Polled.{poll-Polled}
use consentry.Rpc.Handler.Swarm.{
  System, Step, inbound, negotiated, upgrade_failed, polled, Reaches, begun, then_step, start, asks,
  opened, events_of, is_retried,
}
use consentry.Rpc.Handler.Calls.{
  Waits, Waits-left, Waits-right, Waits-split, Has, Calm, shutdown-Calm, send_request-Calm,
  send_request-Has, send_response-Calm, inbound-Calm,
}
use consentry.Rpc.Handler.Negotiation.{
  IsFresh, Negotiated, Calm-Fresh, outbound-Negotiated, upgrade-retried, upgrade-failed,
}

module _ {ReqId : Type 0} where
  -- The requests in negotiation without one of them.
  without :
      (id : ReqId) (before after : List (ReqId × InboundRequest)) (j : ReqId) (req : InboundRequest)
      → Waits id (before ++ (j, req) ∷ after)
      → Waits id (before ++ after) ⊎ ((j ≡ id) × (0 < expected_responses req))
  without id before after j req w = elim (Waits-split id before _ w) [
    | inl b ↦ inl (Waits-left id before after b)
    | inr (inl here) ↦ inr here
    | inr (inr a) ↦ inl (Waits-right id before after a)
  ]

  taken_length :
      (before after : List (ReqId × InboundRequest)) (x : ReqId × InboundRequest)
      → length (before ++ x ∷ after) ≡ suc (length (before ++ after))
  taken_length before after x =
      omega (arith, length-append before (x ∷ after), length-append before after)

module _ {ReqId Block MetaData : Type 0} where
  -- A request is in negotiation, with the handler, or reported on.
  abbrev pub Known : ReqId → System ReqId Block MetaData → Type 0
  Known id s = Waits id s.negotiating ⊎ (Has id s.handler ⊎ Told id s.reported)

  pub record Tracks (s : System ReqId Block MetaData) : Type 0 where
    pub fresh : IsFresh s.handler
    pub count : s.handler.dial_negotiated ≡ length s.negotiating + s.retried
    pub capped : s.handler.dial_negotiated ≤ max_dial_negotiated
    pub tracked : (id : ReqId) → Waits id s.asked → Known id s

  -- A call that changes the handler calmly, and nothing else.
  Calm-Known :
      (s : System ReqId Block MetaData) (h : RpcHandler ReqId Block MetaData) (id : ReqId)
      → Calm s.handler h
      → Known id s
      → Waits id s.negotiating ⊎ (Has id h ⊎ Told id s.reported)
  Calm-Known s h id c known = elim known [
    | inl w ↦ inl w
    | inr (inl x) ↦ inr (inl (c.keeps id x))
    | inr (inr t) ↦ inr (inr t)
  ]

  inject_event-Calm :
      (h : RpcHandler ReqId Block MetaData) (e : RpcSend ReqId Block MetaData)
      → Calm h (inject_event h e)
  unfolding inject_event
  inject_event-Calm h (RpcSend.request id req) = send_request-Calm h id req
  inject_event-Calm h (RpcSend.response k m) = send_response-Calm h k m
  inject_event-Calm h (RpcSend.shutdown id reason) = shutdown-Calm h _

  inject_event-Has :
      (h : RpcHandler ReqId Block MetaData) (e : RpcSend ReqId Block MetaData) (id : ReqId)
      → Waits id (asks e)
      → Has id (inject_event h e)
  unfolding inject_event
  inject_event-Has h (RpcSend.request j req) id (inl (e, n)) =
      subst (λ k. Has k (send_request h j req)) e (send_request-Has h j req n)
  inject_event-Has h (RpcSend.request j req) id (inr w) = absurd w
  inject_event-Has h (RpcSend.response k m) id w = absurd w
  inject_event-Has h (RpcSend.shutdown j reason) id w = absurd w

  -- A substream whose negotiation ended leaves the others as they were.
  settled :
      (s : System ReqId Block MetaData) (h : RpcHandler ReqId Block MetaData)
      (before after : List (ReqId × InboundRequest)) (j : ReqId) (req : InboundRequest) (id : ReqId)
      → s.negotiating ≡ before ++ (j, req) ∷ after
      → ((i : ReqId) → Has i s.handler → Has i h)
      → (0 < expected_responses req → Has j h)
      → Known id s
      → Waits id (before ++ after) ⊎ (Has id h ⊎ Told id s.reported)
  settled s h before after j req id taken keeps has known = elim known [
    | inl w ↦ elim (without id before after j req (subst (Waits id) taken w)) [
      | inl other ↦ inl other
      | inr (same, n) ↦ inr (inl (subst (λ k. Has k h) same (has n)))
    ]
    | inr (inl x) ↦ inr (inl (keeps id x))
    | inr (inr t) ↦ inr (inr t)
  ]

  settled-Tracks :
      (s : System ReqId Block MetaData) (h : RpcHandler ReqId Block MetaData)
      (before after : List (ReqId × InboundRequest)) (j : ReqId) (req : InboundRequest)
      → s.negotiating ≡ before ++ (j, req) ∷ after
      → Negotiated s.handler h j req
      → Tracks s
      → Tracks (record s { handler = h; negotiating = before ++ after })
  settled-Tracks s h before after j req taken n t =
      let counts = t.count in
      let bound = t.capped in
      let dials = n.dials in
      let shorter = ap length taken ∙ taken_length before after (j, req) in
      record {
        fresh = n.fresh;
        count = omega arith;
        capped = omega arith;
        tracked = λ id w. settled s h before after j req id taken n.keeps n.has (t.tracked id w);
      }

  retried-Tracks :
      (s : System ReqId Block MetaData) (h : RpcHandler ReqId Block MetaData)
      (before after : List (ReqId × InboundRequest)) (j : ReqId) (req : InboundRequest)
      → s.negotiating ≡ before ++ (j, req) ∷ after
      → Calm s.handler h × (0 < expected_responses req → Has j h)
      → Tracks s
      → Tracks (record s { handler = h; negotiating = before ++ after; retried = suc s.retried })
  retried-Tracks s h before after j req taken (c, has) t =
      let counts = t.count in
      let bound = t.capped in
      let dials = c.dials in
      let shorter = ap length taken ∙ taken_length before after (j, req) in
      record {
        fresh = Calm-Fresh c t.fresh;
        count = omega arith;
        capped = omega arith;
        tracked = λ id w. settled s h before after j req id taken c.keeps has (t.tracked id w);
      }

  polled_Known :
      (s : System ReqId Block MetaData) (a : Answers Block MetaData) (id : ReqId)
      → Known id s
      → let r = (poll a s.handler).1 in
        Waits id (opened r ++ s.negotiating)
        ⊎ (Has id (poll a s.handler).0 ⊎ Told id (events_of r ++ s.reported))
  polled_Known s a id known =
      let p = poll-Polled a s.handler in
      let r = (poll a s.handler).1 in
      elim known [
        | inl w ↦ inl (Waits-right id (opened r) _ w)
        | inr (inl (inl queued)) ↦
            elim (Waits-split id (opened r) _ (subst (Waits id) p.queue queued)) [
              | inl taken ↦ inl (Waits-left id (opened r) _ taken)
              | inr stays ↦ inr (inl (inl stays))
            ]
        | inr (inl (inr held)) ↦ elim (p.kept id held) [
          | inl stays ↦ inr (inl (inr stays))
          | inr now ↦ inr (inr (Told-left id (events_of r) _ now))
        ]
        | inr (inr past) ↦ inr (inr (Told-right id (events_of r) _ past))
      ]

  polled-Tracks :
      (s : System ReqId Block MetaData) (a : Answers Block MetaData)
      → Tracks s
      → Tracks (record s {
        handler = (poll a s.handler).0;
        negotiating = opened (poll a s.handler).1 ++ s.negotiating;
        reported = events_of (poll a s.handler).1 ++ s.reported;
      })
  polled-Tracks s a t =
      let p = poll-Polled a s.handler in
      let r = (poll a s.handler).1 in
      let counts = t.count in
      record {
        fresh = λ k l. let same = p.current in p.no_key k (t.fresh k (omega arith));
        count =
            let dials = p.dials t.capped in omega (arith, length-append (opened r) s.negotiating);
        capped = p.capped t.capped;
        tracked = λ id w. polled_Known s a id (t.tracked id w);
      }

  Step-Tracks : (s u : System ReqId Block MetaData) → Step s u → Tracks s → Tracks u
  Step-Tracks s u (Step.told e e0) t = subst Tracks (sym e0) (
      let c = inject_event-Calm s.handler e in
      record {
        fresh = Calm-Fresh c t.fresh;
        count = c.dials ∙ t.count;
        capped = subst (λ n. n ≤ max_dial_negotiated) (sym c.dials) t.capped;
        tracked = λ id w. elim (Waits-split id (asks e) s.asked w) [
          | inl new ↦ inr (inl (inject_event-Has s.handler e id new))
          | inr old ↦ Calm-Known s _ id c (t.tracked id old)
        ];
      })
  Step-Tracks s u (inbound req e0) t = subst Tracks (sym e0) (
      let c = inbound-Calm s.handler req in
      record {
        fresh = Calm-Fresh c t.fresh;
        count = c.dials ∙ t.count;
        capped = subst (λ n. n ≤ max_dial_negotiated) (sym c.dials) t.capped;
        tracked = λ id w. Calm-Known s _ id c (t.tracked id w);
      })
  Step-Tracks s u (negotiated before after id req taken room e0) t = subst Tracks (sym e0) (
      settled-Tracks s _ before after id req taken
        (outbound-Negotiated s.handler id req t.fresh room) t)
  Step-Tracks s u (upgrade_failed before after id req err taken e0) t =
      subst Tracks (sym e0) (elim (Bool-cases (is_retried s.handler err)) [
        | inl again ↦ rw again (
            retried-Tracks s _ before after id req taken
              (upgrade-retried s.handler id req err again) t)
        | inr over ↦ rw over (
            settled-Tracks s _ before after id req taken
              (upgrade-failed s.handler id req err over t.fresh) t)
      ])
  Step-Tracks s u (polled a e0) t = subst Tracks (sym e0) (polled-Tracks s a t)

  start-Tracks : Tracks start
  unfolding Assoc.get
  start-Tracks = record {
    fresh = λ k l. refl;
    count = refl;
    capped = omega arith;
    tracked = λ id w. absurd w;
  }

  pub Reaches-Tracks : (s : System ReqId Block MetaData) → Reaches s → Tracks s
  Reaches-Tracks _ begun = start-Tracks
  Reaches-Tracks _ (then_step {s} {t} r step) = Step-Tracks s t step (Reaches-Tracks s r)
