-- ===== src/Rpc/Handler/Polled.antt =====
-- What one `poll` does to the requests that the handler holds and to its count of dials.
use consentry.Common.Assoc
use consentry.Common.{
  ℕ, ◌+◌, ◌≤◌, ◌≡◌, ◌⊎◌, inl, inr, refl, sym, subst, ◌∙◌, ltb, true, false, ◌&&◌, none, some, List,
  [], ◌∷◌, ◌++◌, arith, length, ℕ_discrete, Option-cases, Bool-cases, List-cases,
}
use consentry.Rpc.Protocol.{InboundRequest, RpcError}
use consentry.Rpc.Handler.{RpcHandler, HandlerEvent, HandlerState, max_dial_negotiated}
use consentry.Rpc.Handler.Poll.{
  Answers, PollResult, custom, close, outbound_substream_request, pending, purge_inbound,
  purge_outbound, drive_outbound, keys, idle_result, establish, poll_outbound, poll_expired,
  poll_streams, is_shutting_down, poll,
}
use consentry.Rpc.Handler.Frames.{
  Phase, Phase-trans, Held, Told, About, ReportedBy, OpensNone, purge_inbound-Phase,
  drive_inbound-Phase,
}
use consentry.Rpc.Handler.Outbound.{purge_outbound-Phase, drive_outbound-Phase}
use consentry.Rpc.Handler.Swarm.{opened, events_of}

module _ {ReqId Block MetaData : Type 0} where
  pub record Polled (h h' : RpcHandler ReqId Block MetaData) (r : PollResult ReqId Block MetaData)
      : Type 0 where
    pub queue : h.dial_queue ≡ opened r ++ h'.dial_queue
    pub dials :
        h.dial_negotiated ≤ max_dial_negotiated
        → h'.dial_negotiated ≡ length (opened r) + h.dial_negotiated
    pub capped : h.dial_negotiated ≤ max_dial_negotiated → h'.dial_negotiated ≤ max_dial_negotiated
    pub current : h'.current_outbound_substream_id ≡ h.current_outbound_substream_id
    pub no_key :
        (k : ℕ)
        → Assoc.get ℕ_discrete k h.outbound_substreams ≡ none
        → Assoc.get ℕ_discrete k h'.outbound_substreams ≡ none
    pub kept : (id : ReqId) → Held id h → Held id h' ⊎ Told id (events_of r)

  -- A result that opens no substream.
  quiet-Polled :
      (h h' : RpcHandler ReqId Block MetaData) (r : PollResult ReqId Block MetaData)
      → opened r ≡ []
      → h'.dial_queue ≡ h.dial_queue
      → h'.dial_negotiated ≡ h.dial_negotiated
      → h'.current_outbound_substream_id ≡ h.current_outbound_substream_id
      → ((k : ℕ)
          → Assoc.get ℕ_discrete k h.outbound_substreams ≡ none
          → Assoc.get ℕ_discrete k h'.outbound_substreams ≡ none)
      → ((id : ReqId) → Held id h → Held id h' ⊎ Told id (events_of r))
      → Polled h h' r
  quiet-Polled h h' r quiet queue dials current no_key kept = record {
    queue = rw quiet (sym queue);
    dials = λ l. rw quiet (omega arith);
    capped = λ l. omega arith;
    current = current;
    no_key = no_key;
    kept = kept;
  }

  OpensNone-opened : (r : PollResult ReqId Block MetaData) → OpensNone (some r) → opened r ≡ []
  OpensNone-opened (custom e) o = refl
  OpensNone-opened (close e) o = refl
  OpensNone-opened pending o = refl
  OpensNone-opened (outbound_substream_request _ _) o = absurd o

  ReportedBy-Told :
      (id : ReqId) (r : PollResult ReqId Block MetaData)
      → ReportedBy id (some r)
      → Told id (events_of r)
  ReportedBy-Told id (custom e) t = inl t
  ReportedBy-Told id (close e) t = absurd t
  ReportedBy-Told id pending t = absurd t
  ReportedBy-Told id (outbound_substream_request _ _) t = absurd t

  Phase-Polled :
      (h h' : RpcHandler ReqId Block MetaData) (r : PollResult ReqId Block MetaData)
      → Phase h h' (some r)
      → Polled h h' r
  Phase-Polled h h' r p =
      quiet-Polled h h' r (OpensNone-opened r p.opens) p.queue p.dials p.current p.no_key
        (λ id x. elim (p.kept id x) [ inl y ↦ inl y | inr y ↦ inr (ReportedBy-Told id r y) ])

  still-Polled :
      (h h' : RpcHandler ReqId Block MetaData) (r : PollResult ReqId Block MetaData)
      → opened r ≡ []
      → Phase h h' none
      → Polled h h' r
  still-Polled h h' r quiet p =
      quiet-Polled h h' r quiet p.queue p.dials p.current p.no_key
        (λ id x. elim (p.kept id x) [ inl y ↦ inl y | inr y ↦ absurd y ])

  idle_result-opened :
      (h : RpcHandler ReqId Block MetaData) (s : HandlerState) → opened (idle_result h s) ≡ []
  idle_result-opened h s = ground arith

  establish-Polled :
      (h h' : RpcHandler ReqId Block MetaData) (q : List (ReqId × InboundRequest))
      → h'.dial_queue ≡ q
      → Phase h h' none
      → Polled h (establish h' q).0 (establish h' q).1
  establish-Polled h h' [] e p = still-Polled h h' _ (idle_result-opened h' h'.state) p
  establish-Polled h h' ((id, req) ∷ rest) e p =
      elim (Bool-cases (ltb h'.dial_negotiated max_dial_negotiated)) [
        | inl room ↦
            let same = p.dials in
            rw room (record {
              queue = sym p.queue ∙ e;
              dials = λ l. ground arith;
              capped = λ l. ground arith;
              current = p.current;
              no_key = p.no_key;
              kept = λ j x. elim (p.kept j x) [ inl y ↦ inl y | inr y ↦ absurd y ];
            })
        | inr full ↦ rw full (still-Polled h h' _ (idle_result-opened h' h'.state) p)
      ]

module _ {ReqId Block MetaData : Type 0} (a : Answers Block MetaData)
    (h : RpcHandler ReqId Block MetaData) where
  poll_outbound-Polled :
      (h' : RpcHandler ReqId Block MetaData)
      → Phase h h' none
      → Polled h (poll_outbound a h').0 (poll_outbound a h').1
  poll_outbound-Polled h' p = elim (Option-cases (drive_outbound a (keys h') h').1) [
    | inl quiet ↦
        let driven = rw quiet at (drive_outbound-Phase a (keys h') h') in
        rw (quiet, poll_outbound)
          (establish-Polled h (drive_outbound a (keys h') h').0 _ refl (Phase-trans p driven))
    | inr (result, e) ↦
        let driven = rw e at (drive_outbound-Phase a (keys h') h') in
        rw (e, poll_outbound) (Phase-Polled h _ result (Phase-trans p driven))
  ]

  poll_expired-Polled :
      (h' : RpcHandler ReqId Block MetaData)
      → Phase h h' none
      → Polled h (poll_expired a h').0 (poll_expired a h').1
  poll_expired-Polled h' p = elim (Option-cases (purge_outbound a.outbound_expired h').1) [
    | inl quiet ↦
        let purged = rw quiet at (purge_outbound-Phase a.outbound_expired h') in
        rw (quiet, poll_expired)
          (poll_outbound-Polled _ (Phase-trans (Phase-trans p purged) (drive_inbound-Phase a _)))
    | inr (result, e) ↦
        let purged = rw e at (purge_outbound-Phase a.outbound_expired h') in
        rw (e, poll_expired) (Phase-Polled h _ result (Phase-trans p purged))
  ]

  poll_streams-Polled : Polled h (poll_streams a h).0 (poll_streams a h).1
  poll_streams-Polled = elim (Bool-cases (purge_inbound a.inbound_expired h).1) [
    | inl broken ↦
        rw (broken, poll_streams)
          (still-Polled h _ _ refl (purge_inbound-Phase a.inbound_expired h))
    | inr fine ↦
        rw (fine, poll_streams) (poll_expired-Polled _ (purge_inbound-Phase a.inbound_expired h))
  ]

  pub poll-reports :
      (e : HandlerEvent ReqId Block MetaData) (es : List (HandlerEvent ReqId Block MetaData))
      → h.events_out ≡ e ∷ es
      → poll a h ≡ (record h { events_out = es }, custom e)
  unfolding poll
  poll-reports e es first = ground arith

  pub poll-deactivates :
      h.events_out ≡ []
      → is_shutting_down h.state && a.shutdown_timer ≡ true
      → poll a h ≡ (record h { state = HandlerState.deactivated }, close RpcError.disconnected)
  unfolding poll
  poll-deactivates quiet over = ground arith

  poll-streams :
      h.events_out ≡ []
      → is_shutting_down h.state && a.shutdown_timer ≡ false
      → poll a h ≡ poll_streams a h
  unfolding poll
  poll-streams quiet going = ground arith

  first_Told :
      (e : HandlerEvent ReqId Block MetaData) (es : List (HandlerEvent ReqId Block MetaData))
      (id : ReqId)
      → h.events_out ≡ e ∷ es
      → Told id h.events_out
      → Told id es ⊎ About id e
  first_Told e es id first t = elim (subst (Told id) first t) [ inl x ↦ inr x | inr x ↦ inl x ]

  -- What one poll keeps, whatever it is answered.
  pub poll-Polled : Polled h (poll a h).0 (poll a h).1
  poll-Polled = elim (List-cases h.events_out) [
    | inl quiet ↦ elim (Bool-cases (is_shutting_down h.state && a.shutdown_timer)) [
      | inl over ↦
          subst (λ x. Polled h x.0 x.1) (sym (poll-deactivates quiet over))
            (quiet-Polled h _ _ refl refl refl refl (λ k e. e) (λ id x. inl x))
      | inr going ↦
          subst (λ x. Polled h x.0 x.1) (sym (poll-streams quiet going)) poll_streams-Polled
    ]
    | inr (e, es, first) ↦
        subst (λ x. Polled h x.0 x.1) (sym (poll-reports e es first))
          (quiet-Polled h _ _ refl refl refl refl (λ k e. e)
            (λ id x. elim x [
              | inl o ↦ inl (inl o)
              | inr t ↦ elim (first_Told e es id first t) [
                | inl later ↦ inl (inr later)
                | inr now ↦ inr (inl now)
              ]
            ]))
  ]
