-- ===== src/Rpc/Handler/Requests.antt =====
-- The requests that the application gave to the handler of src/rpc/handler.rs, over all sequences of
-- calls: the count of the dials, and where each request is.
use consentry.Common.Assoc
use consentry.Common.{
  none, some, ◌+◌, ◌≤◌, ◌≡◌, ◌⊎◌, inl, inr, refl, subst, true, false, List, [], ◌∷◌, arith, length,
}
use consentry.Rpc.Handler.{RpcHandler, is_empty, max_dial_negotiated}
use consentry.Rpc.Handler.Inject.{is_drained}
use consentry.Rpc.Handler.Poll.{Answers, poll}
use consentry.Rpc.Handler.Frames.{Held, IsOpen, Told}
use consentry.Rpc.Handler.Polled.{poll-Polled}
use consentry.Rpc.Handler.Swarm.{System, Reaches, opened}
use consentry.Rpc.Handler.Calls.{Waits}
use consentry.Rpc.Handler.Tracking.{Reaches-Tracks}

is_empty-nil : {A : Type 0} (xs : List A) → is_empty xs ≡ true → xs ≡ []
is_empty-nil [] e = refl
is_empty-nil (x ∷ xs) e = ground arith

no_length : {A : Type 0} (xs : List A) → length xs ≡ 0 → xs ≡ []
no_length [] e = refl
no_length (x ∷ xs) e = absurd (omega arith)

module _ {ReqId Block MetaData : Type 0} where
  -- In every state that calls reach from a new handler, `dial_negotiated` is at most 8, and it is the
  -- number of the substreams in negotiation plus the number of the upgrade errors so far on which
  -- `inject_dial_upgrade_error` returned early: the I/O errors that raised its count of retries to less
  -- than the limit of 3, be it that the request was queued again, by an active handler, or that it was
  -- reported as disconnected, by any other.
  pub dials_counted :
      (s : System ReqId Block MetaData)
      → Reaches s
      → (s.handler.dial_negotiated ≡ length s.negotiating + s.retried)
        × (s.handler.dial_negotiated ≤ max_dial_negotiated)
  dials_counted s r = let t = Reaches-Tracks s r in (t.count, t.capped)

  -- In every state that calls reach from a new handler, each request that the application sent and that
  -- expects responses is in negotiation, in the dial queue, has an open substream, has an event about it
  -- that waits to be reported, or has been reported on.
  pub none_forgotten :
      (s : System ReqId Block MetaData) (id : ReqId)
      → Reaches s
      → Waits id s.asked
      → Waits id s.negotiating
        ⊎ ((Waits id s.handler.dial_queue ⊎ Held id s.handler) ⊎ Told id s.reported)
  none_forgotten s id r w = let t = Reaches-Tracks s r in t.tracked id w

  is_drained-empty :
      (h : RpcHandler ReqId Block MetaData)
      → is_drained h ≡ true
      → (h.dial_queue ≡ [])
        × ((h.outbound_substreams ≡ []) × ((h.events_out ≡ []) × (h.dial_negotiated ≡ 0)))
  is_drained-empty h e =
      let a : is_empty h.dial_queue ≡ true = ground arith in
      let b : is_empty h.outbound_substreams ≡ true = ground arith in
      let c : is_empty h.events_out ≡ true = ground arith in
      (is_empty-nil _ a, (is_empty-nil _ b, (is_empty-nil _ c, ground arith)))

  no_stream :
      (id : ReqId) (h : RpcHandler ReqId Block MetaData)
      → h.outbound_substreams ≡ []
      → IsOpen id h.outbound_substreams
      → ⊥
  unfolding Assoc.get
  no_stream id h streams o =
      let (k, i, e, _, _) = subst (IsOpen id) streams o in
      let e' : none ≡ some i = e in ground arith

  -- When a handler that calls reach has nothing left to do (the condition on which a shutdown closes the
  -- connection), the application was told of each request that it sent and that expects responses.
  pub drained-reported :
      (s : System ReqId Block MetaData) (id : ReqId)
      → Reaches s
      → is_drained s.handler ≡ true
      → Waits id s.asked
      → Told id s.reported
  drained-reported s id r drained w =
      let (queue, (streams, (events, dials))) = is_drained-empty s.handler drained in
      let (count, _) = dials_counted s r in
      let none_left = no_length s.negotiating (omega arith) in
      elim (none_forgotten s id r w) [
        | inl x ↦ absurd (subst (Waits id) none_left x)
        | inr (inl (inl x)) ↦ absurd (subst (Waits id) queue x)
        | inr (inl (inr (inl x))) ↦ absurd (no_stream id s.handler streams x)
        | inr (inl (inr (inr x))) ↦ absurd (subst (Told id) events x)
        | inr (inr x) ↦ x
      ]

  -- Once `inject_dial_upgrade_error` has returned early on 8 upgrade errors (I/O errors that raised its
  -- count of retries to less than the limit of 3), no poll opens a substream any more, whatever it
  -- is answered; none is in negotiation, and the handler never counts as having nothing left to do.
  pub retries-exhausted :
      (s : System ReqId Block MetaData) (a : Answers Block MetaData)
      → Reaches s
      → max_dial_negotiated ≤ s.retried
      → (opened (poll a s.handler).1 ≡ []) × ((s.negotiating ≡ []) × (is_drained s.handler ≡ false))
  retries-exhausted s a r many =
      let t = Reaches-Tracks s r in
      let p = poll-Polled a s.handler in
      let bound = p.capped t.capped in
      let cap = t.capped in
      let count = t.count in
      let dials = p.dials t.capped in
      (no_length _ (omega arith), (no_length _ (omega arith), ground arith))
