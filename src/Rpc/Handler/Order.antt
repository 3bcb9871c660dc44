-- ===== src/Rpc/Handler/Order.antt =====
-- The responses of an inbound substream: the order in which they are sent, and how many.
use consentry.Common.{
  ℕ, ◌+◌, ◌-◌, ◌≤◌, ◌≡◌, ◌≢◌, ◌⊎◌, refl, sym, ◌∙◌, ap, subst, leb, Bool, true, false, Option, none,
  some, List, [], ◌∷◌, ◌++◌, length, length-append, arith, inl, inr,
}
use consentry.Rpc.Methods.{RpcCodedResponse}
use consentry.Rpc.Protocol.{RpcError}
use consentry.Rpc.Handler.{InboundInfo, InboundState, idle, busy}
use consentry.Rpc.Handler.Streams.{
  Sent, Sending, sent, send_failed, drive, pump, next_message, sent_chunk, pop,
  send_message_to_inbound_substream,
}

module _ {Block MetaData : Type 0} where
  -- What was sent on a substream, the message that is being sent and those that wait, in order.
  abbrev pub backlog :
      InboundState Block MetaData
      → List (RpcCodedResponse Block MetaData)
      → List (RpcCodedResponse Block MetaData)
  backlog (idle substream) waiting = substream ++ waiting
  backlog (busy substream message _) waiting = substream ++ message ∷ waiting

  abbrev pub sent_on : InboundState Block MetaData → List (RpcCodedResponse Block MetaData)
  sent_on (idle substream) = substream
  sent_on (busy substream _ _) = substream

  abbrev pub Marked : InboundState Block MetaData → ℕ → Type 0
  Marked (idle _) remaining = Unit {0}
  Marked (busy _ _ last_chunk) remaining = last_chunk ≡ leb remaining 1

  -- What was sent and what is still expected make up the responses that the request asked for, one at
  -- least is still expected, and a message is being sent as the last one exactly if it is.
  pub record Budget (expected : ℕ) (i : InboundInfo Block MetaData) : Type 0 where
    pub adds_up : length (sent_on i.state) + i.remaining_chunks ≡ expected
    pub left : 1 ≤ i.remaining_chunks
    pub last : Marked i.state i.remaining_chunks

  append_assoc :
      (xs ys zs : List (RpcCodedResponse Block MetaData)) → (xs ++ ys) ++ zs ≡ xs ++ (ys ++ zs)
  append_assoc [] ys zs = refl
  append_assoc (x ∷ xs) ys zs = rw (append_assoc xs ys zs) refl

  -- Only a message that is not the last one leaves the stream open.
  sent_false-last :
      (m : RpcCodedResponse Block MetaData) (last_chunk : Bool) (r : Sent)
      → send_message_to_inbound_substream m last_chunk r ≡ sent false
      → last_chunk ≡ false
  unfolding send_message_to_inbound_substream
  sent_false-last m last_chunk r e = ground arith

  next_message-backlog :
      (deactivated : Bool) (s : List (RpcCodedResponse Block MetaData))
      (i : InboundInfo Block MetaData)
      → let j = next_message deactivated s i in
        (backlog j.state j.pending_items ≡ s ++ i.pending_items)
  next_message-backlog deactivated s i = ground arith

  pop-Budget :
      (expected : ℕ) (s ms : List (RpcCodedResponse Block MetaData))
      (i : InboundInfo Block MetaData)
      → length s + i.remaining_chunks ≡ expected
      → 1 ≤ i.remaining_chunks
      → Budget expected (pop ms s i)
  pop-Budget expected s [] i h l = record { adds_up = h; left = l; last = tt }
  pop-Budget expected s (m ∷ ms) i h l = record { adds_up = h; left = l; last = refl }

  next_message-Budget :
      (expected : ℕ) (deactivated : Bool) (s : List (RpcCodedResponse Block MetaData))
      (i : InboundInfo Block MetaData)
      → length s + i.remaining_chunks ≡ expected
      → 1 ≤ i.remaining_chunks
      → Budget expected (next_message deactivated s i)
  next_message-Budget expected true s i h l = record { adds_up = h; left = l; last = tt }
  next_message-Budget expected false s i h l = pop-Budget expected s i.pending_items i h l

  -- What driving keeps.
  record Keeps (expected : ℕ) (i j : InboundInfo Block MetaData) : Type 0 where
    budget : Budget expected j
    same : backlog j.state j.pending_items ≡ backlog i.state i.pending_items

  state-cases :
      (st : InboundState Block MetaData)
      → ((s : List (RpcCodedResponse Block MetaData)) × (st ≡ idle s))
        ⊎ ((s : List (RpcCodedResponse Block MetaData)) × (m : RpcCodedResponse Block MetaData)
            × (l : Bool) × (st ≡ busy s m l))
  state-cases (idle s) = inl (s, refl)
  state-cases (busy s m l) = inr (s, m, l, refl)

Sending-cases :
    (x : Sending) → (x ≡ sent true) ⊎ ((x ≡ sent false) ⊎ ((e : RpcError) × (x ≡ send_failed e)))
Sending-cases (sent true) = inl refl
Sending-cases (sent false) = inr (inl refl)
Sending-cases (send_failed e) = inr (inr (e, refl))

module _ {Block MetaData : Type 0} (ReqId : Type 0) (deactivated : Bool) (id : ℕ)
    (expected : ℕ) where
  -- A message that is sent on an open stream moves from the queue's front to the stream's end.
  sent_chunk-Keeps :
      (s : List (RpcCodedResponse Block MetaData)) (m : RpcCodedResponse Block MetaData)
      (i : InboundInfo Block MetaData)
      → i.state ≡ busy s m false
      → Budget expected i
      → Keeps expected i (sent_chunk deactivated s m i)
  sent_chunk-Keeps s m i e b =
      let adds = b.adds_up in
      let left = b.left in
      let last = b.last in
      let moved : InboundInfo Block MetaData = record i {
        remaining_chunks = i.remaining_chunks - 1;
      } in
      record {
        budget =
            next_message-Budget expected deactivated (s ++ m ∷ []) moved
              (ground (arith, length-append s (m ∷ []))) (ground arith);
        same =
            next_message-backlog deactivated (s ++ m ∷ []) moved
            ∙ append_assoc s (m ∷ []) i.pending_items
            ∙ sym (rw e refl);
      }

  pump-idle :
      (r : Sent) (rs : List Sent) (i : InboundInfo Block MetaData)
      (s : List (RpcCodedResponse Block MetaData))
      → i.state ≡ idle s
      → (pump {ReqId = ReqId} deactivated id (r ∷ rs) i).info ≡ i
  unfolding pump
  pump-idle r rs i s e = ground arith

  pump-sent :
      (r : Sent) (rs : List Sent) (i : InboundInfo Block MetaData)
      (s : List (RpcCodedResponse Block MetaData)) (m : RpcCodedResponse Block MetaData) (l : Bool)
      → i.state ≡ busy s m l
      → send_message_to_inbound_substream m l r ≡ sent false
      → (pump {ReqId = ReqId} deactivated id (r ∷ rs) i).info
        ≡ (pump {ReqId = ReqId} deactivated id rs (sent_chunk deactivated s m i)).info
  unfolding pump
  pump-sent r rs i s m l e f = ground arith

  pump-ended :
      (r : Sent) (rs : List Sent) (i : InboundInfo Block MetaData)
      (s : List (RpcCodedResponse Block MetaData)) (m : RpcCodedResponse Block MetaData) (l : Bool)
      → i.state ≡ busy s m l
      → send_message_to_inbound_substream m l r ≢ sent false
      → (pump {ReqId = ReqId} deactivated id (r ∷ rs) i).info ≡ i
  unfolding pump
  pump-ended r rs i s m l e f = ground arith

  pump-Keeps :
      (rs : List Sent) (i : InboundInfo Block MetaData)
      → Budget expected i
      → Keeps expected i (pump {ReqId = ReqId} deactivated id rs i).info
  pump-Keeps [] i b = unfold pump in record { budget = b; same = refl }
  pump-Keeps (r ∷ rs) i b = elim (state-cases i.state) [
    | inl (s, e) ↦
        subst (Keeps expected i) (sym (pump-idle r rs i s e)) (record { budget = b; same = refl })
    | inr (s, m, last_chunk, e) ↦
        elim (Sending-cases (send_message_to_inbound_substream m last_chunk r)) [
          | inl done ↦
              subst (Keeps expected i)
                (sym (pump-ended r rs i s m last_chunk e (λ f. ground arith)))
                (record { budget = b; same = refl })
          | inr (inl goes_on) ↦
              let open_still : i.state ≡ busy s m false =
                e ∙ ap (busy s m) (sent_false-last m last_chunk r goes_on) in
              let one = sent_chunk-Keeps s m i open_still b in
              let rest = pump-Keeps rs (sent_chunk deactivated s m i) one.budget in
              subst (Keeps expected i) (sym (pump-sent r rs i s m last_chunk e goes_on))
                (record { budget = rest.budget; same = rest.same ∙ one.same })
          | inr (inr (x, lost)) ↦
              subst (Keeps expected i)
                (sym (pump-ended r rs i s m last_chunk e (λ f. ground arith)))
                (record { budget = b; same = refl })
        ]
  ]

  drive-busy :
      (rs : List Sent) (closing : Option (Option RpcError)) (i : InboundInfo Block MetaData)
      (s : List (RpcCodedResponse Block MetaData)) (m : RpcCodedResponse Block MetaData) (l : Bool)
      → i.state ≡ busy s m l
      → (drive {ReqId = ReqId} deactivated id rs closing i).info
        ≡ (pump {ReqId = ReqId} deactivated id rs i).info
  unfolding drive
  drive-busy rs closing i s m l e = ground arith

  drive-idle :
      (rs : List Sent) (closing : Option (Option RpcError)) (i : InboundInfo Block MetaData)
      (s : List (RpcCodedResponse Block MetaData))
      → i.state ≡ idle s
      → ((drive {ReqId = ReqId} deactivated id rs closing i).info ≡ i)
        ⊎ ((drive {ReqId = ReqId} deactivated id rs closing i).info
            ≡ (pump {ReqId = ReqId} deactivated id rs (next_message deactivated s i)).info)
  unfolding drive
  drive-idle rs none i s e = ground arith
  drive-idle rs (some none) i s e = ground arith
  drive-idle rs (some (some x)) i s e = ground arith

  -- Take an inbound substream whose sent responses and whose remaining ones make up the number that the
  -- request asked for, with at least one remaining, and with a message that is being sent marked as the
  -- last one exactly if one remains at most. Driving it keeps these three facts, whatever the futures
  -- answer, and keeps the order of the responses: those sent, the one being sent and those that wait,
  -- in a row, are the same list before and after.
  pub drive-Keeps :
      (rs : List Sent) (closing : Option (Option RpcError)) (i : InboundInfo Block MetaData)
      → Budget expected i
      → let j = (drive {ReqId = ReqId} deactivated id rs closing i).info in
        Budget expected j × (backlog j.state j.pending_items ≡ backlog i.state i.pending_items)
  unfolding drive
  drive-Keeps rs closing i b = elim (state-cases i.state) [
    | inl (s, e) ↦ elim (drive-idle rs closing i s e) [
      | inl kept ↦ rw kept (b, refl)
      | inr pumped ↦
          let adds = b.adds_up in
          let start = next_message-Budget expected deactivated s i (ground arith) b.left in
          let k = pump-Keeps rs (next_message deactivated s i) start in
          rw pumped (k.budget, k.same ∙ next_message-backlog deactivated s i ∙ sym (rw e refl))
    ]
    | inr (s, m, l, e) ↦
        let k = pump-Keeps rs i b in rw (drive-busy rs closing i s m l e) (k.budget, k.same)
  ]
