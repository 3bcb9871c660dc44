-- ===== src/Rpc/RateLimiter/Isolation.antt =====
-- The verdicts of one peer beside those of the others, and of one protocol beside the others.
use consentry.Common.Assoc
use consentry.Common.Assoc.{Distinct}
use consentry.Common.{
  ℕ, ◌+◌, ◌*◌, ◌-◌, ltb, if◌then◌else◌, Option, ap, ◌≡◌, ◌≢◌, refl, u64, max, some, List, [], ◌∷◌,
  arith, ite, ◌∙◌, sym, Option-cases, inl, inr, ℕ_discrete,
}
use consentry.Rpc.Protocol.{Protocol, InboundRequest, protocol, expected_responses}
use consentry.Rpc.RateLimiter.{
  stored_or, refuse, too_large, too_soon, Limiter, RpcRateLimiter, Verdict, accept, tat_of, allows,
  prune, limiter_of, allows_request,
}
use consentry.Rpc.RateLimiter.Decisions.{allows-Keeps}
use consentry.Rpc.RateLimiter.Conformance.{Call, request, tick}
use consentry.Rpc.RateLimiter.Pruning.{verdicts}

module _ {K : Type 0} (eq : Discrete K) (key : K) where
  -- The verdicts that the key's own requests get within a history.
  unfoldable pub verdicts_for : Limiter K → List (Call K) → List Verdict
  verdicts_for l [] = []
  verdicts_for l (request now k tokens ∷ cs) =
      let (m, verdict) = allows eq l now k tokens in
      let rest = verdicts_for m cs in ite (eq k key) (verdict ∷ rest) rest
  verdicts_for l (tick now ∷ cs) = verdicts_for (prune eq l now) cs

  -- The history with the requests of the other keys left out.
  unfoldable pub only : List (Call K) → List (Call K)
  only [] = []
  only (request now k tokens ∷ cs) =
      let rest = only cs in ite (eq k key) (request now k tokens ∷ rest) rest
  only (tick now ∷ cs) = tick now ∷ only cs

  record Alike (l m : Limiter K) : Type 0 where
    tau_same : l.tau ≡ m.tau
    t_same : l.t ≡ m.t
    entry_same : Assoc.get eq key l.tat_per_key ≡ Assoc.get eq key m.tat_per_key
    left : Distinct eq l.tat_per_key
    right : Distinct eq m.tat_per_key

  prune-Alike : {l m : Limiter K} (now : ℕ) → Alike l m → Alike (prune eq l now) (prune eq m now)
  unfolding prune
  prune-Alike {l} {m} now a = record {
    tau_same = a.tau_same;
    t_same = a.t_same;
    entry_same = elim (Option-cases (Assoc.get eq key l.tat_per_key)) [
      | inl absent ↦
          Assoc.get-retain-none eq _ key l.tat_per_key absent
          ∙ sym (Assoc.get-retain-none eq _ key m.tat_per_key (sym a.entry_same ∙ absent))
      | inr (tat, e) ↦
          Assoc.get-retain eq _ key tat l.tat_per_key a.left e
          ∙ sym (Assoc.get-retain eq _ key tat m.tat_per_key a.right (sym a.entry_same ∙ e))
    ];
    left = Assoc.retain-Distinct eq _ l.tat_per_key a.left;
    right = Assoc.retain-Distinct eq _ m.tat_per_key a.right;
  }

  other-Alike :
      {l m : Limiter K} (now tokens : ℕ) (k : K)
      → k ≢ key
      → Alike l m
      → Alike (allows eq l now k tokens).0 m
  other-Alike {l} {m} now tokens k far a =
      let kept = allows-Keeps eq l now k tokens in
      record {
        tau_same = kept.tau_kept ∙ a.tau_same;
        t_same = kept.t_kept ∙ a.t_same;
        entry_same = kept.others key far ∙ a.entry_same;
        left = kept.distinct a.left;
        right = a.right;
      }

  -- A decision on a key, as a function of the key's entry.
  decide : ℕ → ℕ → ℕ → ℕ → Option ℕ → Option ℕ × Verdict
  decide tau t now tokens entry =
      let cost = u64 (t * tokens) in
      let tat = stored_or entry now in
      let earliest = u64 (tat + cost) - tau in
      if ltb tau cost
      then (entry, refuse too_large)
      else if ltb now earliest
      then (some tat, refuse (too_soon (earliest - now)))
      else (some (u64 (max now tat + cost)), accept)

  allows-decide :
      (l : Limiter K) (now tokens : ℕ)
      → (
        Assoc.get eq key (allows eq l now key tokens).0.tat_per_key,
        (allows eq l now key tokens).1,
      )
        ≡ decide l.tau l.t (u64 now) tokens (Assoc.get eq key l.tat_per_key)
  unfolding allows decide
  allows-decide l now tokens = ground (
    arith,
    Assoc.get-insert_self eq key (tat_of eq l key (u64 now)) l.tat_per_key,
    Assoc.get-insert_self eq key
        (u64 (max (u64 now) (tat_of eq l key (u64 now)) + u64 (l.t * tokens))) l.tat_per_key,
  )

  own-same :
      {l m : Limiter K} (now tokens : ℕ)
      → Alike l m
      → ◌≡◌ {A = Option ℕ × Verdict}
          (
            Assoc.get eq key (allows eq l now key tokens).0.tat_per_key,
            (allows eq l now key tokens).1,
          )
          (
            Assoc.get eq key (allows eq m now key tokens).0.tat_per_key,
            (allows eq m now key tokens).1,
          )
  own-same {l} {m} now tokens a =
      let p = a.tau_same in
      let q = a.t_same in
      let r = a.entry_same in allows-decide l now tokens ∙ ((cc) ∙ sym (allows-decide m now tokens))

  own-Alike :
      {l m : Limiter K} (now tokens : ℕ)
      → Alike l m
      → Alike (allows eq l now key tokens).0 (allows eq m now key tokens).0
  own-Alike {l} {m} now tokens a =
      let p = allows-Keeps eq l now key tokens in
      let q = allows-Keeps eq m now key tokens in
      record {
        tau_same = p.tau_kept ∙ (a.tau_same ∙ sym q.tau_kept);
        t_same = p.t_kept ∙ (a.t_same ∙ sym q.t_kept);
        entry_same = ap (λ x. x.0) (own-same now tokens a);
        left = p.distinct a.left;
        right = q.distinct a.right;
      }

  Alike-verdicts :
      (l m : Limiter K) (cs : List (Call K))
      → Alike l m
      → verdicts_for l cs ≡ verdicts eq m (only cs)
  unfolding verdicts_for only verdicts
  Alike-verdicts l m [] a = refl
  Alike-verdicts l m (tick now ∷ cs) a =
      Alike-verdicts (prune eq l now) (prune eq m now) cs (prune-Alike now a)
  Alike-verdicts l m (request now k tokens ∷ cs) a = elim (eq k key) [
    | yes own ↦
        let same : (allows eq l now k tokens).1 ≡ (allows eq m now k tokens).1 =
          rw own (ap (λ x. x.1) (own-same now tokens a)) in
        let rest =
          Alike-verdicts (allows eq l now k tokens).0 (allows eq m now k tokens).0 cs
            (rw own (own-Alike now tokens a)) in
        ground arith
    | no far ↦
        let rest =
          Alike-verdicts (allows eq l now k tokens).0 m cs (other-Alike now tokens k far a) in
        ground arith
  ]

  -- Isolation: what a peer is told depends on its own requests and the prunes alone. From any
  -- limiter whose keys stand once, in any history, its verdicts are those of the history without
  -- the other peers' requests.
  pub allows_isolated :
      (l : Limiter K) (cs : List (Call K))
      → Distinct eq l.tat_per_key
      → verdicts_for l cs ≡ verdicts eq l (only cs)
  allows_isolated l cs d =
      Alike-verdicts l l cs
        (record { tau_same = refl; t_same = refl; entry_same = refl; left = d; right = d })

-- A request is charged to the limiter of its own protocol, for its expected responses and for one
-- token at least, and every other protocol's limiter stays as it was.
pub allows_request_lem :
    (r : RpcRateLimiter) (now peer_id : ℕ) (req : InboundRequest) (p : Protocol)
    → let (r', verdict) = allows_request r now peer_id req in
      let decision =
        allows ℕ_discrete
          (limiter_of r (protocol req))
          now
          peer_id
          (max (expected_responses req) 1) in
      (verdict ≡ decision.1)
      × (limiter_of r' (protocol req) ≡ decision.0)
      × (p ≢ protocol req → limiter_of r' p ≡ limiter_of r p)
unfolding allows_request
allows_request_lem r now peer_id (InboundRequest.status x) p = (refl, refl, λ h. ground arith)
allows_request_lem r now peer_id (InboundRequest.goodbye x) p = (refl, refl, λ h. ground arith)
allows_request_lem r now peer_id (InboundRequest.blocks_by_range x) p =
    (refl, refl, λ h. ground arith)
allows_request_lem r now peer_id (InboundRequest.blocks_by_root x) p =
    (refl, refl, λ h. ground arith)
allows_request_lem r now peer_id (InboundRequest.ping x) p = (refl, refl, λ h. ground arith)
allows_request_lem r now peer_id InboundRequest.meta_data p = (refl, refl, λ h. ground arith)
