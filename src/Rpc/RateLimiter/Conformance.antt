-- ===== src/Rpc/RateLimiter/Conformance.antt =====
-- A history of a limiter: requests of any peers and prunes, each at its time, and the tokens that
-- the history grants to one key.
use consentry.Common.Assoc
use consentry.Common.Assoc.{Distinct}
use consentry.Common.{
  ℕ, ◌+◌, ◌*◌, ◌-◌, ◌<◌, ◌≤◌, ◌≡◌, ◌≢◌, refl, u64_mod, u64, max, leb, List, [], ◌∷◌, Option-cases,
  inl, inr, arith, ite, ap, ◌∙◌,
}
use mathlib.Core.Logic.{if_pos, if_neg}
use consentry.Rpc.RateLimiter.{
  Quota, from_quota, ok, Limiter, Verdict, accept, refuse, tat_of, allows, prune,
}
use consentry.Rpc.RateLimiter.Quotas.{from_quota-Implements}
use consentry.Rpc.RateLimiter.Decisions.{
  Fits, Outcome, large, soon, fine, allows-Outcome, allows-Keeps, tat_of-write,
}

pub data Call (K : Type 0) : Type 0 where
  request : ℕ → K → ℕ → Call K
  tick : ℕ → Call K

module _ {K : Type 0} where
  abbrev pub time : Call K → ℕ
  time (request now key tokens) = now
  time (tick now) = now

  -- The cost of a call, computed without overflow.
  abbrev pub CostFits : ℕ → Call K → Type 0
  CostFits t (request now key tokens) = t * tokens < u64_mod
  CostFits t (tick now) = Unit {0}

  -- The calls come in order of time, none before `first` and none after `last`.
  abbrev pub Timed : ℕ → ℕ → List (Call K) → ℕ → Type 0
  Timed t first [] last = first ≤ last
  Timed t first (c ∷ cs) last = (first ≤ time c) × CostFits t c × Timed t (time c) cs last

  pub Timed-le : (t first last : ℕ) (cs : List (Call K)) → Timed t first cs last → first ≤ last
  Timed-le t first last [] h = h
  Timed-le t first last (c ∷ cs) h = omega (arith, Timed-le t (time c) last cs h.2)

abbrev pub granted_by : Verdict → ℕ → ℕ
granted_by accept n = n
granted_by (refuse _) n = 0

module _ {K : Type 0} (eq : Discrete K) where
  unfoldable pub run : Limiter K → List (Call K) → Limiter K
  run l [] = l
  run l (request now key tokens ∷ cs) = run (allows eq l now key tokens).0 cs
  run l (tick now ∷ cs) = run (prune eq l now) cs

  -- The tokens that the calls grant to a key, from a state of the limiter on.
  unfoldable pub granted : K → Limiter K → List (Call K) → ℕ
  granted key l [] = 0
  granted key l (request now k tokens ∷ cs) =
      let (m, verdict) = allows eq l now k tokens in
      ite (eq k key) (granted_by verdict tokens) 0 + granted key m cs
  granted key l (tick now ∷ cs) = granted key (prune eq l now) cs

  -- What the loop keeps of the limiter's state for one key.
  pub record Tracks (tau t : ℕ) (key : K) (now : ℕ) (l : Limiter K) : Type 0 where
    pub tau_kept : l.tau ≡ tau
    pub t_kept : l.t ≡ t
    pub within : tat_of eq l key now ≤ now + tau
    pub distinct : Distinct eq l.tat_per_key

  module _ (tau t : ℕ) (key : K) where
    -- A prune by `now` leaves the time from which the key's bucket is full, if that is past `now`.
    pub prune-level :
        (l : Limiter K) (now : ℕ)
        → now < u64_mod
        → Distinct eq l.tat_per_key
        → max now (tat_of eq (prune eq l now) key now) ≡ max now (tat_of eq l key now)
    unfolding prune
    prune-level l now f d = elim (Option-cases (Assoc.get eq key l.tat_per_key)) [
      | inl absent ↦
          ground (arith, Assoc.get-retain-none eq (λ _ tat. leb (u64 now) tat) key l.tat_per_key)
      | inr (tat, e) ↦
          ground (arith, Assoc.get-retain eq (λ _ tat. leb (u64 now) tat) key tat l.tat_per_key d e)
    ]

    pub prune-Tracks :
        (l : Limiter K) (now : ℕ)
        → now < u64_mod
        → Tracks tau t key now l
        → Tracks tau t key now (prune eq l now)
    prune-Tracks l now f v = record {
      tau_kept = unfold prune in v.tau_kept;
      t_kept = unfold prune in v.t_kept;
      within = omega (arith, prune-level l now f v.distinct, v.within);
      distinct = unfold prune in Assoc.retain-Distinct eq _ l.tat_per_key v.distinct;
    }

    -- Time passes with no call.
    pub wait-Tracks :
        {l : Limiter K} {now : ℕ} (later : ℕ)
        → now ≤ later
        → Tracks tau t key now l
        → Tracks tau t key later l
    wait-Tracks later h v = record {
      tau_kept = v.tau_kept;
      t_kept = v.t_kept;
      within = let w = v.within in ground arith;
      distinct = v.distinct;
    }

    pub wait-level :
        (l : Limiter K) (now later : ℕ)
        → now ≤ later
        → max now (tat_of eq l key now) ≤ max later (tat_of eq l key later)
    wait-level l now later h = ground arith

    pub other-tat_of :
        (l : Limiter K) (now : ℕ) (k : K) (tokens : ℕ)
        → k ≢ key
        → tat_of eq (allows eq l now k tokens).0 key now ≡ tat_of eq l key now
    other-tat_of l now k tokens h = rw ((allows-Keeps eq l now k tokens).others key h)

    -- What one decision does to the key's bucket: it grows by what the key is granted, to `tau` past
    -- now at most.
    abbrev pub Grows : Limiter K → ℕ → ℕ → Limiter K × Verdict → Type 0
    Grows l now tokens r =
        (tat_of eq r.0 key now ≤ now + tau)
        × (t * granted_by r.1 tokens + max now (tat_of eq l key now)
            ≡ max now (tat_of eq r.0 key now))

    pub Outcome-Grows :
        (l : Limiter K) (now tokens : ℕ) (r : Limiter K × Verdict)
        → Tracks tau t key now l
        → Outcome eq l now key tokens r
        → Grows l now tokens r
    Outcome-Grows l now tokens r v (large over e) = rw e (let w = v.within in omega arith)
    Outcome-Grows l now tokens r v (soon small early e) =
        rw e (let w = v.within in omega (arith, tat_of-write eq l key (tat_of eq l key now) now))
    Outcome-Grows l now tokens r v (fine small due e) =
        let tat = max now (tat_of eq l key now) + l.t * tokens in
        let same : l.t * tokens ≡ t * tokens = ap (λ (x : ℕ). x * tokens) v.t_kept in
        let constant = v.tau_kept in rw e (omega (arith, tat_of-write eq l key tat now))

    pub fits :
        (l : Limiter K) (now tokens : ℕ)
        → now + tau + tau < u64_mod
        → t * tokens < u64_mod
        → Tracks tau t key now l
        → Fits eq l now key tokens
    fits l now tokens f c v = record {
      cost = let h = v.t_kept in rw h c;
      later = let h = v.tau_kept in omega arith;
      stored = let h = v.tau_kept in let w = v.within in omega arith;
    }

    pub allows-Tracks :
        (l : Limiter K) (now : ℕ) (k : K) (tokens : ℕ)
        → Tracks tau t key now l
        → tat_of eq (allows eq l now k tokens).0 key now ≤ now + tau
        → Tracks tau t key now (allows eq l now k tokens).0
    allows-Tracks l now k tokens v w =
        let kept = allows-Keeps eq l now k tokens in
        record {
          tau_kept = kept.tau_kept ∙ v.tau_kept;
          t_kept = kept.t_kept ∙ v.t_kept;
          within = w;
          distinct = kept.distinct v.distinct;
        }

    -- From any state on, the tokens granted to the key are paid for by the bucket's level.
    granted-level :
        (l : Limiter K) (now last : ℕ) (cs : List (Call K))
        → last + tau + tau < u64_mod
        → Timed t now cs last
        → Tracks tau t key now l
        → t * granted key l cs + max now (tat_of eq l key now) ≤ last + tau
    unfolding granted
    granted-level l now last [] f h v = let w = v.within in omega arith
    granted-level l now last (tick s ∷ cs) f h v =
        let below = Timed-le t s last cs h.2 in
        let v' = wait-Tracks s h.0 v in
        let ih = granted-level (prune eq l s) s last cs f h.2 (prune-Tracks l s (omega arith) v') in
        omega (arith, prune-level l s (omega arith) v'.distinct, wait-level l now s h.0)
    granted-level l now last (request s k n ∷ cs) f h v =
        let below = Timed-le t s last cs h.2 in
        let v' = wait-Tracks s h.0 v in
        elim (eq k key) [
          | yes own ↦
              let (w, grows) =
                Outcome-Grows l s n (allows eq l s key n) v'
                  (allows-Outcome eq l s key n (fits l s n (omega arith) h.1 v')) in
              let ih =
                granted-level (allows eq l s key n).0 s last cs f h.2
                  (allows-Tracks l s key n v' w) in
              rw (if_pos _ own) (rw own (omega (arith, wait-level l now s h.0)))
          | no other ↦
              let same = other-tat_of l s k n other in
              let ih =
                granted-level (allows eq l s k n).0 s last cs f h.2
                  (allows-Tracks l s k n v' (rw same v'.within)) in
              rw (if_neg _ other) (omega (arith, wait-level l now s h.0))
        ]

    pub run-Tracks :
        (l : Limiter K) (now last : ℕ) (cs : List (Call K))
        → last + tau + tau < u64_mod
        → Timed t now cs last
        → Tracks tau t key now l
        → Tracks tau t key last (run l cs)
    unfolding run
    run-Tracks l now last [] f h v = wait-Tracks last h v
    run-Tracks l now last (tick s ∷ cs) f h v =
        let below = Timed-le t s last cs h.2 in
        run-Tracks (prune eq l s) s last cs f h.2
          (prune-Tracks l s (omega arith) (wait-Tracks s h.0 v))
    run-Tracks l now last (request s k n ∷ cs) f h v =
        let below = Timed-le t s last cs h.2 in
        let v' = wait-Tracks s h.0 v in
        run-Tracks (allows eq l s k n).0 s last cs f h.2 (
          allows-Tracks l s k n v' (elim (eq k key) [
            | yes own ↦
                rw own
                  (Outcome-Grows l s n (allows eq l s key n) v'
                    (allows-Outcome eq l s key n (fits l s n (omega arith) h.1 v'))).0
            | no other ↦ rw (other-tat_of l s k n other) v'.within
          ]))

  pub fresh-Tracks :
      (q : Quota) (l : Limiter K) (key : K) (now : ℕ)
      → from_quota q ≡ ok l
      → Tracks l.tau l.t key now l
  fresh-Tracks q l key now h =
      let v = from_quota-Implements q l h in
      record {
        tau_kept = refl;
        t_kept = refl;
        within = rw v.empty (unfold Assoc.get in omega arith);
        distinct = rw v.empty tt;
      }

  -- The rate limit: take a limiter made from a quota, any history of requests and prunes for any
  -- peers, and any window that follows it. Within the window no key is granted more tokens than
  -- `tau`, plus the length of the window, pays for at `t` a token. The calls come in order of time,
  -- no request's cost overflows, and two `tau` past the window's end still fit a `u64`.
  pub granted_bounded :
      (q : Quota) (l : Limiter K) (key : K) (start first last : ℕ) (before window : List (Call K))
      → from_quota q ≡ ok l
      → last + l.tau + l.tau < u64_mod
      → Timed l.t start before first
      → Timed l.t first window last
      → l.t * granted key (run l before) window ≤ l.tau + (last - first)
  granted_bounded q l key start first last before window made f h w =
      let below = Timed-le l.t first last window w in
      let v =
        run-Tracks l.tau l.t key l start first before (omega arith) h
          (fresh-Tracks q l key start made) in
      omega (arith, granted-level l.tau l.t key (run l before) first last window f w v)
