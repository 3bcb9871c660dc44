-- ===== src/Rpc/RateLimiter/Pruning.antt =====
-- `Limiter::prune` and the verdicts of a history with and without its prunes.
use consentry.Common.{
  ℕ, ◌+◌, ◌*◌, ◌-◌, ◌<◌, ◌≤◌, ◌≡◌, refl, u64_mod, max, ltb, if◌then◌else◌, List, [], ◌∷◌, arith, ap,
  ◌∙◌, sym,
}
use consentry.Rpc.RateLimiter.{
  Quota, from_quota, ok, Limiter, Verdict, accept, refuse, too_large, too_soon, tat_of, allows,
  prune,
}
use consentry.Rpc.RateLimiter.Decisions.{allows-Outcome, Outcome, large, soon, fine}
use consentry.Rpc.RateLimiter.Conformance.{
  Call, request, tick, Timed, Timed-le, Tracks, granted_by, Outcome-Grows, prune-level,
  prune-Tracks, wait-Tracks, other-tat_of, fits, allows-Tracks, fresh-Tracks,
}

module _ {K : Type 0} where
  -- The history's requests alone.
  unfoldable pub without_ticks : List (Call K) → List (Call K)
  without_ticks [] = []
  without_ticks (request now key tokens ∷ cs) = request now key tokens ∷ without_ticks cs
  without_ticks (tick now ∷ cs) = without_ticks cs

module _ {K : Type 0} (eq : Discrete K) where
  unfoldable pub verdicts : Limiter K → List (Call K) → List Verdict
  verdicts l [] = []
  verdicts l (request now key tokens ∷ cs) =
      let (m, verdict) = allows eq l now key tokens in verdict ∷ verdicts m cs
  verdicts l (tick now ∷ cs) = verdicts (prune eq l now) cs

  -- The verdict as a function of the time from which the bucket is full.
  ideal : ℕ → ℕ → ℕ → ℕ → Verdict
  ideal tau cost now level =
      if ltb tau cost
      then refuse too_large
      else if ltb (now + tau) (level + cost)
      then refuse (too_soon (level + cost - tau - now))
      else accept

  Outcome-ideal :
      (l : Limiter K) (now tokens : ℕ) (key : K) (r : Limiter K × Verdict)
      → Outcome eq l now key tokens r
      → r.1 ≡ ideal l.tau (l.t * tokens) now (max now (tat_of eq l key now))
  unfolding ideal
  Outcome-ideal l now tokens key r (large over e) = rw e (ground arith)
  Outcome-ideal l now tokens key r (soon small early e) = rw e (ground arith)
  Outcome-ideal l now tokens key r (fine small due e) = rw e (ground arith)

  module _ (tau t : ℕ) where
    -- Two states that no later request can tell apart.
    record Agree (now : ℕ) (l m : Limiter K) : Type 0 where
      left : (key : K) → Tracks eq tau t key now l
      right : (key : K) → Tracks eq tau t key now m
      level : (key : K) → max now (tat_of eq l key now) ≡ max now (tat_of eq m key now)

    allows-ideal :
        (l : Limiter K) (now tokens : ℕ) (key : K)
        → now + tau + tau < u64_mod
        → t * tokens < u64_mod
        → Tracks eq tau t key now l
        → (allows eq l now key tokens).1
          ≡ ideal tau (t * tokens) now (max now (tat_of eq l key now))
    allows-ideal l now tokens key f c v =
        let e =
          Outcome-ideal l now tokens key (allows eq l now key tokens)
            (allows-Outcome eq l now key tokens (fits eq tau t key l now tokens f c v)) in
        let p = v.tau_kept in let q = v.t_kept in e ∙ cc

    wait-Agree :
        {now : ℕ} {l m : Limiter K} (later : ℕ) → now ≤ later → Agree now l m → Agree later l m
    wait-Agree later h a = record {
      left = λ key. wait-Tracks eq tau t key later h (a.left key);
      right = λ key. wait-Tracks eq tau t key later h (a.right key);
      level = λ key. let e = a.level key in ground arith;
    }

    prune-Agree :
        {l m : Limiter K} (now : ℕ) → now < u64_mod → Agree now l m → Agree now (prune eq l now) m
    prune-Agree {l} now f a = record {
      left = λ key. prune-Tracks eq tau t key l now f (a.left key);
      right = a.right;
      level = λ key. prune-level eq tau t key l now f (a.left key).distinct ∙ a.level key;
    }

    allows_same :
        {l m : Limiter K} (now tokens : ℕ) (key : K)
        → now + tau + tau < u64_mod
        → t * tokens < u64_mod
        → Agree now l m
        → (allows eq l now key tokens).1 ≡ (allows eq m now key tokens).1
    allows_same {l} {m} now tokens key f c a =
        allows-ideal l now tokens key f c (a.left key)
        ∙ (ap (ideal tau (t * tokens) now) (a.level key)
            ∙ sym (allows-ideal m now tokens key f c (a.right key)))

    allows-all_Tracks :
        (l : Limiter K) (now tokens : ℕ) (key other : K)
        → now + tau + tau < u64_mod
        → t * tokens < u64_mod
        → ((k : K) → Tracks eq tau t k now l)
        → Tracks eq tau t other now (allows eq l now key tokens).0
    allows-all_Tracks l now tokens key other f c v =
        allows-Tracks eq tau t other l now key tokens (v other) (elim (eq key other) [
          | yes own ↦
              rw own
                (Outcome-Grows eq tau t other l now tokens _ (v other) (
                  allows-Outcome eq l now other tokens
                    (fits eq tau t other l now tokens f c (v other)))).0
          | no far ↦ rw (other-tat_of eq tau t other l now key tokens far) (v other).within
        ])

    allows-level :
        (l : Limiter K) (now tokens : ℕ) (key : K)
        → now + tau + tau < u64_mod
        → t * tokens < u64_mod
        → Tracks eq tau t key now l
        → max now (tat_of eq (allows eq l now key tokens).0 key now)
          ≡ t * granted_by (allows eq l now key tokens).1 tokens + max now (tat_of eq l key now)
    allows-level l now tokens key f c v =
        sym
          (Outcome-Grows eq tau t key l now tokens _ v
            (allows-Outcome eq l now key tokens (fits eq tau t key l now tokens f c v))).1

    allows-Agree :
        {l m : Limiter K} (now tokens : ℕ) (key : K)
        → now + tau + tau < u64_mod
        → t * tokens < u64_mod
        → Agree now l m
        → Agree now (allows eq l now key tokens).0 (allows eq m now key tokens).0
    allows-Agree {l} {m} now tokens key f c a = record {
      left = λ other. allows-all_Tracks l now tokens key other f c a.left;
      right = λ other. allows-all_Tracks m now tokens key other f c a.right;
      level = λ other. elim (eq key other) [
        | yes own ↦
            let same = rw own at (allows_same now tokens key f c a) in
            rw own (
              rw (
                allows-level l now tokens other f c (a.left other),
                allows-level m now tokens other f c (a.right other),
                same,
                a.level other,
              ))
        | no far ↦
            rw
              (
                other-tat_of eq tau t other l now key tokens far,
                other-tat_of eq tau t other m now key tokens far,
              )
              (a.level other)
      ];
    }

    Agree-verdicts :
        (l m : Limiter K) (now last : ℕ) (cs : List (Call K))
        → last + tau + tau < u64_mod
        → Timed t now cs last
        → Agree now l m
        → verdicts l cs ≡ verdicts m (without_ticks cs)
    unfolding verdicts without_ticks
    Agree-verdicts l m now last [] f h a = refl
    Agree-verdicts l m now last (tick s ∷ cs) f h a =
        let below = Timed-le t s last cs h.2 in
        Agree-verdicts (prune eq l s) m s last cs f h.2
          (prune-Agree s (omega arith) (wait-Agree s h.0 a))
    Agree-verdicts l m now last (request s key n ∷ cs) f h a =
        let below = Timed-le t s last cs h.2 in
        let a' = wait-Agree s h.0 a in
        rw (
          allows_same s n key (omega arith) h.1 a',
          Agree-verdicts (allows eq l s key n).0 (allows eq m s key n).0 s last cs f h.2
              (allows-Agree s n key (omega arith) h.1 a'),
        )

  -- Prunes are unobservable: for a limiter made from a quota, any history of requests and prunes in
  -- order of time gets the verdicts that its requests alone would get. No request's cost overflows,
  -- and two `tau` past the end of the history still fit a `u64`.
  pub prune_unobservable :
      (q : Quota) (l : Limiter K) (start last : ℕ) (cs : List (Call K))
      → from_quota q ≡ ok l
      → last + l.tau + l.tau < u64_mod
      → Timed l.t start cs last
      → verdicts l cs ≡ verdicts l (without_ticks cs)
  prune_unobservable q l start last cs made f h =
      Agree-verdicts l.tau l.t l l start last cs f h (record {
        left = λ key. fresh-Tracks eq q l key start made;
        right = λ key. fresh-Tracks eq q l key start made;
        level = λ key. refl;
      })
