-- ===== src/Rpc/RateLimiter/Decisions.antt =====
-- What `Limiter::allows` decides for one request.
use consentry.Common.Assoc
use consentry.Common.Assoc.{Distinct}
use consentry.Common.{
  ℕ, ◌+◌, ◌*◌, ◌-◌, ◌<◌, ◌≤◌, ◌≡◌, ◌≢◌, refl, ◌⊎◌, ◌↔◌, inl, inr, subst, sym, Bool-cases, ltb,
  ltb→lt, ltb→le, u64_mod, u64, max, none, arith,
}
use consentry.Rpc.RateLimiter.{
  Limiter, Verdict, accept, refuse, too_large, too_soon, tat_of, write, allows,
}

-- Nothing that `allows` computes for this request leaves the range of a `u64`.
pub record Fits {K : Type 0} (eq : Discrete K) (l : Limiter K) (now : ℕ) (key : K) (tokens : ℕ)
    : Type 0 where
  pub cost : l.t * tokens < u64_mod
  pub later : now + l.tau < u64_mod
  pub stored : tat_of eq l key now + l.tau < u64_mod

module _ {K : Type 0} (eq : Discrete K) where
  -- With no overflow, a request is accepted exactly when its cost fits an empty bucket and the
  -- bucket, with the cost added, is full again within `tau` from now.
  pub allows-accept_iff :
      (l : Limiter K) (now : ℕ) (key : K) (tokens : ℕ)
      → Fits eq l now key tokens
      → ((allows eq l now key tokens).1 ≡ accept)
        ↔ ((l.t * tokens ≤ l.tau) × (tat_of eq l key now + l.t * tokens ≤ now + l.tau))
  unfolding allows
  allows-accept_iff l now key tokens f = (λ h. ground arith, λ h. ground arith)

  -- A batch that is too large for the bucket is refused at every time, from every key and in every
  -- state, and nothing is written.
  pub allows-too_large_iff :
      (l : Limiter K) (now : ℕ) (key : K) (tokens : ℕ)
      → (allows eq l now key tokens ≡ (l, refuse too_large)) ↔ (l.tau < u64 (l.t * tokens))
  unfolding allows
  allows-too_large_iff l now key tokens = (λ h. ground arith, λ h. ground arith)

  allows-too_soon :
      (l m : Limiter K) (now d : ℕ) (key : K) (tokens : ℕ)
      → now < u64_mod
      → allows eq l now key tokens ≡ (m, refuse (too_soon d))
      → (now + d ≡ u64 (tat_of eq l key now + u64 (l.t * tokens)) - l.tau)
        × (0 < d)
        × (u64 (l.t * tokens) ≤ l.tau)
        × (m ≡ write eq l key (tat_of eq l key now))
  unfolding allows
  allows-too_soon l m now d key tokens n h =
      (ground arith, ground arith, ground arith, ground arith)

  pub tat_of-write :
      (l : Limiter K) (key : K) (tat now : ℕ) → tat_of eq (write eq l key tat) key now ≡ tat
  unfolding write
  tat_of-write l key tat now = rw Assoc.get-insert_self

  -- The wait that a refusal names is exact, at any instant below 2^64: it is not zero; asked again
  -- any shorter time later, the same request is told to wait for what is left of it, and after the
  -- whole wait it is accepted.
  pub allows-too_soon_exact :
      (l m : Limiter K) (now d : ℕ) (key : K) (tokens : ℕ)
      → now < u64_mod
      → allows eq l now key tokens ≡ (m, refuse (too_soon d))
      → (0 < d)
        × ((e : ℕ) → e < d → (allows eq m (now + e) key tokens).1 ≡ refuse (too_soon (d - e)))
        × ((allows eq m (now + d) key tokens).1 ≡ accept)
  allows-too_soon_exact l m now d key tokens n h =
      let (at, positive, fits, same) = allows-too_soon l m now d key tokens n h in
      let kept : (k : ℕ) → tat_of eq m key k ≡ tat_of eq l key now = λ k.
        subst (λ x. tat_of eq x key k ≡ tat_of eq l key now) (sym same) (tat_of-write l key _ k) in
      let constants : (m.tau ≡ l.tau) × (m.t ≡ l.t) =
        unfold write in (rw same refl, rw same refl) in
      (
        positive,
        λ e below. unfold allows in ground (arith, kept (now + e)),
        unfold allows in ground (arith, kept (now + d)),
      )

  -- The three outcomes of a request that does not overflow, in the numbers themselves.
  pub data Outcome (l : Limiter K) (now : ℕ) (key : K) (tokens : ℕ) (r : Limiter K × Verdict)
      : Type 0 where
    large : l.tau < l.t * tokens → r ≡ (l, refuse too_large) → Outcome l now key tokens r
    soon :
        l.t * tokens ≤ l.tau
        → now + l.tau < tat_of eq l key now + l.t * tokens
        → r ≡ (
          write eq l key (tat_of eq l key now),
          refuse (too_soon (tat_of eq l key now + l.t * tokens - l.tau - now)),
        )
        → Outcome l now key tokens r
    fine :
        l.t * tokens ≤ l.tau
        → tat_of eq l key now + l.t * tokens ≤ now + l.tau
        → r ≡ (write eq l key (max now (tat_of eq l key now) + l.t * tokens), accept)
        → Outcome l now key tokens r

  pub allows-Outcome :
      (l : Limiter K) (now : ℕ) (key : K) (tokens : ℕ)
      → Fits eq l now key tokens
      → Outcome l now key tokens (allows eq l now key tokens)
  unfolding allows
  allows-Outcome l now key tokens f = elim (Bool-cases (ltb l.tau (l.t * tokens))) [
    | inl over ↦ large (ltb→lt _ _ over) (ground arith)
    | inr under ↦ elim (Bool-cases (ltb (now + l.tau) (tat_of eq l key now + l.t * tokens))) [
      | inl early ↦ soon (ltb→le _ _ under) (ltb→lt _ _ early) (ground arith)
      | inr due ↦ fine (ltb→le _ _ under) (ltb→le _ _ due) (ground arith)
    ]
  ]

  -- A decision changes at most the entry of its own key.
  pub allows-writes :
      (l : Limiter K) (now : ℕ) (key : K) (tokens : ℕ)
      → ((allows eq l now key tokens).0 ≡ l)
        ⊎ ((tat : ℕ) × ((allows eq l now key tokens).0 ≡ write eq l key tat))
  unfolding allows
  allows-writes l now key tokens = elim (Bool-cases (ltb l.tau (u64 (l.t * tokens)))) [
    | inl over ↦ inl (ground arith)
    | inr under ↦
        elim (Bool-cases
          (ltb (u64 now) (u64 (tat_of eq l key (u64 now) + u64 (l.t * tokens)) - l.tau))) [
            | inl early ↦ inr (tat_of eq l key (u64 now), ground arith)
            | inr due ↦
                inr (
                  u64 (max (u64 now) (tat_of eq l key (u64 now)) + u64 (l.t * tokens)),
                  ground arith,
                )
          ]
  ]

  -- So every other key's entry, the quota's constants and the keys' distinctness stay.
  pub record Keeps (l : Limiter K) (key : K) (m : Limiter K) : Type 0 where
    pub tau_kept : m.tau ≡ l.tau
    pub t_kept : m.t ≡ l.t
    pub others :
        (other : K)
        → key ≢ other
        → Assoc.get eq other m.tat_per_key ≡ Assoc.get eq other l.tat_per_key
    pub distinct : Distinct eq l.tat_per_key → Distinct eq m.tat_per_key

  write-Keeps : (l : Limiter K) (key : K) (tat : ℕ) → Keeps l key (write eq l key tat)
  unfolding write
  write-Keeps l key tat = record {
    tau_kept = refl;
    t_kept = refl;
    others = λ other h. Assoc.get-insert_ne eq key other tat l.tat_per_key h;
    distinct = Assoc.insert-Distinct eq key tat l.tat_per_key;
  }

  pub allows-Keeps :
      (l : Limiter K) (now : ℕ) (key : K) (tokens : ℕ) → Keeps l key (allows eq l now key tokens).0
  allows-Keeps l now key tokens = elim (allows-writes l now key tokens) [
    | inl e ↦
        subst (Keeps l key) (sym e)
          (record { tau_kept = refl; t_kept = refl; others = λ _ _. refl; distinct = λ d. d })
    | inr (tat, e) ↦ subst (Keeps l key) (sym e) (write-Keeps l key tat)
  ]

  -- A defect: a request whose cost leaves the range of a `u64` is charged the cost's remainder.
  -- From a peer with no entry, a batch larger than the bucket is accepted whenever that remainder
  -- fits, before the last `tau` of the range of time.
  pub allows-overflow :
      (l : Limiter K) (now : ℕ) (key : K) (tokens : ℕ)
      → Assoc.get eq key l.tat_per_key ≡ none
      → now + l.tau < u64_mod
      → l.tau < l.t * tokens
      → u64 (l.t * tokens) ≤ l.tau
      → (allows eq l now key tokens).1 ≡ accept
  unfolding allows
  allows-overflow l now key tokens absent later over wrapped = ground arith
