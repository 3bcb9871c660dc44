-- ===== src/PeerManager/Manager/Pruning/Held.antt =====
-- Lists of peers with the entries that the database holds of them.
use consentry.Common.Assoc
use consentry.Common.{
  ℕ, ◌≡◌, ltb, Bool, Bool-cases, none, some, List, [], ◌∷◌, ◌++◌, filter, arith, ℕ_discrete, inl,
  inr, subst,
}
use mathlib.Core.List.{Permᴰ}
use consentry.PeerManager.Score.{F64, score_of}
use consentry.PeerManager.PeerInfo.{PeerInfo}
use consentry.PeerManager.Manager.Subnets.{EnrFields, long_lived_subnet_count}
use consentry.PeerManager.Manager.Pruning.{place_worst, sort_worst, Limits}
use consentry.PeerManager.Manager.Grouping.{place_fewest, sort_fewest}

module _ {F E M : Type 0} (m : List (ℕ × PeerInfo F E M)) where
  abbrev pub AllHeld : List (ℕ × PeerInfo F E M) → Type 0
  AllHeld [] = Unit {0}
  AllHeld ((k, i) ∷ xs) = (Assoc.get ℕ_discrete k m ≡ some i) × AllHeld xs

  pub filter-AllHeld :
      (p : ℕ × PeerInfo F E M → Bool) (xs : List (ℕ × PeerInfo F E M))
      → AllHeld xs
      → AllHeld (filter p xs)
  unfolding filter
  filter-AllHeld p [] h = tt
  filter-AllHeld p ((k, i) ∷ xs) (e, h) = elim (Bool-cases (p (k, i))) [
    | inl y ↦ rw y (e, filter-AllHeld p xs h)
    | inr n ↦ rw n (filter-AllHeld p xs h)
  ]

  pub append-AllHeld :
      (xs ys : List (ℕ × PeerInfo F E M)) → AllHeld xs → AllHeld ys → AllHeld (xs ++ ys)
  append-AllHeld [] ys h j = j
  append-AllHeld ((k, i) ∷ xs) ys (e, h) j = (e, append-AllHeld xs ys h j)

  pub retain-AllHeld :
      (p : ℕ → PeerInfo F E M → Bool) (xs : List (ℕ × PeerInfo F E M))
      → AllHeld xs
      → AllHeld (Assoc.retain ℕ_discrete p xs)
  unfolding Assoc.retain
  retain-AllHeld p [] h = tt
  retain-AllHeld p ((k, i) ∷ xs) (e, h) = elim (Bool-cases (p k i)) [
    | inl y ↦ rw y (e, retain-AllHeld p xs h)
    | inr n ↦ rw n (retain-AllHeld p xs h)
  ]

  pub Perm-AllHeld : {xs ys : List (ℕ × PeerInfo F E M)} → Permᴰ xs ys → AllHeld xs → AllHeld ys
  Perm-AllHeld Permᴰ.nil h = tt
  Perm-AllHeld (Permᴰ.cons e p) (a, h) =
      (subst (λ x. Assoc.get ℕ_discrete x.0 m ≡ some x.1) e a, Perm-AllHeld p h)
  Perm-AllHeld (Permᴰ.swap e d) (a, (b, h)) = (
    subst (λ x. Assoc.get ℕ_discrete x.0 m ≡ some x.1) d b,
    (subst (λ x. Assoc.get ℕ_discrete x.0 m ≡ some x.1) e a, h),
  )
  Perm-AllHeld (Permᴰ.trans p q) h = Perm-AllHeld q (Perm-AllHeld p h)

  place_worst-AllHeld :
      (f : F64 F) (k : ℕ) (i : PeerInfo F E M) (xs : List (ℕ × PeerInfo F E M))
      → Assoc.get ℕ_discrete k m ≡ some i
      → AllHeld xs
      → AllHeld (place_worst f (k, i) xs)
  unfolding place_worst
  place_worst-AllHeld f k i [] e h = (e, tt)
  place_worst-AllHeld f k i ((j, g) ∷ xs) e (d, h) =
      elim (Bool-cases (f.lt (score_of f g.score) (score_of f i.score))) [
        | inl y ↦ rw y (d, place_worst-AllHeld f k i xs e h)
        | inr n ↦ rw n (e, (d, h))
      ]

  pub sort_worst-AllHeld :
      (f : F64 F) (xs : List (ℕ × PeerInfo F E M)) → AllHeld xs → AllHeld (sort_worst f xs)
  unfolding sort_worst
  sort_worst-AllHeld f [] h = tt
  sort_worst-AllHeld f ((k, i) ∷ xs) (e, h) =
      place_worst-AllHeld f k i (sort_worst f xs) e (sort_worst-AllHeld f xs h)

  place_fewest-AllHeld :
      (enr : EnrFields E) (l : Limits) (k : ℕ) (i : PeerInfo F E M) (xs : List (ℕ × PeerInfo F E M))
      → Assoc.get ℕ_discrete k m ≡ some i
      → AllHeld xs
      → AllHeld (place_fewest enr l (k, i) xs)
  unfolding place_fewest
  place_fewest-AllHeld enr l k i [] e h = (e, tt)
  place_fewest-AllHeld enr l k i ((j, g) ∷ xs) e (d, h) =
      elim (Bool-cases (ltb (long_lived_subnet_count enr g) (long_lived_subnet_count enr i))) [
        | inl y ↦ rw y (d, place_fewest-AllHeld enr l k i xs e h)
        | inr n ↦ rw n (e, (d, h))
      ]

  pub sort_fewest-AllHeld :
      (enr : EnrFields E) (l : Limits) (xs : List (ℕ × PeerInfo F E M))
      → AllHeld xs
      → AllHeld (sort_fewest enr l xs)
  unfolding sort_fewest
  sort_fewest-AllHeld enr l [] h = tt
  sort_fewest-AllHeld enr l ((k, i) ∷ xs) (e, h) =
      place_fewest-AllHeld enr l k i (sort_fewest enr l xs) e (sort_fewest-AllHeld enr l xs h)

module _ {F E M : Type 0} where
  weaken :
      (j : ℕ) (v : PeerInfo F E M) (m xs : List (ℕ × PeerInfo F E M))
      → Assoc.get ℕ_discrete j m ≡ none
      → AllHeld m xs
      → AllHeld ((j, v) ∷ m) xs
  unfolding Assoc.get
  weaken j v m [] free h = tt
  weaken j v m ((k, i) ∷ xs) free (e, h) = (ground arith, weaken j v m xs free h)

  -- A database in which each peer stands once holds its own entries.
  pub Distinct-AllHeld : (m : List (ℕ × PeerInfo F E M)) → Assoc.Distinct ℕ_discrete m → AllHeld m m
  unfolding Assoc.get
  Distinct-AllHeld [] d = tt
  Distinct-AllHeld ((j, v) ∷ m) (free, d) =
      (ground arith, weaken j v m m free (Distinct-AllHeld m d))
