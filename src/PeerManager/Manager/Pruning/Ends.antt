-- ===== src/PeerManager/Manager/Pruning/Ends.antt =====
-- The rounds of the third stage of the pruning in src/peer_manager/mod.rs come to an end.
use consentry.Common.Assoc
use consentry.Common.Totals.{total, weight, total-insert}
use consentry.Common.{
  ℕ, zero, suc, ◌+◌, ◌==◌, ◌<◌, ◌≤◌, ◌≡◌, ◌⊎◌, refl, ap, subst, ◌∙◌, ltb, ltb→le, Bool-cases, false,
  not, ◌&&◌, Option-cases, none, some, List, List-cases, [], ◌∷◌, length, arith, ℕ_discrete, inl,
  inr,
}
use mathlib.Core.List.{Permᴰ}
use consentry.PeerManager.PeerInfo.{
  PeerInfo, Subnet, attestation, sync_committee, Subnet-discrete, contains, is_connected,
}
use consentry.PeerManager.Manager.Subnets.{EnrFields, long_lived_subnets, long_lived_subnet_count}
use consentry.PeerManager.Manager.Pruning.{Pruned, Limits}
use consentry.PeerManager.Manager.Pruning.Bounds.{if_either}
use consentry.PeerManager.Manager.Grouping.{
  Grouped, most_peers, without, without_all, place_fewest, sort_fewest, candidate, is_kept,
  take_out, prune_grouped, entries, group_one, group_all, no_groups,
}

Perm-length : {A : Type 0} {xs ys : List A} → Permᴰ xs ys → length ys ≡ length xs
Perm-length Permᴰ.nil = refl
Perm-length (Permᴰ.cons e p) = let same = Perm-length p in omega arith
Perm-length (Permᴰ.swap e d) = omega arith
Perm-length (Permᴰ.trans p q) = Perm-length q ∙ Perm-length p

module _ {F E M : Type 0} where
  most-none : (g : List (Subnet × List (ℕ × PeerInfo F E M))) → most_peers g ≡ none → entries g ≡ 0
  unfolding most_peers total
  most-none [] e = refl
  most-none ((t, others) ∷ g) e = elim (Option-cases (most_peers g)) [
    | inl alone ↦ ground arith
    | inr ((u, largest), more) ↦ ground arith
  ]

  -- Where the longest list is empty, all are.
  most-empty :
      (g : List (Subnet × List (ℕ × PeerInfo F E M))) (s : Subnet)
      (peers : List (ℕ × PeerInfo F E M))
      → most_peers g ≡ some (s, peers)
      → length peers ≡ 0
      → entries g ≡ 0
  unfolding most_peers total
  most-empty [] s peers e z = ground arith
  most-empty ((t, others) ∷ g) s peers e z = elim (Option-cases (most_peers g)) [
    | inl alone ↦ let rest = most-none g alone in ground arith
    | inr ((u, largest), more) ↦ elim (Bool-cases (ltb (length largest) (length others))) [
      | inl new ↦ ground arith
      | inr old ↦ let rest = most-empty g u largest more in ground arith
    ]
  ]

  most-get :
      (g : List (Subnet × List (ℕ × PeerInfo F E M))) (s : Subnet)
      (peers : List (ℕ × PeerInfo F E M))
      → Assoc.Distinct Subnet-discrete g
      → most_peers g ≡ some (s, peers)
      → Assoc.get Subnet-discrete s g ≡ some peers
  unfolding most_peers Assoc.get
  most-get [] s peers d e = ground arith
  most-get ((t, others) ∷ g) s peers (free, d) e = elim (Option-cases (most_peers g)) [
    | inl alone ↦ ground arith
    | inr ((u, largest), more) ↦ elim (Bool-cases (ltb (length largest) (length others))) [
      | inl new ↦ ground arith
      | inr old ↦ let rest = most-get g u largest d more in ground arith
    ]
  ]

  without-le : (k : ℕ) (xs : List (ℕ × PeerInfo F E M)) → length (without k xs) ≤ length xs
  unfolding Assoc.retain
  without-le k [] = omega arith
  without-le k ((j, i) ∷ xs) =
      let rest = without-le k xs in
      elim (Bool-cases (not (j == k))) [
        | inl stays ↦ rw stays (omega arith)
        | inr goes ↦ rw goes (omega arith)
      ]

  without_all-le :
      (k : ℕ) (g : List (Subnet × List (ℕ × PeerInfo F E M)))
      → entries (without_all k g) ≤ entries g
  unfolding without_all total
  without_all-le k [] = omega arith
  without_all-le k ((t, xs) ∷ g) = omega (arith, without-le k xs, without_all-le k g)

  without_all-lt :
      (k : ℕ) (s : Subnet) (ys : List (ℕ × PeerInfo F E M))
      (g : List (Subnet × List (ℕ × PeerInfo F E M)))
      → Assoc.get Subnet-discrete s g ≡ some ys
      → length (without k ys) < length ys
      → entries (without_all k g) < entries g
  unfolding without_all total Assoc.get
  without_all-lt k s ys [] e l = ground arith
  without_all-lt k s ys ((t, xs) ∷ g) e l =
      ground (arith, without-le k xs, without_all-le k g, without_all-lt k s ys g)

  without_all-get :
      (k : ℕ) (s : Subnet) (g : List (Subnet × List (ℕ × PeerInfo F E M)))
      → Assoc.get Subnet-discrete s g ≡ none
      → Assoc.get Subnet-discrete s (without_all k g) ≡ none
  unfolding without_all Assoc.get
  without_all-get k s [] e = refl
  without_all-get k s ((t, xs) ∷ g) e = ground (arith, without_all-get k s g)

  without_all-Distinct :
      (k : ℕ) (g : List (Subnet × List (ℕ × PeerInfo F E M)))
      → Assoc.Distinct Subnet-discrete g
      → Assoc.Distinct Subnet-discrete (without_all k g)
  unfolding without_all
  without_all-Distinct k [] d = tt
  without_all-Distinct k ((t, xs) ∷ g) (free, d) =
      (without_all-get k t g free, without_all-Distinct k g d)

module _ {F E M : Type 0} (enr : EnrFields E) (l : Limits) where
  place_fewest-length :
      (x : ℕ × PeerInfo F E M) (xs : List (ℕ × PeerInfo F E M))
      → length (place_fewest enr l x xs) ≡ suc (length xs)
  unfolding place_fewest
  place_fewest-length (k, i) [] = refl
  place_fewest-length (k, i) ((j, h) ∷ xs) =
      let rest = place_fewest-length (k, i) xs in
      elim (Bool-cases (ltb (long_lived_subnet_count enr h) (long_lived_subnet_count enr i))) [
        | inl after ↦ rw after (omega arith)
        | inr before ↦ rw before refl
      ]

  sort_fewest-length : (xs : List (ℕ × PeerInfo F E M)) → length (sort_fewest enr l xs) ≡ length xs
  unfolding sort_fewest
  sort_fewest-length [] = refl
  sort_fewest-length (x ∷ xs) =
      omega (arith, place_fewest-length x (sort_fewest enr l xs), sort_fewest-length xs)

  candidate-lt :
      (p : Pruned) (g : Grouped F E M) (xs : List (ℕ × PeerInfo F E M)) (k : ℕ) (i : PeerInfo F E M)
      → candidate enr l p g xs ≡ some (k, i)
      → length (without k xs) < length xs
  unfolding candidate Assoc.retain
  candidate-lt p g [] k i e = ground arith
  candidate-lt p g ((j, h) ∷ xs) k i e = elim (Bool-cases (is_kept enr l p g j h)) [
    | inl kept ↦
        let rest = candidate-lt p g xs k i (rw kept at e) in
        elim (Bool-cases (not (j == k))) [
          | inl stays ↦ rw stays (omega arith)
          | inr goes ↦ rw goes (omega arith)
        ]
    | inr goes ↦
        let le = without-le k xs in
        let drops : not (j == k) ≡ false = ground arith in rw drops (omega arith)
  ]

  -- The third stage has its peers, or there are none left to take.
  abbrev Ended : Pruned × Grouped F E M → Type 0
  Ended x = (l.excess ≤ length x.0.peers_to_prune) ⊎ (entries x.1.subnet_to_peer ≡ 0)

  module _ (shuffles : ℕ → List (ℕ × PeerInfo F E M) → List (ℕ × PeerInfo F E M))
      (shuffled : (n : ℕ) (xs : List (ℕ × PeerInfo F E M)) → Permᴰ xs (shuffles n xs)) where
    take_out-less :
        (s : Subnet) (p : Pruned) (g : Grouped F E M) (peers sorted : List (ℕ × PeerInfo F E M))
        → Assoc.Distinct Subnet-discrete g.subnet_to_peer
        → Assoc.get Subnet-discrete s g.subnet_to_peer ≡ some peers
        → length sorted ≡ length peers
        → 0 < length peers
        → let g' = record g {
          subnet_to_peer = Assoc.insert Subnet-discrete s sorted g.subnet_to_peer;
        } in
          let (p'', g'') = take_out enr l s p g' (candidate enr l p g sorted) in
          (entries g''.subnet_to_peer < entries g.subnet_to_peer)
          × Assoc.Distinct Subnet-discrete g''.subnet_to_peer
    take_out-less s p g peers sorted d held same n =
        let m = g.subnet_to_peer in
        let m' = Assoc.insert Subnet-discrete s sorted m in
        let there = Assoc.get-insert_self Subnet-discrete s sorted m in
        let d' = Assoc.insert-Distinct Subnet-discrete s sorted m d in
        let one : entries m' + length peers ≡ entries m + length sorted =
          subst (λ o. entries m' + weight length o ≡ entries m + length sorted) held
            (total-insert Subnet-discrete length s sorted m) in
        elim (Option-cases (candidate enr l p g sorted)) [
          | inl stuck ↦
              let two : entries (Assoc.insert Subnet-discrete s [] m') + length sorted
                  ≡ entries m' + 0 =
                subst
                  (λ o.
                    entries (Assoc.insert Subnet-discrete s [] m') + weight length o
                    ≡ entries m' + 0)
                  there (total-insert Subnet-discrete length s [] m') in
              rw stuck (omega arith, Assoc.insert-Distinct Subnet-discrete s [] m' d')
          | inr ((k, i), found) ↦
              let less = without_all-lt k s sorted m' there (candidate-lt p g sorted k i found) in
              rw found (omega arith, without_all-Distinct k m' d')
        ]

    grouped_ends :
        (fuel : ℕ) (p : Pruned) (g : Grouped F E M)
        → Assoc.Distinct Subnet-discrete g.subnet_to_peer
        → entries g.subnet_to_peer < fuel
        → Ended (prune_grouped enr l shuffles fuel p g)
    unfolding prune_grouped
    grouped_ends zero p g d enough = absurd (omega arith)
    grouped_ends (suc fuel) p g d enough =
        elim (Bool-cases (ltb (length p.peers_to_prune) l.excess)) [
          | inr full ↦ rw (full, prune_grouped) (inl (ltb→le _ _ full))
          | inl room ↦ elim (Option-cases (most_peers g.subnet_to_peer)) [
            | inl nothing ↦
                rw (room, nothing, prune_grouped) (inr (most-none g.subnet_to_peer nothing))
            | inr ((s, peers), most) ↦ elim (List-cases peers) [
              | inl empty ↦
                  rw (room, most, empty, prune_grouped)
                    (inr (most-empty g.subnet_to_peer s peers most (ap length empty)))
              | inr (x, xs, more) ↦
                  let sorted = sort_fewest enr l (shuffles fuel (x ∷ xs)) in
                  let same : length sorted ≡ length peers = omega (
                    arith,
                    sort_fewest-length (shuffles fuel (x ∷ xs)),
                    Perm-length (shuffled fuel (x ∷ xs)),
                    ap length more,
                  ) in
                  let n : 0 < length peers = omega (arith, ap length more) in
                  let (less, d') =
                    take_out-less s p g peers sorted d (most-get g.subnet_to_peer s peers d most)
                      same n in
                  rw (room, most, more, prune_grouped) (grouped_ends fuel _ _ d' (omega arith))
            ]
          ]
        ]

module _ {F E M : Type 0} where
  group_one-Distinct :
      (k : ℕ) (i : PeerInfo F E M) (subnets : List Subnet) (g : Grouped F E M)
      → Assoc.Distinct Subnet-discrete g.subnet_to_peer
      → Assoc.Distinct Subnet-discrete (group_one k i subnets g).subnet_to_peer
  unfolding group_one
  group_one-Distinct k i [] g d = d
  group_one-Distinct k i (attestation id ∷ rest) g d =
      group_one-Distinct k i rest _
        (Assoc.insert-Distinct Subnet-discrete (attestation id) _ g.subnet_to_peer d)
  group_one-Distinct k i (sync_committee id ∷ rest) g d = group_one-Distinct k i rest _ d

  group_all-Distinct :
      (enr : EnrFields E) (l : Limits) (p : Pruned) (xs : List (ℕ × PeerInfo F E M))
      (g : Grouped F E M)
      → Assoc.Distinct Subnet-discrete g.subnet_to_peer
      → Assoc.Distinct Subnet-discrete (group_all enr l p xs g).subnet_to_peer
  unfolding group_all
  group_all-Distinct enr l p [] g d = d
  group_all-Distinct enr l p ((k, i) ∷ xs) g d = group_all-Distinct enr l p xs _ (
      if_either (λ x. Assoc.Distinct Subnet-discrete x.subnet_to_peer)
        (is_connected i && not (contains ℕ_discrete k p.peers_to_prune)) _ g
        (group_one-Distinct k i (long_lived_subnets enr i) g d) d)

  -- Whatever the shuffles (each a permutation) and the peers, the third stage with the fuel that the
  -- pruning gives it ends with as many peers as are in excess, or with no peer left on any subnet.
  pub third_stage_ends :
      (enr : EnrFields E) (l : Limits)
      (shuffles : ℕ → List (ℕ × PeerInfo F E M) → List (ℕ × PeerInfo F E M)) (p : Pruned)
      (peers : List (ℕ × PeerInfo F E M))
      → ((n : ℕ) (xs : List (ℕ × PeerInfo F E M)) → Permᴰ xs (shuffles n xs))
      → let g = group_all enr l p peers no_groups in
        let (p', g') = prune_grouped enr l shuffles (suc (entries g.subnet_to_peer)) p g in
        (l.excess ≤ length p'.peers_to_prune) ⊎ (entries g'.subnet_to_peer ≡ 0)
  third_stage_ends enr l shuffles p peers shuffled =
      grouped_ends enr l shuffles shuffled _ p _ (group_all-Distinct enr l p peers no_groups tt)
        (omega arith)
