-- ===== src/PeerManager/Manager/Pruning/Rounds.antt =====
-- The rounds of the third stage of the pruning, and the three stages, keep the bounds.
use consentry.Common.Assoc
use consentry.Common.{
  ℕ, zero, suc, ◌-◌, ◌<◌, ◌≡◌, refl, ltb, ltb→lt, lt→ltb, Bool-cases, true, false, not, ◌&&◌,
  Option, Option-cases, none, some, List, List-cases, [], ◌∷◌, length, arith, ℕ_discrete, inl, inr,
  subst,
}
use mathlib.Core.List.{Permᴰ}
use consentry.PeerManager.Score.{F64}
use consentry.PeerManager.PeerInfo.{
  PeerInfo, Subnet, Subnet-discrete, contains, is_connected, is_outbound_only,
}
use consentry.PeerManager.Manager.Subnets.{EnrFields, long_lived_subnets}
use consentry.PeerManager.Manager.Pruning.{Pruned, Limits, may_prune}
use consentry.PeerManager.Manager.Grouping.{
  Grouped, candidate, is_kept, take_out, most_peers, group_all, prune_grouped, sort_fewest,
  no_groups,
}
use consentry.PeerManager.Manager.Selection.{prune_worst, choose_pruned}
use consentry.PeerManager.Manager.Pruning.Held.{
  AllHeld, filter-AllHeld, Perm-AllHeld, sort_fewest-AllHeld,
}
use consentry.PeerManager.Manager.Pruning.Bounds.{
  if_either, Bounded, pruned-Bounded, prune_list-Bounded,
}
use consentry.PeerManager.Manager.Pruning.Groups.{
  AllGroups, HeldThere, insert-AllGroups, without_all-AllGroups, most_peers-HeldThere,
  group_one-AllGroups,
}

module _ {F E M : Type 0} (enr : EnrFields E) (l : Limits) (m : List (ℕ × PeerInfo F E M)) where
  group_all-AllGroups :
      (p : Pruned) (xs : List (ℕ × PeerInfo F E M)) (g : Grouped F E M)
      → AllHeld m xs
      → AllGroups l m g.subnet_to_peer
      → AllGroups l m (group_all enr l p xs g).subnet_to_peer
  unfolding group_all
  group_all-AllGroups p [] g h a = a
  group_all-AllGroups p ((k, i) ∷ xs) g (e, h) a = group_all-AllGroups p xs _ h (
      if_either (λ x. AllGroups l m x.subnet_to_peer)
        (is_connected i && not (contains ℕ_discrete k p.peers_to_prune)) _ g
        (group_one-AllGroups l m k i (long_lived_subnets enr i) g e a) a)

  is_kept-may_prune :
      (p : Pruned) (g : Grouped F E M) (k : ℕ) (i : PeerInfo F E M)
      → is_kept enr l p g k i ≡ false
      → may_prune l i p ≡ true
  is_kept-may_prune p g k i goes = elim (Bool-cases (is_outbound_only i)) [
    | inl out ↦
        let above : l.target_outbound < l.connected_outbound - p.outbound_peers_pruned =
          ground arith in
        rw out (lt→ltb _ _ (omega arith))
    | inr other ↦ rw other refl
  ]

  -- A candidate is an entry of the database that may be pruned.
  abbrev MayGo : Pruned → Option (ℕ × PeerInfo F E M) → Type 0
  MayGo p none = Unit {0}
  MayGo p (some (k, i)) = (Assoc.get ℕ_discrete k m ≡ some i) × (may_prune l i p ≡ true)

  candidate-MayGo :
      (p : Pruned) (g : Grouped F E M) (xs : List (ℕ × PeerInfo F E M))
      → AllHeld m xs
      → MayGo p (candidate enr l p g xs)
  unfolding candidate
  candidate-MayGo p g [] h = tt
  candidate-MayGo p g ((k, i) ∷ xs) (e, h) = elim (Bool-cases (is_kept enr l p g k i)) [
    | inl kept ↦ rw kept (candidate-MayGo p g xs h)
    | inr goes ↦ rw goes (e, is_kept-may_prune p g k i goes)
  ]

  record Ready (x : Pruned × Grouped F E M) : Type 0 where
    within : Bounded l m x.0
    groups : AllGroups l m x.1.subnet_to_peer

  take_out-Ready :
      (s : Subnet) (p : Pruned) (g : Grouped F E M) (o : Option (ℕ × PeerInfo F E M))
      → length p.peers_to_prune < l.excess
      → MayGo p o
      → Ready (p, g)
      → Ready (take_out enr l s p g o)
  take_out-Ready s p g none room may r = record {
    within = r.within;
    groups = insert-AllGroups l m s [] g.subnet_to_peer tt r.groups;
  }
  take_out-Ready s p g (some (k, i)) room (e, may) r = record {
    within = pruned-Bounded l m k i p e room may r.within;
    groups = without_all-AllGroups l m k g.subnet_to_peer r.groups;
  }

  module _ (shuffles : ℕ → List (ℕ × PeerInfo F E M) → List (ℕ × PeerInfo F E M))
      (shuffled : (n : ℕ) (xs : List (ℕ × PeerInfo F E M)) → Permᴰ xs (shuffles n xs)) where
    prune_grouped-Ready :
        (fuel : ℕ) (p : Pruned) (g : Grouped F E M)
        → Ready (p, g)
        → Ready (prune_grouped enr l shuffles fuel p g)
    unfolding prune_grouped
    prune_grouped-Ready zero p g r = r
    prune_grouped-Ready (suc fuel) p g r =
        elim (Bool-cases (ltb (length p.peers_to_prune) l.excess)) [
          | inr full ↦ rw (full, prune_grouped) r
          | inl room ↦ elim (Option-cases (most_peers g.subnet_to_peer)) [
            | inl nothing ↦ rw (room, nothing, prune_grouped) r
            | inr ((s, peers), most) ↦ elim (List-cases peers) [
              | inl empty ↦ rw (room, most, empty, prune_grouped) r
              | inr (x, xs, more) ↦
                  let held = subst (AllHeld m) more (
                    subst (HeldThere l m) most
                      (most_peers-HeldThere l m g.subnet_to_peer r.groups)) in
                  let sorted = sort_fewest enr l (shuffles fuel (x ∷ xs)) in
                  let sorted_held =
                    sort_fewest-AllHeld m enr l _ (Perm-AllHeld m (shuffled fuel (x ∷ xs)) held) in
                  let g' = record g {
                    subnet_to_peer = Assoc.insert Subnet-discrete s sorted g.subnet_to_peer;
                  } in
                  let r' : Ready (p, g') = record {
                    within = r.within;
                    groups = insert-AllGroups l m s sorted g.subnet_to_peer sorted_held r.groups;
                  } in
                  rw (room, most, more, prune_grouped)
                    (prune_grouped-Ready fuel _ _ (
                      take_out-Ready s p g' _ (ltb→lt _ _ room)
                        (candidate-MayGo p g sorted sorted_held) r'))
            ]
          ]
        ]

module _ {F E M : Type 0} (f : F64 F) (enr : EnrFields E) (now : ℕ) (l : Limits)
    (m : List (ℕ × PeerInfo F E M)) where
  none-Bounded : Bounded l m (record { peers_to_prune = []; outbound_peers_pruned = 0 })
  none-Bounded = record { few = omega arith; floor = omega arith; counted = omega arith }

  prune_worst-Bounded :
      (worst worst_again : List (ℕ × PeerInfo F E M))
      → AllHeld m worst
      → AllHeld m worst_again
      → Bounded l m (prune_worst f enr now l worst worst_again)
  prune_worst-Bounded worst worst_again h h' =
      let first = prune_list-Bounded l m _ _ (filter-AllHeld m _ worst h) none-Bounded in
      if_either (Bounded l m) _ _ _
        (prune_list-Bounded l m _ _ (filter-AllHeld m _ worst_again h') first) first

  pub choose_pruned-Bounded :
      (shuffles : ℕ → List (ℕ × PeerInfo F E M) → List (ℕ × PeerInfo F E M))
      (worst worst_again : List (ℕ × PeerInfo F E M))
      → ((n : ℕ) (xs : List (ℕ × PeerInfo F E M)) → Permᴰ xs (shuffles n xs))
      → AllHeld m m
      → AllHeld m worst
      → AllHeld m worst_again
      → Bounded l m (choose_pruned f enr now l shuffles m worst worst_again)
  unfolding choose_pruned
  choose_pruned-Bounded shuffles worst worst_again shuffled all h h' =
      let p = prune_worst f enr now l worst worst_again in
      let b = prune_worst-Bounded worst worst_again h h' in
      let g = group_all-AllGroups enr l m p m no_groups all tt in
      let r =
        prune_grouped-Ready enr l m shuffles shuffled _ p _ (record { within = b; groups = g }) in
      if_either (Bounded l m) _ _ p r.within b
