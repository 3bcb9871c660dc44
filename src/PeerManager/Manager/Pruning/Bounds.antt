-- ===== src/PeerManager/Manager/Pruning/Bounds.antt =====
-- How many peers, and how many outbound ones, the pruning of src/peer_manager/mod.rs takes.
use consentry.Common.Assoc
use consentry.Common.{
  ℕ, ◌+◌, ◌-◌, ◌<◌, ◌≤◌, ◌≡◌, refl, leb, ltb→lt, if◌then◌else◌, ite, Bool, Bool-cases, true, false,
  Option, none, some, List, [], ◌∷◌, length, arith, ℕ_discrete, inl, inr,
}
use consentry.PeerManager.PeerInfo.{PeerInfo, contains, insert_new, is_outbound_only}
use consentry.PeerManager.Manager.Pruning.{Pruned, Limits, may_prune, pruned, prune_one, prune_list}
use consentry.PeerManager.Manager.Pruning.Held.{AllHeld}

pub ite_either : {P A : Type 0} (C : A → Type 0) (d : Dec P) (x y : A) → C x → C y → C (ite d x y)
ite_either C (yes e) x y a b = a
ite_either C (no n) x y a b = b

pub if_either :
    {A : Type 0} (C : A → Type 0) (b : Bool) (x y : A) → C x → C y → C (if b then x else y)
if_either C true x y a b = a
if_either C false x y a b = b

module _ {F E M : Type 0} where
  abbrev pub as_outbound : Option (PeerInfo F E M) → ℕ
  as_outbound none = 0
  as_outbound (some info) = if is_outbound_only info then 1 else 0

module _ {F E M : Type 0} (l : Limits) (m : List (ℕ × PeerInfo F E M)) where
  -- How many of some peers have only outbound connections.
  abbrev pub outbound_among : List ℕ → ℕ
  outbound_among [] = 0
  outbound_among (k ∷ ks) = as_outbound (Assoc.get ℕ_discrete k m) + outbound_among ks

  pub record Bounded (p : Pruned) : Type 0 where
    pub few : length p.peers_to_prune ≤ l.excess
    pub floor : p.outbound_peers_pruned ≤ l.connected_outbound - l.target_outbound
    pub counted : outbound_among p.peers_to_prune ≤ p.outbound_peers_pruned

  pub pruned-Bounded :
      (k : ℕ) (i : PeerInfo F E M) (p : Pruned)
      → Assoc.get ℕ_discrete k m ≡ some i
      → length p.peers_to_prune < l.excess
      → may_prune l i p ≡ true
      → Bounded p
      → Bounded (pruned l k i p)
  unfolding insert_new
  pruned-Bounded k i p held room may b =
      let few = b.few in
      let floor = b.floor in
      let counted = b.counted in
      elim (Bool-cases (is_outbound_only i)) [
        | inl out ↦
            let below =
              ltb→lt (l.target_outbound + p.outbound_peers_pruned) l.connected_outbound
                (ground arith) in
            let one : as_outbound (Assoc.get ℕ_discrete k m) ≡ 1 = rw (held, out) refl in
            elim (Bool-cases (contains ℕ_discrete k p.peers_to_prune)) [
              | inl there ↦
                  rw (there, out) (record { few = few; floor = omega arith; counted = omega arith })
              | inr new ↦
                  rw (new, out)
                    (record { few = omega arith; floor = omega arith; counted = omega arith })
            ]
        | inr other ↦
            let zero_more : as_outbound (Assoc.get ℕ_discrete k m) ≡ 0 = rw (held, other) refl in
            elim (Bool-cases (contains ℕ_discrete k p.peers_to_prune)) [
              | inl there ↦
                  rw (there, other) (record { few = few; floor = floor; counted = counted })
              | inr new ↦
                  rw (new, other)
                    (record { few = omega arith; floor = floor; counted = omega arith })
            ]
      ]

  prune_one-Bounded :
      (k : ℕ) (i : PeerInfo F E M) (p : Pruned)
      → Assoc.get ℕ_discrete k m ≡ some i
      → length p.peers_to_prune < l.excess
      → Bounded p
      → Bounded (prune_one l k i p)
  prune_one-Bounded k i p held room b = elim (Bool-cases (contains ℕ_discrete k p.peers_to_prune)) [
    | inl there ↦ rw there b
    | inr new ↦ elim (Bool-cases (may_prune l i p)) [
      | inl may ↦ rw (new, may) (pruned-Bounded k i p held room may b)
      | inr kept ↦ rw (new, kept) b
    ]
  ]

  pub prune_list-Bounded :
      (xs : List (ℕ × PeerInfo F E M)) (p : Pruned)
      → AllHeld m xs
      → Bounded p
      → Bounded (prune_list l xs p)
  unfolding prune_list
  prune_list-Bounded [] p h b = b
  prune_list-Bounded ((k, i) ∷ xs) p (e, h) b =
      elim (Bool-cases (leb l.excess (length p.peers_to_prune))) [
        | inl full ↦ rw full b
        | inr room ↦
            let r : length p.peers_to_prune < l.excess = ground arith in
            rw room (prune_list-Bounded xs _ h (prune_one-Bounded k i p e r b))
      ]
