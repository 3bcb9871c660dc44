-- ===== src/PeerManager/Manager/Pruning/Groups.antt =====
-- The subnets of the third stage of the pruning hold entries of the database.
use consentry.Common.Assoc
use consentry.Common.{
  ℕ, ◌≡◌, ltb, Bool-cases, Option, Option-cases, none, some, List, [], ◌∷◌, length, ℕ_discrete, inl,
  inr, subst,
}
use consentry.PeerManager.PeerInfo.{PeerInfo, Subnet, attestation, sync_committee, Subnet-discrete}
use consentry.PeerManager.Manager.Pruning.{Limits}
use consentry.PeerManager.Manager.Grouping.{Grouped, most_peers, without_all, group_one, or_nil}
use consentry.PeerManager.Manager.Pruning.Held.{AllHeld, append-AllHeld, retain-AllHeld}
use consentry.PeerManager.Manager.Pruning.Bounds.{ite_either}

module _ {F E M : Type 0} (l : Limits) (m : List (ℕ × PeerInfo F E M)) where
  -- The peers of each subnet are entries of the database.
  abbrev pub AllGroups : List (Subnet × List (ℕ × PeerInfo F E M)) → Type 0
  AllGroups [] = Unit {0}
  AllGroups ((s, peers) ∷ rest) = AllHeld m peers × AllGroups rest

  pub insert-AllGroups :
      (s : Subnet) (peers : List (ℕ × PeerInfo F E M))
      (g : List (Subnet × List (ℕ × PeerInfo F E M)))
      → AllHeld m peers
      → AllGroups g
      → AllGroups (Assoc.insert Subnet-discrete s peers g)
  unfolding Assoc.insert
  insert-AllGroups s peers [] h a = (h, tt)
  insert-AllGroups s peers ((t, others) ∷ g) h (o, a) =
      ite_either AllGroups (Subnet-discrete t s) ((t, peers) ∷ g) _ (h, a)
        (o, insert-AllGroups s peers g h a)

  get-AllGroups :
      (s : Subnet) (g : List (Subnet × List (ℕ × PeerInfo F E M)))
      → AllGroups g
      → AllHeld m (or_nil (Assoc.get Subnet-discrete s g))
  unfolding Assoc.get
  get-AllGroups s [] a = tt
  get-AllGroups s ((t, others) ∷ g) (o, a) =
      ite_either (λ x. AllHeld m (or_nil x)) (Subnet-discrete t s) (some others) _ o
        (get-AllGroups s g a)

  pub without_all-AllGroups :
      (k : ℕ) (g : List (Subnet × List (ℕ × PeerInfo F E M)))
      → AllGroups g
      → AllGroups (without_all k g)
  unfolding without_all
  without_all-AllGroups k [] a = tt
  without_all-AllGroups k ((t, others) ∷ g) (o, a) =
      (retain-AllHeld m _ others o, without_all-AllGroups k g a)

  abbrev pub HeldThere : Option (Subnet × List (ℕ × PeerInfo F E M)) → Type 0
  HeldThere none = Unit {0}
  HeldThere (some (s, peers)) = AllHeld m peers

  pub most_peers-HeldThere :
      (g : List (Subnet × List (ℕ × PeerInfo F E M))) → AllGroups g → HeldThere (most_peers g)
  unfolding most_peers
  most_peers-HeldThere [] a = tt
  most_peers-HeldThere ((t, others) ∷ g) (o, a) = elim (Option-cases (most_peers g)) [
    | inl alone ↦ rw alone o
    | inr ((u, largest), more) ↦
        let h = subst HeldThere more (most_peers-HeldThere g a) in
        rw more (elim (Bool-cases (ltb (length largest) (length others))) [
          | inl new ↦ rw new o
          | inr old ↦ rw old h
        ])
  ]

  pub group_one-AllGroups :
      (k : ℕ) (i : PeerInfo F E M) (subnets : List Subnet) (g : Grouped F E M)
      → Assoc.get ℕ_discrete k m ≡ some i
      → AllGroups g.subnet_to_peer
      → AllGroups (group_one k i subnets g).subnet_to_peer
  unfolding group_one
  group_one-AllGroups k i [] g e a = a
  group_one-AllGroups k i (attestation id ∷ rest) g e a = group_one-AllGroups k i rest _ e (
      insert-AllGroups (attestation id) _ g.subnet_to_peer
        (append-AllHeld m _ ((k, i) ∷ []) (get-AllGroups (attestation id) g.subnet_to_peer a)
          (e, tt))
        a)
  group_one-AllGroups k i (sync_committee id ∷ rest) g e a = group_one-AllGroups k i rest _ e a
