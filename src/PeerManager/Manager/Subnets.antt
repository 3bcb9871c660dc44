-- ===== src/PeerManager/Manager/Subnets.antt =====
-- The long-lived subnets of a peer: src/peer_manager/peerdb/peer_info.rs. What an ENR says of them is
-- given by the accessors that the code calls, `none` where they return an error.
use consentry.Common.{
  ℕ, suc, if◌then◌else◌, Bool, true, false, not, ◌&&◌, ◌||◌, Option, none, some, List, [], ◌∷◌,
  ◌++◌, map, length,
}
use consentry.PeerManager.PeerInfo.{PeerInfo, Subnet, attestation, sync_committee}

pub record EnrFields (E : Type 0) : Type 0 where
  pub attestation_bitfield : E → Option (List Bool)
  pub sync_committee_bitfield : E → Option (List Bool)

-- The positions of the set bits, from `i` on.
unfoldable pub set_bits : ℕ → List Bool → List ℕ
set_bits i [] = []
set_bits i (b ∷ bs) = let rest = set_bits (suc i) bs in if b then i ∷ rest else rest

abbrev is_nil : {A : Type 0} → List A → Bool
is_nil [] = true
is_nil (_ ∷ _) = false

unfoldable pub is_zero : List Bool → Bool
is_zero [] = true
is_zero (b ∷ bs) = not b && is_zero bs

abbrev bits_or_none : Option (List Bool) → List Bool
bits_or_none none = []
bits_or_none (some bits) = bits

abbrev has_bits : Option (List Bool) → Bool
has_bits none = false
has_bits (some bits) = not (is_zero bits)

abbrev subnets_of : List Bool → List Bool → List Subnet
subnets_of attnets syncnets =
    map attestation (set_bits 0 attnets) ++ map sync_committee (set_bits 0 syncnets)

module _ {F E M : Type 0} (enr : EnrFields E) where
  -- `PeerInfo::long_lived_subnet_count`
  unfoldable pub long_lived_subnet_count : PeerInfo F E M → ℕ
  long_lived_subnet_count info = elim info.meta_data [
    | some meta_data ↦ length (set_bits 0 meta_data.attnets)
    | none ↦ elim info.enr [
      | some e ↦ length (set_bits 0 (bits_or_none (enr.attestation_bitfield e)))
      | none ↦ 0
    ]
  ]

  -- `PeerInfo::long_lived_subnets`
  unfoldable pub long_lived_subnets : PeerInfo F E M → List Subnet
  long_lived_subnets info = elim info.meta_data [
    | some meta_data ↦ subnets_of meta_data.attnets (bits_or_none meta_data.syncnets)
    | none ↦ elim info.enr [
      | some e ↦
          subnets_of (bits_or_none (enr.attestation_bitfield e))
            (bits_or_none (enr.sync_committee_bitfield e))
      | none ↦ []
    ]
  ]

  abbrev in_meta_data : PeerInfo F E M → Bool
  in_meta_data info = elim info.meta_data [
    | some meta_data ↦
        (not (is_zero meta_data.attnets) && not (is_nil info.subnets))
        || has_bits meta_data.syncnets
    | none ↦ false
  ]

  abbrev in_enr : PeerInfo F E M → Bool
  in_enr info = elim info.enr [
    | some e ↦ has_bits (enr.attestation_bitfield e) && not (is_nil info.subnets)
    | none ↦ false
  ]

  -- `PeerInfo::has_long_lived_subnet`
  unfoldable pub has_long_lived_subnet : PeerInfo F E M → Bool
  has_long_lived_subnet info = in_meta_data info || in_enr info
