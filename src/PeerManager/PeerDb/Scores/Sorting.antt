-- ===== src/PeerManager/PeerDb/Scores/Sorting.antt =====
-- The sort of the gossipsub scores: its length and its keys.
use consentry.Common.{ℕ, suc, ◌≡◌, refl, List, [], ◌∷◌, length, arith}
use consentry.PeerManager.Score.{F64}
use consentry.PeerManager.PeerDb.Scores.{place, sort_by_score}

-- Every key of a list has the property.
abbrev pub All : {A : Type 0} → (ℕ → Type 0) → List (ℕ × A) → Type 0
All P [] = Unit {0}
All P ((k, _) ∷ l) = P k × All P l

pub All-mono :
    {A : Type 0} (P Q : ℕ → Type 0) → ((k : ℕ) → P k → Q k) → (l : List (ℕ × A)) → All P l → All Q l
All-mono P Q h [] a = tt
All-mono P Q h ((k, _) ∷ l) a = (h k a.0, All-mono P Q h l a.1)

module _ {F : Type 0} (f : F64 F) (P : ℕ → Type 0) where
  place-All : (x : ℕ × F) (l : List (ℕ × F)) → P x.0 → All P l → All P (place f x l)
  unfolding place
  place-All (k, s) [] p a = (p, tt)
  place-All (k, s) ((j, r) ∷ l) p a = ground (arith, place-All (k, s) l p a.1)

  pub sort-All : (l : List (ℕ × F)) → All P l → All P (sort_by_score f l)
  unfolding sort_by_score
  sort-All [] a = tt
  sort-All (x ∷ l) a = place-All x (sort_by_score f l) a.0 (sort-All l a.1)

module _ {F : Type 0} (f : F64 F) where
  length-place : (x : ℕ × F) (l : List (ℕ × F)) → length (place f x l) ≡ suc (length l)
  unfolding place
  length-place (k, s) [] = refl
  length-place (k, s) ((j, r) ∷ l) = ground (arith, length-place (k, s) l)

  pub length-sort_by_score : (l : List (ℕ × F)) → length (sort_by_score f l) ≡ length l
  unfolding sort_by_score
  length-sort_by_score [] = refl
  length-sort_by_score (x ∷ l) =
      omega (arith, length-place x (sort_by_score f l), length-sort_by_score l)
