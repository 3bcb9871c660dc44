-- ===== src/Common/Totals.antt =====
-- Sums over the values of a map, which follow each write.
use Prim.Native.Nat.{ℕ, ◌+◌, ◌≤◌}
use mathlib.Core.Path.{◌≡◌}
use mathlib.Core.Option.{Option, none, some}
use mathlib.Core.List.{List, [], ◌∷◌}
use native.Mathlib.Omega.{arith}
use consentry.Common.Assoc.{get, insert, remove}

module _ {ℓ} {V : Type ℓ} (w : V → ℕ) where
  abbrev pub weight : Option V → ℕ
  weight none = 0
  weight (some v) = w v

  unfoldable pub total : {K : Type ℓ} → List (K × V) → ℕ
  total [] = 0
  total ((k, v) ∷ m) = w v + total m

module _ {ℓ} {K V : Type ℓ} (eq : Discrete K) (w : V → ℕ) where
  pub total-insert :
      (k : K) (v : V) (m : List (K × V))
      → total w (insert eq k v m) + weight w (get eq k m) ≡ total w m + w v
  unfolding total get insert
  total-insert k v [] = omega arith
  total-insert k v ((j, u) ∷ m) = ground (arith, total-insert k v m)

  pub total-remove :
      (k : K) (m : List (K × V)) → total w (remove eq k m) + weight w (get eq k m) ≡ total w m
  unfolding total get remove
  total-remove k [] = omega arith
  total-remove k ((j, u) ∷ m) = ground (arith, total-remove k m)

  pub weight-le-total : (k : K) (m : List (K × V)) → weight w (get eq k m) ≤ total w m
  weight-le-total k m = omega (arith, total-remove k m)
