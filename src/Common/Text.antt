-- ===== src/Common/Text.antt =====
-- Texts as lists of code points, and what the code uses of `str`.
use Prim.Native.Nat.{ℕ, suc, zero}
use Prim.Native.Char.{code}
use Prim.Native.String.{String}
use mathlib.Core.Path.{◌≡◌, refl}
use mathlib.Core.Logic.{◌≢◌, inl, inr}
use mathlib.Core.Bool.{Bool, true, false, ◌&&◌}
use mathlib.Core.Option.{Option, none, some}
use mathlib.Core.List.{List, [], ◌∷◌, ◌++◌}
use native.Mathlib.Omega.{arith}
use consentry.Common.Tests.{◌==◌, if◌then◌else◌}
use consentry.Common.Lists.{length, List-cases}

abbrev pub Text : Type 0
Text = List ℕ

-- The code points of a literal; these are its bytes when the text is ASCII.
abbrev pub codes : String → Text
codes String.[] = []
codes (String.◌∷◌ c s) = code c ∷ codes s

-- `==` on `str`
unfoldable pub same : Text → Text → Bool
same [] [] = true
same [] (y ∷ t) = false
same (x ∷ s) [] = false
same (x ∷ s) (y ∷ t) = (x == y) && same s t

pub same→eq : (s t : Text) → same s t ≡ true → s ≡ t
unfolding same
same→eq [] [] h = refl
same→eq [] (y ∷ t) h = cc
same→eq (x ∷ s) [] h = cc
same→eq (x ∷ s) (y ∷ t) h = grind (arith, same→eq s t)

-- `str::strip_prefix`; `starts_with` is that it succeeds.
unfoldable pub strip_prefix : Text → Text → Option Text
strip_prefix [] s = some s
strip_prefix (c ∷ p) [] = none
strip_prefix (c ∷ p) (x ∷ s) = let rest = strip_prefix p s in if x == c then rest else none

pub strip_prefix-append : (p s : Text) → strip_prefix p (p ++ s) ≡ some s
unfolding strip_prefix
strip_prefix-append [] s = refl
strip_prefix-append (c ∷ p) s = ground (arith, strip_prefix-append p s)

pub strip_prefix-some : (p s : Text) {r : Text} → strip_prefix p s ≡ some r → s ≡ p ++ r
unfolding strip_prefix
strip_prefix-some [] s h = cc
strip_prefix-some (c ∷ p) [] h = cc
strip_prefix-some (c ∷ p) (x ∷ s) h = grind (arith, strip_prefix-some p s)

trim_within : ℕ → Text → Text → Text
trim_within zero p s = s
trim_within (suc fuel) p s = elim (strip_prefix p s) [ none ↦ s | some r ↦ trim_within fuel p r ]

-- `str::trim_start_matches`: the prefix is removed as often as it stands there.
unfoldable pub trim_start_matches : Text → Text → Text
unfolding trim_within
trim_start_matches p s = trim_within (length s) p s

trim_within-done : (fuel : ℕ) (p s : Text) → strip_prefix p s ≡ none → trim_within fuel p s ≡ s
unfolding trim_within
trim_within-done zero p s h = refl
trim_within-done (suc fuel) p s h = rw (h, trim_within) refl

-- A prefix that does not stand there again is removed once.
pub trim_start_matches-once :
    (c : ℕ) (p s : Text)
    → strip_prefix (c ∷ p) s ≡ none
    → trim_start_matches (c ∷ p) ((c ∷ p) ++ s) ≡ s
unfolding trim_start_matches trim_within
trim_start_matches-once c p s h =
    rw (strip_prefix-append (c ∷ p) s, trim_start_matches, trim_within)
      (trim_within-done (length (p ++ s)) (c ∷ p) s h)

add_first : ℕ → List Text → List Text
add_first x [] = (x ∷ []) ∷ []
add_first x (p ∷ ps) = (x ∷ p) ∷ ps

-- `str::split` at a character
unfoldable pub split : ℕ → Text → List Text
unfolding add_first
split c [] = [] ∷ []
split c (x ∷ s) = let rest = split c s in if x == c then [] ∷ rest else add_first x rest

abbrev pub Lacks : ℕ → Text → Type 0
Lacks c [] = Unit
Lacks c (x ∷ s) = (x ≢ c) × Lacks c s

pub split-end : (c : ℕ) (s : Text) → Lacks c s → split c s ≡ s ∷ []
unfolding split
split-end c [] h = refl
split-end c (x ∷ s) h = rw (split-end c s h.1) (ground arith)

pub split-first : (c : ℕ) (s t : Text) → Lacks c s → split c (s ++ c ∷ t) ≡ s ∷ split c t
unfolding split
split-first c [] t h = ground arith
split-first c (x ∷ s) t h = rw (split-first c s t h.1) (ground arith)

-- The parts with the character between them.
abbrev pub join : ℕ → List Text → Text
join c [] = []
join c (p ∷ []) = p
join c (p ∷ q ∷ ps) = p ++ c ∷ join c (q ∷ ps)

join-add_first : (c x : ℕ) (ps : List Text) → join c (add_first x ps) ≡ x ∷ join c ps
unfolding add_first
join-add_first c x [] = refl
join-add_first c x (p ∷ []) = refl
join-add_first c x (p ∷ q ∷ ps) = refl

split-ne-nil : (c : ℕ) (s : Text) → split c s ≢ []
unfolding split add_first
split-ne-nil c [] h = cc
split-ne-nil c (x ∷ s) h = elim (List-cases (split c s)) [
  | inl e ↦ grind arith
  | inr (p, ps, e) ↦ grind (arith, e)
]

pub join-split : (c : ℕ) (s : Text) → join c (split c s) ≡ s
unfolding split
join-split c [] = refl
join-split c (x ∷ s) = elim (List-cases (split c s)) [
  | inl e ↦ absurd (split-ne-nil c s e)
  | inr (p, ps, e) ↦ grind (arith, join-split c s, join-add_first c x (split c s), e)
]
