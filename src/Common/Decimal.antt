-- ===== src/Common/Decimal.antt =====
-- A `u64` as a decimal text: `Display` and `parse::<u64>`.
use Prim.Native.Nat.{ℕ, zero, suc, ◌+◌, ◌-◌, ◌*◌, ◌/◌, ◌%◌, ◌≤◌, ◌<◌}
use mathlib.Core.Path.{◌≡◌, refl}
use mathlib.Core.Logic.{◌≢◌}
use mathlib.Core.Bool.{◌||◌}
use mathlib.Core.Option.{Option, none, some}
use mathlib.Core.List.{[], ◌∷◌}
use native.Mathlib.Omega.{arith}
use consentry.Common.Tests.{ltb, ◌==◌, if◌then◌else◌}
use consentry.Common.Words.{u64_mod}
use consentry.Common.Text.{Text, Lacks}

-- The digits of `n` before `out`; the first argument bounds their number.
digits : ℕ → ℕ → Text → Text
digits zero n out = out
digits (suc fuel) n out =
    let rest = digits fuel (n / 10) ((b'0' + n % 10) ∷ out) in
    if ltb n 10 then (b'0' + n) ∷ out else rest

-- A `u64` has at most twenty digits.
unfoldable pub format : ℕ → Text
unfolding digits
format n = digits 20 n []

scan : Text → ℕ → Option ℕ
scan [] n = some n
scan (c ∷ s) n =
    let m = n * 10 + (c - b'0') in
    let rest = scan s m in
    if ltb c b'0' || ltb b'9' c then none else if ltb m u64_mod then rest else none

-- `str::parse::<u64>`: one `+` may stand before the digits, and what does not fit is refused.
unfoldable pub parse : Text → Option ℕ
unfolding scan
parse [] = none
parse (c ∷ []) = scan (c ∷ []) 0
parse (c ∷ d ∷ s) = if c == b'+' then scan (d ∷ s) 0 else scan (c ∷ d ∷ s) 0

abbrev ten_to : ℕ → ℕ
ten_to zero = 1
ten_to (suc k) = 10 * ten_to k

scan_last : (n : ℕ) (out : Text) → n < u64_mod → scan ((b'0' + n % 10) ∷ out) (n / 10) ≡ scan out n
unfolding scan
scan_last n out h = ground arith

scan_one : (n : ℕ) (out : Text) → n < 10 → scan ((b'0' + n) ∷ out) 0 ≡ scan out n
unfolding scan
scan_one n out h = ground arith

scan-digits :
    (fuel n : ℕ) (out : Text)
    → n < ten_to fuel
    → n < u64_mod
    → 0 < fuel
    → scan (digits fuel n out) 0 ≡ scan out n
unfolding digits
scan-digits zero n out h fits p = absurd (omega arith)
scan-digits (suc zero) n out h fits p = ground (arith, scan_one n out)
scan-digits (suc (suc fuel)) n out h fits p = ground (
  arith,
  scan_one n out,
  scan_last n out fits,
  scan-digits (suc fuel) (n / 10) ((b'0' + n % 10) ∷ out),
)

scan-format : (n : ℕ) → n < u64_mod → scan (format n) 0 ≡ some n
unfolding format scan
scan-format n h = scan-digits 20 n [] (omega arith) h (omega arith)

abbrev pub AllDigits : Text → Type 0
AllDigits [] = Unit
AllDigits (c ∷ s) = (b'0' ≤ c) × (c ≤ b'9') × AllDigits s

digits-AllDigits : (fuel n : ℕ) (out : Text) → AllDigits out → AllDigits (digits fuel n out)
unfolding digits
digits-AllDigits zero n out h = h
digits-AllDigits (suc fuel) n out h =
    ground (arith, digits-AllDigits fuel (n / 10) ((b'0' + n % 10) ∷ out))

pub format-AllDigits : (n : ℕ) → AllDigits (format n)
unfolding format
format-AllDigits n = digits-AllDigits 20 n [] tt

digits-ne-nil : (fuel n : ℕ) (c : ℕ) (out : Text) → digits fuel n (c ∷ out) ≢ []
unfolding digits
digits-ne-nil zero n c out h = cc
digits-ne-nil (suc fuel) n c out h =
    grind (arith, digits-ne-nil fuel (n / 10) (b'0' + n % 10) (c ∷ out))

format-ne-nil : (n : ℕ) → format n ≢ []
unfolding format
format-ne-nil n h = ground (arith, digits-ne-nil 19 (n / 10) (b'0' + n % 10) [])

parse-scan : (s : Text) → AllDigits s → s ≢ [] → parse s ≡ scan s 0
unfolding parse
parse-scan [] h n = absurd (n refl)
parse-scan (c ∷ []) h n = refl
parse-scan (c ∷ d ∷ s) h n = ground arith

pub parse-format : (n : ℕ) → n < u64_mod → parse (format n) ≡ some n
parse-format n h =
    rw (parse-scan (format n) (format-AllDigits n) (format-ne-nil n)) (scan-format n h)

pub AllDigits-Lacks : (c : ℕ) (s : Text) → c < b'0' → AllDigits s → Lacks c s
AllDigits-Lacks c [] h d = tt
AllDigits-Lacks c (x ∷ s) h d = ((λ e. omega arith), AllDigits-Lacks c s h d.2)

-- What is accepted fits, and what is read is a `u64`.
scan-bound : (s : Text) (n : ℕ) {r : ℕ} → n < u64_mod → scan s n ≡ some r → r < u64_mod
unfolding scan
scan-bound [] n h e = grind arith
scan-bound (c ∷ s) n {r} h e = ground (arith, scan-bound s (n * 10 + (c - b'0')) {r = r})

pub parse-bound : (s : Text) {r : ℕ} → parse s ≡ some r → r < u64_mod
unfolding parse
parse-bound [] e = cc
parse-bound (c ∷ []) e = scan-bound (c ∷ []) 0 (omega arith) e
parse-bound (c ∷ d ∷ s) {r} e =
    ground (arith, scan-bound (d ∷ s) 0 {r = r}, scan-bound (c ∷ d ∷ s) 0 {r = r})
