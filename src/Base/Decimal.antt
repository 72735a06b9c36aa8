-- ===== src/Base/Decimal.antt =====
-- Numbers in decimal, as Rust reads and prints an unsigned integer: `parse` and `{}`. The integer type
-- is given by the least number that it does not hold. A `String` is the list of its bytes.
use oxigeon.Base.{
  ℕ, zero, suc, ◌+◌, ◌-◌, ◌*◌, ◌/◌, ◌%◌, ◌<◌, ◌≤◌, ◌&&◌, [], ◌∷◌, Option, none, some, ltb, ◌==◌,
  within, if◌then◌else◌, Bytes, All, ◌≡◌, ◌≢◌, refl, arith, ◌∙◌,
}
use mathlib.Core.List.{cons-ne-nil}

-- No digit, or a number that does not fit, is an error.
unfoldable pub scan : ℕ → Bytes → ℕ → Option ℕ
scan limit [] n = some n
scan limit (c ∷ cs) n =
    let m = n * 10 + (c - b'0') in
    let rest = scan limit cs m in if within b'0' b'9' c && ltb m limit then rest else none

-- A sign may stand in front of the digits.
unfoldable pub parse : ℕ → Bytes → Option ℕ
unfolding scan
parse limit [] = none
parse limit (c ∷ []) = scan limit (c ∷ []) 0
parse limit (c ∷ d ∷ ds) = if c == b'+' then scan limit (d ∷ ds) 0 else scan limit (c ∷ d ∷ ds) 0

-- The print of a number in front of a text: at most so many digits.
unfoldable pub digits : ℕ → ℕ → Bytes → Bytes
digits zero n out = out
digits (suc k) n out =
    let rest = digits k (n / 10) ((b'0' + n % 10) ∷ out) in
    if ltb n 10 then (b'0' + n) ∷ out else rest

abbrev pub IsDigit : ℕ → Type 0
IsDigit c = (b'0' ≤ c) × (c ≤ b'9')

-- One more than the greatest number of so many digits.
abbrev pub bound : ℕ → ℕ
bound zero = 1
bound (suc k) = 10 * bound k

pub digits-IsDigit : (k n : ℕ) (out : Bytes) → All IsDigit out → All IsDigit (digits k n out)
unfolding digits
digits-IsDigit zero n out h = h
digits-IsDigit (suc k) n out h = ground (arith, digits-IsDigit k (n / 10) ((b'0' + n % 10) ∷ out))

digits-ne-nil : (k n : ℕ) (out : Bytes) → out ≢ [] → digits k n out ≢ []
unfolding digits
digits-ne-nil zero n out h = h
digits-ne-nil (suc k) n out h =
    ground (arith, digits-ne-nil k (n / 10) _ (cons-ne-nil (b'0' + n % 10) out))

-- A number is printed by one digit at least.
pub digits_some : (k n : ℕ) → digits (suc k) n [] ≢ []
unfolding digits
digits_some k n = ground (arith, digits-ne-nil k (n / 10) _ (cons-ne-nil (b'0' + n % 10) []))

scan-digits :
    (limit k n : ℕ) (out : Bytes)
    → n < bound k
    → n < limit
    → scan limit (digits k n out) 0 ≡ scan limit out n
unfolding digits scan
scan-digits limit zero n out b h = grind arith
scan-digits limit (suc k) n out b h =
    ground (arith, scan-digits limit k (n / 10) ((b'0' + n % 10) ∷ out))

parse-scan : (limit : ℕ) (s : Bytes) → s ≢ [] → All IsDigit s → parse limit s ≡ scan limit s 0
unfolding parse
parse-scan limit [] h _ = absurd (h refl)
parse-scan limit (c ∷ []) h _ = refl
parse-scan limit (c ∷ d ∷ ds) h e = ground arith

scan_end : (limit n : ℕ) → scan limit [] n ≡ some n
unfolding scan
scan_end limit n = refl

-- What is printed is read back.
pub parse-digits :
    (limit k n : ℕ) → n < bound (suc k) → n < limit → parse limit (digits (suc k) n []) ≡ some n
parse-digits limit k n b h =
    parse-scan limit (digits (suc k) n []) (digits_some k n) (digits-IsDigit (suc k) n [] tt)
    ∙ scan-digits limit (suc k) n [] b h
    ∙ scan_end limit n
