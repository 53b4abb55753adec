-- ===== src/Text/Decimal.antt =====
-- `%d` and `fmt.Sprint` of an `int`, and `strconv.Atoi`.
use Prim.Native.String.{◌∷◌ as ◌∷ˢ◌}
use ipu_opi_plugins.Prelude.{
  ℕ, zero, suc, ◌+◌, ◌*◌, ◌/◌, ◌%◌, ◌<◌, ◌≡◌, ◌∙◌, Option, none, some, String, Char, code, arith,
  ◌==◌, nat_eq, ltb, leb, if◌then◌else◌, Bool-cases, ap, inl, inr,
}
use ipu_opi_plugins.Prelude.Int.{ℤ, pos, negsuc, max_int64, IsInt64}
use ipu_opi_plugins.Text.Digits.{digit_char, digit_value, digit_value-digit_char, digit_code}

-- The digits of `n`, written before `rest`; each round gives one digit.
unfoldable pub digits_onto : ℕ → ℕ → String → String
digits_onto zero n rest = rest
digits_onto (suc fuel) n rest =
    let more = digits_onto fuel (n / 10) (digit_char (n % 10) ∷ˢ rest) in
    if ltb n 10 then digit_char n ∷ˢ rest else more

-- A number has at most as many digits as its value and one.
unfoldable pub format_ℕ : ℕ → String
unfolding digits_onto digit_char
format_ℕ n = digits_onto (suc n) n ""

unfoldable pub format : ℤ → String
unfolding format_ℕ
format (pos n) = format_ℕ n
format (negsuc n) = "-" ∷ˢ format_ℕ (suc n)

decimal_value : Char → Option ℕ
decimal_value c = elim (digit_value c) [ none ↦ none | some d ↦ if ltb d 10 then some d else none ]

scan : String → ℕ → Option ℕ
scan String.[] n = some n
scan (c ∷ˢ s) n = elim (decimal_value c) [ none ↦ none | some d ↦ scan s (n * 10 + d) ]

-- At least one digit.
scan_digits : String → Option ℕ
scan_digits String.[] = none
scan_digits (c ∷ˢ s) = scan (c ∷ˢ s) 0

-- A value above the bound is a range error.
nonneg : Option ℕ → Option ℤ
nonneg none = none
nonneg (some n) = if leb n max_int64 then some (pos n) else none

negated : Option ℕ → Option ℤ
negated none = none
negated (some zero) = some (pos 0)
negated (some (suc n)) = if leb n max_int64 then some (negsuc n) else none

-- `none` is any error: no digits, another character, a value outside 64 bits.
unfoldable pub atoi : String → Option ℤ
unfolding nonneg negated scan_digits scan decimal_value digit_value
atoi String.[] = none
atoi (c ∷ˢ s) =
    if code c == b'-'
    then negated (scan_digits s)
    else if code c == b'+'
    then nonneg (scan_digits s)
    else nonneg (scan_digits (c ∷ˢ s))

scan-digits_onto :
    (fuel n : ℕ) (rest : String) → n < fuel → scan (digits_onto fuel n rest) 0 ≡ scan rest n
unfolding scan digits_onto decimal_value
scan-digits_onto zero n rest h = absurd (omega arith)
scan-digits_onto (suc fuel) n rest h = elim (Bool-cases (ltb n 10)) [
  | inl small ↦ rw small (ground (arith, digit_value-digit_char n))
  | inr large ↦ rw large (
      scan-digits_onto fuel (n / 10) (digit_char (n % 10) ∷ˢ rest) (ground arith)
      ∙ ground (arith, digit_value-digit_char (n % 10)))
]

-- The text of a number begins with a digit.
digits_onto_head :
    (fuel n : ℕ) (rest : String)
    → n < fuel
    → (c : Char) × (s : String) × (d : ℕ) × (digits_onto fuel n rest ≡ c ∷ˢ s)
      × (digit_value c ≡ some d)
unfolding digits_onto
digits_onto_head zero n rest h = absurd (omega arith)
digits_onto_head (suc fuel) n rest h = elim (Bool-cases (ltb n 10)) [
  | inl small ↦ (digit_char n, rest, n, rw small, digit_value-digit_char n (ground arith))
  | inr large ↦
      rw large (digits_onto_head fuel (n / 10) (digit_char (n % 10) ∷ˢ rest) (ground arith))
]

scan_digits-format_ℕ : (n : ℕ) → scan_digits (format_ℕ n) ≡ some n
unfolding scan_digits format_ℕ scan
scan_digits-format_ℕ n =
    let (c, s, d, written, _) = digits_onto_head (suc n) n "" (omega arith) in
    rw written (rw written at (scan-digits_onto (suc n) n "" (omega arith)))

-- A text that begins with a digit has no sign.
atoi_unsigned :
    (c : Char) (s : String) (d : ℕ)
    → digit_value c ≡ some d
    → atoi (c ∷ˢ s) ≡ nonneg (scan_digits (c ∷ˢ s))
unfolding atoi
atoi_unsigned c s d h = ground (arith, digit_code c d h)

atoi-format_ℕ : (n : ℕ) → atoi (format_ℕ n) ≡ nonneg (some n)
unfolding format_ℕ
atoi-format_ℕ n =
    let (c, s, d, written, digit) = digits_onto_head (suc n) n "" (omega arith) in
    rw written (atoi_unsigned c s d digit ∙ ap nonneg (rw written at (scan_digits-format_ℕ n)))

-- A number that fits an `int` is read as it was written.
pub atoi-format : (z : ℤ) → IsInt64 z → atoi (format z) ≡ some z
unfolding format nonneg atoi negated nat_eq
atoi-format (pos n) h = atoi-format_ℕ n ∙ ground arith
atoi-format (negsuc n) h = ap negated (scan_digits-format_ℕ (suc n)) ∙ ground arith
