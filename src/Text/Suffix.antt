-- ===== src/Text/Suffix.antt =====
-- A text without the digits at its end: what stands before a number that was written last.
use Prim.Native.String.{◌∷◌ as ◌∷ˢ◌}
use Prim.Native.String.append
use text.Mathlib.TextLemmas.{append_cancel_right, append-ne-nil_of_right_ne-nil}
use ipu_opi_plugins.Prelude.{
  ℕ, zero, suc, ◌/◌, ◌%◌, ◌<◌, ◌≡◌, ◌≢◌, refl, sym, ◌∙◌, ap, Bool, false, none, some, String, ◌<>◌,
  Char, arith, ltb, if◌then◌else◌, Bool-cases, inl, inr,
}
use ipu_opi_plugins.Prelude.Int.{pos}
use ipu_opi_plugins.Text.Digits.{digit_char, digit_value, digit_value-digit_char}
use ipu_opi_plugins.Text.Decimal.{digits_onto, format_ℕ, format}

is_decimal : Char → Bool
is_decimal c = elim (digit_value c) [ none ↦ false | some d ↦ ltb d 10 ]

strip_onto : Char → String → String
strip_onto c String.[] = if is_decimal c then "" else c ∷ˢ ""
strip_onto c (d ∷ˢ s) = c ∷ˢ (d ∷ˢ s)

unfoldable pub strip_digits : String → String
unfolding strip_onto is_decimal
strip_digits String.[] = ""
strip_digits (c ∷ˢ s) = strip_onto c (strip_digits s)

strip_onto_some : (c : Char) (s : String) → s ≢ "" → strip_onto c s ≡ c ∷ˢ s
unfolding strip_onto
strip_onto_some c String.[] h = absurd (h refl)
strip_onto_some c (d ∷ˢ s) h = refl

strip_digit :
    (d : ℕ) (s : String) → d < 10 → strip_digits s ≡ "" → strip_digits (digit_char d ∷ˢ s) ≡ ""
unfolding strip_digits strip_onto is_decimal
strip_digit d s h e = rw e (ground (arith, digit_value-digit_char d))

strip-digits_onto :
    (fuel n : ℕ) (rest : String)
    → n < fuel
    → strip_digits rest ≡ ""
    → strip_digits (digits_onto fuel n rest) ≡ ""
unfolding digits_onto
strip-digits_onto zero n rest lt h = absurd (omega arith)
strip-digits_onto (suc fuel) n rest lt h = elim (Bool-cases (ltb n 10)) [
  | inl small ↦ rw small (strip_digit n rest (ground arith) h)
  | inr large ↦ rw large (
      strip-digits_onto fuel (n / 10) (digit_char (n % 10) ∷ˢ rest) (ground arith)
        (strip_digit (n % 10) rest (omega arith) h))
]

strip-format : (n : ℕ) → strip_digits (format (pos n)) ≡ ""
unfolding format format_ℕ strip_digits
strip-format n = strip-digits_onto (suc n) n "" (omega arith) refl

-- Behind digits only, nothing more is stripped.
strip-append_digits : (t s : String) → strip_digits s ≡ "" → strip_digits (t <> s) ≡ strip_digits t
unfolding strip_digits
strip-append_digits String.[] s h = ap strip_digits (append.nil s) ∙ h
strip-append_digits (c ∷ˢ t) s h =
    ap strip_digits (append.cons c t s) ∙ ap (strip_onto c) (strip-append_digits t s h)

strip-append : (t s : String) → strip_digits s ≢ "" → strip_digits (t <> s) ≡ t <> strip_digits s
unfolding strip_digits
strip-append String.[] s h = ap strip_digits (append.nil s) ∙ sym (append.nil (strip_digits s))
strip-append (c ∷ˢ t) s h =
    ap strip_digits (append.cons c t s)
    ∙ ap (strip_onto c) (strip-append t s h)
    ∙ strip_onto_some c (t <> strip_digits s) (append-ne-nil_of_right_ne-nil t h)
    ∙ sym (append.cons c t (strip_digits s))

strip_numbered :
    (name mark : String) (n : ℕ)
    → strip_digits mark ≡ mark
    → mark ≢ ""
    → strip_digits (name <> (mark <> format (pos n))) ≡ name <> mark
strip_numbered name mark n whole some_mark =
    let e = strip-append_digits mark (format (pos n)) (strip-format n) ∙ whole in
    strip-append name (mark <> format (pos n)) (λ h. some_mark (sym e ∙ h)) ∙ ap (λ m. name <> m) e

-- Names that are followed by a mark with no digit at its end and by a number are told apart by
-- the texts that these make.
pub numbered_injective :
    (mark name other : String) (n m : ℕ)
    → strip_digits mark ≡ mark
    → mark ≢ ""
    → name <> (mark <> format (pos n)) ≡ other <> (mark <> format (pos m))
    → name ≡ other
numbered_injective mark name other n m whole some_mark e = append_cancel_right name other mark (
    sym (strip_numbered name mark n whole some_mark)
    ∙ ap strip_digits e
    ∙ strip_numbered other mark m whole some_mark)
