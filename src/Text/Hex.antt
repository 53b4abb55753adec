-- ===== src/Text/Hex.antt =====
-- `%x` of an unsigned number, and its reading by `strconv.ParseUint(s, 16, 64)`.
use Prim.Native.String.{◌∷◌ as ◌∷ˢ◌}
use ipu_opi_plugins.Prelude.{
  ℕ, zero, suc, ◌/◌, ◌%◌, ◌^◌, ◌<◌, ◌≡◌, ◌∙◌, ap, String, arith, ltb, Bool-cases, inl, inr,
  if◌then◌else◌,
}
use ipu_opi_plugins.Text.Digits.{digit_char}
use ipu_opi_plugins.Text.Hardware.{scan_hex, parse_hex, scan_hex_digit}

hex_onto : ℕ → ℕ → String → String
hex_onto zero n rest = rest
hex_onto (suc fuel) n rest =
    let more = hex_onto fuel (n / 16) (digit_char (n % 16) ∷ˢ rest) in
    if ltb n 16 then digit_char n ∷ˢ rest else more

-- A number has at most as many digits as its value and one.
unfoldable pub format_hex : ℕ → String
unfolding hex_onto digit_char
format_hex n = hex_onto (suc n) n ""

scan_hex-hex_onto :
    (fuel n : ℕ) (rest : String)
    → n < fuel
    → n < 2 ^ 64
    → scan_hex (hex_onto fuel n rest) 0 ≡ scan_hex rest n
unfolding hex_onto
scan_hex-hex_onto zero n rest h small = absurd (omega arith)
scan_hex-hex_onto (suc fuel) n rest h small = elim (Bool-cases (ltb n 16)) [
  | inl one ↦
      rw one
        (scan_hex_digit 0 n rest (ground arith) (ground arith) ∙ ap (scan_hex rest) (omega arith))
  | inr more ↦ rw more (
      scan_hex-hex_onto fuel (n / 16) (digit_char (n % 16) ∷ˢ rest) (ground arith) (omega arith)
      ∙ scan_hex_digit (n / 16) (n % 16) rest (omega arith) (omega arith)
      ∙ ap (scan_hex rest) (omega arith))
]

-- A number of 64 bits is read as it was written, so two numbers with one text are the same.
pub parse_hex-format_hex : (n : ℕ) → n < 2 ^ 64 → parse_hex (format_hex n) ≡ n
unfolding parse_hex format_hex scan_hex
parse_hex-format_hex n h = scan_hex-hex_onto (suc n) n "" (omega arith) h
