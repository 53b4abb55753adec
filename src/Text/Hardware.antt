-- ===== src/Text/Hardware.antt =====
-- `net.HardwareAddr.String`, its octets, and the number that its hexadecimal digits make.
use Prim.Native.String.{◌∷◌ as ◌∷ˢ◌}
use ipu_opi_plugins.Prelude.{
  ℕ, ◌+◌, ◌-◌, ◌*◌, ◌/◌, ◌%◌, ◌^◌, ◌≤◌, ◌<◌, ◌≡◌, refl, ◌∙◌, ap, none, some, String, code, List, [],
  ◌∷◌, arith, ltb, ◌==◌, nat_eq, if◌then◌else◌, map, false, All, length,
}
use native.Mathlib.Nat.{pow-suc}
use ipu_opi_plugins.Text.Digits.{digit_char, digit_value, digit_value-digit_char, digit_code}
use ipu_opi_plugins.Text.Space.{split, remove_char}

-- Two digits, before `rest`.
abbrev pub octet_onto : ℕ → String → String
octet_onto b rest = digit_char (b / 16) ∷ˢ (digit_char (b % 16) ∷ˢ rest)

abbrev pub octet : ℕ → String
octet b = octet_onto b ""

-- Each further octet stands behind a colon.
octets_onto : List ℕ → String
octets_onto [] = ""
octets_onto (b ∷ bs) = ":" ∷ˢ octet_onto b (octets_onto bs)

unfoldable pub hardware_string : List ℕ → String
unfolding octets_onto digit_char
hardware_string [] = ""
hardware_string (b ∷ bs) = octet_onto b (octets_onto bs)

-- `strconv.ParseUint(s, 16, 64)` with its error dropped: 0 at a bad digit and for no digits, the
-- largest number at an overflow.
unfoldable pub scan_hex : String → ℕ → ℕ
unfolding digit_value
scan_hex String.[] n = n
scan_hex (c ∷ˢ s) n = elim (digit_value c) [
  | none ↦ 0
  | some d ↦
      let rest = scan_hex s (n * 16 + d) in if ltb (n * 16 + d) (2 ^ 64) then rest else 2 ^ 64 - 1
]

unfoldable pub parse_hex : String → ℕ
unfolding scan_hex
parse_hex s = scan_hex s 0

abbrev pub AreBytes : List ℕ → Type 0
AreBytes = All (λ b. b < 256)

-- The number that the bytes behind `n` make, the first byte being the highest.
abbrev pub number_onto : ℕ → List ℕ → ℕ
number_onto n [] = n
number_onto n (b ∷ bs) = number_onto (n * 256 + b) bs

colon-ne-digit : (d : ℕ) → d < 16 → (code (digit_char d) == b':') ≡ false
colon-ne-digit d h = ground (arith, digit_code (digit_char d) d (digit_value-digit_char d h))

split-octets_onto :
    (b : ℕ) (bs : List ℕ)
    → AreBytes (b ∷ bs)
    → split b':' (octet_onto b (octets_onto bs)) ≡ map octet (b ∷ bs)
unfolding split octets_onto nat_eq
split-octets_onto b [] h =
    rw (colon-ne-digit (b / 16) (omega arith), colon-ne-digit (b % 16) (omega arith))
split-octets_onto b (c ∷ bs) h = rw (
  colon-ne-digit (b / 16) (omega arith),
  colon-ne-digit (b % 16) (omega arith),
  split-octets_onto c bs h.1,
)

-- The parts between the colons are the octets.
pub split-hardware_string :
    (b : ℕ) (bs : List ℕ)
    → AreBytes (b ∷ bs)
    → split b':' (hardware_string (b ∷ bs)) ≡ map octet (b ∷ bs)
unfolding hardware_string
split-hardware_string = split-octets_onto

number_onto-le : (n : ℕ) (bs : List ℕ) → n ≤ number_onto n bs
number_onto-le n [] = omega arith
number_onto-le n (b ∷ bs) = omega (arith, number_onto-le (n * 256 + b) bs)

pub scan_hex_digit :
    (n d : ℕ) (rest : String)
    → d < 16
    → n * 16 + d < 2 ^ 64
    → scan_hex (digit_char d ∷ˢ rest) n ≡ scan_hex rest (n * 16 + d)
unfolding scan_hex
scan_hex_digit n d rest h small = ground (arith, digit_value-digit_char d)

scan_hex_octet :
    (n b : ℕ) (rest : String)
    → b < 256
    → n * 256 + b < 2 ^ 64
    → scan_hex (octet_onto b rest) n ≡ scan_hex rest (n * 256 + b)
unfolding scan_hex
scan_hex_octet n b rest h small =
    ground (arith, digit_value-digit_char (b / 16), digit_value-digit_char (b % 16))

-- Two octets with the same digits are the same byte.
pub octet_injective : (a b : ℕ) → a < 256 → b < 256 → octet a ≡ octet b → a ≡ b
unfolding scan_hex
octet_injective a b ha hb e = omega (
  arith,
  scan_hex_octet 0 a "" ha (omega arith),
  scan_hex_octet 0 b "" hb (omega arith),
  ap (λ s. scan_hex s 0) e,
)

scan_hex-octets_onto :
    (n : ℕ) (bs : List ℕ)
    → AreBytes bs
    → number_onto n bs < 2 ^ 64
    → scan_hex (remove_char b':' (octets_onto bs)) n ≡ number_onto n bs
unfolding scan_hex octets_onto remove_char nat_eq
scan_hex-octets_onto n [] h small = refl
scan_hex-octets_onto n (b ∷ bs) h small =
    rw (colon-ne-digit (b / 16) (omega arith), colon-ne-digit (b % 16) (omega arith))
      (scan_hex_octet n b (remove_char b':' (octets_onto bs)) h.0
          (omega (arith, number_onto-le (n * 256 + b) bs))
        ∙ scan_hex-octets_onto (n * 256 + b) bs h.1 small)

-- The digits of an address without its colons make its number.
pub parse_hex-hardware_string :
    (bs : List ℕ)
    → AreBytes bs
    → number_onto 0 bs < 2 ^ 64
    → parse_hex (remove_char b':' (hardware_string bs)) ≡ number_onto 0 bs
unfolding parse_hex hardware_string remove_char nat_eq
parse_hex-hardware_string [] h small = refl
parse_hex-hardware_string (b ∷ bs) h small =
    rw (colon-ne-digit (b / 16) (omega arith), colon-ne-digit (b % 16) (omega arith))
      (scan_hex_octet 0 b (remove_char b':' (octets_onto bs)) h.0
          (omega (arith, number_onto-le (0 * 256 + b) bs))
        ∙ scan_hex-octets_onto (0 * 256 + b) bs h.1 small)

-- Each byte takes eight bits.
pub number_onto-lt :
    (n : ℕ) (bs : List ℕ) → AreBytes bs → number_onto n bs < (n + 1) * 256 ^ length bs
number_onto-lt n [] h = omega arith
number_onto-lt n (b ∷ bs) h =
    let p : ℕ = 256 ^ length bs in rw pow-suc (step p (number_onto-lt (n * 256 + b) bs h.1))
  where
    step :
        (p : ℕ)
        → number_onto (n * 256 + b) bs < (n * 256 + b + 1) * p
        → number_onto (n * 256 + b) bs < (n + 1) * (p * 256)
    step p q = grind arith

-- Addresses of one length with the same number are the same.
pub number_onto_injective :
    (m n : ℕ) (xs ys : List ℕ)
    → AreBytes xs
    → AreBytes ys
    → length xs ≡ length ys
    → number_onto m xs ≡ number_onto n ys
    → (m ≡ n) × (xs ≡ ys)
number_onto_injective m n [] [] hx hy len e = (e, refl)
number_onto_injective m n [] (y ∷ ys) hx hy len e = absurd (omega arith)
number_onto_injective m n (x ∷ xs) [] hx hy len e = absurd (omega arith)
number_onto_injective m n (x ∷ xs) (y ∷ ys) hx hy len e =
    let ih = number_onto_injective (m * 256 + x) (n * 256 + y) xs ys hx.1 hy.1 (omega arith) e in
    let heads : x ≡ y = omega arith in (omega arith, cc (heads, ih.1))
