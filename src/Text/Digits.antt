-- ===== src/Text/Digits.antt =====
-- Digits to the base 16, as `fmt` writes them and as `strconv` reads them.
use ipu_opi_plugins.Prelude.{
  ℕ, zero, suc, ◌+◌, ◌-◌, ◌≤◌, ◌<◌, ◌≡◌, refl, ◌≢◌, Bool, true, false, ◌&&◌, Option, none, some,
  Char, code, arith, leb, if◌then◌else◌, ◌==◌, nat_eq,
}

-- The digit's character, in lower case.
unfoldable pub digit_char : ℕ → Char
digit_char d =
    if d == 0
    then "0"
    else if d == 1
    then "1"
    else if d == 2
    then "2"
    else if d == 3
    then "3"
    else if d == 4
    then "4"
    else if d == 5
    then "5"
    else if d == 6
    then "6"
    else if d == 7
    then "7"
    else if d == 8
    then "8"
    else if d == 9
    then "9"
    else if d == 10
    then "a"
    else if d == 11
    then "b"
    else if d == 12
    then "c"
    else if d == 13
    then "d"
    else if d == 14
    then "e"
    else "f"

unfoldable pub digit_value : Char → Option ℕ
digit_value c =
    let n = code c in
    if leb b'0' n && leb n b'9'
    then some (n - b'0')
    else if leb b'a' n && leb n b'f'
    then some (n - b'a' + 10)
    else if leb b'A' n && leb n b'F'
    then some (n - b'A' + 10)
    else none

reads_back : ℕ → Bool
reads_back d = elim (digit_value (digit_char d)) [ none ↦ false | some v ↦ v == d ]

-- All digits below `n` are read as they were written.
table_holds : ℕ → Bool
table_holds zero = true
table_holds (suc n) = reads_back n && table_holds n

table_holds_at : (n d : ℕ) → d < n → table_holds n ≡ true → reads_back d ≡ true
unfolding table_holds
table_holds_at zero d lt h = absurd (omega arith)
table_holds_at (suc n) d lt h = ground (arith, table_holds_at n d)

table_of_16 : table_holds 16 ≡ true
unfolding reads_back table_holds digit_value digit_char nat_eq
table_of_16 = refl

-- Every digit is read as it was written.
pub digit_value-digit_char : (d : ℕ) → d < 16 → digit_value (digit_char d) ≡ some d
unfolding reads_back
digit_value-digit_char d h = ground (arith, table_holds_at 16 d h table_of_16)

-- No sign and no separator is a digit.
pub digit_code : (c : Char) (d : ℕ) → digit_value c ≡ some d → (48 ≤ code c) × (code c ≢ 58)
unfolding digit_value
digit_code c d h = ground arith
