-- ===== src/Text/Space.antt =====
-- `strings.TrimSpace`, `strings.Split` on one character, `strings.ReplaceAll` of one character by
-- nothing.
use Prim.Native.String.{◌∷◌ as ◌∷ˢ◌}
use ipu_opi_plugins.Prelude.{
  ℕ, ◌≡◌, refl, Bool, ◌&&◌, ◌||◌, String, Char, code, List, [], ◌∷◌, leb, ◌==◌, nat_eq,
  if◌then◌else◌,
}

-- `unicode.IsSpace`
is_space : Char → Bool
is_space c =
    let n = code c in
    leb 0x09 n && leb n 0x0d
    || n == 0x20
    || n == 0x85
    || n == 0xa0
    || n == 0x1680
    || leb 0x2000 n && leb n 0x200a
    || n == 0x2028
    || n == 0x2029
    || n == 0x202f
    || n == 0x205f
    || n == 0x3000

trim_left : String → String
trim_left String.[] = ""
trim_left (c ∷ˢ s) = let rest = trim_left s in if is_space c then rest else c ∷ˢ s

-- A character is dropped where it is a space and all behind it is dropped.
trim_right_onto : Char → String → String
trim_right_onto c String.[] = if is_space c then "" else c ∷ˢ ""
trim_right_onto c (d ∷ˢ s) = c ∷ˢ (d ∷ˢ s)

trim_right : String → String
trim_right String.[] = ""
trim_right (c ∷ˢ s) = trim_right_onto c (trim_right s)

unfoldable pub trim_space : String → String
unfolding trim_left trim_right trim_right_onto is_space nat_eq
trim_space s = trim_right (trim_left s)

-- Puts a character in front of the first part.
abbrev pub push_first : Char → List String → List String
push_first c [] = (c ∷ˢ "") ∷ []
push_first c (part ∷ parts) = (c ∷ˢ part) ∷ parts

-- The parts between the separators: one more than there are separators.
unfoldable pub split : ℕ → String → List String
split sep String.[] = "" ∷ []
split sep (c ∷ˢ s) =
    let rest = split sep s in if code c == sep then "" ∷ rest else push_first c rest

unfoldable pub remove_char : ℕ → String → String
remove_char sep String.[] = ""
remove_char sep (c ∷ˢ s) = let rest = remove_char sep s in if code c == sep then rest else c ∷ˢ rest

trim_device : trim_space " 0x1452\n" ≡ "0x1452"
unfolding trim_space
trim_device = refl
