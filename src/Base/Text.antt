-- ===== src/Base/Text.antt =====
-- Go strings as lists of code points, with what the code uses of package `strings` and `strconv`.
pub mod Words
pub mod Decimal
pub mod Trimming
pub mod Trimmed
use Prim.Native.Char.{code}
use Prim.Native.String.{String}
use mathlib.Core.List.{reverse}
use oci_cpu_shaper.Base.{
  ltb, ◌-◌, ◌*◌, ◌^◌, not, ◌++◌, Option, none, some, Result, ok, err, ℕ, ◌+◌, ◌≡◌, refl, Bool, true,
  false, ◌&&◌, ◌||◌, List, [], ◌∷◌, map, arith, leb, ◌==◌, if◌then◌else◌, ◌↔◌,
}

abbrev pub Text : Type 0
Text = List ℕ

-- The code points of a literal. `String` has its own `[]` and `∷`.
abbrev pub codes : String → Text
codes String.[] = []
codes (String.◌∷◌ c s) = code c ∷ codes s

-- `==` on strings.
unfoldable pub text_eq : Text → Text → Bool
text_eq [] [] = true
text_eq (a ∷ s) (b ∷ t) = a == b && text_eq s t
text_eq _ _ = false

pub text_eq_iff : (s t : Text) → (text_eq s t ≡ true) ↔ (s ≡ t)
unfolding text_eq
text_eq_iff [] [] = (λ _. refl, λ _. refl)
text_eq_iff [] (b ∷ t) = (λ e. cc, λ e. cc)
text_eq_iff (a ∷ s) [] = (λ e. cc, λ e. cc)
text_eq_iff (a ∷ s) (b ∷ t) = ground (arith, text_eq_iff s t)

-- `unicode.IsSpace`.
unfoldable pub is_space : ℕ → Bool
is_space c =
    leb 9 c && leb c 13
    || c == 32
    || c == 0x85
    || c == 0xa0
    || c == 0x1680
    || leb 0x2000 c && leb c 0x200a
    || c == 0x2028
    || c == 0x2029
    || c == 0x202f
    || c == 0x205f
    || c == 0x3000

pub trim_left : Text → Text
trim_left [] = []
trim_left (c ∷ s) = if is_space c then trim_left s else c ∷ s

pub trim_right : Text → Text
trim_right s = reverse (trim_left (reverse s))

-- `strings.TrimSpace`.
unfoldable pub trim_space : Text → Text
unfolding trim_left trim_right is_space
trim_space s = trim_right (trim_left s)

-- `strings.ToLower` on the letters of ASCII. No other capital letter becomes a letter of a word that
-- the code compares with.
unfoldable pub lower : ℕ → ℕ
lower c = if leb b'A' c && leb c b'Z' then c + 32 else c

unfoldable pub to_lower : Text → Text
unfolding lower
to_lower = map lower

unfoldable pub is_empty : Text → Bool
is_empty [] = true
is_empty (c ∷ s) = false

-- `strings.HasPrefix(s, prefix)`.
unfoldable pub has_prefix : Text → Text → Bool
has_prefix s [] = true
has_prefix [] (b ∷ prefix) = false
has_prefix (a ∷ s) (b ∷ prefix) = a == b && has_prefix s prefix

-- `strings.Fields`: the words between white space. `word` is the word read so far.
unfoldable pub fields_from : Text → Text → List Text
fields_from word [] = if is_empty word then [] else word ∷ []
fields_from word (c ∷ s) =
    let next = fields_from (if is_space c then [] else word ++ (c ∷ [])) s in
    if is_space c && not (is_empty word) then word ∷ next else next

unfoldable pub fields : Text → List Text
unfolding fields_from is_space is_empty
fields = fields_from []

abbrev pub is_digit : ℕ → Bool
is_digit c = leb b'0' c && leb c b'9'

-- The value of decimal digits, as long as all are digits.
unfoldable pub digits_value : ℕ → Text → Option ℕ
digits_value acc [] = some acc
digits_value acc (c ∷ s) =
    let rest = digits_value (10 * acc + (c - b'0')) s in if is_digit c then rest else none

pub data NumError : Type 0 where
  syntax range : NumError

-- Whether the digits in front exceed a uint64 before anything else is found.
abbrev overflows : ℕ → Text → Bool
overflows acc [] = false
overflows acc (c ∷ s) =
    let next = 10 * acc + (c - b'0') in
    let rest = overflows next s in is_digit c && (leb (2 ^ 64) next || rest)

-- `strconv.ParseUint(s, 10, 64)`.
unfoldable pub parse_uint : Text → Result NumError ℕ
unfolding digits_value is_empty
parse_uint s = if is_empty s then err syntax else elim (digits_value 0 s) [
  | none ↦ err (if overflows 0 s then range else syntax)
  | some n ↦ if ltb n (2 ^ 64) then ok n else err range
]
