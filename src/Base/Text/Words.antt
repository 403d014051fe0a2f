-- ===== src/Base/Text/Words.antt =====
-- Words, lines of words and decimal counters, as `strings.Fields` and `strconv.ParseUint` read them.
use oci_cpu_shaper.Base.{
  ℕ, ◌+◌, ◌-◌, ◌*◌, ◌^◌, ◌<◌, ◌≡◌, refl, arith, true, false, some, ok, List, [], ◌∷◌, ◌++◌, ap, ◌∙◌,
}
use mathlib.Core.List.{append_assoc, append-nil}
use oci_cpu_shaper.Base.Text.{
  Text, is_space, is_empty, is_digit, digits_value, parse_uint, fields_from,
}

-- Decimal digits that stand for a uint64.
pub record IsCounter (word : Text) (value : ℕ) : Type 0 where
  pub digits : digits_value 0 word ≡ some value
  pub nonempty : is_empty word ≡ false
  pub small : value < 2 ^ 64

-- A word without white space.
abbrev pub IsWord : Text → Type 0
IsWord [] = Unit
IsWord (c ∷ s) = (is_space c ≡ false) × IsWord s

-- Digits are no white space.
digit_not_space : (c : ℕ) → is_digit c ≡ true → is_space c ≡ false
unfolding is_space
digit_not_space c h = ground arith

pub digits-IsWord :
    (acc : ℕ) (word : Text) (value : ℕ) → digits_value acc word ≡ some value → IsWord word
unfolding digits_value
digits-IsWord acc [] value e = tt
digits-IsWord acc (c ∷ s) value e =
    ground (arith, digit_not_space c, digits-IsWord (10 * acc + (c - b'0')) s value)

-- A word is collected up to the next space.
pub fields_from-word :
    (acc word rest : Text)
    → IsWord word
    → fields_from acc (word ++ rest) ≡ fields_from (acc ++ word) rest
unfolding fields_from
fields_from-word acc [] rest w = rw append-nil
fields_from-word acc (c ∷ s) rest w =
    rw w.0 (fields_from-word (acc ++ (c ∷ [])) s rest w.1 ∙ rw append_assoc)

-- The words of a line behind its first, each after a space.
abbrev pub spaced : List Text → Text
spaced [] = []
spaced (word ∷ rest) = 32 ∷ (word ++ spaced rest)

abbrev pub AreWords : List Text → Type 0
AreWords [] = Unit
AreWords (word ∷ rest) = IsWord word × (is_empty word ≡ false) × AreWords rest

pub space : is_space 32 ≡ true
unfolding is_space
space = refl

pub fields_from-spaced :
    (first : Text) (words : List Text)
    → is_empty first ≡ false
    → AreWords words
    → fields_from first (spaced words) ≡ first ∷ words
unfolding fields_from
fields_from-spaced first [] ne w = rw ne
fields_from-spaced first (word ∷ rest) ne w =
    rw (space, ne)
      (ap (◌∷◌ first)
        (fields_from-word [] word (spaced rest) w.0 ∙ fields_from-spaced word rest w.1 w.2))

-- Also where a space comes first.
pub fields_from-start : (words : List Text) → AreWords words → fields_from [] (spaced words) ≡ words
unfolding fields_from is_empty
fields_from-start [] w = refl
fields_from-start (word ∷ rest) w =
    rw space (fields_from-word [] word (spaced rest) w.0 ∙ fields_from-spaced word rest w.1 w.2)

pub parse_uint-IsCounter :
    (word : Text) (value : ℕ) → IsCounter word value → parse_uint word ≡ ok value
unfolding parse_uint
parse_uint-IsCounter word value c = ground (arith, c.digits, c.nonempty, c.small)
