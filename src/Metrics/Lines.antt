-- ===== src/Metrics/Lines.antt =====
-- Texts of lines, and the metric that a scrape finds in one.
use oci_cpu_shaper.Base.{
  ℕ, ◌≡◌, refl, ap, sym, ◌∙◌, arith, Bool, true, false, not, ◌&&◌, if◌then◌else◌, Option, none,
  some, List, [], ◌∷◌, ◌++◌, ◌==◌,
}
use mathlib.Core.List.{append_assoc, append-nil}
use oci_cpu_shaper.Base.Text.{Text}
use oci_cpu_shaper.Metrics.Rendering.{concat, ended}

-- The lines of a text, each up to its newline.
abbrev pub lines_from : Text → Text → List Text
lines_from line [] = []
lines_from line (c ∷ s) =
    let rest = lines_from (if c == 10 then [] else line ++ (c ∷ [])) s in
    if c == 10 then line ∷ rest else rest

-- What follows a prefix.
abbrev pub after_prefix : Text → Text → Option Text
after_prefix [] s = some s
after_prefix (a ∷ prefix) [] = none
after_prefix (a ∷ prefix) (b ∷ s) =
    let rest = after_prefix prefix s in if a == b then rest else none

abbrev pub value_in : Text → List Text → Option Text
value_in name [] = none
value_in name (line ∷ rest) = elim (after_prefix name line) [
  | some value ↦ some value
  | none ↦ value_in name rest
]

-- The value of a metric in a text: what the first line that begins with its name goes on with.
unfoldable pub scrape : Text → Text → Option Text
scrape name text = value_in name (lines_from [] text)

abbrev pub one_line : Text → Bool
one_line [] = true
one_line (c ∷ s) = not (c == 10) && one_line s

abbrev pub OneLine : Text → Type 0
OneLine s = one_line s ≡ true

abbrev pub all_one_line : List Text → Bool
all_one_line [] = true
all_one_line (line ∷ rest) = one_line line && all_one_line rest

abbrev pub AllOneLine : List Text → Type 0
AllOneLine rows = all_one_line rows ≡ true

AllOneLine-cons :
    (row : Text) (rest : List Text) → AllOneLine (row ∷ rest) → OneLine row × AllOneLine rest
AllOneLine-cons row rest h = ground arith

pub OneLine-append : (s t : Text) → OneLine s → OneLine t → OneLine (s ++ t)
OneLine-append [] t h k = k
OneLine-append (c ∷ s) t h k = ground (arith, OneLine-append s t)

OneLine-tail : (c : ℕ) (s : Text) → OneLine (c ∷ s) → ((c == 10) ≡ false) × OneLine s
OneLine-tail c s h = ground arith

lines_from-ended :
    (before line rest : Text)
    → OneLine line
    → lines_from before (ended line ++ rest) ≡ (before ++ line) ∷ lines_from [] rest
lines_from-ended before [] rest h = ap (λ s. s ∷ lines_from [] rest) (sym (append-nil before))
lines_from-ended before (c ∷ s) rest h =
    let (more, tail) = OneLine-tail c s h in
    rw more (lines_from-ended (before ++ (c ∷ [])) s rest tail ∙ rw append_assoc)

abbrev pub all_ended : List Text → List Text
all_ended [] = []
all_ended (line ∷ rest) = ended line ∷ all_ended rest

pub lines_from-concat :
    (rows : List Text) → AllOneLine rows → lines_from [] (concat (all_ended rows)) ≡ rows
lines_from-concat [] h = refl
lines_from-concat (row ∷ rest) h =
    let (first, others) = AllOneLine-cons row rest h in
    lines_from-ended [] row (concat (all_ended rest)) first
    ∙ ap (◌∷◌ row) (lines_from-concat rest others)

pub scrape_of_lines :
    (text : Text) (rows : List Text) (name : Text) {x : Text}
    → lines_from [] text ≡ rows
    → value_in name rows ≡ some x
    → scrape name text ≡ some x
unfolding scrape
scrape_of_lines text rows name lines h = ap (value_in name) lines ∙ h
