-- ===== src/Base/Text/Trimming.antt =====
-- When `strings.TrimSpace` cuts off exactly the newline at the end of a file.
use mathlib.Core.Path.{subst}
use mathlib.Core.List.{reverse, reverse-cons, reverse-append, append_assoc, reverse-reverse}
use oci_cpu_shaper.Base.{ℕ, ◌≡◌, ◌∙◌, ap, sym, refl, false, [], ◌∷◌, ◌++◌}
use oci_cpu_shaper.Base.Text.{Text, is_space, is_empty, trim_left, trim_right, trim_space}
use oci_cpu_shaper.Base.Text.Words.{IsWord}

abbrev pub newline : Text
newline = 10 ∷ []

-- Nothing is cut off in front of a word.
trim_left-word :
    (word rest : Text)
    → IsWord word
    → is_empty word ≡ false
    → trim_left (word ++ rest) ≡ word ++ rest
unfolding is_empty trim_left
trim_left-word [] rest w ne = cc
trim_left-word (c ∷ s) rest w ne = rw w.0 refl

trim_left-all : (s : Text) → IsWord s → trim_left s ≡ s
unfolding trim_left
trim_left-all [] w = refl
trim_left-all (c ∷ s) w = rw w.0 refl

pub append-IsWord : (s t : Text) → IsWord s → IsWord t → IsWord (s ++ t)
append-IsWord [] t v w = w
append-IsWord (c ∷ s) t v w = (v.0, append-IsWord s t v.1 w)

reverse-IsWord : (s : Text) → IsWord s → IsWord (reverse s)
reverse-IsWord [] w = tt
reverse-IsWord (c ∷ s) w =
    subst IsWord (sym (reverse-cons c s))
      (append-IsWord (reverse s) (c ∷ []) (reverse-IsWord s w.1) (w.0, tt))

pub append-nonempty : (s t : Text) → is_empty t ≡ false → is_empty (s ++ t) ≡ false
unfolding is_empty
append-nonempty [] t ne = ne
append-nonempty (c ∷ s) t ne = refl

one-nonempty : (c : ℕ) → is_empty (c ∷ []) ≡ false
unfolding is_empty
one-nonempty c = refl

reverse-nonempty : (s : Text) → is_empty s ≡ false → is_empty (reverse s) ≡ false
reverse-nonempty [] ne = ne
reverse-nonempty (c ∷ s) ne =
    ap is_empty (reverse-cons c s) ∙ append-nonempty (reverse s) (c ∷ []) (one-nonempty c)

trim_left-newline : (s : Text) → trim_left (10 ∷ s) ≡ trim_left s
unfolding trim_left is_space
trim_left-newline s = refl

-- A line that starts and ends with a word is what is left of it and its newline.
pub trim_space-line :
    (first rest before last line : Text)
    → IsWord first
    → is_empty first ≡ false
    → IsWord last
    → is_empty last ≡ false
    → line ≡ first ++ rest
    → line ≡ before ++ last
    → trim_space (line ++ newline) ≡ line
unfolding trim_space trim_right
trim_space-line first rest before last line w ne v me e f =
    let left : trim_left (line ++ newline) ≡ line ++ newline =
      ap (λ s. trim_left (s ++ newline)) e
      ∙ ap trim_left (append_assoc first rest newline)
      ∙ trim_left-word first (rest ++ newline) w ne
      ∙ sym (append_assoc first rest newline)
      ∙ ap (λ s. s ++ newline) (sym e) in
    let backwards : reverse line ≡ reverse last ++ reverse before =
      ap reverse f ∙ reverse-append before last in
    let right : trim_left (reverse (line ++ newline)) ≡ reverse line =
      ap trim_left (reverse-append line newline)
      ∙ trim_left-newline (reverse line)
      ∙ ap trim_left backwards
      ∙ trim_left-word (reverse last) (reverse before) (reverse-IsWord last v)
          (reverse-nonempty last me)
      ∙ sym backwards in
    ap (λ s. reverse (trim_left (reverse s))) left ∙ ap reverse right ∙ reverse-reverse line

-- A word is left as it is.
pub trim_space-word : (s : Text) → IsWord s → trim_space s ≡ s
unfolding trim_space trim_right trim_left
trim_space-word [] w = refl
trim_space-word (c ∷ s) w =
    let word = c ∷ s in
    let left = trim_left-all word w in
    ap (λ t. reverse (trim_left (reverse t))) left
    ∙ ap reverse (trim_left-all (reverse word) (reverse-IsWord word w))
    ∙ reverse-reverse word
