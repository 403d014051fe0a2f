-- ===== src/Base/Text/Trimmed.antt =====
-- Cutting off white space twice is cutting it off once.
use mathlib.Core.Path.{subst}
use mathlib.Core.List.{reverse, reverse-cons, reverse-append, reverse-reverse}
use oci_cpu_shaper.Base.{ℕ, ◌≡◌, inl, inr, ◌∙◌, ap, sym, refl, false, Bool-cases, [], ◌∷◌, ◌++◌}
use oci_cpu_shaper.Base.Text.{Text, is_space, trim_left, trim_right, trim_space}

-- Empty, or begun by what is no space.
abbrev Begun : Text → Type 0
Begun [] = Unit
Begun (c ∷ s) = is_space c ≡ false

trim_left-Begun : (s : Text) → Begun (trim_left s)
unfolding trim_left
trim_left-Begun [] = tt
trim_left-Begun (c ∷ s) = elim (Bool-cases (is_space c)) [
  | inl b ↦ rw b (trim_left-Begun s)
  | inr b ↦ rw b b
]

trim_left-idle : (s : Text) → Begun s → trim_left s ≡ s
unfolding trim_left
trim_left-idle [] h = refl
trim_left-idle (c ∷ s) h = rw h refl

-- Nothing is cut off behind what is no space.
trim_left-snoc :
    (s : Text) (c : ℕ)
    → is_space c ≡ false
    → (t : Text) × (trim_left (s ++ (c ∷ [])) ≡ t ++ (c ∷ []))
unfolding trim_left
trim_left-snoc [] c h = ([], rw h refl)
trim_left-snoc (a ∷ s) c h = elim (Bool-cases (is_space a)) [
  | inl b ↦ let (t, e) = trim_left-snoc s c h in (t, rw b e)
  | inr b ↦ (a ∷ s, rw b refl)
]

trim_right-Begun : (s : Text) → Begun s → Begun (trim_right s)
unfolding trim_right trim_left
trim_right-Begun [] h = tt
trim_right-Begun (c ∷ s) h =
    let (t, e) = trim_left-snoc (reverse s) c h in
    let same : trim_right (c ∷ s) ≡ c ∷ reverse t =
      ap (λ u. reverse (trim_left u)) (reverse-cons c s)
      ∙ ap reverse e
      ∙ reverse-append t (c ∷ []) in
    subst Begun (sym same) h

trim_right-twice : (s : Text) → trim_right (trim_right s) ≡ trim_right s
unfolding trim_right
trim_right-twice s =
    ap (λ u. reverse (trim_left u)) (reverse-reverse (trim_left (reverse s)))
    ∙ ap reverse (trim_left-idle (trim_left (reverse s)) (trim_left-Begun (reverse s)))

pub trim_space-twice : (s : Text) → trim_space (trim_space s) ≡ trim_space s
unfolding trim_space
trim_space-twice s =
    ap trim_right (
      trim_left-idle (trim_right (trim_left s))
        (trim_right-Begun (trim_left s) (trim_left-Begun s)))
    ∙ trim_right-twice (trim_left s)
