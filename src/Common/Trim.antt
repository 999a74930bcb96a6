-- ===== src/Common/Trim.antt =====
-- Trimming a text twice is trimming it once.
use Prim.Native.Nat.{ℕ}
use mathlib.Core.Path.{◌≡◌, refl, sym, ap, ◌∙◌}
use mathlib.Core.Bool.{Bool, false}
use mathlib.Core.Logic.{inl, inr}
use mathlib.Core.List.{[], ◌∷◌, ◌++◌, reverse, reverse-append, reverse-reverse}
use native.Mathlib.Omega.{arith}
use go_video_transcode_servi.Common.Tests.{Bool-cases}
use go_video_transcode_servi.Common.Strings.{
  Text, is_space, trim_left_by, trim_right_by, trim_space,
}

module _ (p : ℕ → Bool) where
  trim_left_by-twice : (s : Text) → trim_left_by p (trim_left_by p s) ≡ trim_left_by p s
  unfolding trim_left_by
  trim_left_by-twice [] = refl
  trim_left_by-twice (c ∷ s) = elim (Bool-cases (p c)) [
    | inl out ↦ simp (out, trim_left_by-twice s) refl
    | inr stays ↦ simp (stays, stays) refl
  ]

  -- What is trimmed off at the start.
  trim_left_by-suffix : (s : Text) → (w : Text) × (s ≡ w ++ trim_left_by p s)
  unfolding trim_left_by
  trim_left_by-suffix [] = ([], refl)
  trim_left_by-suffix (c ∷ s) = elim (Bool-cases (p c)) [
    | inl out ↦ let (w, e) = trim_left_by-suffix s in (c ∷ w, simp out (ap (λ (x : Text). c ∷ x) e))
    | inr stays ↦ ([], simp stays refl)
  ]

  trim_right_by-prefix : (s : Text) → (w : Text) × (s ≡ trim_right_by p s ++ w)
  unfolding trim_right_by
  trim_right_by-prefix s =
      let (w, e) = trim_left_by-suffix (reverse s) in
      (reverse w, sym (reverse-reverse s) ∙ ap reverse e ∙ reverse-append w _)

  first_stays : (s : Text) (c : ℕ) (r : Text) → trim_left_by p s ≡ c ∷ r → p c ≡ false
  unfolding trim_left_by
  first_stays [] c r h = cc
  first_stays (d ∷ s) c r h = ground (arith, first_stays s c r)

  -- The beginnings of a text that has nothing to be trimmed at the start.
  begins : (s t w : Text) → s ≡ t ++ w → trim_left_by p s ≡ s → trim_left_by p t ≡ t
  unfolding trim_left_by
  begins s [] w e h = refl
  begins s (c ∷ t) w e h = simp (first_stays s c (t ++ w) (h ∙ e)) refl

  trim_right_by-twice : (s : Text) → trim_right_by p (trim_right_by p s) ≡ trim_right_by p s
  unfolding trim_right_by
  trim_right_by-twice s =
      ap (λ (x : Text). reverse (trim_left_by p x)) (reverse-reverse (trim_left_by p (reverse s)))
      ∙ ap reverse (trim_left_by-twice (reverse s))

  trim_by-twice :
      (s : Text)
      → let t = trim_right_by p (trim_left_by p s) in trim_right_by p (trim_left_by p t) ≡ t
  trim_by-twice s =
      let (w, e) = trim_right_by-prefix (trim_left_by p s) in
      ap (trim_right_by p) (begins (trim_left_by p s) _ w e (trim_left_by-twice s))
      ∙ trim_right_by-twice (trim_left_by p s)

pub trim_space-trim_space : (s : Text) → trim_space (trim_space s) ≡ trim_space s
unfolding trim_space
trim_space-trim_space = trim_by-twice is_space
