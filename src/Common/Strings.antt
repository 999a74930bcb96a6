-- ===== src/Common/Strings.antt =====
-- Go strings as lists of code points, with the functions of package strings that the source calls.
use Prim.Native.Nat.{ℕ, zero, suc, ◌+◌, ◌-◌}
use Prim.Native.Char.{code}
use Prim.Native.String.{String}
use mathlib.Core.Path.{◌≡◌, refl}
use mathlib.Core.Logic.{◌↔◌}
use mathlib.Core.Bool.{Bool, true, false, ◌&&◌, ◌||◌}
use mathlib.Core.List.{List, [], ◌∷◌, ◌++◌, reverse}
use native.Mathlib.Omega.{arith}
use go_video_transcode_servi.Common.Lists.{length}
use go_video_transcode_servi.Common.Tests.{ltb, leb, ◌==◌, if◌then◌else◌}

abbrev pub Text : Type 0
Text = List ℕ

abbrev pub codes : String → Text
codes String.[] = []
codes (String.◌∷◌ c s) = code c ∷ codes s

-- s == t
unfoldable pub text_eq : Text → Text → Bool
text_eq [] [] = true
text_eq (a ∷ s) (b ∷ t) = a == b && text_eq s t
text_eq _ _ = false

text_eq_sound : (s t : Text) → text_eq s t ≡ true → s ≡ t
unfolding text_eq
text_eq_sound [] [] h = refl
text_eq_sound [] (b ∷ t) h = ground arith
text_eq_sound (a ∷ s) [] h = ground arith
text_eq_sound (a ∷ s) (b ∷ t) h = ground (arith, text_eq_sound s t)

pub text_eq_refl : (s : Text) → text_eq s s ≡ true
unfolding text_eq
text_eq_refl [] = refl
text_eq_refl (a ∷ s) = ground (arith, text_eq_refl s)

pub text_eq_iff : (s t : Text) → (text_eq s t ≡ true) ↔ (s ≡ t)
text_eq_iff s t = (text_eq_sound s t, λ e. rw e (text_eq_refl t))

-- s == ""
abbrev pub is_empty : Text → Bool
is_empty [] = true
is_empty (_ ∷ _) = false

-- A text, or another where it is empty.
abbrev pub or_text : Text → Text → Text
or_text v default = if is_empty v then default else v

-- strings.HasPrefix
unfoldable pub has_prefix : Text → Text → Bool
has_prefix s [] = true
has_prefix [] (p ∷ ps) = false
has_prefix (c ∷ s) (p ∷ ps) = c == p && has_prefix s ps

-- What is left of a text behind a prefix that it has.
unfoldable pub drop_prefix : Text → Text → Text
drop_prefix s [] = s
drop_prefix [] (p ∷ ps) = []
drop_prefix (c ∷ s) (p ∷ ps) = drop_prefix s ps

-- strings.TrimPrefix
unfoldable pub trim_prefix : Text → Text → Text
unfolding has_prefix drop_prefix
trim_prefix s p = if has_prefix s p then drop_prefix s p else s

-- strings.HasSuffix
unfoldable pub has_suffix : Text → Text → Bool
unfolding has_prefix
has_suffix s p = has_prefix (reverse s) (reverse p)

-- strings.TrimSuffix
unfoldable pub trim_suffix : Text → Text → Text
unfolding has_suffix drop_prefix
trim_suffix s p = if has_suffix s p then reverse (drop_prefix (reverse s) (reverse p)) else s

-- strings.Contains
unfoldable pub contains : Text → Text → Bool
unfolding has_prefix
contains [] p = has_prefix [] p
contains (c ∷ s) p = has_prefix (c ∷ s) p || contains s p

-- unicode.IsSpace
unfoldable pub is_space : ℕ → Bool
is_space c =
    (leb 9 c && leb c 13)
    || c == 32
    || c == 0x85
    || c == 0xa0
    || c == 0x1680
    || (leb 0x2000 c && leb c 0x200a)
    || c == 0x2028
    || c == 0x2029
    || c == 0x202f
    || c == 0x205f
    || c == 0x3000

-- The text without the longest run at its start of characters that pass the test.
unfoldable pub trim_left_by : (ℕ → Bool) → Text → Text
trim_left_by p [] = []
trim_left_by p (c ∷ s) = if p c then trim_left_by p s else c ∷ s

unfoldable pub trim_right_by : (ℕ → Bool) → Text → Text
unfolding trim_left_by
trim_right_by p s = reverse (trim_left_by p (reverse s))

-- strings.TrimSpace
unfoldable pub trim_space : Text → Text
unfolding is_space trim_left_by trim_right_by
trim_space s = trim_right_by is_space (trim_left_by is_space s)

-- strings.ToLower over a table for the characters beyond ASCII
unfoldable pub lower_char : (ℕ → ℕ) → ℕ → ℕ
lower_char table c = if ltb c 128 then (if leb b'A' c && leb c b'Z' then c + 32 else c) else table c

unfoldable pub to_lower : (ℕ → ℕ) → Text → Text
unfolding lower_char
to_lower table [] = []
to_lower table (c ∷ s) = lower_char table c ∷ to_lower table s

-- strings.ReplaceAll of a text that is not empty: the characters of a match that has been replaced
-- are skipped.
unfoldable replace_from : Text → Text → ℕ → Text → Text
replace_from old new skip [] = []
replace_from old new (suc skip) (c ∷ s) = replace_from old new skip s
replace_from old new zero (c ∷ s) =
    let matched = new ++ replace_from old new (length old - 1) s in
    let other = c ∷ replace_from old new zero s in if has_prefix (c ∷ s) old then matched else other

unfoldable pub replace_all : Text → Text → Text → Text
unfolding replace_from
replace_all s old new = replace_from old new zero s

-- strings.EqualFold with a text of lower-case letters other than k and s, which beyond ASCII fold
-- with nothing
unfoldable pub equal_fold : Text → Text → Bool
unfolding text_eq to_lower
equal_fold s low = text_eq (to_lower (λ c. c) s) low

-- strings.Split at a separator of one character; there is always a first part.
unfoldable pub split_at : ℕ → Text → Text × List Text
split_at sep [] = ([], [])
split_at sep (c ∷ s) =
    let (part, rest) = split_at sep s in if c == sep then ([], part ∷ rest) else (c ∷ part, rest)
