-- ===== src/Executor/Command/Flags.antt =====
-- What the loops that drop a flag leave.
use go_video_transcode_servi.Common.{
  Text, text_eq, List, [], ◌∷◌, true, false, ◌≡◌, ap, sym, refl, if◌then◌else◌, ◌∙◌, inl, inr,
  Bool-cases, All,
}
use go_video_transcode_servi.Executor.Command.{strip_flag}

-- Arguments that are flags with a value each.
pub joined : List (Text × Text) → List Text
joined [] = []
joined ((flag, value) ∷ rest) = flag ∷ value ∷ joined rest

-- The pairs of the other flags.
pub others : Text → List (Text × Text) → List (Text × Text)
others flag [] = []
others flag ((f, value) ∷ rest) =
    let kept = others flag rest in if text_eq f flag then kept else (f, value) ∷ kept

strip_flag-value :
    (flag value : Text) (rest : List Text)
    → text_eq value flag ≡ false
    → strip_flag flag (value ∷ rest) ≡ value ∷ strip_flag flag rest
unfolding strip_flag
strip_flag-value flag value [] h = refl
strip_flag-value flag value (a ∷ rest) h = rw h refl

-- A pair of the flag is dropped, by either function.
pair-same :
    (flag f value : Text) (args : List Text) (rest : List (Text × Text))
    → text_eq f flag ≡ true
    → (strip_flag flag (f ∷ value ∷ args) ≡ strip_flag flag args)
      × (others flag ((f, value) ∷ rest) ≡ others flag rest)
unfolding strip_flag others
pair-same flag f value args rest h = (rw h refl, rw h refl)

-- A pair of another flag is kept.
pair-other :
    (flag f value : Text) (args : List Text) (rest : List (Text × Text))
    → text_eq f flag ≡ false
    → (strip_flag flag (f ∷ value ∷ args) ≡ f ∷ strip_flag flag (value ∷ args))
      × (others flag ((f, value) ∷ rest) ≡ (f, value) ∷ others flag rest)
unfolding strip_flag others
pair-other flag f value args rest h = (rw h refl, rw h refl)

-- Dropping a flag from arguments that are flags with a value each leaves the pairs of the other
-- flags, in order, as long as no value is spelled like the flag.
strip_flag-joined :
    (flag : Text) (pairs : List (Text × Text))
    → All (λ p. text_eq p.1 flag ≡ false) pairs
    → strip_flag flag (joined pairs) ≡ joined (others flag pairs)
unfolding joined strip_flag others
strip_flag-joined flag [] a = refl
strip_flag-joined flag ((f, value) ∷ rest) (h, a) =
    let later = strip_flag-joined flag rest a in
    elim (Bool-cases (text_eq f flag)) [
      | inl same ↦
          (let (dropped, gone) = pair-same flag f value (joined rest) rest same in
            dropped ∙ later ∙ ap joined (sym gone))
      | inr differs ↦
          (let (kept, stays) = pair-other flag f value (joined rest) rest differs in
            kept
            ∙ ap (λ l. f ∷ l)
                (strip_flag-value flag value (joined rest) h ∙ ap (λ l. value ∷ l) later)
            ∙ ap joined (sym stays))
    ]
