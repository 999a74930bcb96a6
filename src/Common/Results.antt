-- ===== src/Common/Results.antt =====
-- Go's error values, results and sequences of effects.
-- A function that returns only an `error` returns `Option Error`, where `none` is nil.
use mathlib.Core.Path.{◌≡◌, refl}
use mathlib.Core.Logic.{◌⊎◌, inl, inr}
use mathlib.Core.List.{◌++◌}
use go_video_transcode_servi.Common.Strings.{Text, codes}

pub data Error : Type 0 where
  plain : Text → Error  -- errors.New, fmt.Errorf
  wrap : Text → Error → Error  -- fmt.Errorf("…: %w", err)
  canceled deadline_exceeded : Error  -- the errors of a context

-- err.Error()
unfoldable pub error_text : Error → Text
error_text (plain t) = t
error_text (wrap t e) = t ++ (codes ": " ++ error_text e)
error_text canceled = codes "context canceled"
error_text deadline_exceeded = codes "context deadline exceeded"

pub data Result {ℓ κ} (E : Type ℓ) (A : Type κ) : Type (ℓ ⊔ κ) where
  ok : A → Result E A
  err : E → Result E A

-- An action on a state of type `S`.
abbrev pub Op {ℓ} : Type ℓ → Type ℓ → Type ℓ
Op S A = S → A × S

infixl 5 ◌>>=◌ ◌>>◌
abbrev pub ◌>>=◌ {ℓ} : {S A B : Type ℓ} → Op S A → (A → Op S B) → Op S B
◌>>=◌ m f s = let r = m s in f r.0 r.1

abbrev pub ◌>>◌ {ℓ} : {S A B : Type ℓ} → Op S A → Op S B → Op S B
m >> k = m >>= λ _. k

abbrev pub pure {ℓ} : {S A : Type ℓ} → A → Op S A
pure a s = (a, s)

pub Result-cases {ℓ κ} :
    {E : Type ℓ} {A : Type κ} (r : Result E A) → ((a : A) × (r ≡ ok a)) ⊎ ((e : E) × (r ≡ err e))
Result-cases (ok a) = inl (a, refl)
Result-cases (err e) = inr (e, refl)

-- A function of a result that is no error; an error is passed on.
abbrev pub on_ok {ℓ κ μ} :
    {E : Type ℓ} {A : Type κ} {B : Type μ} → (A → B) → Result E A → Result E B
on_ok f (ok a) = ok (f a)
on_ok f (err e) = err e
