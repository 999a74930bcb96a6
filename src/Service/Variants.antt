-- ===== src/Service/Variants.antt =====
-- The variants that an HLS job is given.
use go_video_transcode_servi.Common.{
  All-append, Text, text_eq, trim_space, Result-cases, true, false, List, [], ◌∷◌, ◌++◌, ◌≡◌, ◌≢◌,
  refl, ap, sym, ◌∙◌, arith, Option, none, some, ok, All, Bool-cases, inl, inr,
}
use go_video_transcode_servi.Runtime.{Runtime}
use go_video_transcode_servi.Resolution.{ResolutionConfig, new_resolution_config, validate_config}
use go_video_transcode_servi.Hls.{HlsConfig, new_hls_config, validate_hls_config}
use go_video_transcode_servi.Hls.Valid.{new_hls_config-validate}
use go_video_transcode_servi.Service.{
  OutputFormat, is_taken, candidate, admitted, configured_variants, default_variants, variants,
}

-- No resolution is among `keys`, or that of an earlier variant.
abbrev AllDistinct : List Text → List ResolutionConfig → Type 0
AllDistinct keys [] = Unit
AllDistinct keys (rc ∷ rest) =
    (is_taken rc.resolution keys ≡ false) × AllDistinct (rc.resolution ∷ keys) rest

-- The keys of a map, no two of which are the same.
abbrev DistinctKeys : List (Text × Text) → Type 0
DistinctKeys [] = Unit
DistinctKeys (d ∷ rest) = All (λ e. text_eq d.0 e.0 ≡ false) rest × DistinctKeys rest

abbrev Passes : Runtime → ResolutionConfig → Type 0
Passes rt rc = validate_config rt rc ≡ none

abbrev keys_behind : List Text → List ResolutionConfig → List Text
keys_behind keys [] = keys
keys_behind keys (rc ∷ rest) = keys_behind (rc.resolution ∷ keys) rest

new_resolution_config-Passes :
    (rt : Runtime) (resolution bitrate : Text) (rc : ResolutionConfig)
    → new_resolution_config rt resolution bitrate ≡ ok rc
    → (rc.resolution ≡ resolution) × Passes rt rc
unfolding new_resolution_config validate_config
new_resolution_config-Passes rt resolution bitrate rc h = (ground arith, ground arith)

candidate-Passes :
    (rt : Runtime) (f : OutputFormat) (rc : ResolutionConfig)
    → candidate rt f ≡ some rc
    → Passes rt rc
unfolding candidate
candidate-Passes rt f rc h =
    (new_resolution_config-Passes rt (trim_space f.name) (trim_space f.bitrate) rc (ground arith)).1

AllDistinct-append :
    (keys : List Text) (xs ys : List ResolutionConfig)
    → AllDistinct keys xs
    → AllDistinct (keys_behind keys xs) ys
    → AllDistinct keys (xs ++ ys)
AllDistinct-append keys [] ys a b = b
AllDistinct-append keys (x ∷ xs) ys a b =
    (a.0, AllDistinct-append (x.resolution ∷ keys) xs ys a.1 b)

keys_behind-append :
    (keys : List Text) (xs ys : List ResolutionConfig)
    → keys_behind keys (xs ++ ys) ≡ keys_behind (keys_behind keys xs) ys
keys_behind-append keys [] ys = refl
keys_behind-append keys (x ∷ xs) ys = keys_behind-append (x.resolution ∷ keys) xs ys

-- What a step or a loop makes out of the keys in use: variants that are new and pass, and the keys
-- with theirs.
abbrev Extends : Runtime → List Text → List ResolutionConfig × List Text → Type 0
Extends rt keys (new, all) =
    All (Passes rt) new × AllDistinct keys new × (all ≡ keys_behind keys new)

admitted-Extends :
    (rt : Runtime) (keys : List Text) (o : Option ResolutionConfig)
    → ((rc : ResolutionConfig) → o ≡ some rc → Passes rt rc)
    → Extends rt keys (admitted keys o)
unfolding admitted
admitted-Extends rt keys none p = (tt, tt, refl)
admitted-Extends rt keys (some rc) p = elim (Bool-cases (is_taken rc.resolution keys)) [
  | inl used ↦ rw used (tt, tt, refl)
  | inr free ↦ rw free ((p rc refl, tt), (free, tt), refl)
]

Extends-append :
    (rt : Runtime) (keys : List Text) (first second : List ResolutionConfig × List Text)
    → Extends rt keys first
    → Extends rt first.1 second
    → Extends rt keys (first.0 ++ second.0, second.1)
Extends-append rt keys (xs, xk) (ys, yk) a b = (
  All-append (Passes rt) xs ys a.0 b.0,
  AllDistinct-append keys xs ys a.1 (rw (← a.2) b.1),
  b.2 ∙ ap (λ k. keys_behind k ys) a.2 ∙ sym (keys_behind-append keys xs ys),
)

configured_variants-Extends :
    (rt : Runtime) (fs : List OutputFormat) (keys : List Text)
    → Extends rt keys (configured_variants rt fs keys)
unfolding configured_variants
configured_variants-Extends rt [] keys = (tt, tt, refl)
configured_variants-Extends rt (f ∷ fs) keys =
    Extends-append rt keys (admitted keys (candidate rt f))
      (configured_variants rt fs (admitted keys (candidate rt f)).1)
      (admitted-Extends rt keys (candidate rt f) (candidate-Passes rt f))
      (configured_variants-Extends rt fs (admitted keys (candidate rt f)).1)

default_variants-Passes :
    (rt : Runtime) (ds : List (Text × Text)) (existed : List Text)
    → All (Passes rt) (default_variants rt ds existed)
unfolding default_variants
default_variants-Passes rt [] existed = tt
default_variants-Passes rt ((r, b) ∷ ds) existed = elim (Bool-cases (is_taken r existed)) [
  | inl used ↦ rw used (default_variants-Passes rt ds existed)
  | inr free ↦ rw free (elim (Result-cases (new_resolution_config rt r b)) [
    | inl (rc, made) ↦
        rw made
          ((new_resolution_config-Passes rt r b rc made).1, default_variants-Passes rt ds existed)
    | inr (e, refused) ↦ rw refused (default_variants-Passes rt ds existed)
  ])
]

-- The defaults that are free to take stay so behind a variant of a resolution that none of them has.
keep_open :
    (r : Text) (existed keys : List Text) (ds : List (Text × Text))
    → All (λ d. text_eq r d.0 ≡ false) ds
    → All (λ d. is_taken d.0 existed ≡ false → is_taken d.0 keys ≡ false) ds
    → All (λ d. is_taken d.0 existed ≡ false → is_taken d.0 (r ∷ keys) ≡ false) ds
unfolding is_taken
keep_open r existed keys [] a b = tt
keep_open r existed keys (d ∷ ds) a b =
    (λ h. ground (arith, a.0, b.0 h), keep_open r existed keys ds a.1 b.1)

default_variants-AllDistinct :
    (rt : Runtime) (ds : List (Text × Text)) (existed keys : List Text)
    → DistinctKeys ds
    → All (λ d. is_taken d.0 existed ≡ false → is_taken d.0 keys ≡ false) ds
    → AllDistinct keys (default_variants rt ds existed)
unfolding default_variants
default_variants-AllDistinct rt [] existed keys u o = tt
default_variants-AllDistinct rt ((r, b) ∷ ds) existed keys u o =
    elim (Bool-cases (is_taken r existed)) [
      | inl used ↦ rw used (default_variants-AllDistinct rt ds existed keys u.1 o.1)
      | inr free ↦ rw free (elim (Result-cases (new_resolution_config rt r b)) [
        | inl (rc, made) ↦ rw made (
          ground (arith, o.0 free, (new_resolution_config-Passes rt r b rc made).0),
          rw (new_resolution_config-Passes rt r b rc made).0 (
              default_variants-AllDistinct rt ds existed (r ∷ keys) u.1
                (keep_open r existed keys ds u.0 o.1)),
        )
        | inr (e, refused) ↦ rw refused (default_variants-AllDistinct rt ds existed keys u.1 o.1)
      ])
    ]

same_open :
    (existed : List Text) (ds : List (Text × Text))
    → All (λ d. is_taken d.0 existed ≡ false → is_taken d.0 existed ≡ false) ds
same_open existed [] = tt
same_open existed (d ∷ ds) = (λ h. h, same_open existed ds)

-- In whatever order the map of the defaults is run through, its keys being distinct, no two variants
-- have the same resolution.
variants-AllDistinct :
    (rt : Runtime) (fs : List OutputFormat) (ds : List (Text × Text))
    → DistinctKeys ds
    → AllDistinct [] (variants rt fs ds)
unfolding variants
variants-AllDistinct rt fs ds u =
    let made = configured_variants rt fs [] in
    let extends = configured_variants-Extends rt fs [] in
    AllDistinct-append [] made.0 (default_variants rt ds made.1) extends.1
      (rw (← extends.2) (default_variants-AllDistinct rt ds made.1 made.1 u (same_open made.1 ds)))

-- Where there is a variant, the configuration of the HLS job over the variants is made, holds just
-- them, and is one that `Validate` accepts.
pub variants-new_hls_config :
    (rt : Runtime) (fs : List OutputFormat) (ds : List (Text × Text))
    → variants rt fs ds ≢ []
    → (hc : HlsConfig) × (new_hls_config rt true (variants rt fs ds) ≡ ok hc)
      × (hc.resolutions ≡ variants rt fs ds)
      × (hc.enable_hls ≡ true)
      × (validate_hls_config rt hc ≡ none)
unfolding variants
variants-new_hls_config rt fs ds h =
    let made = configured_variants rt fs [] in
    new_hls_config-validate rt true (variants rt fs ds) (inr h) (
      All-append (Passes rt) made.0 (default_variants rt ds made.1)
        (configured_variants-Extends rt fs []).0 (default_variants-Passes rt ds made.1))
