-- ===== src/Hls/Valid.antt =====
-- What the checks of an HLS configuration accept.
use go_video_transcode_servi.Common.{
  ℕ, suc, pos, ◌≤ℤ◌, ◌<ℤ◌, codes, text_eq, text_eq_iff, Bool, true, false, List, [], ◌∷◌, ◌≡◌, ◌≢◌,
  ◌⊎◌, inl, inr, ◌↔◌, refl, arith, none, ok, All, Option-cases,
}
use go_video_transcode_servi.Runtime.{Runtime}
use go_video_transcode_servi.Resolution.{ResolutionConfig, validate_config}
use go_video_transcode_servi.Hls.{
  HlsConfig, is_valid_hls_status, check_resolutions, no_resolutions, new_hls_config,
  validate_settings, validate_hls_config,
}

-- Settings in their ranges, of a known format and a known status.
pub record HasRanges (hc : HlsConfig) : Type 0 where
  pub timed : (pos 0 <ℤ hc.segment_duration) × (hc.segment_duration ≤ℤ pos 60)
  pub sized : pos 0 ≤ℤ hc.list_size
  pub formatted : (hc.format ≡ codes "mpegts") ⊎ (hc.format ≡ codes "fmp4")
  pub known : is_valid_hls_status hc.status ≡ true
  pub percent : (pos 0 ≤ℤ hc.progress) × (hc.progress ≤ℤ pos 100)

-- A configuration that passes: each resolution does, there is one if HLS is on, and the settings
-- are in their ranges.
pub record IsValid (rt : Runtime) (hc : HlsConfig) : Type 0 where
  pub some_listed : (hc.enable_hls ≡ false) ⊎ (hc.resolutions ≢ [])
  pub each : All (λ rc. validate_config rt rc ≡ none) hc.resolutions
  pub in_range : HasRanges hc

check_resolutions-each :
    (rt : Runtime) (i : ℕ) (rs : List ResolutionConfig)
    → check_resolutions rt i rs ≡ none
    → All (λ rc. validate_config rt rc ≡ none) rs
unfolding check_resolutions
check_resolutions-each rt i [] h = tt
check_resolutions-each rt i (rc ∷ rs) h = elim (Option-cases (validate_config rt rc)) [
  | inl passed ↦ (passed, check_resolutions-each rt (suc i) rs (ground arith))
  | inr (e, refused) ↦ absurd (ground arith)
]

pub each-check_resolutions :
    (rt : Runtime) (i : ℕ) (rs : List ResolutionConfig)
    → All (λ rc. validate_config rt rc ≡ none) rs
    → check_resolutions rt i rs ≡ none
unfolding check_resolutions
each-check_resolutions rt i [] a = refl
each-check_resolutions rt i (rc ∷ rs) a =
    ground (arith, a.0, each-check_resolutions rt (suc i) rs a.1)

validate_settings-HasRanges : (hc : HlsConfig) → validate_settings hc ≡ none → HasRanges hc
unfolding validate_settings
validate_settings-HasRanges hc h = record {
  timed = ground arith;
  sized = ground arith;
  formatted =
      ground (arith, text_eq_iff hc.format (codes "mpegts"), text_eq_iff hc.format (codes "fmp4"));
  known = ground arith;
  percent = ground arith;
}

HasRanges-validate_settings : (hc : HlsConfig) → HasRanges hc → validate_settings hc ≡ none
unfolding validate_settings
HasRanges-validate_settings hc v = ground (
  arith,
  v.timed,
  v.sized,
  v.formatted,
  v.known,
  v.percent,
  text_eq_iff hc.format (codes "mpegts"),
  text_eq_iff hc.format (codes "fmp4"),
)

no_resolutions-listed :
    (enable : Bool) (rs : List ResolutionConfig)
    → no_resolutions enable rs ≡ false
    → (enable ≡ false) ⊎ (rs ≢ [])
no_resolutions-listed enable [] h = inl h
no_resolutions-listed enable (rc ∷ rs) h = inr (λ p. cc)

listed-no_resolutions :
    (enable : Bool) (rs : List ResolutionConfig)
    → (enable ≡ false) ⊎ (rs ≢ [])
    → no_resolutions enable rs ≡ false
listed-no_resolutions enable [] (inl off) = off
listed-no_resolutions enable [] (inr h) = absurd (h refl)
listed-no_resolutions enable (rc ∷ rs) h = refl

validate_hls_config-IsValid :
    (rt : Runtime) (hc : HlsConfig) → validate_hls_config rt hc ≡ none → IsValid rt hc
unfolding validate_hls_config
validate_hls_config-IsValid rt hc h = record {
  some_listed = no_resolutions-listed hc.enable_hls hc.resolutions (ground arith);
  each = check_resolutions-each rt 0 hc.resolutions (ground arith);
  in_range = validate_settings-HasRanges hc (ground arith);
}

IsValid-validate_hls_config :
    (rt : Runtime) (hc : HlsConfig) → IsValid rt hc → validate_hls_config rt hc ≡ none
unfolding validate_hls_config
IsValid-validate_hls_config rt hc v = ground (
  arith,
  listed-no_resolutions hc.enable_hls hc.resolutions v.some_listed,
  each-check_resolutions rt 0 hc.resolutions v.each,
  HasRanges-validate_settings hc v.in_range,
)

-- `Validate` accepts exactly the configurations that list a resolution if HLS is on, all of whose
-- resolutions pass their check, and whose settings are in their ranges.
pub validate_hls_config_iff :
    (rt : Runtime) (hc : HlsConfig) → (validate_hls_config rt hc ≡ none) ↔ IsValid rt hc
validate_hls_config_iff rt hc =
    (validate_hls_config-IsValid rt hc, IsValid-validate_hls_config rt hc)

-- `NewHLSConfig` over a list of resolutions that pass their check, not empty if HLS is on, succeeds,
-- with a configuration of them that `Validate` accepts.
pub new_hls_config-validate :
    (rt : Runtime) (enable : Bool) (rs : List ResolutionConfig)
    → (enable ≡ false) ⊎ (rs ≢ [])
    → All (λ rc. validate_config rt rc ≡ none) rs
    → (hc : HlsConfig) × (new_hls_config rt enable rs ≡ ok hc)
      × (hc.resolutions ≡ rs)
      × (hc.enable_hls ≡ enable)
      × (validate_hls_config rt hc ≡ none)
unfolding new_hls_config validate_hls_config validate_settings is_valid_hls_status text_eq
new_hls_config-validate rt enable rs listed each =
    rw (listed-no_resolutions enable rs listed, each-check_resolutions rt 0 rs each)
      (
        _,
        refl,
        refl,
        refl,
        ground (arith, listed-no_resolutions enable rs listed, each-check_resolutions rt 0 rs each),
      )
