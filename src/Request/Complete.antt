-- ===== src/Request/Complete.antt =====
-- What a request to create a task satisfies once it has passed its check.
use go_video_transcode_servi.Common.{
  pos, ◌≤ℤ◌, ◌<ℤ◌, false, List, [], ◌∷◌, ◌≡◌, ◌≢◌, ◌⊎◌, refl, arith, none, All, if◌then◌else◌,
  Bool-cases, Option-cases, inl, inr,
}
use go_video_transcode_servi.Request.{
  HlsResolutionConfig, CreateTranscodeTaskReq, check_hls_resolutions, check_hls, validate,
}

abbrev IsSized : HlsResolutionConfig → Type 0
IsSized r = (pos 0 <ℤ r.width) × (pos 0 <ℤ r.height) × (r.bitrate ≢ [])

check_hls_resolutions-IsSized :
    (rs : List HlsResolutionConfig) → check_hls_resolutions rs ≡ none → All IsSized rs
unfolding check_hls_resolutions
check_hls_resolutions-IsSized [] h = tt
check_hls_resolutions-IsSized (r ∷ rs) h =
    (ground arith, check_hls_resolutions-IsSized rs (ground arith))

-- HLS in a request: resolutions, each of positive size and with a bit rate, a positive segment
-- duration, a list size that is not negative, and a format.
pub record HasHls (req : CreateTranscodeTaskReq) : Type 0 where
  pub listed : req.hls_resolutions ≢ []
  pub each : All IsSized req.hls_resolutions
  pub timed : pos 0 <ℤ req.segment_duration
  pub limited : pos 0 ≤ℤ req.list_size
  pub formatted : req.hls_format ≢ []

check_hls-HasHls :
    (rs : List HlsResolutionConfig) (req : CreateTranscodeTaskReq)
    → req.hls_resolutions ≡ rs
    → (check_hls rs req).1 ≡ none
    → HasHls (check_hls rs req).0
unfolding check_hls
check_hls-HasHls [] req e h = cc
check_hls-HasHls (r ∷ rs) req e h = elim (Option-cases (check_hls_resolutions (r ∷ rs))) [
  | inl passed ↦
      rw (passed, check_hls)
        (record {
          listed = λ p. cc (p, e);
          each = rw e (check_hls_resolutions-IsSized (r ∷ rs) passed);
          timed = ground arith;
          limited = ground arith;
          formatted = ground arith;
        })
  | inr (x, refused) ↦ absurd (ground arith)
]

abbrev HasTexts : CreateTranscodeTaskReq → Type 0
HasTexts req =
    (req.user_uuid ≢ [])
    × (req.video_uuid ≢ [])
    × (req.original_path ≢ [])
    × (req.resolution ≢ [])
    × (req.bitrate ≢ [])

validate-HasTexts : (req : CreateTranscodeTaskReq) → (validate req).1 ≡ none → HasTexts req
unfolding validate
validate-HasTexts req h =
    (λ e. ground arith, λ e. ground arith, λ e. ground arith, λ e. ground arith, λ e. ground arith)

validate-tail :
    (req : CreateTranscodeTaskReq)
    → (validate req).1 ≡ none
    → validate req ≡ (if req.enable_hls then check_hls req.hls_resolutions req else (req, none))
unfolding validate
validate-tail req h = ground arith

check_hls-HasTexts :
    (rs : List HlsResolutionConfig) (req : CreateTranscodeTaskReq)
    → HasTexts req
    → HasTexts (check_hls rs req).0
unfolding check_hls
check_hls-HasTexts [] req h = h
check_hls-HasTexts (r ∷ rs) req h = elim (Option-cases (check_hls_resolutions (r ∷ rs))) [
  | inl passed ↦ rw (passed, check_hls) h
  | inr (x, refused) ↦ rw (refused, check_hls) h
]

-- What a request that passes satisfies.
pub record IsComplete (req : CreateTranscodeTaskReq) : Type 0 where
  pub has_texts : HasTexts req
  pub has_hls : (req.enable_hls ≡ false) ⊎ HasHls req

-- A request that passes the check is complete after it: every required text is there, and with HLS
-- enabled its HLS part is too.
validate-IsComplete :
    (req : CreateTranscodeTaskReq) → (validate req).1 ≡ none → IsComplete (validate req).0
validate-IsComplete req h = elim (Bool-cases req.enable_hls) [
  | inl on ↦
      let e : validate req ≡ check_hls req.hls_resolutions req =
        ground (arith, validate-tail req h) in
      rw e (record {
        has_texts = check_hls-HasTexts req.hls_resolutions req (validate-HasTexts req h);
        has_hls = inr (check_hls-HasHls req.hls_resolutions req refl (rw e at h));
      })
  | inr off ↦
      let e : validate req ≡ (req, none) = ground (arith, validate-tail req h) in
      rw e (record { has_texts = validate-HasTexts req h; has_hls = inl off })
]
