-- ===== src/Resolution/Heights.antt =====
-- The resolutions that pass the check have a height.
use go_video_transcode_servi.Common.{
  ℕ, ◌≤◌, Text, codes, text_eq, text_eq_iff, true, List, [], ◌∷◌, ◌≡◌, arith, none, pos, ok,
  to_lower, trim_space, trim_suffix, atoi, inl, inr, Bool-cases, All, sym,
}
use go_video_transcode_servi.Runtime.{Runtime}
use go_video_transcode_servi.Resolution.{
  valid_resolutions, is_listed, validate_resolution, parse_resolution_height,
}

-- A text has a height in the range of the listed formats.
abbrev HasHeight : Runtime → Text → Type 0
HasHeight rt s = (h : ℕ) × (parse_resolution_height rt s ≡ ok (pos h)) × (240 ≤ h) × (h ≤ 2160)

-- Every text that reads as `low` in lower case has a height.
abbrev Reads : Runtime → Text → Type 0
Reads rt low = (s : Text) → to_lower rt.lower_table s ≡ low → HasHeight rt s

Reads-at :
    (rt : Runtime) (v : Text) (h : ℕ)
    → ((s : Text)
        → to_lower rt.lower_table s ≡ to_lower rt.lower_table v
        → parse_resolution_height rt s ≡ ok (pos h))
    → (240 ≤ h) × (h ≤ 2160)
    → Reads rt (to_lower rt.lower_table v)
Reads-at rt v h p b s e = (h, p s e, b.0, b.1)

reads : (rt : Runtime) → All (λ v. Reads rt (to_lower rt.lower_table v)) valid_resolutions
unfolding parse_resolution_height to_lower trim_space trim_suffix text_eq atoi
reads rt = (
  Reads-at rt (codes "2160p") 2160 (λ s e. rw (e, parse_resolution_height)) (omega arith),
  (
    Reads-at rt (codes "1440p") 1440 (λ s e. rw (e, parse_resolution_height)) (omega arith),
    (
      Reads-at rt (codes "1080p") 1080 (λ s e. rw (e, parse_resolution_height)) (omega arith),
      (
        Reads-at rt (codes "720p") 720 (λ s e. rw (e, parse_resolution_height)) (omega arith),
        (
          Reads-at rt (codes "480p") 480 (λ s e. rw (e, parse_resolution_height)) (omega arith),
          (
            Reads-at rt (codes "360p") 360 (λ s e. rw (e, parse_resolution_height)) (omega arith),
            (
              Reads-at rt (codes "240p") 240 (λ s e. rw (e, parse_resolution_height)) (omega arith),
              (
                Reads-at rt (codes "4K") 2160 (λ s e. rw (e, parse_resolution_height))
                    (omega arith),
                (
                  Reads-at rt (codes "2K") 1440 (λ s e. rw (e, parse_resolution_height))
                      (omega arith),
                  (
                    Reads-at rt (codes "1080") 1080 (λ s e. rw (e, parse_resolution_height))
                        (omega arith),
                    (
                      Reads-at rt (codes "720") 720 (λ s e. rw (e, parse_resolution_height))
                          (omega arith),
                      (
                        Reads-at rt (codes "480") 480 (λ s e. rw (e, parse_resolution_height))
                            (omega arith),
                        (
                          Reads-at rt (codes "360") 360 (λ s e. rw (e, parse_resolution_height))
                              (omega arith),
                          (
                            Reads-at rt (codes "240") 240 (λ s e. rw (e, parse_resolution_height))
                                (omega arith),
                            tt,
                          ),
                        ),
                      ),
                    ),
                  ),
                ),
              ),
            ),
          ),
        ),
      ),
    ),
  ),
)

is_listed-HasHeight :
    (rt : Runtime) (s : Text) (vs : List Text)
    → All (λ v. Reads rt (to_lower rt.lower_table v)) vs
    → is_listed rt (to_lower rt.lower_table s) vs ≡ true
    → HasHeight rt s
unfolding is_listed
is_listed-HasHeight rt s [] a h = cc
is_listed-HasHeight rt s (v ∷ vs) a h =
    elim (Bool-cases (text_eq (to_lower rt.lower_table v) (to_lower rt.lower_table s))) [
      | inl hit ↦ a.0 s (sym ((text_eq_iff _ _).0 hit))
      | inr miss ↦ is_listed-HasHeight rt s vs a.1 (ground arith)
    ]

-- A resolution that passes the check has a height, from 240 to 2160: the playlist that names it
-- never falls back to 0x0, nor its slices to the height of the source.
pub validate_resolution-HasHeight :
    (rt : Runtime) (s : Text) → validate_resolution rt s ≡ none → HasHeight rt s
unfolding validate_resolution
validate_resolution-HasHeight rt s h =
    is_listed-HasHeight rt s valid_resolutions (reads rt) (ground arith)
