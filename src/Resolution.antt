-- ===== src/Resolution.antt =====
-- Resolutions and bit rates: the checks of ddd/domain/vo/hls_config.go, and how
-- ddd/domain/service/hls_service.go reads them for the master playlist.
pub mod Heights
use go_video_transcode_servi.Common.{
  ℕ, ◌*◌, ◌/◌, ◌+◌, Text, codes, text_eq, Bool, true, false, ◌&&◌, ◌||◌, not, List, [], ◌∷◌, ◌++◌,
  Option, none, some, ℤ, pos, negsuc, ltb_ℤ, leb_ℤ, pos_part, leb, ltb, Error, plain, wrap, Result,
  ok, err, is_empty, to_lower, trim_space, has_suffix, trim_suffix, atoi, itoa, if◌then◌else◌,
}
use go_video_transcode_servi.Runtime.{Runtime}

pub record ResolutionConfig : Type 0 where
  pub resolution : Text
  pub bitrate : Text

abbrev pub valid_resolutions : List Text
valid_resolutions =
    codes "2160p"
    ∷ codes "1440p"
    ∷ codes "1080p"
    ∷ codes "720p"
    ∷ codes "480p"
    ∷ codes "360p"
    ∷ codes "240p"
    ∷ codes "4K"
    ∷ codes "2K"
    ∷ codes "1080"
    ∷ codes "720"
    ∷ codes "480"
    ∷ codes "360"
    ∷ codes "240"
    ∷ []

module _ (rt : Runtime) where
  -- The loop over the supported formats.
  unfoldable pub is_listed : Text → List Text → Bool
  is_listed s [] = false
  is_listed s (v ∷ rest) = text_eq (to_lower rt.lower_table v) s || is_listed s rest

  unfoldable pub validate_resolution : Text → Option Error
  unfolding is_listed
  validate_resolution s =
      if is_empty s
      then some (plain (codes "分辨率不能为空"))
      else (let low = to_lower rt.lower_table s in
          if is_listed low valid_resolutions
          then none
          else some (plain (codes "不支持的分辨率格式: " ++ low)))

  -- The number in a bit rate: the text in lower case without its unit.
  unfoldable pub bitrate_number : Text → Text
  bitrate_number low =
      if has_suffix low (codes "k")
      then trim_suffix low (codes "k")
      else if has_suffix low (codes "m")
      then trim_suffix low (codes "m")
      else if has_suffix low (codes "kbps")
      then trim_suffix low (codes "kbps")
      else if has_suffix low (codes "mbps")
      then trim_suffix low (codes "mbps")
      else low

  unfoldable pub validate_bitrate : Text → Option Error
  unfolding bitrate_number
  validate_bitrate b =
      if is_empty b
      then some (plain (codes "码率不能为空"))
      else elim (rt.parse_float (bitrate_number (to_lower rt.lower_table b))) [
        | some v ↦ none
        | none ↦ some (plain (codes "无效的码率格式: " ++ b))
      ]

  -- `Validate` of a resolution's configuration
  unfoldable pub validate_config : ResolutionConfig → Option Error
  validate_config rc = elim (validate_resolution rc.resolution) [
    | some e ↦ some e
    | none ↦ validate_bitrate rc.bitrate
  ]

  unfoldable pub new_resolution_config : Text → Text → Result Error ResolutionConfig
  new_resolution_config resolution bitrate = elim (validate_resolution resolution) [
    | some e ↦ err e
    | none ↦ elim (validate_bitrate bitrate) [
      | some e ↦ err e
      | none ↦ ok (record { resolution = resolution; bitrate = bitrate })
    ]
  ]

  -- The unit of a bit rate and the text before it.
  bitrate_unit : Text → ℕ × Text
  bitrate_unit s =
      if has_suffix s (codes "kbps")
      then (1000, trim_suffix s (codes "kbps"))
      else if has_suffix s (codes "mbps")
      then (1000000, trim_suffix s (codes "mbps"))
      else if has_suffix s (codes "k")
      then (1000, trim_suffix s (codes "k"))
      else if has_suffix s (codes "m")
      then (1000000, trim_suffix s (codes "m"))
      else (1, s)

  pub parse_bitrate_to_bps : Text → Result Error ℤ
  unfolding bitrate_unit
  parse_bitrate_to_bps bitrate =
      let s = trim_space (to_lower rt.lower_table bitrate) in
      let invalid = plain (codes "invalid bitrate: " ++ bitrate) in
      if is_empty s
      then err (plain (codes "empty bitrate"))
      else (let (factor, number) = bitrate_unit s in
          elim (rt.parse_float (trim_space number)) [
            | none ↦ err invalid
            | some v ↦ if rt.is_le_zero v then err invalid else ok (rt.times v factor)
          ])

  -- Behind the switch on "4k" and "2k": the height as a decimal number.
  numeric_height : Text → Text → Result Error ℤ
  numeric_height resolution s =
      let invalid = plain (codes "invalid resolution: " ++ resolution) in
      if is_empty s then err invalid else elim (atoi s) [
        | none ↦ err invalid
        | some h ↦ if leb_ℤ h (pos 0) then err invalid else ok h
      ]

  pub parse_resolution_height : Text → Result Error ℤ
  unfolding numeric_height
  parse_resolution_height resolution =
      let s = trim_space (to_lower rt.lower_table resolution) in
      if is_empty s
      then err (plain (codes "empty resolution"))
      else if text_eq s (codes "4k")
      then ok (pos 2160)
      else if text_eq s (codes "2k")
      then ok (pos 1440)
      else numeric_height resolution (trim_suffix s (codes "p"))
