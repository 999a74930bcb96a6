-- ===== src/HlsService/Playlist.antt =====
-- The entries of the master playlist.
use go_video_transcode_servi.Common.{
  ℕ, ◌≤◌, ◌*◌, ◌/◌, pos, Text, codes, none, ◌++◌, ◌≡◌, refl, arith, itoa_ℤ,
}
use go_video_transcode_servi.Runtime.{Runtime}
use go_video_transcode_servi.Resolution.{
  ResolutionConfig, validate_resolution, parse_bitrate_to_bps,
}
use go_video_transcode_servi.Resolution.Heights.{validate_resolution-HasHeight}
use go_video_transcode_servi.HlsService.{width_of, value_or, create_master_playlist_entry}

width_of-small : (h : ℕ) → 240 ≤ h → h ≤ 2160 → width_of (pos h) ≡ pos (h * 16 / 9)
unfolding width_of
width_of-small h a b = ground arith

-- The entry of a resolution that passes its check names a height from 240 to 2160 and the width that
-- has 16 to 9 of it, which fits in its type, before the path of the playlist.
create_master_playlist_entry-dimensions :
    (rt : Runtime) (rc : ResolutionConfig) (path : Text)
    → validate_resolution rt rc.resolution ≡ none
    → (h : ℕ) × (240 ≤ h)
      × (h ≤ 2160)
      × (create_master_playlist_entry rt rc path
          ≡ codes "#EXT-X-STREAM-INF:BANDWIDTH="
            ++ (itoa_ℤ (value_or (pos 0) (parse_bitrate_to_bps rt rc.bitrate))
                ++ (codes ",RESOLUTION="
                    ++ (itoa_ℤ (pos (h * 16 / 9))
                        ++ (codes "x" ++ (itoa_ℤ (pos h) ++ (codes "\n" ++ path)))))))
unfolding create_master_playlist_entry
create_master_playlist_entry-dimensions rt rc path valid =
    let (h, parsed, a, b) = validate_resolution-HasHeight rt rc.resolution valid in
    (h, a, b, rw (parsed, width_of-small h a b) refl)
