-- ===== src/Executor/Progress.antt =====
-- What is read from FFmpeg while it runs: the progress, and the last lines that tell none.
pub mod Tail
pub mod Percent
use go_video_transcode_servi.Common.{
  ℕ, suc, ◌≤◌, ℤ, pos, ltb, leb, ltb_ℤ, pos_part, Text, codes, List, [], ◌∷◌, ◌++◌, drop, length,
  Bool, true, false, ◌&&◌, Option, none, some, has_prefix, trim_prefix, if◌then◌else◌,
}
use go_video_transcode_servi.Runtime.{Runtime}

-- float64 on bit patterns, and the regular expression.
pub record Floats : Type 0 where
  pub lit : ℕ → ℕ  -- the float of a constant
  pub is_positive : ℕ → Bool
  pub plus : ℕ → ℕ → ℕ
  pub times : ℕ → ℕ → ℕ
  pub over : ℕ → ℕ → ℕ
  pub to_int : ℕ → ℤ
  pub parsed : Text → ℕ  -- the value of ParseFloat, whatever its error
  pub find_time : Text → Option (Text × Text × Text)  -- time=(\d+):(\d+):(\d+\.?\d*)

-- A percentage below 100.
abbrev pub percent_below : ℤ → ℤ
percent_below pct =
    let capped = if ltb_ℤ (pos 99) pct then pos 99 else pct in
    if ltb_ℤ capped (pos 0) then pos 0 else capped

-- What is reported at `current` of `total` seconds.
emitted : Floats → ℕ → ℕ → Option ℤ
emitted fl current total =
    if fl.is_positive total
    then some (percent_below (fl.to_int (fl.times (fl.over current total) (fl.lit 100))))
    else none

abbrev reported : {S : Type 0} → (ℤ → S → S) → Option ℤ → S → S
reported cb none s = s
reported cb (some pct) s = cb pct s

unfoldable pub emit_progress : {S : Type 0} → Floats → ℕ → ℕ → Option (ℤ → S → S) → S → S
unfolding emitted
emit_progress fl current total none s = s
emit_progress fl current total (some cb) s = reported cb (emitted fl current total) s

-- A line as it is read: `progress` with the seconds where it tells them, and other text.
pub data Line : Type 0 where
  progress : Option ℕ → Line
  other : Line

-- A line of the clock counts only where the duration is known; one of out_time_ms always.
unfoldable pub line_of : Runtime → Floats → ℕ → Text → Line
line_of rt fl duration line =
    if has_prefix line (codes "out_time_ms=")
    then elim (rt.parse_float (trim_prefix line (codes "out_time_ms="))) [
      | none ↦ progress none
      | some ms ↦
          if fl.is_positive duration
          then progress (some (fl.over ms (fl.lit 1000000)))
          else progress none
    ]
    else elim (fl.find_time line) [
      | none ↦ other
      | some (hh, mm, ss) ↦
          if fl.is_positive duration
          then progress (
              some (
                fl.plus
                  (fl.plus (fl.times (fl.parsed hh) (fl.lit 3600))
                    (fl.times (fl.parsed mm) (fl.lit 60)))
                  (fl.parsed ss)))
          else other
    ]

-- The buffer holds 200 lines at most: a full one loses its first.
abbrev pub capture : Text → List Text → List Text
capture line lines = (if leb 200 (length lines) then drop 1 lines else lines) ++ line ∷ []

unfoldable pub take_line :
    {S : Type 0} → Floats → ℕ → Option (ℤ → S → S) → Text → Line → List Text × S → List Text × S
unfolding emit_progress
take_line fl duration cb line (progress none) (lines, s) = (lines, s)
take_line fl duration cb line (progress (some sec)) (lines, s) =
    (lines, emit_progress fl sec duration cb s)
take_line fl duration cb line other (lines, s) = (capture line lines, s)

unfoldable pub scan_progress :
    {S : Type 0}
    → Runtime
    → Floats
    → ℕ
    → Option (ℤ → S → S)
    → List Text
    → List Text × S
    → List Text × S
unfolding take_line line_of
scan_progress rt fl duration cb [] st = st
scan_progress rt fl duration cb (line ∷ rest) st =
    scan_progress rt fl duration cb rest
      (take_line fl duration cb line (line_of rt fl duration line) st)
