-- ===== src/Logger/Levels.antt =====
-- The levels of the logger (pkg/logger/logger.go).
use go_video_transcode_servi.Common.{
  ℕ, ltb, leb, ◌-◌, ℤ, pos, eq_ℤ, Text, codes, text_eq, ◌&&◌, ◌||◌, [], ◌∷◌, if◌then◌else◌,
}

-- A level is an int.
abbrev pub LogLevel : Type 0
LogLevel = ℤ

abbrev pub debug_level : LogLevel
debug_level = pos 0

abbrev pub info_level : LogLevel
info_level = pos 1

abbrev pub warn_level : LogLevel
warn_level = pos 2

abbrev pub error_level : LogLevel
error_level = pos 3

abbrev pub fatal_level : LogLevel
fatal_level = pos 4

unfoldable pub level_string : LogLevel → Text
level_string l =
    if eq_ℤ l debug_level
    then codes "DEBUG"
    else if eq_ℤ l info_level
    then codes "INFO"
    else if eq_ℤ l warn_level
    then codes "WARN"
    else if eq_ℤ l error_level
    then codes "ERROR"
    else if eq_ℤ l fatal_level
    then codes "FATAL"
    else codes "UNKNOWN"

-- strings.ToUpper over a table for the characters beyond ASCII
unfoldable pub to_upper : (ℕ → ℕ) → Text → Text
to_upper table [] = []
to_upper table (c ∷ s) =
    (if ltb c 128 then (if leb b'a' c && leb c b'z' then c - 32 else c) else table c)
    ∷ to_upper table s

unfoldable pub level_named : Text → LogLevel
level_named name =
    if text_eq name (codes "DEBUG")
    then debug_level
    else if text_eq name (codes "INFO")
    then info_level
    else if text_eq name (codes "WARN") || text_eq name (codes "WARNING")
    then warn_level
    else if text_eq name (codes "ERROR")
    then error_level
    else if text_eq name (codes "FATAL")
    then fatal_level
    else info_level

unfoldable pub parse_log_level : (ℕ → ℕ) → Text → LogLevel
unfolding to_upper level_named
parse_log_level table level = level_named (to_upper table level)
