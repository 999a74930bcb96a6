-- ===== src/Logger/Lines.antt =====
-- Which calls of the logger write, and where to.
use go_video_transcode_servi.Common.{
  ℕ, ◌≤ℤ◌, leb_ℤ, Text, codes, text_eq, Bool, true, false, List, [], ◌∷◌, ◌++◌, ◌≡◌, ◌≢◌, ◌⊎◌, inl,
  inr, refl, Option, none, some, Error, if_elim, leb→le,
}
use go_video_transcode_servi.Logger.Levels.{
  LogLevel, debug_level, info_level, warn_level, error_level, fatal_level, level_string, to_upper,
  level_named, parse_log_level,
}
use go_video_transcode_servi.Logger.{
  Logger, Caller, Encoder, to_file, standard, sink_with, closed_file, sink_of, write_log, log_at,
  Log, is_level_enabled, close_logger,
}

-- The names of the levels are read as the levels.
parse_log_level-level_string :
    (table : ℕ → ℕ)
    → (parse_log_level table (level_string debug_level) ≡ debug_level)
      × (parse_log_level table (level_string info_level) ≡ info_level)
      × (parse_log_level table (level_string warn_level) ≡ warn_level)
      × (parse_log_level table (level_string error_level) ≡ error_level)
      × (parse_log_level table (level_string fatal_level) ≡ fatal_level)
unfolding parse_log_level level_string to_upper level_named text_eq
parse_log_level-level_string table = (refl, refl, refl, refl, refl)

-- A call writes one line, to where the logger's lines go, if its level is not below the logger's, and
-- nothing otherwise.
log_at-Written :
    (enc : Encoder) (now : Text) (caller : Caller) (l : Logger) (level : LogLevel) (message : Text)
    (fields : List (Text × Text)) (log : Log)
    → ((l.level ≤ℤ level)
        × (line : Text) × (log_at enc now caller l level message fields log
            ≡ log ++ (sink_of l, line) ∷ []))
      ⊎ ((leb_ℤ l.level level ≡ false) × (log_at enc now caller l level message fields log ≡ log))
unfolding log_at write_log is_level_enabled
log_at-Written enc now caller l level message fields log =
    if_elim
      (λ (r : Log).
        ((l.level ≤ℤ level) × (line : Text) × (r ≡ log ++ (sink_of l, line) ∷ []))
        ⊎ ((leb_ℤ l.level level ≡ false) × (r ≡ log)))
      (leb_ℤ l.level level) (λ on. inl (leb→le _ _ on, _, refl)) (λ off. inr (off, refl))

standard-not_file : (output name : Text) → standard output ≢ to_file name
standard-not_file output name =
    if_elim (λ s. s ≢ to_file name) (text_eq output (codes "stderr")) (λ _ e. cc) (λ _ e. cc)

without_file : (on : Bool) (output name : Text) → sink_with on none output ≢ to_file name
without_file true output name = standard-not_file output name
without_file false output name = standard-not_file output name

closed :
    (file : Option Text) (close : Text → Option Error) (l : Logger) (name : Text)
    → l.file ≡ file
    → sink_of (closed_file file close l).0 ≢ to_file name
unfolding sink_of
closed none close l name e = rw e (without_file l.enable_file l.output name)
closed (some f) close l name e = without_file l.enable_file l.output name

-- Behind `Close` no line goes to a file.
sink_of-close_logger :
    (close : Text → Option Error) (l : Logger) (name : Text)
    → sink_of (close_logger close l).0 ≢ to_file name
unfolding close_logger
sink_of-close_logger close l name = closed l.file close l name refl
