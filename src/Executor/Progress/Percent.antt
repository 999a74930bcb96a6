-- ===== src/Executor/Progress/Percent.antt =====
-- The percentages that are reported.
use go_video_transcode_servi.Common.{
  ℕ, ◌≤◌, ℤ, pos, negsuc, Text, List, [], ◌∷◌, none, some, ◌≡◌, refl, ap, arith, ◌⊎◌, inl, inr, ltb,
  Bool-cases,
}
use go_video_transcode_servi.Runtime.{Runtime}
use go_video_transcode_servi.Executor.Progress.{
  Floats, Line, progress, other, line_of, take_line, emit_progress, emitted, reported,
  scan_progress, percent_below,
}

percent_below-bounds : (n : ℤ) → (p : ℕ) × (p ≤ 99) × (percent_below n ≡ pos p)
percent_below-bounds (pos n) = elim (Bool-cases (ltb 99 n)) [
  | inl big ↦ (99, omega arith, ground arith)
  | inr small ↦ (n, ground arith, ground arith)
]
percent_below-bounds (negsuc n) = (0, omega arith, ground arith)

-- A report is none, or a percentage.
emitted-bounds :
    (fl : Floats) (current total : ℕ)
    → (emitted fl current total ≡ none)
      ⊎ ((p : ℕ) × (p ≤ 99) × (emitted fl current total ≡ some (pos p)))
unfolding emitted
emitted-bounds fl current total = elim (Bool-cases (fl.is_positive total)) [
  | inl known ↦
      (let (p, small, e) =
          percent_below-bounds (fl.to_int (fl.times (fl.over current total) (fl.lit 100))) in
        inr (p, small, rw known (ap some e)))
  | inr unknown ↦ inl (rw unknown refl)
]

module _ {S : Type 0} (rt : Runtime) (fl : Floats) (duration : ℕ) (cb : ℤ → S → S) (P : S → Type 0)
    (keeps : (p : ℕ) (s : S) → p ≤ 99 → P s → P (cb (pos p) s)) where
  emit_progress-keeps :
      (current : ℕ) (s : S) → P s → P (emit_progress fl current duration (some cb) s)
  unfolding emit_progress
  emit_progress-keeps current s h = elim (emitted-bounds fl current duration) [
    | inl silent ↦ rw (ap (λ o. reported cb o s) silent) h
    | inr (p, small, told) ↦ rw (ap (λ o. reported cb o s) told) (keeps p s small h)
  ]

  -- What holds before a run and is kept by every report of a percentage from 0 to 99 holds after it:
  -- the run reports no other percentage.
  pub scan_progress-percents :
      (lines held : List Text) (s : S)
      → P s
      → P (scan_progress rt fl duration (some cb) lines (held, s)).1
  unfolding scan_progress take_line
  scan_progress-percents [] held s h = h
  scan_progress-percents (line ∷ rest) held s h =
      behind (λ held' s' h'. scan_progress-percents rest held' s' h') (line_of rt fl duration line)
    where
      behind :
          ((held' : List Text) (s' : S)
            → P s'
            → P (scan_progress rt fl duration (some cb) rest (held', s')).1)
          → (l : Line)
          → P
              (scan_progress rt fl duration
                (some cb)
                rest
                (take_line fl duration (some cb) line l (held, s))).1
      behind later (progress none) = later held s h
      behind later (progress (some sec)) = later held _ (emit_progress-keeps sec s h)
      behind later other = later _ s h
