-- ===== src/Executor/Progress/Tail.antt =====
-- The captured lines and the reported percentages.
use go_video_transcode_servi.Common.{
  ℕ, ◌-◌, ◌≤◌, ℤ, leb, Text, List, [], ◌∷◌, ◌++◌, drop, length, length-append, length-drop,
  drop-append, drop-drop, Bool-cases, leb→le, inl, inr, Option, none, some, ◌≡◌, sym, ap, ◌∙◌,
  arith,
}
use mathlib.Core.List.{append-nil, append_assoc}
use go_video_transcode_servi.Runtime.{Runtime}
use go_video_transcode_servi.Executor.Progress.{
  Floats, Line, progress, other, line_of, capture, take_line, scan_progress,
}

-- The last `n` of a list.
abbrev pub last : ℕ → List Text → List Text
last n lines = drop (length lines - n) lines

-- The lines behind one that is read.
abbrev told : Line → Text → List Text → List Text
told (progress sec) line kept = kept
told other line kept = line ∷ kept

-- The lines that tell no progress.
pub untold : Runtime → Floats → ℕ → List Text → List Text
untold rt fl duration [] = []
untold rt fl duration (line ∷ rest) =
    told (line_of rt fl duration line) line (untold rt fl duration rest)

last-drop : (n : ℕ) (xs : List Text) → n ≤ length xs - 200 → last 200 (drop n xs) ≡ last 200 xs
last-drop n xs h =
    drop-drop (length (drop n xs) - 200) n xs
    ∙ ap (λ k. drop k xs) (omega (arith, h, length-drop n xs))

last-append : (xs ys : List Text) → last 200 (last 200 xs ++ ys) ≡ last 200 (xs ++ ys)
last-append xs ys =
    ap (last 200) (sym (drop-append (length xs - 200) xs ys (omega arith)))
    ∙ last-drop (length xs - 200) (xs ++ ys) (omega (arith, length-append xs ys))

capture-last :
    (line : Text) (xs : List Text)
    → length xs ≤ 200
    → (capture line xs ≡ last 200 (xs ++ line ∷ [])) × (length (capture line xs) ≤ 200)
capture-last line xs h = elim (Bool-cases (leb 200 (length xs))) [
  | inl full ↦ (
    rw full (
        sym (drop-append 1 xs (line ∷ []) (omega (arith, h, leb→le 200 (length xs) full)))
        ∙ ap (λ k. drop k (xs ++ line ∷ [])) {x = 1}
            (omega (arith, h, leb→le 200 (length xs) full, length-append xs (line ∷ [])))),
    rw full (omega (arith, h, length-append (drop 1 xs) (line ∷ []), length-drop 1 xs)),
  )
  | inr room ↦ (
    rw room
        (ap (λ k. drop k (xs ++ line ∷ [])) {x = 0} (ground (arith, length-append xs (line ∷ [])))),
    rw room (ground (arith, length-append xs (line ∷ []))),
  )
]

module _ {S : Type 0} (rt : Runtime) (fl : Floats) (duration : ℕ) (cb : Option (ℤ → S → S)) where
  -- From a buffer of 200 lines at most, the buffer at the end holds the last 200 of its lines followed
  -- by all those that tell no progress.
  pub scan_progress-captured :
      (lines held : List Text) (s : S)
      → length held ≤ 200
      → (scan_progress rt fl duration cb lines (held, s)).0
        ≡ last 200 (held ++ untold rt fl duration lines)
  unfolding scan_progress untold take_line
  scan_progress-captured [] held s h =
      rw (append-nil held) (ap (λ k. drop k held) {x = 0} (omega (arith, h)))
  scan_progress-captured (line ∷ rest) held s h =
      behind (λ held' s' small. scan_progress-captured rest held' s' small)
        (line_of rt fl duration line)
    where
      behind :
          ((held' : List Text) (s' : S)
            → length held' ≤ 200
            → (scan_progress rt fl duration cb rest (held', s')).0
              ≡ last 200 (held' ++ untold rt fl duration rest))
          → (l : Line)
          → (scan_progress rt fl duration cb rest (take_line fl duration cb line l (held, s))).0
            ≡ last 200 (held ++ told l line (untold rt fl duration rest))
      behind later (progress none) = later held s h
      behind later (progress (some sec)) = later held _ h
      behind later other =
          let (kept, small) = capture-last line held h in
          let kept_lines = untold rt fl duration rest in
          later (capture line held) s small
          ∙ ap (λ l. last 200 (l ++ kept_lines)) kept
          ∙ last-append (held ++ line ∷ []) kept_lines
          ∙ ap (last 200) (append_assoc held (line ∷ []) kept_lines)
