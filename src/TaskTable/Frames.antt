-- ===== src/TaskTable/Frames.antt =====
-- What the updates of HLS leave alone.
use go_video_transcode_servi.Common.{
  Text, ℤ, List, [], ◌∷◌, ◌≡◌, ◌≢◌, ◌⊎◌, inl, inr, refl, Option, some, Error, Op,
}
use go_video_transcode_servi.TaskTable.{
  TranscodeTaskRow, TaskColumn, status_column, message_column, output_path_column, progress_column,
  hls_progress_column, hls_status_column, hls_output_path_column, hls_error_column,
  hls_completed_at_column, TaskTable, update_hls_progress, update_hls_status,
  update_hls_output_path, update_hls_error, update_hls_completed, update_hls_failed,
}

abbrev pub write_column : TaskColumn → TranscodeTaskRow → TranscodeTaskRow
write_column (status_column v) r = record r { status = v }
write_column (message_column v) r = record r { message = v }
write_column (output_path_column v) r = record r { output_path = v }
write_column (progress_column v) r = record r { progress = v }
write_column (hls_progress_column v) r = record r { hls_progress = v }
write_column (hls_status_column v) r = record r { hls_status = some v }
write_column (hls_output_path_column v) r = record r { hls_output_path = some v }
write_column (hls_error_column v) r = record r { hls_error_message = some v }
write_column (hls_completed_at_column v) r = record r { hls_completed_at = v }

abbrev pub write_columns : List TaskColumn → TranscodeTaskRow → TranscodeTaskRow
write_columns [] r = r
write_columns (c ∷ cs) r = write_columns cs (write_column c r)

-- `row s id` is the row of a task in the state `s`. An update of columns changes the row that it names
-- and no other, if it is there; a failed update has been made or not.
pub record Laws {S : Type 0} (table : TaskTable S) (row : S → Text → Option TranscodeTaskRow)
    : Type 0 where
  pub others :
      (id : Text) (cs : List TaskColumn) (s : S) (k : Text)
      → k ≢ id
      → row (table.update_columns id cs s).1 k ≡ row s k
  pub self :
      (id : Text) (cs : List TaskColumn) (s : S)
      → (row (table.update_columns id cs s).1 id ≡ row s id)
        ⊎ ((r : TranscodeTaskRow) × (row s id ≡ some r)
            × (row (table.update_columns id cs s).1 id ≡ some (write_columns cs r)))

-- The columns outside HLS, the key included, and the settings of HLS.
abbrev SameTask : TranscodeTaskRow → TranscodeTaskRow → Type 0
SameTask a b =
    (a.task_uuid ≡ b.task_uuid)
    × (a.user_uuid ≡ b.user_uuid)
    × (a.video_uuid ≡ b.video_uuid)
    × (a.input_path ≡ b.input_path)
    × (a.output_path ≡ b.output_path)
    × (a.resolution ≡ b.resolution)
    × (a.bitrate ≡ b.bitrate)
    × (a.status ≡ b.status)
    × (a.progress ≡ b.progress)
    × (a.message ≡ b.message)
    × (a.hls_enabled ≡ b.hls_enabled)
    × (a.hls_segment_duration ≡ b.hls_segment_duration)
    × (a.hls_list_size ≡ b.hls_list_size)
    × (a.hls_format ≡ b.hls_format)

same_task : (r : TranscodeTaskRow) → SameTask r r
same_task r = (refl, refl, refl, refl, refl, refl, refl, refl, refl, refl, refl, refl, refl, refl)

module _ {S : Type 0} (table : TaskTable S) (row : S → Text → Option TranscodeTaskRow)
    (laws : Laws table row) where
  -- A call that names a task leaves every other row as it was, and of its own row all but what HLS has
  -- reached; where there is no row, there is none afterwards.
  abbrev pub Frame : Text → Op S (Option Error) → Type 0
  Frame id call =
      (s : S)
      → ((k : Text) → k ≢ id → row (call s).1 k ≡ row s k)
        × ((row (call s).1 id ≡ row s id)
            ⊎ ((a : TranscodeTaskRow) × (b : TranscodeTaskRow) × (row s id ≡ some a)
                × (row (call s).1 id ≡ some b)
                × SameTask a b))

  columns-Frame :
      (id : Text) (cs : List TaskColumn)
      → ((r : TranscodeTaskRow) → SameTask r (write_columns cs r))
      → Frame id (table.update_columns id cs)
  columns-Frame id cs keep s = (λ k n. laws.others id cs s k n, go (laws.self id cs s))
    where
      go :
          (row (table.update_columns id cs s).1 id ≡ row s id)
            ⊎ ((r : TranscodeTaskRow) × (row s id ≡ some r)
                × (row (table.update_columns id cs s).1 id ≡ some (write_columns cs r)))
          → (row (table.update_columns id cs s).1 id ≡ row s id)
            ⊎ ((a : TranscodeTaskRow) × (b : TranscodeTaskRow) × (row s id ≡ some a)
                × (row (table.update_columns id cs s).1 id ≡ some b)
                × SameTask a b)
      go (inl e) = inl e
      go (inr (r, e, w)) = inr (r, write_columns cs r, e, w, keep r)

  -- Each of the six updates of HLS leaves every other row as it was, and of the row that it names the
  -- task's own columns, its status, progress, message and output path among them, and the settings.
  pub hls_updates-Frame :
      (id text : Text) (percent : ℤ)
      → Frame id (update_hls_progress table id percent)
        × Frame id (update_hls_status table id text)
        × Frame id (update_hls_output_path table id text)
        × Frame id (update_hls_error table id text)
        × Frame id (update_hls_completed table id)
        × Frame id (update_hls_failed table id text)
  unfolding update_hls_progress update_hls_status update_hls_output_path update_hls_error
      update_hls_completed update_hls_failed
  hls_updates-Frame id text percent = (
    columns-Frame id _ same_task,
    columns-Frame id _ same_task,
    columns-Frame id _ same_task,
    columns-Frame id _ same_task,
    columns-Frame id _ same_task,
    columns-Frame id _ same_task,
  )
