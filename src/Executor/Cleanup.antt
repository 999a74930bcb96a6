-- ===== src/Executor/Cleanup.antt =====
-- The local files of a transcode are removed.
use go_video_transcode_servi.Common.{
  [], arith, Text, Bool, true, false, Option, none, some, Error, Result, ok, err, ◌≡◌, refl, ◌⊎◌,
  inl, inr,
}
use go_video_transcode_servi.Runtime.{Runtime}
use go_video_transcode_servi.Task.{Task}
use go_video_transcode_servi.HlsWorker.{build_file_url}
use go_video_transcode_servi.Executor.{
  Storage, ExecutorIo, TranscodeOptions, uploaded, encoded, transcode_local, downloaded, fetch,
  local_input_path, local_output_path, directories_made, inputs_made, execute, storage_base,
}

module _ {S : Type 0} (rt : Runtime) (io : ExecutorIo S) where
  -- The result of a run and the state behind it, for the file at `output`. A run that fails may leave
  -- the file; one that succeeds removes it last, and answers nothing without an upload, or a key with
  -- the address of that key.
  abbrev pub Ended : Bool → Text → Result Error (Text × Text) × S → Type 0
  Ended skip output (r, s) =
      ((e : Error) × (r ≡ err e)) ⊎ ((s' : S) × (s ≡ io.remove output s') × Answer skip r)
    where
      Answer : Bool → Result Error (Text × Text) → Type 0
      Answer true r = r ≡ ok ([], [])
      Answer false r =
          (key : Text) × (r ≡ ok (key, build_file_url (storage_base rt io io.config) key))

  -- The answer behind an upload.
  uploaded-Ended :
      (output : Text) (result : Result Error Text) (s : S)
      → Ended false output (uploaded rt io output result s)
  unfolding uploaded
  uploaded-Ended output (err e) s = inl (_, refl)
  uploaded-Ended output (ok key) s = inr (s, refl, (key, refl))

  encoded-Ended :
      (task : Task) (skip : Bool) (output : Text) (storage : Option (Storage S))
      (failed : Option Error) (s : S)
      → Ended skip output (encoded rt io task skip output storage failed s)
  unfolding encoded
  encoded-Ended task skip output storage (some e) s = inl (e, refl)
  encoded-Ended task true output storage none s = inr (s, refl, refl)
  encoded-Ended task false output none none s = inl (_, refl)
  encoded-Ended task false output (some storage) none s = uploaded-Ended output _ _

  transcode_local-Ended :
      (task : Task) (opts : TranscodeOptions S) (input output : Text) (s : S)
      → Ended opts.skip_upload output (transcode_local rt io task opts input output s)
  unfolding transcode_local
  transcode_local-Ended task opts input output s =
      encoded-Ended task opts.skip_upload output io.storage _ _

  downloaded-Ended :
      (task : Task) (opts : TranscodeOptions S) (input output : Text) (failed : Option Error)
      (s : S)
      → failed ≡ none
      → (s' : S) × ((downloaded rt io task opts input output failed s).1 ≡ io.remove input s')
        × Ended opts.skip_upload output ((downloaded rt io task opts input output failed s).0, s')
  unfolding downloaded
  downloaded-Ended task opts input output none s h =
      (_, refl, transcode_local-Ended task opts input output s)
  downloaded-Ended task opts input output (some e) s h = absurd (ground arith)

  -- Once the directories are made and the input is there, the input is removed last, however the run
  -- ends; before that, a run that succeeds has removed the output, and answers either nothing, where
  -- no upload is wanted, or a key with its address.
  pub execute-Ended :
      (task : Task) (opts : TranscodeOptions S) (s : S)
      → (let made = io.make_dir (io.dir_of (local_input_path rt io task)) s in made.0 ≡ none)
      → (let s1 = (io.make_dir (io.dir_of (local_input_path rt io task)) s).1 in
          (io.make_dir (io.dir_of (local_output_path rt io task)) s1).0 ≡ none)
      → (let s1 = (io.make_dir (io.dir_of (local_input_path rt io task)) s).1 in
          let s2 = (io.make_dir (io.dir_of (local_output_path rt io task)) s1).1 in
          (fetch rt io task (local_input_path rt io task) io.storage s2).0 ≡ none)
      → (s' : S) × ((execute rt io (some task) opts s).1
          ≡ io.remove (local_input_path rt io task) s')
        × Ended opts.skip_upload
            (local_output_path rt io task)
            ((execute rt io (some task) opts s).0, s')
  unfolding execute inputs_made directories_made
  execute-Ended task opts s h h1 h2 = rw (h, h1) (downloaded-Ended task opts _ _ _ _ h2)
