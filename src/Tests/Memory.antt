-- ===== src/Tests/Memory.antt =====
-- A database in memory, a queue and a clock, as concrete instances of what the services are given,
-- and the laws that they satisfy.
use go_video_transcode_servi.Common.{
  ℕ, suc, ◌*◌, ℤ, pos, Text, codes, text_eq, text_eq_iff, Bool, true, ◌==◌, List, [], ◌∷◌, ◌++◌,
  ◌≡◌, ◌≢◌, ◌⊎◌, refl, arith, Option, none, some, Error, Result, ok, read_digits, if◌then◌else◌,
  Bool-cases, inl, inr,
}
use go_video_transcode_servi.Runtime.{Runtime}
use go_video_transcode_servi.Status.{TaskStatus, same}
use go_video_transcode_servi.Task.{Task}
use go_video_transcode_servi.Queue.{Queue, new_queue, enqueue}
use go_video_transcode_servi.Store.{Repository}
use go_video_transcode_servi.Store.Laws.{StatusLaws}
use go_video_transcode_servi.App.{Services}
use go_video_transcode_servi.App.Create.{QueueLaws}
use go_video_transcode_servi.Service.{Environment}

-- Decimal numbers stand for the floats that they read as.
unfoldable pub runtime : Runtime
runtime = record {
  lower_table = λ c. c;
  parse_float = λ s. read_digits 0 s;
  is_le_zero = λ v. v == 0;
  times = λ v n. pos (v * n);
  percent = λ p. p;
}

pub record Db : Type 0 where
  pub rows : List Task
  pub waiting : Queue Task
  pub clock : ℕ

unfoldable pub lookup : Text → List Task → Option Task
lookup id [] = none
lookup id (t ∷ ts) = let later = lookup id ts in if text_eq t.task_uuid id then some t else later

abbrev pub status_of : Option Task → Option TaskStatus
status_of none = none
status_of (some t) = some t.status

unfoldable pub modify : Text → (Task → Task) → List Task → List Task
modify id f [] = []
modify id f (t ∷ ts) =
    let later = modify id f ts in if text_eq t.task_uuid id then f t ∷ ts else t ∷ later

unfoldable pub with_status : TaskStatus → List Task → List (Option Task)
with_status st [] = []
with_status st (t ∷ ts) =
    let later = with_status st ts in if same t.status st then some t ∷ later else later

abbrev pub written : TaskStatus → Text → Text → ℤ → Task → Task
written st message path progress t = record t {
  status = st;
  error_message = message;
  output_path = path;
  progress = progress;
}

unfoldable pub repository : Repository Db
repository = record {
  create_job = λ t db. (none, record db { rows = t ∷ db.rows });
  update_progress =
      λ id p db. (none, record db { rows = modify id (λ t. record t { progress = p }) db.rows });
  update_job = λ t db. (none, record db { rows = modify t.task_uuid (λ u. t) db.rows });
  get_job = λ id db. (ok (lookup id db.rows), db);
  update_status = λ id st message path p db.
      (none, record db { rows = modify id (written st message path p) db.rows });
  query_by_status = λ st limit db. (ok (with_status st db.rows), db);
}

unfoldable pub services : Services Db
services = record {
  repo = repository;
  enqueue_task =
      λ t db. let (q, e) = enqueue true none (some t) db.waiting in (e, record db { waiting = q });
  now = λ db. (db.clock, record db { clock = suc db.clock });
  new_uuid = λ db. (codes "task-" ++ db.clock ∷ [], db);
}

abbrev pub status_in : Db → Text → Option TaskStatus
status_in db id = status_of (lookup id db.rows)

lookup-modify_others :
    (id k : Text) (st : TaskStatus) (m path : Text) (p : ℤ) (ts : List Task)
    → k ≢ id
    → status_of (lookup k (modify id (written st m path p) ts)) ≡ status_of (lookup k ts)
unfolding lookup modify
lookup-modify_others id k st m path p [] h = refl
lookup-modify_others id k st m path p (t ∷ ts) h = ground (
  arith,
  lookup-modify_others id k st m path p ts h,
  text_eq_iff t.task_uuid id,
  text_eq_iff t.task_uuid k,
)

lookup-modify_self :
    (id : Text) (st : TaskStatus) (m path : Text) (p : ℤ) (ts : List Task)
    → (status_of (lookup id (modify id (written st m path p) ts)) ≡ status_of (lookup id ts))
      ⊎ ((status_of (lookup id ts) ≢ none)
          × (status_of (lookup id (modify id (written st m path p) ts)) ≡ some st))
unfolding lookup modify
lookup-modify_self id st m path p [] = inl refl
lookup-modify_self id st m path p (t ∷ ts) = elim (Bool-cases (text_eq t.task_uuid id)) [
  | inl hit ↦ rw hit (rw hit (inr (λ e. cc, refl)))
  | inr miss ↦ rw miss (rw miss (lookup-modify_self id st m path p ts))
]

pub status_laws : StatusLaws repository status_in
unfolding repository
status_laws = record {
  get_keeps = λ id db k. refl;
  get_reads = λ id db t h. ground arith;
  update_others = λ id st m path p db k h. lookup-modify_others id k st m path p db.rows h;
  update_self = λ id st m path p db known. lookup-modify_self id st m path p db.rows;
}

pub queue_laws : QueueLaws services (λ db. db.waiting.items)
unfolding services repository enqueue
queue_laws = record {
  query_keeps = λ st limit db. refl;
  create_keeps = λ t db. refl;
  update_keeps = λ id st m path p db. refl;
  now_keeps = λ db. refl;
  uuid_keeps = λ db. refl;
  enqueue_adds = λ t db h. ground arith;
  enqueue_refuses = λ t db h. ground arith;
}

-- An executor that reports three times, too much at the end, and then has a key, or fails.
unfoldable pub environment : Result Error Text → Bool → Environment Db
unfolding repository
environment result skips = record {
  repo = repository;
  execute = λ t skip db. ((pos 10 ∷ pos 60 ∷ pos 250 ∷ [], result), db);
  save_progress = none;
  create_hls_job = some (λ job db. (none, db));
  enqueue_hls_job = λ job db. (none, db);
  now = λ db. (db.clock, record db { clock = suc db.clock });
  new_uuid = λ db. (codes "job", db);
  join = λ parts. codes "dir";
  request_id = codes "request";
  skip_full_upload = skips;
  output_formats = record { name = codes "720p"; bitrate = codes "2500k" } ∷ [];
  defaults = (codes "1080p", codes "4000k") ∷ (codes "720p", codes "2000k") ∷ [];
}

abbrev pub empty_db : Db
empty_db = record { rows = []; waiting = new_queue (pos 4); clock = 7 }
