-- ===== src/Resources/Opened.antt =====
-- What an opened resource has, and how many workers are made.
use go_video_transcode_servi.Common.{
  pos, ◌<ℤ◌, ltb_ℤ, ltb→lt, Text, Bool, true, false, ◌||◌, ◌≡◌, refl, arith, Option, none, some,
  is_empty, if_elim,
}
use go_video_transcode_servi.Config.{Config}
use go_video_transcode_servi.Resources.{
  RustFsResource, rustfs_of, rustfs_must_open, worker_settings,
}

-- If there is a resource, it has a value in each of its parts.
abbrev Filled : Option RustFsResource → Type 0
Filled none = Unit {0}
Filled (some r) =
    (is_empty r.endpoint ≡ false) × (is_empty r.access ≡ false) × (is_empty r.secret ≡ false)

neither : (a b : Bool) → (a || b) ≡ false → (a ≡ false) × (b ≡ false)
neither true b h = cc
neither false b h = (refl, h)

rustfs_of-Filled : (endpoint access secret : Text) → Filled (rustfs_of endpoint access secret)
unfolding rustfs_of
rustfs_of-Filled endpoint access secret =
    let whole : RustFsResource = record { endpoint = endpoint; access = access; secret = secret } in
    if_elim Filled (is_empty endpoint) (λ _. tt)
      λ e.
        if_elim Filled (is_empty access || is_empty secret) {y = some whole} (λ _. tt)
          λ k. let (a, b) = neither _ _ k in (e, a, b)

-- RustFS is not opened without an endpoint and both keys, from the environment or the configuration.
rustfs_must_open-Filled :
    (getenv : Text → Text) (cfg : Option Config) → Filled (rustfs_must_open getenv cfg)
unfolding rustfs_must_open
rustfs_must_open-Filled getenv none = tt
rustfs_must_open-Filled getenv (some cfg) = rustfs_of-Filled _ _ _

-- There is a worker of each kind at least.
worker_settings-positive :
    (cfg : Option Config)
    → (pos 0 <ℤ (worker_settings cfg).worker_count)
      × (pos 0 <ℤ (worker_settings cfg).hls_worker_count)
unfolding worker_settings
worker_settings-positive none = (omega arith, omega arith)
worker_settings-positive (some cfg) =
    let count =
      if_elim (λ n. pos 0 <ℤ n) (ltb_ℤ (pos 0) cfg.worker.max_concurrent_tasks) (λ h. ltb→lt _ _ h)
        (λ _. omega arith) in
    (
      count,
      if_elim (λ n. pos 0 <ℤ n) (ltb_ℤ (pos 0) cfg.worker.hls_max_concurrent_tasks)
          (λ h. ltb→lt _ _ h) (λ _. count),
    )
