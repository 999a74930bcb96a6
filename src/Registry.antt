-- ===== src/Registry.antt =====
-- The registration of the service and the discovery of others (pkg/registry). etcd's client is a
-- parameter. Readings of the clock are positive: UnixNano as an int of 64 bits.
pub mod Addresses
use go_video_transcode_servi.Common.{
  ℕ, zero, suc, ◌+◌, ◌%◌, ◌/◌, ◌==◌, ℤ, pos, Text, codes, text_eq, split_at, Bool, true, false,
  List, [], ◌∷◌, ◌++◌, length, Option, none, some, Error, plain, wrap, Result, ok, err, Op,
  if◌then◌else◌,
}

-- What the code calls of etcd.
pub record Etcd (S : Type 0) : Type 0 where
  pub grant : ℤ → Op S (Result Error ℕ)  -- Grant(ctx, ttl), the lease
  pub put : Text → Text → ℕ → Op S (Option Error)  -- Put(ctx, key, value, WithLease(lease))
  pub keep_alive : ℕ → S → S  -- the goroutine that keeps the lease
  pub cancel : S → S
  pub revoke : ℕ → Op S (Option Error)
  pub close : Op S (Option Error)
  pub get_prefix : Text → Op S (Result Error (List Text))  -- Get(ctx, key, WithPrefix()), the values

-- A lease of 0 is none.
record ServiceRegistry : Type 0 where
  pub service_name : Text
  pub service_id : Text
  pub service_addr : Text
  pub ttl : ℤ
  pub lease_id : ℕ

abbrev pub service_key : Text → Text → Text
service_key name id = codes "/services/" ++ (name ++ (codes "/" ++ id))

module _ {S : Type 0} (etcd : Etcd S) where
  put_answered : ServiceRegistry → Option Error → Op S (ServiceRegistry × Option Error)
  put_answered r (some e) s = ((r, some (wrap (codes "failed to register service") e)), s)
  put_answered r none s = ((r, none), etcd.keep_alive r.lease_id s)

  granted : ServiceRegistry → Result Error ℕ → Op S (ServiceRegistry × Option Error)
  unfolding put_answered
  granted r (err e) s = ((r, some (wrap (codes "failed to grant lease") e)), s)
  granted r (ok lease) s =
      let r' = record r { lease_id = lease } in
      let (failed, s') =
        etcd.put (service_key r.service_name r.service_id) r.service_addr lease s in
      put_answered r' failed s'

  register_service : ServiceRegistry → Op S (ServiceRegistry × Option Error)
  unfolding granted
  register_service r s = let (lease, s') = etcd.grant r.ttl s in granted r lease s'

  -- A revocation that fails is logged.
  deregister : ServiceRegistry → Op S (Option Error)
  deregister r s =
      let canceled = etcd.cancel s in
      let revoked = if r.lease_id == 0 then canceled else (etcd.revoke r.lease_id canceled).1 in
      let (failed, closed) = etcd.close revoked in
      (
        elim failed [ none ↦ none | some e ↦ some (wrap (codes "failed to close etcd client") e) ],
        closed,
      )

-- The cache of instances.
abbrev pub Cache : Type 0
Cache = List (Text × List Text)

-- The instances of a service; none where there is no entry.
unfoldable pub get_service : Text → Cache → List Text
get_service name [] = []
get_service name ((n, addresses) ∷ rest) =
    let later = get_service name rest in if text_eq n name then addresses else later

-- The element of an index.
unfoldable pub element : ℕ → List Text → Option Text
element i [] = none
element zero (a ∷ rest) = some a
element (suc i) (a ∷ rest) = element i rest

module _ {S : Type 0} (etcd : Etcd S) where
  discovered : Text → Result Error (List Text) → Cache → Cache × Result Error (List Text)
  discovered name (err e) cache = (cache, err (wrap (codes "failed to get service instances") e))
  discovered name (ok addresses) cache = ((name, addresses) ∷ cache, ok addresses)

  pub discover_service : Text → Cache → Op S (Cache × Result Error (List Text))
  unfolding discovered
  discover_service name cache s =
      let (found, s') = etcd.get_prefix (service_key name []) s in (discovered name found cache, s')

  -- A turn of the goroutine of WatchService, whose error is logged.
  refresh_service : Text → Cache → Op S Cache
  unfolding discover_service
  refresh_service name cache s = let (r, s') = discover_service name cache s in (r.0, s')

  -- The index is always in range; where it is not, Go panics.
  abbrev pub indexed : Option Text → Result Error Text
  indexed (some a) = ok a
  indexed none = err (plain (codes "index out of range"))

  pick_address : ℕ → List Text → Result Error Text
  unfolding element
  pick_address now addresses = indexed (element (now % length addresses) addresses)

  picked : Text → ℕ → Result Error (List Text) → Result Error Text
  unfolding pick_address
  picked name now (err e) = err (wrap (codes "failed to discover service " ++ name) e)
  picked name now (ok []) = err (plain (codes "no available instances for service " ++ name))
  picked name now (ok (a ∷ rest)) = pick_address now (a ∷ rest)

  address_from : Text → ℕ → List Text → Cache → Op S (Cache × Result Error Text)
  unfolding picked discover_service
  address_from name now (a ∷ rest) cache s = ((cache, pick_address now (a ∷ rest)), s)
  address_from name now [] cache s =
      let ((cache', found), s') = discover_service name cache s in
      ((cache', picked name now found), s')

  pub get_service_address : Text → ℕ → Cache → Op S (Cache × Result Error Text)
  unfolding address_from
  get_service_address name now cache s = address_from name now (get_service name cache) cache s

-- The two parts of an address; `strings.Split` has a first part always.
two_parts : Text → Text × List Text → Result Error (Text × Text)
two_parts address (host, []) = err (plain (codes "invalid service address format: " ++ address))
two_parts address (host, port ∷ []) = ok (host, port)
two_parts address (host, port ∷ more ∷ rest) =
    err (plain (codes "invalid service address format: " ++ address))

pub parse_service_address : Text → Result Error (Text × Text)
unfolding two_parts
parse_service_address address = two_parts address (split_at b':' address)
