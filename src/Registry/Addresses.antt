-- ===== src/Registry/Addresses.antt =====
-- What the discovery answers, and how an address is taken apart.
use go_video_transcode_servi.Common.{
  ℕ, zero, suc, ◌%◌, ◌<◌, ◌==◌, Text, split_at, false, List, [], ◌∷◌, ◌++◌, length, ◌≡◌, ◌↔◌, refl,
  sym, ap, ◌∙◌, arith, some, Error, Result, ok, err, All, if_elim, ==_iff,
}
use mathlib.Core.Path.{ap₂}
use native.Mathlib.Nat.{mod-lt}
use go_video_transcode_servi.Registry.{
  Etcd, Cache, service_key, get_service, element, discovered, discover_service, indexed,
  pick_address, picked, address_from, get_service_address, two_parts, parse_service_address,
}

-- `a` is one of the list.
pub data Listed (a : Text) : List Text → Type 0 where
  here : {rest : List Text} → Listed a (a ∷ rest)
  there : {b : Text} {rest : List Text} → Listed a rest → Listed a (b ∷ rest)

element-Listed :
    (i : ℕ) (l : List Text) → i < length l → (a : Text) × (element i l ≡ some a) × Listed a l
unfolding element
element-Listed i [] h = absurd (omega arith)
element-Listed zero (a ∷ rest) h = (a, refl, here)
element-Listed (suc i) (b ∷ rest) h =
    let (a, e, m) = element-Listed i rest (omega arith) in (a, e, there m)

-- An answer, with the cache and the state behind it. What etcd names is what it answers to the
-- query for the prefix of the service.
pub data Answered {S : Type 0} (etcd : Etcd S) (name : Text) (cache : Cache) (s : S)
    : (Cache × Result Error Text) × S → Type 0 where
  -- one of the instances in the cache, where there is any; etcd is not asked
  cached :
      (a : Text) → Listed a (get_service name cache) → Answered etcd name cache s ((cache, ok a), s)
  -- one of those that etcd names, which are entered into the cache
  asked :
      (a : Text) (addresses : List Text) (s' : S)
      → get_service name cache ≡ []
      → etcd.get_prefix (service_key name []) s ≡ (ok addresses, s')
      → Listed a addresses
      → Answered etcd name cache s (((name, addresses) ∷ cache, ok a), s')
  -- etcd names none, which is entered into the cache
  no_instance :
      (e : Error) (s' : S)
      → get_service name cache ≡ []
      → etcd.get_prefix (service_key name []) s ≡ (ok [], s')
      → Answered etcd name cache s (((name, []) ∷ cache, err e), s')
  -- etcd fails, and the cache is kept
  unanswered :
      (e failure : Error) (s' : S)
      → get_service name cache ≡ []
      → etcd.get_prefix (service_key name []) s ≡ (err failure, s')
      → Answered etcd name cache s ((cache, err e), s')

pick-Listed :
    {S : Type 0} (etcd : Etcd S) (now : ℕ) (b : Text) (rest : List Text)
    → (a : Text) × (pick_address etcd now (b ∷ rest) ≡ ok a) × Listed a (b ∷ rest)
unfolding pick_address
pick-Listed etcd now b rest =
    let (a, e, m) =
      element-Listed (now % length (b ∷ rest)) (b ∷ rest) (mod-lt now (omega arith)) in
    (a, ap (indexed etcd) e, m)

module _ {S : Type 0} (etcd : Etcd S) (name : Text) (now : ℕ) where
  cached-Answered :
      (cache : Cache) (s : S) (b : Text) (rest : List Text)
      → get_service name cache ≡ b ∷ rest
      → Answered etcd name cache s ((cache, pick_address etcd now (b ∷ rest)), s)
  cached-Answered cache s b rest e =
      let (a, p, m) = pick-Listed etcd now b rest in rw p (cached a (rw e m))

  asked-Answered :
      (cache : Cache) (s s' : S) (found : Result Error (List Text))
      → get_service name cache ≡ []
      → etcd.get_prefix (service_key name []) s ≡ (found, s')
      → let (cache', r) = discovered etcd name found cache in
        Answered etcd name cache s ((cache', picked etcd name now r), s')
  unfolding discovered picked
  asked-Answered cache s s' (err failure) h e = unanswered _ failure s' h e
  asked-Answered cache s s' (ok []) h e = no_instance _ s' h e
  asked-Answered cache s s' (ok (b ∷ rest)) h e =
      let (a, p, m) = pick-Listed etcd now b rest in rw p (asked a (b ∷ rest) s' h e m)

  from-Answered :
      (cache : Cache) (s : S) (known : List Text)
      → get_service name cache ≡ known
      → Answered etcd name cache s (address_from etcd name now known cache s)
  unfolding address_from discover_service
  from-Answered cache s (b ∷ rest) e = cached-Answered cache s b rest e
  from-Answered cache s [] e = asked-Answered cache s _ _ e refl

  -- The address of a service is an instance of it: from the cache, if that has any, without asking etcd
  -- and whatever has become of the instance since; else one of those that etcd answers to the query for
  -- the service, which are entered into the cache. There is none only if the cache had none and etcd
  -- either names none, which is entered, or fails, and the cache is kept.
  pub get_service_address-Answered :
      (cache : Cache) (s : S)
      → Answered etcd name cache s (get_service_address etcd name now cache s)
  unfolding get_service_address
  get_service_address-Answered cache s = from-Answered cache s (get_service name cache) refl

-- No colon in the text.
abbrev pub Plain : Text → Type 0
Plain s = All (λ c. (c == b':') ≡ false) s

split-Plain : (s : Text) → Plain s → split_at b':' s ≡ (s, [])
unfolding split_at
split-Plain [] h = refl
split-Plain (c ∷ s) h = simp (split-Plain s h.1, h.0) refl

split_joined : (s t : Text) → Plain s → Plain t → split_at b':' (s ++ b':' ∷ t) ≡ (s, t ∷ [])
unfolding split_at
split_joined [] t h k = simp (split-Plain t k) refl
split_joined (c ∷ s) t h k = simp (split_joined s t h.1 k, h.0) refl

-- The parts with colons between them.
abbrev joined : Text → List Text → Text
joined part [] = part
joined part (next ∷ rest) = part ++ b':' ∷ joined next rest

joined-cons :
    (c : ℕ) (part : Text) (rest : List Text) → joined (c ∷ part) rest ≡ c ∷ joined part rest
joined-cons c part [] = refl
joined-cons c part (next ∷ rest) = refl

abbrev IsSplit : Text → Text × List Text → Type 0
IsSplit s (part, rest) = (joined part rest ≡ s) × Plain part × All Plain rest

split_at-IsSplit : (s : Text) → IsSplit s (split_at b':' s)
unfolding split_at
split_at-IsSplit [] = (refl, tt, tt)
split_at-IsSplit (c ∷ s) =
    let (e, h, k) = split_at-IsSplit s in
    if_elim (IsSplit (c ∷ s)) (c == b':')
      (λ colon. (ap₂ ◌∷◌ (sym ((==_iff c b':').0 colon)) e, tt, (h, k)))
      (λ other. (joined-cons c _ _ ∙ ap (λ (x : Text). c ∷ x) e, (other, h), k))

two_parts-IsSplit :
    (address host port : Text) (p : Text × List Text)
    → two_parts address p ≡ ok (host, port)
    → IsSplit address p
    → (address ≡ host ++ b':' ∷ port) × Plain host × Plain port
unfolding two_parts
two_parts-IsSplit address host port (h, []) e (j, a, b) = absurd (ground arith)
two_parts-IsSplit address host port (h, p ∷ []) e (j, a, b) =
    let eh : h ≡ host = cc in
    let ep : p ≡ port = cc in
    (sym j ∙ ap₂ (λ (x y : Text). x ++ b':' ∷ y) eh ep, rw (← eh) a, rw (← ep) b.0)
two_parts-IsSplit address host port (h, p ∷ q ∷ rest) e (j, a, b) = absurd (ground arith)

-- An address is read as a host and a port exactly if it is these with a colon between them and there is
-- no other colon.
pub parse_service_address_iff :
    (address host port : Text)
    → (parse_service_address address ≡ ok (host, port))
      ↔ ((address ≡ host ++ b':' ∷ port) × Plain host × Plain port)
unfolding parse_service_address two_parts
parse_service_address_iff address host port = (
  λ e. two_parts-IsSplit address host port (split_at b':' address) e (split_at-IsSplit address),
  λ (e, h, k). rw e (rw (split_joined host port h k) refl),
)
