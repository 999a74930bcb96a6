-- ===== src/Plugins.antt =====
-- The registries of plugins and the life of resources and components (pkg/manager). Go visits a map in
-- any order: an initialisation takes the entries in the order of its visit. `none` is a panic. Logging
-- is left out.
pub mod Lifecycle
use go_video_transcode_servi.Common.{
  Text, codes, text_eq, is_empty, Bool, true, false, List, [], ◌∷◌, ◌++◌, Option, none, some, Error,
  Op, if◌then◌else◌,
}

-- A component. The error of Stop is dropped by its caller, a panic is not.
pub record Component (S : Type 0) : Type 0 where
  pub start : Op S (Option Error)
  pub stop : S → Option S

-- A plugin; `create` is MustCreateComponent.
pub record ComponentPlugin (S : Type 0) : Type 0 where
  pub name : Text
  pub create : Op S (Option (Component S))

pub record Resource (S : Type 0) : Type 0 where
  pub open_resource : S → Option S  -- MustOpen
  pub close : S → S

pub record ResourcePlugin (S : Type 0) : Type 0 where
  pub name : Text
  pub create : Op S (Option (Resource S))

-- A service registers its routes.
pub record ServicePlugin (S : Type 0) : Type 0 where
  pub name : Text
  pub create : Op S (Option (S → S))

-- A controller registers its routes in the four groups.
pub record Controller (S : Type 0) : Type 0 where
  pub open_api : S → S
  pub inner_api : S → S
  pub debug_api : S → S
  pub ops_api : S → S

pub record ControllerPlugin (S : Type 0) : Type 0 where
  pub name : Text
  pub create : Op S (Option (Controller S))

-- Whether a name has an entry.
unfoldable is_registered : {P : Type 0} → Text → List (Text × P) → Bool
is_registered name [] = false
is_registered name ((n, p) ∷ rest) = if text_eq n name then true else is_registered name rest

-- The registration in a map by the plugin's name.
unfoldable register_plugin : {P : Type 0} → Text → P → List (Text × P) → Option (List (Text × P))
unfolding is_registered
register_plugin name p registry =
    if is_empty name
    then none
    else if is_registered name registry
    then none
    else some (registry ++ (name, p) ∷ [])

module _ {S : Type 0} where
  register_component_plugin :
      ComponentPlugin S → List (Text × ComponentPlugin S) → Option (List (Text × ComponentPlugin S))
  register_component_plugin p registry = register_plugin p.name p registry

  register_service_plugin :
      ServicePlugin S → List (Text × ServicePlugin S) → Option (List (Text × ServicePlugin S))
  register_service_plugin p registry = register_plugin p.name p registry

  register_resource_plugin :
      ResourcePlugin S → List (Text × ResourcePlugin S) → Option (List (Text × ResourcePlugin S))
  register_resource_plugin p registry = register_plugin p.name p registry

  register_controller_plugin :
      ControllerPlugin S
      → List (Text × ControllerPlugin S)
      → Option (List (Text × ControllerPlugin S))
  register_controller_plugin p registry = register_plugin p.name p registry

  -- Behind Start: a component that fails to start is not kept, and stops the process.
  abbrev pub started : Option Error → Component S → List (Component S) → Option (List (Component S))
  started (some e) c components = none
  started none c components = some (components ++ c ∷ [])

  abbrev pub created_component :
      Option (Component S) → List (Component S) → Op S (Option (List (Component S)))
  created_component none components s = (none, s)
  created_component (some c) components s =
      let (failed, s') = c.start s in (started failed c components, s')

  abbrev pub and_then : {A B : Type 0} → Option A → (A → Op S (Option B)) → Op S (Option B)
  and_then none k s = (none, s)
  and_then (some a) k s = k a s

  unfoldable pub must_init_components :
      List (Text × ComponentPlugin S) → List (Component S) → Op S (Option (List (Component S)))
  must_init_components [] components s = (some components, s)
  must_init_components ((name, p) ∷ rest) components s =
      let (created, s1) = p.create s in
      let (now, s2) = created_component created components s1 in
      and_then now (must_init_components rest) s2

  unfoldable pub must_init_services :
      List (Text × ServicePlugin S) → List (S → S) → Op S (Option (List (S → S)))
  must_init_services [] services s = (some services, s)
  must_init_services ((name, p) ∷ rest) services s =
      let (created, s1) = p.create s in
      and_then created (λ service. must_init_services rest (services ++ service ∷ [])) s1

  abbrev pub opened : Option (Resource S) → Op S (Option (Resource S))
  opened none s = (none, s)
  opened (some r) s = elim (r.open_resource s) [ none ↦ (none, s) | some s' ↦ (some r, s') ]

  unfoldable pub must_init_resources :
      List (Text × ResourcePlugin S) → List (Resource S) → Op S (Option (List (Resource S)))
  must_init_resources [] resources s = (some resources, s)
  must_init_resources ((name, p) ∷ rest) resources s =
      let (created, s1) = p.create s in
      let (ready, s2) = opened created s1 in
      and_then ready (λ r. must_init_resources rest (resources ++ r ∷ [])) s2

  -- All four groups are there.
  unfoldable must_init_controllers : List (Text × ControllerPlugin S) → Op S (Option (Unit {0}))
  must_init_controllers [] s = (some tt, s)
  must_init_controllers ((name, p) ∷ rest) s =
      let (created, s1) = p.create s in
      and_then created
        (λ c s. must_init_controllers rest (c.ops_api (c.debug_api (c.inner_api (c.open_api s)))))
        s1

  unfoldable register_services : List (S → S) → S → S
  register_services [] s = s
  register_services (service ∷ rest) s = register_services rest (service s)

  pub register_all_routes :
      List (Text × ControllerPlugin S) → List (S → S) → Op S (Option (Unit {0}))
  unfolding must_init_controllers register_services
  register_all_routes controllers services s =
      let (made, s1) = must_init_controllers controllers s in
      and_then made (λ _ s. (some tt, register_services services s)) s1

  -- From the last component to the first; behind it there is none left.
  abbrev pub stopped : Component S → Option S → Option S
  stopped c none = none
  stopped c (some s) = c.stop s

  unfoldable pub shutdown : List (Component S) → S → Option S
  shutdown [] s = some s
  shutdown (c ∷ rest) s = stopped c (shutdown rest s)

  -- From the first resource to the last, which are kept.
  unfoldable pub close_resources : List (Resource S) → S → S
  close_resources [] s = s
  close_resources (r ∷ rest) s = close_resources rest (r.close s)
