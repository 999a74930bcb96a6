-- ===== src/Plugins/Lifecycle.antt =====
-- Which components are started, and the order in which they are stopped.
use go_video_transcode_servi.Common.{
  Text, List, [], ◌∷◌, ◌++◌, ◌≡◌, refl, ap, Option, none, some, Error,
}
use mathlib.Core.Path.{subst}
use mathlib.Core.List.{append_assoc, append-nil}
use go_video_transcode_servi.Plugins.{
  Component, ComponentPlugin, started, created_component, and_then, must_init_components, stopped,
  shutdown,
}

module _ {S : Type 0} where
  -- The components of these plugins have been created and started in turn.
  pub data Started : List (Text × ComponentPlugin S) → S → List (Component S) → S → Type 0 where
    nothing : {s : S} → Started [] s [] s
    next :
        {name : Text} {p : ComponentPlugin S} {rest : List (Text × ComponentPlugin S)}
        {c : Component S} {components : List (Component S)} {s s1 s2 s3 : S}
        → p.create s ≡ (some c, s1)
        → c.start s1 ≡ (none, s2)
        → Started rest s2 components s3
        → Started ((name, p) ∷ rest) s (c ∷ components) s3

  -- How an initialisation ends: all are started; or one cannot be created or started, which is a panic
  -- with those before it started and none behind it created.
  pub data Initialised (visit : List (Text × ComponentPlugin S)) (before : List (Component S))
      (s : S) : Option (List (Component S)) × S → Type 0 where
    all_started :
        (components : List (Component S)) (s' : S)
        → Started visit s components s'
        → Initialised visit before s (some (before ++ components), s')
    failed :
        (done : List (Text × ComponentPlugin S)) (name : Text) (p : ComponentPlugin S)
        (rest : List (Text × ComponentPlugin S)) (components : List (Component S)) (s1 s2 : S)
        → visit ≡ done ++ (name, p) ∷ rest
        → Started done s components s1
        → created_component (p.create s1).0 [] (p.create s1).1 ≡ (none, s2)
        → Initialised visit before s (none, s2)

  extend :
      (name : Text) (p : ComponentPlugin S) (rest : List (Text × ComponentPlugin S))
      (before : List (Component S)) (c : Component S) (s s1 s2 : S)
      (r : Option (List (Component S)) × S)
      → p.create s ≡ (some c, s1)
      → c.start s1 ≡ (none, s2)
      → Initialised rest (before ++ c ∷ []) s2 r
      → Initialised ((name, p) ∷ rest) before s r
  extend name p rest before c s s1 s2 r e h (all_started components s' k) =
      rw (append_assoc before (c ∷ []) components) (all_started (c ∷ components) s' (next e h k))
  extend name p rest before c s s1 s2 r e h (failed done n q more components s3 s4 v k f) =
      failed ((name, p) ∷ done) n q more (c ∷ components) s3 s4
        (ap (λ (l : List (Text × ComponentPlugin S)). (name, p) ∷ l) v) (next e h k) f

  started-Initialised :
      (name : Text) (p : ComponentPlugin S) (rest : List (Text × ComponentPlugin S))
      (before : List (Component S)) (c : Component S) (s s1 : S) (answer : Option Error × S)
      → p.create s ≡ (some c, s1)
      → c.start s1 ≡ answer
      → ((s2 : S)
          → Initialised rest
              (before ++ c ∷ [])
              s2
              (must_init_components rest (before ++ c ∷ []) s2))
      → Initialised
          ((name, p) ∷ rest)
          before
          s
          (and_then (started answer.0 c before) (must_init_components rest) answer.1)
  started-Initialised name p rest before c s s1 (some x, s2) e h later =
      failed [] name p rest [] s s2 refl nothing (rw e (rw h refl))
  started-Initialised name p rest before c s s1 (none, s2) e h later =
      extend name p rest before c s s1 s2 _ e h (later s2)

  created-Initialised :
      (name : Text) (p : ComponentPlugin S) (rest : List (Text × ComponentPlugin S))
      (before : List (Component S)) (s : S) (made : Option (Component S) × S)
      → p.create s ≡ made
      → ((now : List (Component S)) (s2 : S)
          → Initialised rest now s2 (must_init_components rest now s2))
      → let (now, s2) = created_component made.0 before made.1 in
        Initialised ((name, p) ∷ rest) before s (and_then now (must_init_components rest) s2)
  created-Initialised name p rest before s (none, s1) e later =
      failed [] name p rest [] s s1 refl nothing (rw e refl)
  created-Initialised name p rest before s (some c, s1) e later =
      started-Initialised name p rest before c s s1 (c.start s1) e refl (later (before ++ c ∷ []))

  -- In whatever order the map is visited: either every component is created and started, once, in that
  -- order, and all are kept; or the first one that cannot be created or started ends the process, with
  -- those before it started and none behind it created.
  pub must_init_components-Initialised :
      (visit : List (Text × ComponentPlugin S)) (before : List (Component S)) (s : S)
      → Initialised visit before s (must_init_components visit before s)
  unfolding must_init_components
  must_init_components-Initialised [] before s =
      subst (λ l. Initialised [] before s (some l, s)) (append-nil before)
        (all_started [] s nothing)
  must_init_components-Initialised ((name, p) ∷ rest) before s =
      created-Initialised name p rest before s (p.create s) refl
        (must_init_components-Initialised rest)

  -- The components behind one are stopped before it.
  shutdown-append :
      (xs ys : List (Component S)) (s s' : S)
      → shutdown ys s ≡ some s'
      → shutdown (xs ++ ys) s ≡ shutdown xs s'
  unfolding shutdown
  shutdown-append [] ys s s' e = e
  shutdown-append (c ∷ xs) ys s s' e = ap (stopped c) (shutdown-append xs ys s s' e)
