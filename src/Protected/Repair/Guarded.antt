-- ===== src/Protected/Repair/Guarded.antt =====
-- When a repair is made (internal/protectedpath/runtime_windows.go).
use thesis_agent.Base.{
  ◌≡◌, refl, ◌∙◌, Bool, true, false, Option, none, some, List, [], ◌∷◌, String, any, if◌then◌else◌,
  str_eq, eq_refl,
}
use thesis_agent.Protected.Descriptor.{Class, canonical, repairable, unsafe_state, Assessment}
use thesis_agent.Protected.Repair.{
  is_repair, Pinned, Object, Act, handled, told, inspected, repaired, System, Fault, tell, inspect,
  check_repair, mend, starting, ensure_object, refuse_unsafe, check_parent, ensure_below,
  unless_failed, refuse_changed, preflight, ensure_each, postflight, ensure_objects,
}

-- What the newest inspection of an object found, unless something was repaired since.
abbrev pub current : String → List Act → Option Class
current path [] = none
current path (told _ ∷ acts) = current path acts
current path (handled _ ∷ acts) = current path acts
current path (repaired _ ∷ acts) = none
current path (inspected p a ∷ acts) =
    let rest = current path acts in if str_eq p path then some a.class else rest

-- Only objects are repaired whose last inspection found them repairable, with no other repair in
-- between.
abbrev pub IsGuarded : List Act → Type 0
IsGuarded [] = Unit
IsGuarded (told _ ∷ acts) = IsGuarded acts
IsGuarded (handled _ ∷ acts) = IsGuarded acts
IsGuarded (inspected _ _ ∷ acts) = IsGuarded acts
IsGuarded (repaired path ∷ acts) = (current path acts ≡ some repairable) × IsGuarded acts

module _ (scope path : String) (a : Assessment) (action : String) where
  current-tell :
      (reasons : List String) (acts : List Act) (p : String)
      → current p (tell scope path a action reasons acts) ≡ current p acts
  unfolding tell
  current-tell [] acts p = refl
  current-tell (r ∷ reasons) acts p = current-tell reasons (told _ ∷ acts) p

  tell-IsGuarded :
      (reasons : List String) (acts : List Act)
      → IsGuarded acts
      → IsGuarded (tell scope path a action reasons acts)
  unfolding tell
  tell-IsGuarded [] acts g = g
  tell-IsGuarded (r ∷ reasons) acts g = tell-IsGuarded reasons (told _ ∷ acts) g

  tell-repairs :
      (reasons : List String) (acts : List Act)
      → any is_repair (tell scope path a action reasons acts) ≡ any is_repair acts
  unfolding tell
  tell-repairs [] acts = refl
  tell-repairs (r ∷ reasons) acts = tell-repairs reasons (told _ ∷ acts)

if-IsGuarded :
    (b : Bool) (x y : List Act × Option Fault)
    → IsGuarded x.0
    → IsGuarded y.0
    → IsGuarded (if b then x else y).0
if-IsGuarded true x y g h = g
if-IsGuarded false x y g h = h

module _ (w : System) where
  check_repair-IsGuarded :
      (acts : List Act) (o : Pinned) (a : Assessment) (c : Class)
      → IsGuarded acts
      → IsGuarded (check_repair w acts o a c).0
  unfolding check_repair
  check_repair-IsGuarded acts o a canonical g = tell-IsGuarded _ _ _ _ _ acts g
  check_repair-IsGuarded acts o a repairable g =
      tell-IsGuarded _ _ _ _ _ _ (tell-IsGuarded _ _ _ _ a.reasons acts g)
  check_repair-IsGuarded acts o a unsafe_state g =
      tell-IsGuarded _ _ _ _ _ _ (tell-IsGuarded _ _ _ _ a.reasons acts g)

  mend-IsGuarded :
      (acts : List Act) (o : Pinned) (a : Assessment) (c : Class)
      → IsGuarded acts
      → current o.path acts ≡ some c
      → IsGuarded (mend w acts o a c).0
  unfolding mend
  mend-IsGuarded acts o a canonical g e = g
  mend-IsGuarded acts o a unsafe_state g e = tell-IsGuarded _ _ _ _ a.reasons acts g
  mend-IsGuarded acts o a repairable g e =
      let before = starting w acts o a in
      let guarded : IsGuarded (repaired o.path ∷ before) = (
        current-tell _ _ _ _ _ _ o.path ∙ current-tell _ _ _ _ a.reasons acts o.path ∙ e,
        tell-IsGuarded _ _ _ _ _ _ (tell-IsGuarded _ _ _ _ a.reasons acts g),
      ) in
      if-IsGuarded (w.repair_fails before o.path) _ _ (tell-IsGuarded _ _ _ _ _ _ guarded)
        (check_repair-IsGuarded _ o _ _ guarded)

  ensure_object-IsGuarded :
      (acts : List Act) (o : Pinned) → IsGuarded acts → IsGuarded (ensure_object w acts o).0
  unfolding ensure_object
  ensure_object-IsGuarded acts o g = if-IsGuarded (w.cancelled acts) _ _ g (
      mend-IsGuarded (inspected o.path (inspect w acts o) ∷ acts) o _ _ g
        (rw (eq_refl o.path) refl))

  check_parent-IsGuarded :
      (acts : List Act) (o p : Pinned) (a : Assessment) (c : Class)
      → IsGuarded acts
      → IsGuarded (check_parent w acts o p a c).0
  unfolding check_parent
  check_parent-IsGuarded acts o p a canonical g = ensure_object-IsGuarded acts o g
  check_parent-IsGuarded acts o p a repairable g =
      tell-IsGuarded _ _ _ _ _ _ (tell-IsGuarded _ _ _ _ a.reasons acts g)
  check_parent-IsGuarded acts o p a unsafe_state g =
      tell-IsGuarded _ _ _ _ _ _ (tell-IsGuarded _ _ _ _ a.reasons acts g)

  ensure_below-IsGuarded :
      (acts : List Act) (o : Pinned) (parent : Option Pinned)
      → IsGuarded acts
      → IsGuarded (ensure_below w acts o parent).0
  unfolding ensure_below
  ensure_below-IsGuarded acts o none g = ensure_object-IsGuarded acts o g
  ensure_below-IsGuarded acts o (some p) g = check_parent-IsGuarded _ o p _ _ g

  unless_failed-IsGuarded :
      (one rest : List Act × Option Fault)
      → IsGuarded one.0
      → IsGuarded rest.0
      → IsGuarded (unless_failed w one rest).0
  unfolding unless_failed
  unless_failed-IsGuarded (acts, some e) rest g h = g
  unless_failed-IsGuarded (acts, none) rest g h = h

  ensure_each-IsGuarded :
      (acts : List Act) (os : List Object) → IsGuarded acts → IsGuarded (ensure_each w acts os).0
  unfolding ensure_each
  ensure_each-IsGuarded acts [] g = g
  ensure_each-IsGuarded acts (o ∷ os) g =
      let one = ensure_below-IsGuarded acts o.self o.parent g in
      unless_failed-IsGuarded _ _ one
        (ensure_each-IsGuarded (ensure_below w acts o.self o.parent).0 os one)

  refuse_unsafe-IsGuarded :
      (acts : List Act) (o : Pinned) (a : Assessment) (c : Class) (rest : List Act × Option Fault)
      → IsGuarded acts
      → IsGuarded rest.0
      → IsGuarded (refuse_unsafe w acts o a c rest).0
  unfolding refuse_unsafe
  refuse_unsafe-IsGuarded acts o a canonical rest g h = h
  refuse_unsafe-IsGuarded acts o a repairable rest g h = h
  refuse_unsafe-IsGuarded acts o a unsafe_state rest g h = tell-IsGuarded _ _ _ _ a.reasons acts g

  refuse_changed-IsGuarded :
      (acts : List Act) (o : Pinned) (a : Assessment) (c : Class) (rest : List Act × Option Fault)
      → IsGuarded acts
      → IsGuarded rest.0
      → IsGuarded (refuse_changed w acts o a c rest).0
  unfolding refuse_changed
  refuse_changed-IsGuarded acts o a canonical rest g h = h
  refuse_changed-IsGuarded acts o a repairable rest g h =
      tell-IsGuarded _ _ _ _ _ _ (tell-IsGuarded _ _ _ _ a.reasons acts g)
  refuse_changed-IsGuarded acts o a unsafe_state rest g h =
      tell-IsGuarded _ _ _ _ _ _ (tell-IsGuarded _ _ _ _ a.reasons acts g)

  preflight-IsGuarded :
      (acts : List Act) (os : List Object) → IsGuarded acts → IsGuarded (preflight w acts os).0
  unfolding preflight
  preflight-IsGuarded acts [] g = g
  preflight-IsGuarded acts (o ∷ os) g =
      refuse_unsafe-IsGuarded _ o.self _ _ _ g (preflight-IsGuarded (inspected _ _ ∷ acts) os g)

  postflight-IsGuarded :
      (acts : List Act) (os : List Object) → IsGuarded acts → IsGuarded (postflight w acts os).0
  unfolding postflight
  postflight-IsGuarded acts [] g = g
  postflight-IsGuarded acts (o ∷ os) g =
      refuse_changed-IsGuarded _ o.self _ _ _ g (postflight-IsGuarded (inspected _ _ ∷ acts) os g)

  refuse_unsafe-quiet :
      {b : Bool}
      → (acts : List Act) (o : Pinned) (a : Assessment) (c : Class) (rest : List Act × Option Fault)
      → any is_repair acts ≡ b
      → any is_repair rest.0 ≡ b
      → any is_repair (refuse_unsafe w acts o a c rest).0 ≡ b
  unfolding refuse_unsafe
  refuse_unsafe-quiet acts o a canonical rest g h = h
  refuse_unsafe-quiet acts o a repairable rest g h = h
  refuse_unsafe-quiet acts o a unsafe_state rest g h = tell-repairs _ _ _ _ a.reasons acts ∙ g

  unless_failed-some :
      (one rest : List Act × Option Fault) (e : Fault)
      → one.1 ≡ some e
      → ((unless_failed w one rest).0 ≡ one.0) × ((unless_failed w one rest).1 ≡ some e)
  unfolding unless_failed
  unless_failed-some (acts, some x) rest e h = (refl, h)
  unless_failed-some (acts, none) rest e h = cc

  preflight-quiet :
      (acts : List Act) (os : List Object)
      → any is_repair (preflight w acts os).0 ≡ any is_repair acts
  unfolding preflight
  preflight-quiet acts [] = refl
  preflight-quiet acts (o ∷ os) =
      refuse_unsafe-quiet _ o.self _ _ _ refl (preflight-quiet (inspected _ _ ∷ acts) os)

-- The repair of the startup gate changes only what it may: an object is repaired only where its
-- last inspection, with no repair since, found it repairable, whatever the system answers.
pub ensure_objects-IsGuarded :
    (w : System) (acts : List Act) (os : List Object)
    → IsGuarded acts
    → IsGuarded (ensure_objects w acts os).0
unfolding ensure_objects
ensure_objects-IsGuarded w acts os g =
    let first = preflight-IsGuarded w acts os g in
    let second = ensure_each-IsGuarded w _ os first in
    unless_failed-IsGuarded w _ _ first
      (unless_failed-IsGuarded w _ _ second (postflight-IsGuarded w _ os second))

-- An object that the first inspections find unsafe ends the gate before anything was repaired.
pub ensure_objects-untouched :
    (w : System) (acts : List Act) (os : List Object) (e : Fault)
    → any is_repair acts ≡ false
    → (preflight w acts os).1 ≡ some e
    → ((ensure_objects w acts os).1 ≡ some e) × (any is_repair (ensure_objects w acts os).0 ≡ false)
unfolding ensure_objects
ensure_objects-untouched w acts os e quiet failed =
    let (same, fault) = unless_failed-some w (preflight w acts os) _ e failed in
    (fault, rw same (preflight-quiet w acts os ∙ quiet))
