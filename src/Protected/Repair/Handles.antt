-- ===== src/Protected/Repair/Handles.antt =====
-- The repair neither opens nor closes a handle (internal/protectedpath/runtime_windows.go).
use thesis_agent.Base.{Bool, true, false, Option, none, some, List, [], ◌∷◌, String, if◌then◌else◌}
use thesis_agent.Protected.Descriptor.{Class, canonical, repairable, unsafe_state, Assessment}
use thesis_agent.Protected.Repair.{
  Pinned, Object, Diagnostic, Act, told, inspected, repaired, System, Fault, tell, check_repair,
  mend, starting, ensure_object, refuse_unsafe, check_parent, ensure_below, unless_failed,
  refuse_changed, preflight, ensure_each, postflight, ensure_objects,
}

-- What holds whatever is told, inspected and repaired.
pub record IsIndifferent (P : List Act → Type 0) : Type 0 where
  pub if_told : (d : Diagnostic) (acts : List Act) → P acts → P (told d ∷ acts)
  pub if_inspected :
      (path : String) (a : Assessment) (acts : List Act) → P acts → P (inspected path a ∷ acts)
  pub if_repaired : (path : String) (acts : List Act) → P acts → P (repaired path ∷ acts)

module _ (w : System) (P : List Act → Type 0) (i : IsIndifferent P) where
  pub tell-keeps :
      (scope path : String) (a : Assessment) (action : String) (reasons : List String)
      (acts : List Act)
      → P acts
      → P (tell scope path a action reasons acts)
  unfolding tell
  tell-keeps scope path a action [] acts h = h
  tell-keeps scope path a action (r ∷ reasons) acts h =
      tell-keeps scope path a action reasons _ (i.if_told _ acts h)

  twice :
      (s s2 p p2 t t2 : String) (a b : Assessment) (acts : List Act)
      → P acts
      → P (tell s p a t a.reasons (tell s2 p2 b t2 b.reasons acts))
  twice s s2 p p2 t t2 a b acts h =
      tell-keeps s p a t a.reasons _ (tell-keeps s2 p2 b t2 b.reasons acts h)

  if-keeps : (b : Bool) (x y : List Act × Option Fault) → P x.0 → P y.0 → P (if b then x else y).0
  if-keeps true x y g h = g
  if-keeps false x y g h = h

  check_repair-keeps :
      (acts : List Act) (o : Pinned) (a : Assessment) (c : Class)
      → P acts
      → P (check_repair w acts o a c).0
  unfolding check_repair
  check_repair-keeps acts o a canonical h = tell-keeps _ _ _ _ _ acts h
  check_repair-keeps acts o a repairable h = twice _ _ _ _ _ _ _ a acts h
  check_repair-keeps acts o a unsafe_state h = twice _ _ _ _ _ _ _ a acts h

  mend-keeps :
      (acts : List Act) (o : Pinned) (a : Assessment) (c : Class) → P acts → P (mend w acts o a c).0
  unfolding mend
  mend-keeps acts o a canonical h = h
  mend-keeps acts o a unsafe_state h = tell-keeps _ _ _ _ a.reasons acts h
  mend-keeps acts o a repairable h =
      let before = starting w acts o a in
      let kept : P (repaired o.path ∷ before) =
        i.if_repaired o.path before (twice _ _ _ _ _ _ _ a acts h) in
      if-keeps (w.repair_fails before o.path) _ _ (tell-keeps _ _ _ _ _ _ kept)
        (check_repair-keeps _ o _ _ (i.if_inspected _ _ _ kept))

  ensure_object-keeps : (acts : List Act) (o : Pinned) → P acts → P (ensure_object w acts o).0
  unfolding ensure_object
  ensure_object-keeps acts o h =
      if-keeps (w.cancelled acts) _ _ h (mend-keeps _ o _ _ (i.if_inspected _ _ _ h))

  check_parent-keeps :
      (acts : List Act) (o p : Pinned) (a : Assessment) (c : Class)
      → P acts
      → P (check_parent w acts o p a c).0
  unfolding check_parent
  check_parent-keeps acts o p a canonical h = ensure_object-keeps acts o h
  check_parent-keeps acts o p a repairable h = twice _ _ _ _ _ _ _ a acts h
  check_parent-keeps acts o p a unsafe_state h = twice _ _ _ _ _ _ _ a acts h

  ensure_below-keeps :
      (acts : List Act) (o : Pinned) (parent : Option Pinned)
      → P acts
      → P (ensure_below w acts o parent).0
  unfolding ensure_below
  ensure_below-keeps acts o none h = ensure_object-keeps acts o h
  ensure_below-keeps acts o (some p) h = check_parent-keeps _ o p _ _ (i.if_inspected _ _ _ h)

  unless_failed-keeps :
      (one rest : List Act × Option Fault) → P one.0 → P rest.0 → P (unless_failed w one rest).0
  unfolding unless_failed
  unless_failed-keeps (acts, some e) rest g h = g
  unless_failed-keeps (acts, none) rest g h = h

  ensure_each-keeps : (acts : List Act) (os : List Object) → P acts → P (ensure_each w acts os).0
  unfolding ensure_each
  ensure_each-keeps acts [] h = h
  ensure_each-keeps acts (o ∷ os) h =
      let one = ensure_below-keeps acts o.self o.parent h in
      unless_failed-keeps _ _ one (ensure_each-keeps (ensure_below w acts o.self o.parent).0 os one)

  refuse_unsafe-keeps :
      (acts : List Act) (o : Pinned) (a : Assessment) (c : Class) (rest : List Act × Option Fault)
      → P acts
      → P rest.0
      → P (refuse_unsafe w acts o a c rest).0
  unfolding refuse_unsafe
  refuse_unsafe-keeps acts o a canonical rest g h = h
  refuse_unsafe-keeps acts o a repairable rest g h = h
  refuse_unsafe-keeps acts o a unsafe_state rest g h = tell-keeps _ _ _ _ a.reasons acts g

  refuse_changed-keeps :
      (acts : List Act) (o : Pinned) (a : Assessment) (c : Class) (rest : List Act × Option Fault)
      → P acts
      → P rest.0
      → P (refuse_changed w acts o a c rest).0
  unfolding refuse_changed
  refuse_changed-keeps acts o a canonical rest g h = h
  refuse_changed-keeps acts o a repairable rest g h = twice _ _ _ _ _ _ _ a acts g
  refuse_changed-keeps acts o a unsafe_state rest g h = twice _ _ _ _ _ _ _ a acts g

  preflight-keeps : (acts : List Act) (os : List Object) → P acts → P (preflight w acts os).0
  unfolding preflight
  preflight-keeps acts [] h = h
  preflight-keeps acts (o ∷ os) h =
      let seen = i.if_inspected _ _ acts h in
      refuse_unsafe-keeps _ o.self _ _ _ seen (preflight-keeps (inspected _ _ ∷ acts) os seen)

  postflight-keeps : (acts : List Act) (os : List Object) → P acts → P (postflight w acts os).0
  unfolding postflight
  postflight-keeps acts [] h = h
  postflight-keeps acts (o ∷ os) h =
      let seen = i.if_inspected _ _ acts h in
      refuse_changed-keeps _ o.self _ _ _ seen (postflight-keeps (inspected _ _ ∷ acts) os seen)

  pub ensure_objects-keeps :
      (acts : List Act) (os : List Object) → P acts → P (ensure_objects w acts os).0
  unfolding ensure_objects
  ensure_objects-keeps acts os h =
      let first = preflight-keeps acts os h in
      let second = ensure_each-keeps _ os first in
      unless_failed-keeps _ _ first (unless_failed-keeps _ _ second (postflight-keeps _ os second))
