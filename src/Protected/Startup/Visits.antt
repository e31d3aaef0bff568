-- ===== src/Protected/Startup/Visits.antt =====
-- What is open while the startup gate visits its targets
-- (internal/protectedpath/runtime_windows.go).
use thesis_agent.Base.{
  ℕ, zero, suc, ◌+◌, ◌≡◌, ◌≢◌, refl, Bool, true, false, not, Option, none, some, List, [], ◌∷◌,
  ◌++◌, String, if◌then◌else◌, map, length, arith,
}
use thesis_agent.Protected.Descriptor.{Class, canonical, repairable, unsafe_state, Assessment}
use thesis_agent.Protected.Repair.{
  Object, Act, handled, opened, inspected, System, inspect, tell, security,
}
use thesis_agent.Protected.Startup.{
  Paths, Target, Opening, handle, missing, refused, Files, State, path_of, close_all, is_handle,
  ancestor_reason, pin_checked, pin_all, pin_ancestors, Pins, admit, visit_opened, visit,
  unless_stopped, inspect_scope, Visited, object_of,
}
use thesis_agent.Protected.Startup.Balance.{
  one, held, Open, tell-Open, held-append, close_all-Open, nth,
}

module _ (w : System) (f : Files) (q : String) where
  -- What is open behind the pinning of the ancestors.
  pub record PinsOpen (r : Pins w f) : Type 0 where
    pub counts : Open q (held q r.1.0) 0 r.0
    pub dropped : r.1.1 ≢ none → held q r.1.0 ≡ 0

  if-PinsOpen :
      (b : Bool) (x y : Pins w f) → PinsOpen x → PinsOpen y → PinsOpen (if b then x else y)
  if-PinsOpen true x y g h = g
  if-PinsOpen false x y g h = h

  pin_checked-Open :
      (acts : List Act) (pins : List String) (path : String) (o : Option String) (rest : Pins w f)
      → Open q (held q pins) 0 acts
      → PinsOpen rest
      → PinsOpen (pin_checked w f acts pins path o rest)
  unfolding pin_checked
  pin_checked-Open acts pins path none rest h r = r
  pin_checked-Open acts pins path (some reason) rest h r = record {
    counts = close_all-Open q 0 0 pins acts (omega arith, h.1);
    dropped = λ k. refl;
  }

  pin_all-Open :
      (acts : List Act) (pins paths : List String)
      → Open q (held q pins) 0 acts
      → PinsOpen (pin_all w f acts pins paths)
  unfolding pin_all
  pin_all-Open acts pins [] h = record { counts = h; dropped = λ k. absurd (k refl) }
  pin_all-Open acts pins (path ∷ paths) h =
      let after : Open q (held q (pins ++ path ∷ [])) 0 (handled (opened path) ∷ acts) =
        (omega (arith, h.0, held-append q pins (path ∷ [])), h.1) in
      let acts' = handled (opened path) ∷ acts in
      let pins' = pins ++ path ∷ [] in
      let look = w.sees acts' path in
      if-PinsOpen (not (is_handle w f (f.opens acts path)))
        (close_all pins acts, ([], some (security path "security_descriptor_unreadable"))) _
        (record { counts = close_all-Open q 0 0 pins acts (omega arith, h.1); dropped = λ k. refl })
        (pin_checked-Open acts' pins' path (ancestor_reason w f path look.final_path look.info)
          (pin_all w f acts' pins' paths) after (pin_all-Open acts' pins' paths after))

  pub pin_ancestors-Open : (root : String) → PinsOpen (pin_ancestors w f [] root)
  unfolding pin_ancestors
  pin_ancestors-Open root =
      if-PinsOpen (not (f.rooted root)) ([], ([], some (security root "path_escape"))) _
        (record { counts = (refl, (refl, tt)); dropped = λ k. refl })
        (pin_all-Open [] [] (f.ancestors root) (refl, (refl, tt)))

  -- What is open while the targets are visited, with `n` ancestors, and where the lock is.
  pub record IsTracked (n : ℕ) (s : State) : Type 0 where
    pub open_handles : Open q (n + held q (map path_of s.objects)) 0 s.acts
    pub placed : (i : ℕ) (o : Object) → s.lock ≡ some (i, o) → nth i s.objects ≡ some o

  nth-append :
      (i : ℕ) (xs ys : List Object) (o : Object) → nth i xs ≡ some o → nth i (xs ++ ys) ≡ some o
  nth-append i [] ys o h = cc
  nth-append zero (x ∷ xs) ys o h = h
  nth-append (suc i) (x ∷ xs) ys o h = nth-append i xs ys o h

  pub nth-last : (xs : List Object) (o : Object) → nth (length xs) (xs ++ o ∷ []) ≡ some o
  nth-last [] o = refl
  nth-last (x ∷ xs) o = nth-last xs o

  pub held_path-append :
      (n : ℕ) (os : List Object) (o : Object)
      → n + held q (map path_of (os ++ o ∷ [])) ≡ one q o.self.path + (n + held q (map path_of os))
  held_path-append n [] o = omega arith
  held_path-append n (x ∷ os) o = omega (arith, held_path-append n os o)

  module _ (n : ℕ) (p : Paths) where
    -- A state whose acts say `more` than another's.
    same_objects :
        (s : State) (acts : List Act)
        → Open q (n + held q (map path_of s.objects)) 0 acts
        → IsTracked n s
        → IsTracked n (record s { acts = acts })
    same_objects s acts h t = record { open_handles = h; placed = t.placed }

    refused_target :
        (s : State) (scope path : String) (a : Assessment) (action : String) (reasons : List String)
        → IsTracked n s
        → IsTracked n (record s { acts = tell scope path a action reasons s.acts })
    refused_target s scope path a action reasons t =
        same_objects s _ (tell-Open w q _ 0 scope path a action reasons s.acts t.open_handles) t

    more_objects :
        (s : State) (o : Object) (acts : List Act)
        → Open q (one q o.self.path + (n + held q (map path_of s.objects))) 0 acts
        → Open q (n + held q (map path_of (s.objects ++ o ∷ []))) 0 acts
    more_objects s o acts h = (omega (arith, h.0, held_path-append n s.objects o), h.1)

    placed_if :
        (b : Bool) (s : State) (o : Object) (i : ℕ) (x : Object)
        → ((i : ℕ) (x : Object) → s.lock ≡ some (i, x) → nth i s.objects ≡ some x)
        → (if b then some (length s.objects, o) else s.lock) ≡ some (i, x)
        → nth i (s.objects ++ o ∷ []) ≡ some x
    placed_if true s o i x l e = cc (nth-last s.objects o)
    placed_if false s o i x l e = nth-append i s.objects (o ∷ []) x (l i x e)

    admit-IsTracked :
        (s : State) (o : Object) (a : Assessment) (c : Class)
        → Open q (one q o.self.path + (n + held q (map path_of s.objects))) 0 s.acts
        → ((i : ℕ) (x : Object) → s.lock ≡ some (i, x) → nth i s.objects ≡ some x)
        → IsTracked n (admit w f p s o a c).0
    unfolding admit
    admit-IsTracked s o a unsafe_state h l = record {
      open_handles = tell-Open w q _ 0 _ _ a _ a.reasons s.acts (more_objects s o s.acts h);
      placed = λ i x e. nth-append i s.objects _ x (l i x e);
    }
    admit-IsTracked s o a canonical h l = record {
      open_handles = tell-Open w q _ 0 _ _ a _ a.reasons s.acts (more_objects s o s.acts h);
      placed = λ i x e. placed_if (w.same o.self.path p.runtime_lock) s o i x l e;
    }
    admit-IsTracked s o a repairable h l = record {
      open_handles = tell-Open w q _ 0 _ _ a _ a.reasons s.acts (more_objects s o s.acts h);
      placed = λ i x e. placed_if (w.same o.self.path p.runtime_lock) s o i x l e;
    }

    if-IsTracked :
        (b : Bool) (x y : Visited w f)
        → IsTracked n x.0
        → IsTracked n y.0
        → IsTracked n (if b then x else y).0
    if-IsTracked true x y g h = g
    if-IsTracked false x y g h = h

    visit_opened-IsTracked :
        (s : State) (t : Target) (answer : Opening)
        → IsTracked n s
        → IsTracked n (visit_opened w f p s t answer).0
    unfolding visit_opened
    visit_opened-IsTracked s t missing h = if-IsTracked _ _ _ h (refused_target s _ _ _ _ _ h)
    visit_opened-IsTracked s t refused h = refused_target s _ _ _ _ _ h
    visit_opened-IsTracked s t handle h =
        admit-IsTracked
          (record s {
            acts =
                inspected t.path
                  (inspect w (handled (opened t.path) ∷ s.acts) (object_of w f s t).self)
                ∷ handled (opened t.path)
                ∷ s.acts;
          })
          _ _ _ (omega (arith, h.open_handles.0), h.open_handles.1) h.placed

    visit-IsTracked : (s : State) (t : Target) → IsTracked n s → IsTracked n (visit w f p s t).0
    unfolding visit
    visit-IsTracked s t h =
        if-IsTracked _ _ _ (refused_target s _ _ _ _ _ h) (visit_opened-IsTracked s t _ h)

    unless_stopped-IsTracked :
        (first rest : Visited w f)
        → IsTracked n first.0
        → IsTracked n rest.0
        → IsTracked n (unless_stopped w f first rest).0
    unfolding unless_stopped
    unless_stopped-IsTracked (s, some e) rest g h = g
    unless_stopped-IsTracked (s, none) rest g h = h

    pub inspect_scope-IsTracked :
        (s : State) (ts : List Target) → IsTracked n s → IsTracked n (inspect_scope w f p s ts).0
    unfolding inspect_scope
    inspect_scope-IsTracked s [] h = h
    inspect_scope-IsTracked s (t ∷ ts) h =
        let first = visit-IsTracked s t h in
        if-IsTracked _ _ _ h (
          unless_stopped-IsTracked _ _ first (inspect_scope-IsTracked (visit w f p s t).0 ts first))
