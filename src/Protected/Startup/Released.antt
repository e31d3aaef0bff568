-- ===== src/Protected/Startup/Released.antt =====
-- The outcome of the startup gate (internal/protectedpath/runtime_windows.go).
use thesis_agent.Base.{
  ℕ, ◌+◌, ◌≡◌, refl, Bool, true, false, not, Option, none, some, List, [], ◌∷◌, ◌++◌, String,
  if◌then◌else◌, map, length, arith,
}
use thesis_agent.Protected.Descriptor.{Class, canonical, repairable, unsafe_state, Assessment}
use thesis_agent.Protected.Repair.{
  Object, Act, handled, created, locked, unlocked, inspected, System, Fault, inspect, security,
  security_error, system_error, context_done, panicked,
}
use thesis_agent.Protected.Repair.Handles.{ensure_objects-keeps}
use thesis_agent.Protected.Startup.{
  Paths, Files, State, Outcome, failed, started, path_of, close_back, Pins, cleanup, finish,
  take_lock, create_lock, find_lock, scoped, pinned, ensure_startup, release, targets, Visited,
  abort, critical, new_lock, refuse_ancestors,
}
use thesis_agent.Protected.Startup.Balance.{
  one, held, opens, closes, locks, unlocks, IsUnderLock, Open, tell-Open, Open-IsIndifferent,
  close_back-Open, close_others-Open, nth,
}
use thesis_agent.Protected.Startup.Visits.{
  PinsOpen, pin_ancestors-Open, IsTracked, inspect_scope-IsTracked, nth-last, held_path-append,
}

module _ (w : System) (f : Files) (q : String) where
  -- What an outcome leaves open.
  abbrev IsBalanced : Outcome → Type 0
  IsBalanced (failed acts e) = Open q 0 0 acts
  IsBalanced (started acts pins lock) = Open q (held q pins + one q lock.self.path) 1 acts

  close_handles :
      (k : ℕ) (os : List Object) (pins : List String) (acts : List Act)
      → Open q (held q pins + held q (map path_of os)) k acts
      → Open q 0 k (close_back pins (close_back (map path_of os) acts))
  close_handles k os pins acts h =
      let objects_closed = close_back-Open q k (held q pins) (map path_of os) acts h in
      close_back-Open q k 0 pins _ (omega (arith, objects_closed.0), objects_closed.1)

  cleanup-Open :
      (os : List Object) (pins : List String) (acts : List Act)
      → Open q (held q pins + held q (map path_of os)) 0 acts
      → Open q 0 0 (cleanup w f false os pins acts)
  unfolding cleanup
  cleanup-Open os pins acts h = close_handles 0 os pins acts h

  cleanup_locked :
      (os : List Object) (pins : List String) (acts : List Act)
      → Open q (held q pins + held q (map path_of os)) 1 acts
      → Open q 0 0 (cleanup w f true os pins acts)
  unfolding cleanup
  cleanup_locked os pins acts h =
      close_handles 0 os pins (handled unlocked ∷ acts) (h.0, (omega (arith, h.1.0), h.1.1))

  module _ (p : Paths) (pins : List String) where
    abbrev Held : List Object → ℕ → List Act → Type 0
    Held os k acts = Open q (held q pins + held q (map path_of os)) k acts

    critical_told :
        (k : ℕ) (os : List Object) (path : String) (a : Assessment) (action : String)
        (acts : List Act)
        → Held os k acts
        → Held os k (critical w f path a action acts)
    critical_told k os path a action acts h =
        tell-Open w q _ k "critical" path a action a.reasons acts h

    finish-IsBalanced :
        (os : List Object) (n : ℕ) (lock : Object) (run : List Act × Option Fault)
        → nth n os ≡ some lock
        → Held os 1 run.0
        → IsBalanced (finish w f p pins os n lock run)
    unfolding finish
    finish-IsBalanced os n lock (acts, some e) l h =
        cleanup_locked os pins _ (critical_told 1 os _ _ _ acts h)
    finish-IsBalanced [] n lock (acts, none) l h = cc
    finish-IsBalanced (o ∷ os) n lock (acts, none) l h =
        close_others-Open q 1 (held q pins) n (o ∷ os) lock _ l
          (critical_told 1 (o ∷ os) _ _ _ (inspected o.self.path (inspect w acts o.self) ∷ acts) h)

    aborted :
        (os : List Object) (acts : List Act) (e : Fault)
        → Held os 0 acts
        → IsBalanced (abort w f p false os pins acts e)
    aborted os acts e h = cleanup-Open os pins _ (critical_told 0 os _ _ _ acts h)

    if-IsBalanced :
        (b : Bool) (x y : Outcome) → IsBalanced x → IsBalanced y → IsBalanced (if b then x else y)
    if-IsBalanced true x y g h = g
    if-IsBalanced false x y g h = h

    locking-IsBalanced :
        (acts : List Act) (os : List Object) (n : ℕ) (lock : Object) (a : Assessment)
        → nth n os ≡ some lock
        → Held os 0 acts
        → IsBalanced (take_lock w f p pins acts os n lock a canonical)
    unfolding take_lock
    locking-IsBalanced acts os n lock a l h =
        let under : Held os 1 (handled locked ∷ acts) = (h.0, (omega (arith, h.1.0), h.1.1)) in
        if-IsBalanced (not (f.locks acts)) _ _
          (aborted os _ (security lock.self.path "runtime_lock_failed")
            (critical_told 0 os _ _ _ acts h))
          (finish-IsBalanced os n lock _ l
            (ensure_objects-keeps w _ (Open-IsIndifferent q _) (handled locked ∷ acts) os under))

    take_lock-IsBalanced :
        (acts : List Act) (os : List Object) (n : ℕ) (lock : Object) (a : Assessment) (c : Class)
        → nth n os ≡ some lock
        → Held os 0 acts
        → IsBalanced (take_lock w f p pins acts os n lock a c)
    unfolding take_lock
    take_lock-IsBalanced acts os n lock a unsafe_state l h =
        aborted os _ (security_error lock.self.path a.reasons) (critical_told 0 os _ a _ acts h)
    take_lock-IsBalanced acts os n lock a canonical l h = locking-IsBalanced acts os n lock a l h
    take_lock-IsBalanced acts os n lock a repairable l h = locking-IsBalanced acts os n lock a l h

    create_lock-IsBalanced :
        (acts : List Act) (os : List Object)
        → Held os 0 acts
        → IsBalanced (create_lock w f p pins acts os)
    unfolding create_lock
    create_lock-IsBalanced acts os h =
        let lock = new_lock w f p os in
        let after : Held (os ++ lock ∷ []) 0 (handled (created p.runtime_lock) ∷ acts) =
          (omega (arith, h.0, held_path-append w f q (held q pins) os lock), h.1) in
        if-IsBalanced (not (f.descriptor_made acts)) _ _ (aborted os acts system_error h) (
          if-IsBalanced (not (f.creates acts)) _ _
            (aborted os _ (security p.root "runtime_lock_failed") (critical_told 0 os _ _ _ acts h))
            (take_lock-IsBalanced _ (os ++ lock ∷ []) (length os) lock _ _ (nth-last w f q os lock)
              after))

    find_lock-IsBalanced :
        (s : State) (o : Option (ℕ × Object))
        → s.lock ≡ o
        → IsTracked w f q (held q pins) s
        → IsBalanced (find_lock w f p pins s o)
    unfolding find_lock
    find_lock-IsBalanced s none e t = create_lock-IsBalanced s.acts s.objects t.open_handles
    find_lock-IsBalanced s (some (n, lock)) e t =
        take_lock-IsBalanced _ s.objects n lock _ _ (t.placed n lock e) t.open_handles

    scoped-IsBalanced :
        (v : Visited w f) → IsTracked w f q (held q pins) v.0 → IsBalanced (scoped w f p pins v)
    unfolding scoped
    scoped-IsBalanced (s, some e) t = aborted s.objects s.acts e t.open_handles
    scoped-IsBalanced (s, none) t = find_lock-IsBalanced s s.lock refl t

  refuse_ancestors-Open :
      (p : Paths) (acts : List Act) (e : Fault)
      → Open q 0 0 acts
      → Open q 0 0 (refuse_ancestors w f p acts e)
  refuse_ancestors-Open p acts (security path reason) h =
      tell-Open w q 0 0 _ _ _ _ _ _ (tell-Open w q 0 0 _ _ _ _ (reason ∷ []) acts h)
  refuse_ancestors-Open p acts context_done h = tell-Open w q 0 0 _ _ _ _ _ acts h
  refuse_ancestors-Open p acts panicked h = tell-Open w q 0 0 _ _ _ _ _ acts h
  refuse_ancestors-Open p acts system_error h = tell-Open w q 0 0 _ _ _ _ _ acts h

  pinned-IsBalanced : (p : Paths) (r : Pins w f) → PinsOpen w f q r → IsBalanced (pinned w f p r)
  unfolding pinned
  pinned-IsBalanced p (acts, (pins, none)) h = scoped-IsBalanced p pins _ (
      inspect_scope-IsTracked w f q (held q pins) p _ (targets p)
        (record { open_handles = (omega (arith, h.counts.0), h.counts.1); placed = λ i o e. cc }))
  pinned-IsBalanced p (acts, (pins, some e)) h =
      refuse_ancestors-Open p acts e (omega (arith, h.counts.0, h.dropped (λ k. cc)), h.counts.1)

  ensure_startup-IsBalanced : (p : Paths) → IsBalanced (ensure_startup w f p)
  unfolding ensure_startup
  ensure_startup-IsBalanced p = pinned-IsBalanced p _ (pin_ancestors-Open w f q p.root)

-- The acts up to the end of the run: of a failed start those that were made, of a successful start
-- with the call of what `ensureStartup` returned.
abbrev pub ended : (w : System) → Files → Outcome → List Act
ended w f (failed acts e) = acts
ended w f (started acts pins lock) = release w f pins lock acts

outcome_ended :
    (w : System) (f : Files) (q : String) (o : Outcome)
    → IsBalanced w f q o
    → Open q 0 0 (ended w f o)
outcome_ended w f q (failed acts e) h = h
outcome_ended w f q (started acts pins lock) h =
    cleanup_locked w f q (lock ∷ []) pins acts (omega (arith, h.0), h.1)

-- However the system answers, the startup gate leaves nothing open: when it fails, and when it
-- succeeds and its result has been called, each file was closed as often as it was opened or
-- created, the lock was released as often as it was taken, and all repairs were made while it was
-- held.
pub ensure_startup-Releases :
    (w : System) (f : Files) (p : Paths) (path : String)
    → let acts = ended w f (ensure_startup w f p) in
      (opens path acts ≡ closes path acts) × (locks acts ≡ unlocks acts) × IsUnderLock acts
ensure_startup-Releases w f p path =
    let h = outcome_ended w f path _ (ensure_startup-IsBalanced w f path p) in
    (omega (arith, h.0), omega (arith, h.1.0), h.1.1)
