-- ===== src/Protected/Startup.antt =====
-- The security gate of the service's start: `inspectStartupScope` of
-- internal/protectedpath/runtime.go, and `pinAncestors` and `ensureStartup` of runtime_windows.go.
-- The ancestors of the root are the repeated filepath.Dir of it, the outermost first.
pub mod Balance
pub mod Visits
pub mod Released
use thesis_agent.Base.{
  ℕ, zero, suc, Bool, true, false, not, ◌&&◌, ◌||◌, Option, none, some, List, [], ◌∷◌, ◌++◌, String,
  if◌then◌else◌, str_eq, length, map,
}
use thesis_agent.Base.Dict.{Dict, lookup, insert}
use thesis_agent.Protected.Descriptor.{
  Class, canonical, repairable, unsafe_state, Assessment, unsafe_assessment,
}
use thesis_agent.Protected.Repair.{
  Info, Look, Pinned, Object, Act, handled, Handling, opened, created, closed, locked, unlocked,
  inspected, System, Fault, context_done, security, system_error, security_error, tell, report,
  inspect, resolves, ensure_objects,
}

-- `apppaths.Paths`, with the results of its methods `RuntimeLock` and `IdentityBackup`, and
-- filepath.Dir of `Log` and `Downloads`.
pub record Paths : Type 0 where
  pub root : String
  pub identity : String
  pub enrollment : String
  pub config : String
  pub log_directory : String
  pub downloads : String
  pub downloads_directory : String
  pub runtime_lock : String
  pub identity_backup : String

-- `startupTarget`.
pub record Target : Type 0 where
  pub path : String
  pub directory : Bool
  pub required : Bool
  pub scope : String

abbrev target : String → Bool → Bool → String → Target
target path directory required scope = record {
  path = path;
  directory = directory;
  required = required;
  scope = scope;
}

unfoldable pub targets : Paths → List Target
targets p =
    target p.root true true "critical"
    ∷ target p.identity false false "critical"
    ∷ target p.enrollment false false "critical"
    ∷ target p.config false false "critical"
    ∷ target p.runtime_lock false false "critical"
    ∷ target p.identity_backup false false "critical"
    ∷ target p.log_directory true false "container"
    ∷ target p.downloads_directory true false "container"
    ∷ target p.downloads true false "container"
    ∷ []

-- What `openPinned` answers; `missing` is ERROR_FILE_NOT_FOUND or ERROR_PATH_NOT_FOUND.
pub data Opening : Type 0 where
  handle missing refused : Opening

-- The files, and the calls of Go's libraries. `escapes root path` says that filepath.Rel fails or
-- leads out of the root, `lower` is strings.ToLower, `dir` filepath.Dir, and `rooted path` that the
-- path is absolute and does not begin with two backslashes.
pub record Files : Type 0 where
  pub opens : List Act → String → Opening
  pub creates : List Act → Bool
  pub descriptor_made : List Act → Bool
  pub locks : List Act → Bool
  pub escapes : String → String → Bool
  pub rooted : String → Bool
  pub lower : String → String
  pub dir : String → String
  pub ancestors : String → List String

-- Closing from the first to the last, and from the last to the first.
unfoldable pub close_all : List String → List Act → List Act
close_all [] acts = acts
close_all (path ∷ paths) acts = close_all paths (handled (closed path) ∷ acts)

unfoldable pub close_back : List String → List Act → List Act
close_back [] acts = acts
close_back (path ∷ paths) acts = handled (closed path) ∷ close_back paths acts

abbrev pub path_of : Object → String
path_of o = o.self.path

-- Closing all but the object at a position.
unfoldable pub close_others : ℕ → List Object → List Act → List Act
close_others n [] acts = acts
close_others zero (o ∷ os) acts = close_all (map path_of os) acts
close_others (suc n) (o ∷ os) acts = close_others n os (handled (closed o.self.path) ∷ acts)

-- What `ensureStartup` knows while it visits its targets: the objects in the order of their
-- opening, `byPath`, and the lock with its position among the objects.
pub record State : Type 0 where
  pub acts : List Act
  pub objects : List Object
  pub by_path : Dict Pinned
  pub lock : Option (ℕ × Object)

-- `failed` has closed everything; `started` holds the ancestors and the lock.
pub data Outcome : Type 0 where
  failed : List Act → Fault → Outcome
  started : List Act → List String → Object → Outcome

module _ (w : System) (f : Files) where
  -- The checks of one ancestor behind its opening: the reason against it.
  unfoldable pub ancestor_reason : String → Option String → Option Info → Option String
  ancestor_reason path final none = some "security_descriptor_unreadable"
  ancestor_reason path final (some i) =
      if i.reparse
      then some "reparse_point_detected"
      else if not i.is_directory
      then some "unexpected_object_type"
      else if not (resolves w path final)
      then some "path_escape"
      else none

  abbrev pub Pins : Type 0
  Pins = List Act × (List String × Option Fault)

  abbrev pub unpin : List Act → List String → String → String → Pins
  unpin acts pins path reason = (close_all pins acts, ([], some (security path reason)))

  -- The end of a round: `rest` is the loop's rest.
  unfoldable pub pin_checked : List Act → List String → String → Option String → Pins → Pins
  pin_checked acts pins path none rest = rest
  pin_checked acts pins path (some reason) rest = unpin acts pins path reason

  abbrev pub is_handle : Opening → Bool
  is_handle handle = true
  is_handle _ = false

  -- The loop of `pinAncestors`.
  unfoldable pub pin_all : List Act → List String → List String → Pins
  pin_all acts pins [] = (acts, (pins, none))
  pin_all acts pins (path ∷ paths) =
      let after = handled (opened path) ∷ acts in
      let pins' = pins ++ path ∷ [] in
      let rest = pin_all after pins' paths in
      let look = w.sees after path in
      if not (is_handle (f.opens acts path))
      then unpin acts pins path "security_descriptor_unreadable"
      else pin_checked after pins' path (ancestor_reason path look.final_path look.info) rest

  -- `pinAncestors`.
  unfoldable pub pin_ancestors : List Act → String → Pins
  pin_ancestors acts root =
      if not (f.rooted root)
      then (acts, ([], some (security root "path_escape")))
      else pin_all acts [] (f.ancestors root)

  abbrev pub refuse_target : State → Target → String → State × Option Fault
  refuse_target s t reason = (
    record s {
      acts = tell t.scope t.path (unsafe_assessment reason) "fail_closed" (reason ∷ []) s.acts;
    },
    some (security t.path reason),
  )

  abbrev pub object_of : State → Target → Object
  object_of s t = record {
    self = record { path = t.path; directory = t.directory; root = t.required; scope = t.scope };
    parent = if t.required then none else lookup (f.lower (f.dir t.path)) s.by_path;
  }

  -- The end of a visit, with the object opened and inspected.
  unfoldable pub admit : Paths → State → Object → Assessment → Class → State × Option Fault
  admit p s o a unsafe_state = (
    record s { acts = report o.self a "fail_closed" s.acts; objects = s.objects ++ o ∷ [] },
    some (security_error o.self.path a.reasons),
  )
  admit p s o a _ = (
    record {
      acts = report o.self a "inspect" s.acts;
      objects = s.objects ++ o ∷ [];
      by_path = insert (f.lower o.self.path) o.self s.by_path;
      lock = if w.same o.self.path p.runtime_lock then some (length s.objects, o) else s.lock;
    },
    none,
  )

  unfoldable pub visit_opened : Paths → State → Target → Opening → State × Option Fault
  visit_opened p s t missing =
      if not t.required then (s, none) else refuse_target s t "security_descriptor_unreadable"
  visit_opened p s t refused = refuse_target s t "security_descriptor_unreadable"
  visit_opened p s t handle =
      let o = object_of s t in
      let after = handled (opened t.path) ∷ s.acts in
      let a = inspect w after o.self in
      admit p (record s { acts = inspected t.path a ∷ after }) o a a.class

  -- The visitor that `ensureStartup` passes to `inspectStartupScope`.
  unfoldable pub visit : Paths → State → Target → State × Option Fault
  visit p s t =
      if f.escapes p.root t.path
      then refuse_target s t "path_escape"
      else visit_opened p s t (f.opens s.acts t.path)

  abbrev pub Visited : Type 0
  Visited = State × Option Fault

  unfoldable pub unless_stopped : Visited → Visited → Visited
  unless_stopped (s, some e) rest = (s, some e)
  unless_stopped (s, none) rest = rest

  -- `inspectStartupScope` on the targets that are left.
  unfoldable pub inspect_scope : Paths → State → List Target → Visited
  inspect_scope p s [] = (s, none)
  inspect_scope p s (t ∷ ts) =
      let one = visit p s t in
      let rest = inspect_scope p one.0 ts in
      if w.cancelled s.acts then (s, some context_done) else unless_stopped one rest

  -- `report` without a scope: the reporter of `ensureStartup` fills in "critical".
  abbrev pub critical : String → Assessment → String → List Act → List Act
  critical path a action = tell "critical" path a action a.reasons

  -- `cleanup`.
  unfoldable pub cleanup : Bool → List Object → List String → List Act → List Act
  cleanup has_lock objects pins acts =
      close_back pins
        (close_back (map path_of objects) (if has_lock then handled unlocked ∷ acts else acts))

  -- The deferred call, for a result that is not nil.
  abbrev pub abort : Paths → Bool → List Object → List String → List Act → Fault → Outcome
  abort p has_lock objects pins acts e =
      failed
        (cleanup has_lock objects pins
          (critical p.root (unsafe_assessment "unsafe_acl_fail_closed") "fail_closed" acts))
        e

  abbrev inspect_first : Paths → List Object → List Act → List Act
  inspect_first p [] acts = acts
  inspect_first p (o ∷ _) acts =
      let a = inspect w acts o.self in critical p.root a "verified" (inspected o.self.path a ∷ acts)

  -- `ensureStartup` behind the repair; the lock is at position `n`.
  unfoldable pub finish :
      Paths → List String → List Object → ℕ → Object → List Act × Option Fault → Outcome
  finish p pins objects n lock (acts, some e) = abort p true objects pins acts e
  finish p pins objects n lock (acts, none) =
      started (close_others n objects (inspect_first p objects acts)) pins lock

  -- `ensureStartup` behind the inspection of the lock, which found `a`.
  unfoldable pub take_lock :
      Paths → List String → List Act → List Object → ℕ → Object → Assessment → Class → Outcome
  take_lock p pins acts objects n lock a unsafe_state =
      abort p false objects pins (critical lock.self.path a "fail_closed" acts)
        (security_error lock.self.path a.reasons)
  take_lock p pins acts objects n lock a _ =
      let under = handled locked ∷ acts in
      let run = ensure_objects w under objects in
      if not (f.locks acts)
      then abort p false objects pins
          (critical lock.self.path (unsafe_assessment "runtime_lock_failed") "fail_closed" acts)
          (security lock.self.path "runtime_lock_failed")
      else finish p pins objects n lock run

  abbrev pub inspect_lock : Paths → List String → List Act → List Object → ℕ → Object → Outcome
  inspect_lock p pins acts objects n lock =
      let a = inspect w acts lock.self in
      take_lock p pins (inspected lock.self.path a ∷ acts) objects n lock a a.class

  abbrev first_object : List Object → Option Pinned
  first_object [] = none
  first_object (o ∷ _) = some o.self

  abbrev pub new_lock : Paths → List Object → Object
  new_lock p objects = record {
    self = record { path = p.runtime_lock; directory = false; root = false; scope = "critical" };
    parent = first_object objects;
  }

  -- The lock's file is created where no target was it.
  unfoldable pub create_lock : Paths → List String → List Act → List Object → Outcome
  create_lock p pins acts objects =
      let lock = new_lock p objects in
      let after = handled (created p.runtime_lock) ∷ acts in
      if not (f.descriptor_made acts)
      then abort p false objects pins acts system_error
      else if not (f.creates acts)
      then abort p false objects pins
          (critical p.root (unsafe_assessment "runtime_lock_failed") "fail_closed" acts)
          (security p.root "runtime_lock_failed")
      else inspect_lock p pins after (objects ++ lock ∷ []) (length objects) lock

  -- `lock == nil` or not.
  unfoldable pub find_lock : Paths → List String → State → Option (ℕ × Object) → Outcome
  find_lock p pins s none = create_lock p pins s.acts s.objects
  find_lock p pins s (some (n, lock)) = inspect_lock p pins s.acts s.objects n lock

  -- `ensureStartup` behind the visits.
  unfoldable pub scoped : Paths → List String → Visited → Outcome
  scoped p pins (s, some e) = abort p false s.objects pins s.acts e
  scoped p pins (s, none) = find_lock p pins s s.lock

  abbrev pub start_state : List Act → State
  start_state acts = record { acts = acts; objects = []; by_path = []; lock = none }

  abbrev pub refuse_ancestors : Paths → List Act → Fault → List Act
  refuse_ancestors p acts (security path reason) =
      critical p.root (unsafe_assessment "unsafe_acl_fail_closed") "fail_closed"
        (critical path (unsafe_assessment reason) "fail_closed" acts)
  refuse_ancestors p acts _ =
      critical p.root (unsafe_assessment "unsafe_acl_fail_closed") "fail_closed" acts

  unfoldable pub pinned : Paths → Pins → Outcome
  pinned p (acts, (_, some e)) = failed (refuse_ancestors p acts e) e
  pinned p (acts, (pins, none)) = scoped p pins (inspect_scope p (start_state acts) (targets p))

  -- `ensureStartup`.
  unfoldable pub ensure_startup : Paths → Outcome
  ensure_startup p = pinned p (pin_ancestors [] p.root)

  -- What `ensureStartup` returns on success, called at the end of the run: `cleanup` with the lock
  -- as its only object.
  abbrev pub release : List String → Object → List Act → List Act
  release pins lock acts = cleanup true (lock ∷ []) pins acts
