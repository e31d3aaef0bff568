-- ===== src/Protected/Repair.antt =====
-- The repair of the agent's files at the start: `inspect`, `ensureObject` and `ensureObjects` of
-- internal/protectedpath/runtime_windows.go and `report` of runtime.go. What is done is a list of
-- acts, the newest first, and the system's answers may depend on all acts so far.
pub mod Guarded
pub mod Verified
pub mod Handles
use thesis_agent.Base.{
  ℕ, Bool, true, false, not, ◌&&◌, ◌||◌, Option, none, some, List, [], ◌∷◌, String, if◌then◌else◌,
  ◌==◌,
}
use thesis_agent.Protected.Descriptor.{
  Sid, Descriptor, Class, canonical, repairable, unsafe_state, Assessment, unsafe_assessment,
  classify_descriptor,
}

-- What `GetFileInformationByHandle` tells of an object.
pub record Info : Type 0 where
  pub reparse : Bool
  pub is_directory : Bool
  pub links : ℕ

-- What can be read through a handle; none where the call fails.
pub record Look : Type 0 where
  pub info : Option Info
  pub final_path : Option String
  pub descriptor : Option Descriptor

-- `pinnedObject`, without its handle and its parent.
pub record Pinned : Type 0 where
  pub path : String
  pub directory : Bool
  pub root : Bool
  pub scope : String

-- `pinnedObject` with its parent.
pub record Object : Type 0 where
  pub self : Pinned
  pub parent : Option Pinned

pub record Diagnostic : Type 0 where
  pub path : String
  pub classification : Class
  pub reason : String
  pub action : String
  pub owner : Option Sid
  pub principal : Option Sid
  pub mask : ℕ
  pub scope : String

-- What is done with handles, by their paths, and with the lock.
pub data Handling : Type 0 where
  opened created closed : String → Handling
  locked unlocked : Handling

pub data Act : Type 0 where
  handled : Handling → Act
  told : Diagnostic → Act
  inspected : String → Assessment → Act
  repaired : String → Act

abbrev pub is_repair : Act → Bool
is_repair (repaired _) = true
is_repair _ = false

-- The rest of the system. `sees` is what a handle shows, `repair_fails` whether `SetSecurityInfo`
-- reports an error, `cancelled` whether `ctx.Err()` is not nil, and `same` is strings.EqualFold.
pub record System : Type 0 where
  pub sees : List Act → String → Look
  pub repair_fails : List Act → String → Bool
  pub cancelled : List Act → Bool
  pub same : String → String → Bool

-- `panicked` stands for an index that is out of range, `system_error` for an error of the system
-- that is passed on.
pub data Fault : Type 0 where
  context_done : Fault
  security : String → String → Fault
  panicked system_error : Fault

abbrev pub security_error : String → List String → Fault
security_error path [] = panicked
security_error path (reason ∷ _) = security path reason

-- `report` with the scope that `scopedReporter` sets: a diagnostic for each reason.
unfoldable pub tell : String → String → Assessment → String → List String → List Act → List Act
tell scope path a action [] acts = acts
tell scope path a action (reason ∷ reasons) acts = tell scope path a action reasons (
    told (record {
      path = path;
      classification = a.class;
      reason = reason;
      action = action;
      owner = a.owner;
      principal = a.principal;
      mask = a.mask;
      scope = scope;
    })
    ∷ acts)

abbrev pub report : Pinned → Assessment → String → List Act → List Act
report o a action = tell o.scope o.path a action a.reasons

-- An assessment with a class and a reason, and nothing else.
abbrev pub assessed : Class → Option Sid → List String → Assessment
assessed class owner reasons = record {
  class = class;
  owner = owner;
  principal = none;
  mask = 0;
  reasons = reasons;
}

module _ (w : System) where
  abbrev pub resolves : String → Option String → Bool
  resolves path none = false
  resolves path (some name) = w.same name path

  abbrev pub inspect_info : Pinned → Option String → Option Info → Assessment
  inspect_info o final none = unsafe_assessment "security_descriptor_unreadable"
  inspect_info o final (some i) =
      if i.reparse
      then unsafe_assessment "reparse_point_detected"
      else if (if o.directory then not i.is_directory else i.is_directory)
      then unsafe_assessment "unexpected_object_type"
      else if not o.directory && not (i.links == 1)
      then unsafe_assessment "hard_link_detected"
      else if not (resolves o.path final)
      then unsafe_assessment "path_escape"
      else assessed canonical none []

  -- `inspectStructure`.
  unfoldable pub inspect_structure : Pinned → Look → Assessment
  inspect_structure o l = inspect_info o l.final_path l.info

  abbrev inspect_descriptor : Pinned → Option Descriptor → Assessment
  inspect_descriptor o none = unsafe_assessment "security_descriptor_unreadable"
  inspect_descriptor o (some d) = classify_descriptor d o.directory o.root

  unfoldable pub inspect_security : Pinned → Look → Assessment → Class → Assessment
  inspect_security o l a canonical = inspect_descriptor o l.descriptor
  inspect_security o l a _ = a

  -- `inspect`, of what the handle shows now.
  unfoldable pub inspect : List Act → Pinned → Assessment
  inspect acts o =
      let l = w.sees acts o.path in let a = inspect_structure o l in inspect_security o l a a.class

  -- `ensureObject` behind the repair, with the second inspection.
  unfoldable pub check_repair : List Act → Pinned → Assessment → Class → List Act × Option Fault
  check_repair acts o a canonical =
      (report o (assessed canonical a.owner ("repair_success" ∷ [])) "verified" acts, none)
  check_repair acts o a _ = (
    report o (unsafe_assessment "post_repair_validation_failed") "fail_closed"
        (report o a "fail_closed" acts),
    some (security o.path "post_repair_validation_failed"),
  )

  abbrev pub starting : List Act → Pinned → Assessment → List Act
  starting acts o a =
      report o (assessed repairable none ("repair_started" ∷ [])) "self_repair"
        (report o a "self_repair" acts)

  -- `ensureObject` behind its first inspection, which found `a`.
  unfoldable pub mend : List Act → Pinned → Assessment → Class → List Act × Option Fault
  mend acts o a unsafe_state =
      (report o a "fail_closed" acts, some (security_error o.path a.reasons))
  mend acts o a canonical = (acts, none)
  mend acts o a repairable =
      let before = starting acts o a in
      let after = repaired o.path ∷ before in
      let b = inspect after o in
      if w.repair_fails before o.path
      then (
        report o (unsafe_assessment "repair_failed") "fail_closed" after,
        some (security o.path "repair_failed"),
      )
      else check_repair (inspected o.path b ∷ after) o b b.class

  -- `ensureObject`.
  unfoldable pub ensure_object : List Act → Pinned → List Act × Option Fault
  ensure_object acts o =
      let a = inspect acts o in
      if w.cancelled acts
      then (acts, some context_done)
      else mend (inspected o.path a ∷ acts) o a a.class

  -- An object that is not safe ends the first loop of `ensureObjects`; `rest` is the loop's rest.
  unfoldable pub refuse_unsafe :
      List Act → Pinned → Assessment → Class → List Act × Option Fault → List Act × Option Fault
  refuse_unsafe acts o a unsafe_state rest =
      (report o a "fail_closed" acts, some (security_error o.path a.reasons))
  refuse_unsafe acts o a _ rest = rest

  -- The first loop of `ensureObjects`: nothing unsafe before the first change.
  unfoldable pub preflight : List Act → List Object → List Act × Option Fault
  preflight acts [] = (acts, none)
  preflight acts (o ∷ os) =
      let a = inspect acts o.self in
      let seen = inspected o.self.path a ∷ acts in
      let rest = preflight seen os in refuse_unsafe seen o.self a a.class rest

  -- An object whose parent `p` was found to be `a`.
  unfoldable pub check_parent :
      List Act → Pinned → Pinned → Assessment → Class → List Act × Option Fault
  check_parent acts o p a canonical = ensure_object acts o
  check_parent acts o p a _ = (
    report p (unsafe_assessment "parent_validation_failed") "fail_closed"
        (report p a "fail_closed" acts),
    some (security p.path "parent_validation_failed"),
  )

  -- One round of the second loop of `ensureObjects`.
  unfoldable pub ensure_below : List Act → Pinned → Option Pinned → List Act × Option Fault
  ensure_below acts o none = ensure_object acts o
  ensure_below acts o (some p) =
      let a = inspect acts p in check_parent (inspected p.path a ∷ acts) o p a a.class

  -- An error ends a loop.
  unfoldable pub unless_failed :
      List Act × Option Fault → List Act × Option Fault → List Act × Option Fault
  unless_failed (acts, some e) rest = (acts, some e)
  unless_failed (acts, none) rest = rest

  -- The second loop.
  unfoldable pub ensure_each : List Act → List Object → List Act × Option Fault
  ensure_each acts [] = (acts, none)
  ensure_each acts (o ∷ os) =
      let one = ensure_below acts o.self o.parent in
      let rest = ensure_each one.0 os in unless_failed one rest

  unfoldable pub refuse_changed :
      List Act → Pinned → Assessment → Class → List Act × Option Fault → List Act × Option Fault
  refuse_changed acts o a canonical rest = rest
  refuse_changed acts o a _ rest = (
    report o (unsafe_assessment "post_repair_validation_failed") "fail_closed"
        (report o a "fail_closed" acts),
    some (security o.path "post_repair_validation_failed"),
  )

  -- The last loop.
  unfoldable pub postflight : List Act → List Object → List Act × Option Fault
  postflight acts [] = (acts, none)
  postflight acts (o ∷ os) =
      let a = inspect acts o.self in
      let seen = inspected o.self.path a ∷ acts in
      let rest = postflight seen os in refuse_changed seen o.self a a.class rest

  -- `ensureObjects`.
  unfoldable pub ensure_objects : List Act → List Object → List Act × Option Fault
  ensure_objects acts os =
      let first = preflight acts os in
      let second = ensure_each first.0 os in
      unless_failed first (unless_failed second (postflight second.0 os))
