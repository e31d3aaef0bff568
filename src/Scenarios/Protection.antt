-- ===== src/Scenarios/Protection.antt =====
-- The startup gate on a root whose list of access rights has drifted.
use thesis_agent.Protected.Repair.{tell}
use thesis_agent.Protected.Repair.{refuse_changed}
use thesis_agent.Protected.Repair.{postflight}
use thesis_agent.Protected.Repair.{check_repair}
use thesis_agent.Protected.Repair.{mend}
use thesis_agent.Protected.Repair.{ensure_object}
use thesis_agent.Protected.Repair.{ensure_below}
use thesis_agent.Protected.Repair.{ensure_each}
use thesis_agent.Protected.Descriptor.{add_ace}
use thesis_agent.Protected.Descriptor.{conclude}
use thesis_agent.Protected.Descriptor.{scan}
use thesis_agent.Protected.Descriptor.{judge}
use thesis_agent.Protected.Descriptor.{read_dacl}
use thesis_agent.Protected.Repair.{unless_failed}
use thesis_agent.Protected.Descriptor.{read_owner}
use thesis_agent.Protected.Repair.{inspect_structure}
use thesis_agent.Protected.Repair.{inspect_security}
use thesis_agent.Protected.Repair.{inspect}
use thesis_agent.Protected.Repair.{refuse_unsafe}
use thesis_agent.Base.{
  ◌≡◌, ◌↔◌, refl, true, false, Option, none, some, [], ◌∷◌, String, ℕ, any, All, if◌then◌else◌,
  str_eq,
}
use thesis_agent.Protected.Descriptor.{
  Sid, local_system, administrators, Ace, Descriptor, canonical, full_control, classify_descriptor,
}
use thesis_agent.Protected.Descriptor.Entries.{IsProfile}
use thesis_agent.Protected.Descriptor.Canonical.{classify_descriptor-canonical_iff}
use thesis_agent.Protected.Repair.{is_repair, Look, Object, System, preflight, ensure_objects}
use thesis_agent.Protected.Repair.Guarded.{IsGuarded, ensure_objects-IsGuarded}
use thesis_agent.Protected.Repair.Verified.{IsVerified, ensure_objects-IsVerified}
use thesis_agent.Protected.Startup.{Paths, handle, Files, ensure_startup}
use thesis_agent.Protected.Startup.Balance.{opens, closes, locks, unlocks, IsUnderLock}
use thesis_agent.Protected.Startup.Released.{ended, ensure_startup-Releases}

abbrev allowed : Sid → ℕ → Option Ace
allowed who mask = some (record {
  is_allow = true;
  size = 24;
  flags = record {
    object_inherit = true;
    container_inherit = true;
    inherit_only = false;
    inherited = false;
    more = false;
  };
  mask = mask;
  sid = who;
  sid_valid = true;
  sid_size = 12;
})

abbrev with_mask : ℕ → Descriptor
with_mask mask = record {
  valid = true;
  owner = some administrators;
  control_readable = true;
  dacl_present = true;
  dacl_protected = true;
  dacl = some (allowed administrators full_control ∷ allowed local_system mask ∷ []);
}

classify_descriptor-canonical_iff_example :
    (classify_descriptor (with_mask full_control) true true).class ≡ canonical
    ↔ IsProfile true true (with_mask full_control)
classify_descriptor-canonical_iff_example =
    classify_descriptor-canonical_iff (with_mask full_control) true true

abbrev look_at : Descriptor → String → Look
look_at d path = record {
  info = some (record { reparse = false; is_directory = true; links = 1 });
  final_path = some path;
  descriptor = some d;
}

-- Before the repair, SYSTEM has fewer rights.
abbrev drifted : System
drifted = record {
  sees = λ acts path. look_at (with_mask (if any is_repair acts then full_control else 1)) path;
  repair_fails = λ acts path. false;
  cancelled = λ acts. false;
  same = str_eq;
}

abbrev root : Object
root = record {
  self = record { path = "C:\\agent"; directory = true; root = true; scope = "critical" };
  parent = none;
}

mended : (ensure_objects drifted [] (root ∷ [])).1 ≡ none
unfolding ensure_objects unless_failed preflight refuse_unsafe inspect inspect_security
    inspect_structure classify_descriptor read_owner read_dacl judge scan conclude add_ace
    ensure_each ensure_below ensure_object mend check_repair postflight refuse_changed tell
mended = refl

ensure_objects-IsVerified_example :
    All (λ o. IsVerified drifted (ensure_objects drifted [] (root ∷ [])).0 o.self) (root ∷ [])
ensure_objects-IsVerified_example = ensure_objects-IsVerified drifted [] (root ∷ []) mended

ensure_objects-IsGuarded_example : IsGuarded (ensure_objects drifted [] (root ∷ [])).0
ensure_objects-IsGuarded_example = ensure_objects-IsGuarded drifted [] (root ∷ []) tt

abbrev files : Files
files = record {
  opens = λ acts path. handle;
  creates = λ acts. true;
  descriptor_made = λ acts. true;
  locks = λ acts. true;
  escapes = λ root path. false;
  rooted = λ path. true;
  lower = λ s. s;
  dir = λ s. "C:\\agent";
  ancestors = λ root. "C:\\" ∷ [];
}

abbrev paths : Paths
paths = record {
  root = "C:\\agent";
  identity = "C:\\agent\\agent_config.json";
  enrollment = "C:\\agent\\enrollment_state.json";
  config = "C:\\agent\\.env";
  log_directory = "C:\\agent\\logs";
  downloads = "C:\\agent\\data\\downloads";
  downloads_directory = "C:\\agent\\data";
  runtime_lock = "C:\\agent\\.runtime.lock";
  identity_backup = "C:\\agent\\agent_config.json.dpapi-user-v1.bak";
}

ensure_startup-Releases_example :
    let acts = ended drifted files (ensure_startup drifted files paths) in
    (opens "C:\\agent" acts ≡ closes "C:\\agent" acts)
    × (locks acts ≡ unlocks acts)
    × IsUnderLock acts
ensure_startup-Releases_example = ensure_startup-Releases drifted files paths "C:\\agent"
