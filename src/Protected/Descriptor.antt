-- ===== src/Protected/Descriptor.antt =====
-- Security descriptors: `classifyDescriptor` of internal/protectedpath/runtime_windows.go and
-- `validateDescriptor` of internal/protectedpath/path_windows.go. A descriptor is what the calls of
-- Windows read from it.
pub mod Entries
pub mod Canonical
use Prim.Native.Nat.{bit_and}
use thesis_agent.Base.{
  ℕ, ◌+◌, suc, Bool, true, false, not, ◌&&◌, ◌||◌, Option, none, some, List, [], ◌∷◌, ◌++◌, String,
  if◌then◌else◌, ltb, leb, ◌==◌, length,
}

-- The SIDs that `trustedSID` knows, and any other.
pub data Sid : Type 0 where
  local_system administrators : Sid
  foreign : String → Sid

abbrev pub trusted_sid : Sid → Bool
trusted_sid local_system = true
trusted_sid administrators = true
trusted_sid (foreign _) = false

abbrev pub is_system : Sid → Bool
is_system local_system = true
is_system _ = false

abbrev pub is_admins : Sid → Bool
is_admins administrators = true
is_admins _ = false

-- The header's flags: OBJECT_INHERIT_ACE, CONTAINER_INHERIT_ACE, INHERIT_ONLY_ACE, INHERITED_ACE,
-- and whether any other bit is set.
pub record Flags : Type 0 where
  pub object_inherit : Bool
  pub container_inherit : Bool
  pub inherit_only : Bool
  pub inherited : Bool
  pub more : Bool

-- An entry. `is_allow` says that its type is ACCESS_ALLOWED_ACE_TYPE, `size` is the header's size
-- and `sid_size` the length of its SID.
pub record Ace : Type 0 where
  pub is_allow : Bool
  pub size : ℕ
  pub flags : Flags
  pub mask : ℕ
  pub sid : Sid
  pub sid_valid : Bool
  pub sid_size : ℕ

-- `owner` is none where it cannot be read or is not valid, `dacl` where it cannot be read or is
-- null, and an entry where GetAce fails.
pub record Descriptor : Type 0 where
  pub valid : Bool
  pub owner : Option Sid
  pub control_readable : Bool
  pub dacl_present : Bool
  pub dacl_protected : Bool
  pub dacl : Option (List (Option Ace))

pub data Class : Type 0 where
  canonical repairable unsafe_state : Class

pub record Assessment : Type 0 where
  pub class : Class
  pub owner : Option Sid
  pub principal : Option Sid
  pub mask : ℕ
  pub reasons : List String

-- STANDARD_RIGHTS_REQUIRED | SYNCHRONIZE | 0x1ff.
abbrev pub full_control : ℕ
full_control = 0x1f01ff

abbrev pub unsafe_assessment : String → Assessment
unsafe_assessment reason = record {
  class = unsafe_state;
  owner = none;
  principal = none;
  mask = 0;
  reasons = reason ∷ [];
}

abbrev pub unreadable : Assessment
unreadable = unsafe_assessment "security_descriptor_unreadable"

-- `flags == want`, where the flag INHERITED_ACE was taken off.
abbrev pub wanted : Bool → Flags → Bool
wanted directory f =
    not f.inherit_only
    && not f.more
    && (if directory
        then f.object_inherit && f.container_inherit
        else not f.object_inherit && not f.container_inherit)

-- What the loop over the entries has found so far.
pub record Found : Type 0 where
  pub system : Bool
  pub admins : Bool
  pub flags_ok : Bool

pub data Scan : Type 0 where
  refused : Assessment → Scan
  found : Found → Scan

-- One entry that is well-formed and trusted.
unfoldable pub add_ace : Bool → Bool → Ace → Found → Found
add_ace directory root ace f =
    let good = wanted directory ace.flags in
    let counts = good && ace.mask == full_control in
    record {
      system = f.system || (counts && is_system ace.sid);
      admins = f.admins || (counts && is_admins ace.sid);
      flags_ok = f.flags_ok && good && not (root && ace.flags.inherited);
    }

-- The loop; `bad` is the assessment of a descriptor that cannot be read.
unfoldable pub scan : Bool → Bool → Assessment → List (Option Ace) → Found → Scan
scan directory root bad [] f = found f
scan directory root bad (none ∷ aces) f = refused bad
scan directory root bad (some ace ∷ aces) f =
    let rest = scan directory root bad aces (add_ace directory root ace f) in
    if not ace.is_allow || ltb ace.size 16
    then refused bad
    else if not ace.sid_valid || ltb ace.size (8 + ace.sid_size)
    then refused bad
    else if not (trusted_sid ace.sid)
    then refused
        (record bad { reasons = "untrusted_ace" ∷ []; principal = some ace.sid; mask = ace.mask })
    else rest

abbrev pub reason_if : Bool → String → List String
reason_if b reason = if b then reason ∷ [] else []

-- What the inspection says when the reasons are known.
abbrev pub verdict : Sid → List String → Assessment
verdict owner [] = record {
  class = canonical;
  owner = some owner;
  principal = none;
  mask = 0;
  reasons = "acl_canonical" ∷ [];
}
verdict owner (first ∷ more) = record {
  class = repairable;
  owner = some owner;
  principal = none;
  mask = 0;
  reasons = first ∷ more;
}

-- Behind the loop.
unfoldable pub conclude : Bool → Descriptor → Sid → ℕ → Found → Assessment
conclude root d owner count f = verdict owner (
    reason_if ((root && not d.dacl_protected) || not f.flags_ok) "inheritance_drift"
    ++ (reason_if (not f.system) "missing_system_full_control"
        ++ (reason_if (not f.admins) "missing_admin_full_control"
            ++ reason_if (not (count == 2)) "noncanonical_trusted_aces")))

unfoldable pub judge : Bool → Descriptor → Sid → ℕ → Scan → Assessment
judge root d owner count (refused a) = a
judge root d owner count (found f) = conclude root d owner count f

abbrev pub nothing_found : Found
nothing_found = record { system = false; admins = false; flags_ok = true }

-- With an owner that is trusted.
unfoldable pub read_dacl : Descriptor → Sid → Bool → Bool → Option (List (Option Ace)) → Assessment
read_dacl d owner directory root none = record unreadable { owner = some owner }
read_dacl d owner directory root (some aces) =
    if not d.control_readable || not d.dacl_present
    then record unreadable { owner = some owner }
    else judge root d owner (length aces)
        (scan directory root (record unreadable { owner = some owner }) aces nothing_found)

unfoldable pub read_owner : Descriptor → Bool → Bool → Option Sid → Assessment
read_owner d directory root none = unreadable
read_owner d directory root (some owner) =
    if not (trusted_sid owner)
    then record unreadable { owner = some owner; reasons = "untrusted_owner" ∷ [] }
    else read_dacl d owner directory root d.dacl

-- `classifyDescriptor`; an invalid descriptor stands for nil as well.
unfoldable pub classify_descriptor : Descriptor → Bool → Bool → Assessment
classify_descriptor d directory root =
    if not d.valid then unreadable else read_owner d directory root d.owner

-- The loop of `validateDescriptor`: the two flags at its end, or none for an error.
unfoldable pub grants : Bool → List (Option Ace) → Bool → Bool → Option (Bool × Bool)
grants directory [] system admins = some (system, admins)
grants directory (none ∷ aces) system admins = none
grants directory (some ace ∷ aces) system admins =
    let counts =
      not ace.flags.inherit_only
      && bit_and ace.mask full_control == full_control
      && not (directory && not (ace.flags.object_inherit && ace.flags.container_inherit)) in
    let rest =
      grants directory aces (system || (counts && is_system ace.sid))
        (admins || (counts && is_admins ace.sid)) in
    if not ace.is_allow || not (trusted_sid ace.sid) then none else rest

abbrev granted : Option (Bool × Bool) → Bool
granted none = false
granted (some (system, admins)) = system && admins

unfoldable pub validate_dacl : Bool → Option (List (Option Ace)) → Bool
validate_dacl directory none = false
validate_dacl directory (some aces) = granted (grants directory aces false false)

unfoldable pub validate_owner : Bool → Option Sid → Option (List (Option Ace)) → Bool
validate_owner directory none dacl = false
validate_owner directory (some owner) dacl =
    if not (trusted_sid owner) then false else validate_dacl directory dacl

-- `validateDescriptor`; true is no error.
unfoldable pub validate_descriptor : Descriptor → Bool → Bool
validate_descriptor d directory = validate_owner directory d.owner d.dacl
