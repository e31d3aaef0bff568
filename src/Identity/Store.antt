-- ===== src/Identity/Store.antt =====
-- Loading, copying and enrolling an identity (service/agent_id.go, service/enrollment_state.go and
-- `EnsureEnrollment` of service/registration.go).
pub mod Copying
pub mod Enrolling
use Prim.Native.String.{len}
use thesis_agent.Base.{
  ℕ, zero, suc, ◌+◌, Bool, true, false, not, ◌&&◌, ◌||◌, Option, none, some, List, [], ◌∷◌, ◌++◌,
  String, if◌then◌else◌, ltb, leb, ◌==◌, str_eq, length, bytes_eq,
}
use thesis_agent.Identity.{
  Bytes, AgentConfig, EnrollmentState, Crypto, Result, ok, err, decode_identity, size_limit,
}

-- A path of the disk: nothing, something that is no regular file, or a regular file.
pub data Entry : Type 0 where
  absent irregular : Entry
  file : Bytes → Entry

-- `readIdentity`: the bytes and the configuration, or why not.
pub data ReadResult : Type 0 where
  read_ok : Bytes → AgentConfig → ReadResult
  not_exist rejected : ReadResult

pub data LoadError : Type 0 where
  identity_rejected identity_missing directory_invalid cannot_create : LoadError

pub data Loaded : Type 0 where
  loaded : AgentConfig → Loaded
  load_failed : LoadError → Loaded

pub data CopyResult : Type 0 where
  copied unchanged conflict source_error destination_error write_refused unverified : CopyResult

-- AgentConfig values are compared field by field.
abbrev pub config_eq : AgentConfig → AgentConfig → Bool
config_eq a b =
    str_eq a.agent_id b.agent_id
    && str_eq a.algorithm b.algorithm
    && str_eq a.public_key b.public_key
    && str_eq a.encrypted_private_key b.encrypted_private_key
    && str_eq a.private_key_protection b.private_key_protection

module _ (k : Crypto) where
  unfoldable pub read_identity : Entry → ReadResult
  read_identity absent = not_exist
  read_identity irregular = rejected
  read_identity (file text) =
      if ltb size_limit (length text)
      then rejected
      else elim (decode_identity k text) [ err e ↦ rejected | ok cfg ↦ read_ok text cfg ]

  -- `loadIdentity`. `fresh` is a new identity with its JSON, if one could be made; the exclusive
  -- write succeeds if `written`.
  unfoldable pub load_identity :
      Bool → Bool → Bool → Option (Bytes × AgentConfig) → Bool → Entry → Entry × Loaded
  load_identity allow_create machine directory_valid fresh written e = elim (read_identity e) [
    | read_ok text cfg ↦ (e, loaded cfg)
    | rejected ↦ (e, load_failed identity_rejected)
    | not_exist ↦
        if not allow_create
        then (e, load_failed identity_missing)
        else if machine && not directory_valid
        then (e, load_failed directory_invalid)
        else elim fresh [
          | none ↦ (e, load_failed cannot_create)
          | some (text, cfg) ↦
              if written then (file text, loaded cfg) else (e, load_failed cannot_create)
        ]
  ]

  -- The reread of `MigrateIdentity`, of what it finds.
  unfoldable pub check_copy : Bytes → ReadResult → CopyResult
  check_copy text (read_ok check _) = if bytes_eq check text then copied else unverified
  check_copy text _ = unverified

  -- Behind the reads of `MigrateIdentity`. `written` is the answer of the exclusive write of the
  -- bytes, and `landed` what lies at the destination behind it: other bytes or nothing, too.
  unfoldable pub copy_identity :
      Bool → (Bytes → Entry) → ReadResult → ReadResult → Entry → Entry × CopyResult
  unfolding check_copy
  copy_identity written landed (read_ok text src) (read_ok _ dst) e =
      if config_eq src dst then (e, unchanged) else (e, conflict)
  copy_identity written landed (read_ok text src) rejected e = (e, destination_error)
  copy_identity written landed (read_ok text src) not_exist e =
      if not written
      then (landed text, write_refused)
      else (landed text, check_copy text (read_identity (landed text)))
  copy_identity written landed _ _ e = (e, source_error)

  -- `MigrateIdentity` on the destination's entry.
  unfoldable pub migrate_identity : Bool → (Bytes → Entry) → Entry → Entry → Entry × CopyResult
  unfolding copy_identity
  migrate_identity written landed source destination =
      copy_identity written landed (read_identity source) (read_identity destination) destination

  -- `enrollmentFor`; `trimmed` is the API's URL without its trailing slashes.
  unfoldable pub enrollment_for : AgentConfig → String → Bool → EnrollmentState
  enrollment_for cfg trimmed verified =
      let public : Bytes = elim (k.base64_decode cfg.public_key) [ none ↦ [] | some p ↦ p ] in
      record {
        agent_id = cfg.agent_id;
        public_key_sha256 = k.sha256_hex public;
        api = trimmed;
        verified = verified;
      }

  abbrev pub bool_eq : Bool → Bool → Bool
  bool_eq true b = b
  bool_eq false b = not b

  abbrev pub state_eq : EnrollmentState → EnrollmentState → Bool
  state_eq a b =
      str_eq a.agent_id b.agent_id
      && str_eq a.public_key_sha256 b.public_key_sha256
      && str_eq a.api b.api
      && bool_eq a.verified b.verified

  -- `ReadEnrollment`: `none` is an error. A file that cannot be read is `irregular`.
  unfoldable pub read_enrollment : Entry → AgentConfig → String → Option Bool
  unfolding enrollment_for
  read_enrollment absent cfg api = some false
  read_enrollment irregular cfg api = none
  read_enrollment (file text) cfg api =
      if ltb size_limit (length text) then none else elim (k.parse_enrollment text) [
        | none ↦ none
        | some state ↦ some (state_eq state (enrollment_for cfg api true))
      ]

-- What `agentExists` answers: the two statuses that it returns, a temporary or a lasting error.
pub data Exists : Type 0 where
  enrolled not_found temporary lasting : Exists

-- The answer of `agentExists` to a response, or to none.
unfoldable pub agent_exists : Option ℕ → Bool → Exists
agent_exists none cancelled = if cancelled then lasting else temporary
agent_exists (some status) cancelled =
    if status == 204
    then enrolled
    else if status == 404
    then not_found
    else if status == 408 || status == 429 || leb 500 status
    then temporary
    else lasting

-- The answers to one round of `EnsureEnrollment`. `registers` is `registerAgent`, the token's read
-- included.
pub record Round : Type 0 where
  pub cancelled : Bool
  pub exists : Exists
  pub cancelled_waiting : Bool
  pub marker_cleared : Bool
  pub registers : Bool
  pub marker_set : Bool

pub data Enrollment : Type 0 where
  verified_enrollment : Enrollment
  enrollment_failed not_enrolled out_of_rounds : Enrollment

-- The marker file: what was last written to it, if anything was.
pub record Marker : Type 0 where
  pub marker : Option Bool
  pub registrations : ℕ
  pub waits : ℕ

-- The end of a round, where the agent is known to the server.
unfoldable pub confirm : Round → Marker → Enrollment × Marker
confirm r m =
    if r.marker_set
    then (verified_enrollment, record m { marker = some true })
    else (enrollment_failed, m)

-- What a round does with a status of 404.
unfoldable pub enroll : Bool → Round → Marker → Enrollment × Marker
unfolding confirm
enroll interactive r m =
    if not r.marker_cleared
    then (enrollment_failed, m)
    else (let cleared = record m { marker = some false } in
        if not interactive
        then (not_enrolled, cleared)
        else if not r.registers
        then (enrollment_failed, cleared)
        else confirm r (record cleared { registrations = m.registrations + 1 }))

-- The rounds of `EnsureEnrollment`, with fuel.
unfoldable pub ensure_enrollment : ℕ → Bool → (ℕ → Round) → ℕ → Marker → Enrollment × Marker
unfolding enroll confirm
ensure_enrollment zero interactive env n m = (out_of_rounds, m)
ensure_enrollment (suc fuel) interactive env n m =
    let r = env n in
    let again = ensure_enrollment fuel interactive env (n + 1) (record m { waits = m.waits + 1 }) in
    if r.cancelled then (enrollment_failed, m) else elim r.exists [
      | lasting ↦ (enrollment_failed, m)
      | temporary ↦ if interactive || r.cancelled_waiting then (enrollment_failed, m) else again
      | not_found ↦ enroll interactive r m
      | enrolled ↦ confirm r m
    ]
