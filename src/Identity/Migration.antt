-- ===== src/Identity/Migration.antt =====
-- The migration of the private key to machine protection (service/private_key_migration.go), over a
-- disk with faults: any read may fail, and a write may fail with or without its effect. Other
-- programs may change the disk before the read of the backup, before its check and before the last
-- look; the runtime lock keeps the agent's own out.
pub mod Safety
pub mod Unchanged
pub mod Outcomes
use thesis_agent.Base.{
  ℕ, Bool, true, false, not, ◌&&◌, ◌||◌, Option, none, some, List, [], ◌∷◌, String, if◌then◌else◌,
  ltb, str_eq, length, bytes_eq,
}
use thesis_agent.Identity.{
  Bytes, AgentConfig, EnrollmentState, Crypto, Error, Result, ok, err, machine_protection,
  size_limit, decode_identity, private_key_from_identity,
}

-- The identity, its backup and the enrollment state; `none` is a missing file.
pub record Disk : Type 0 where
  pub identity : Option Bytes
  pub backup : Option Bytes
  pub enrollment : Option Bytes

pub data Read : Type 0 where
  content : Bytes → Read
  missing failed : Read

-- A read that fails, or finds what is there.
abbrev pub read : Bool → Option Bytes → Read
read true file = failed
read false none = missing
read false (some bytes) = content bytes

-- A write: does it take effect, and does it report an error?
pub record Write : Type 0 where
  pub applied : Bool
  pub reports_error : Bool

-- A write without an error has taken effect.
abbrev pub took_effect : Write → Bool
took_effect w = w.applied || not w.reports_error

-- The answers of the disk, in the order of the calls, and what other programs do to it: before the
-- backup is read (`others_early`), before it is checked (`others_between`), and before the last look
-- at the identity and the enrollment state (`others`).
pub record Faults : Type 0 where
  pub read_identity : Bool
  pub read_enrollment : Bool
  pub others_early : Disk → Disk
  pub read_backup : Bool
  pub write_backup : Write
  pub others_between : Disk → Disk
  pub check_backup : Bool
  pub others : Disk → Disk
  pub reread_identity : Bool
  pub reread_enrollment : Bool
  pub write_identity : Write
  pub read_published : Bool
  pub rollback_first : Bool
  pub rollback_write : Write
  pub rollback_check : Bool

pub data Failure : Type 0 where
  cannot_read_identity cannot_read_enrollment malformed_enrollment binding_mismatch : Failure
  cannot_create_backup backup_differs backup_unverified protection_failed empty_ciphertext : Failure
  cannot_prepare candidate_unverified identity_changed enrollment_changed : Failure
  unchanged_verified restored_verified rollback_unverified : Failure
  invalid_identity : Error → Failure

pub data Outcome : Type 0 where
  already_migrated migrated : Outcome
  failure : Failure → Outcome

abbrev pub is_content : Read → Bytes → Bool
is_content (content bytes) expected = bytes_eq bytes expected
is_content _ expected = false

abbrev pub same_read : Read → Option Bytes → Bool
same_read missing none = true
same_read (content bytes) (some expected) = bytes_eq bytes expected
same_read _ _ = false

module _ (f : Faults) where
  -- `rollbackPrivateKey`.
  unfoldable pub rollback : Bytes → Disk → Outcome × Disk
  rollback original d =
      if is_content (read f.rollback_first d.identity) original
      then (failure unchanged_verified, d)
      else (let d' = record d {
        identity = if took_effect f.rollback_write then some original else d.identity;
      } in
          if is_content (read f.rollback_check d'.identity) original
          then (failure restored_verified, d')
          else (failure rollback_unverified, d'))

module _ (k : Crypto) where
  -- `validateEnrollmentKeyBinding`; `none` is no error.
  unfoldable pub enrollment_binding : Bytes → AgentConfig → Option Failure
  enrollment_binding text cfg =
      if ltb size_limit (length text)
      then some malformed_enrollment
      else elim (k.parse_enrollment text) [
        | none ↦ some malformed_enrollment
        | some state ↦
            let public : Bytes = elim (k.base64_decode cfg.public_key) [ none ↦ [] | some p ↦ p ] in
            if not (str_eq state.agent_id cfg.agent_id)
              || not (str_eq state.public_key_sha256 (k.sha256_hex public))
            then some binding_mismatch
            else none
      ]

  -- `verifyMigratedIdentity`; `true` is no error.
  unfoldable pub verify_migrated : Bytes → AgentConfig → Bytes → Bool
  verify_migrated text original key =
      if ltb size_limit (length text) then false else elim (decode_identity k text) [
        | err e ↦ false
        | ok cfg ↦
            if not (str_eq cfg.agent_id original.agent_id)
              || not (str_eq cfg.algorithm original.algorithm)
              || not (str_eq cfg.public_key original.public_key)
            then false
            else elim (private_key_from_identity k text true k.unprotect) [
              | err e ↦ false
              | ok check ↦ bytes_eq key check
            ]
      ]

  module _ (f : Faults) where
    -- From the replacement of the identity on.
    unfoldable pub replace : Bytes → Bytes → AgentConfig → Bytes → Disk → Outcome × Disk
    unfolding rollback
    replace original candidate cfg key d =
        let d' = record d {
          identity = if took_effect f.write_identity then some candidate else d.identity;
        } in
        if f.write_identity.reports_error
        then rollback f original d'
        else if not (is_content (read f.read_published d'.identity) candidate)
        then rollback f original d'
        else if not (verify_migrated candidate cfg key)
        then rollback f original d'
        else (migrated, d')

    -- The verification of the candidate, and the last look at the disk.
    unfoldable pub commit :
        Bytes → Bytes → AgentConfig → Bytes → Option Bytes → Disk → Outcome × Disk
    commit original candidate cfg key enrollment d =
        if not (verify_migrated candidate cfg key)
        then (failure candidate_unverified, d)
        else (let now = f.others d in
            if not (is_content (read f.reread_identity now.identity) original)
            then (failure identity_changed, now)
            else if not (same_read (read f.reread_enrollment now.enrollment) enrollment)
            then (failure enrollment_changed, now)
            else replace original candidate cfg key now)

    -- What the new JSON leads to.
    unfoldable pub encode :
        Bytes → AgentConfig → Bytes → Option Bytes → Option Bytes → Disk → Outcome × Disk
    encode original cfg key enrollment none d = (failure cannot_prepare, d)
    encode original cfg key enrollment (some candidate) d =
        commit original candidate cfg key enrollment d

    -- What the machine-protected key leads to.
    unfoldable pub encrypt :
        Bytes → AgentConfig → Bytes → Option Bytes → Option Bytes → Disk → Outcome × Disk
    encrypt original cfg key enrollment none d = (failure protection_failed, d)
    encrypt original cfg key enrollment (some []) d = (failure empty_ciphertext, d)
    encrypt original cfg key enrollment (some (byte ∷ bytes)) d =
        encode original cfg key enrollment
          (k.replace_fields original (k.base64_encode (byte ∷ bytes)) machine_protection) d

    -- The check of the backup behind its creation.
    unfoldable pub check_backup : Bytes → AgentConfig → Bytes → Option Bytes → Disk → Outcome × Disk
    check_backup original cfg key enrollment d =
        let now = f.others_between d in
        if is_content (read f.check_backup now.backup) original
        then encrypt original cfg key enrollment (k.protect key) now
        else (failure backup_unverified, now)

    -- The backup: created exclusively, or found with the same bytes. The read is the argument.
    unfoldable pub back_up :
        Bytes → AgentConfig → Bytes → Option Bytes → Read → Disk → Outcome × Disk
    back_up original cfg key enrollment missing d =
        let d' = record d {
          backup = if took_effect f.write_backup then some original else d.backup;
        } in
        if f.write_backup.reports_error
        then (failure cannot_create_backup, d')
        else check_backup original cfg key enrollment d'
    back_up original cfg key enrollment failed d = (failure backup_differs, d)
    back_up original cfg key enrollment (content existing) d =
        if bytes_eq existing original
        then check_backup original cfg key enrollment d
        else (failure backup_differs, d)

    -- Behind the read of the enrollment state.
    unfoldable pub check_protection :
        Bytes → AgentConfig → Bytes → Option Bytes → Disk → Outcome × Disk
    check_protection original cfg key enrollment d =
        if str_eq cfg.private_key_protection machine_protection
        then (already_migrated, d)
        else (let now = f.others_early d in
            back_up original cfg key enrollment (read f.read_backup now.backup) now)

    -- What the read of the enrollment state leads to.
    unfoldable pub bind_enrollment : Bytes → AgentConfig → Bytes → Read → Disk → Outcome × Disk
    bind_enrollment original cfg key failed d = (failure cannot_read_enrollment, d)
    bind_enrollment original cfg key missing d = check_protection original cfg key none d
    bind_enrollment original cfg key (content enrollment) d =
        elim (enrollment_binding enrollment cfg) [
          | some e ↦ (failure e, d)
          | none ↦ check_protection original cfg key (some enrollment) d
        ]

    -- What the decoded identity and its key lead to.
    unfoldable pub with_key : Bytes → Result AgentConfig → Result Bytes → Disk → Outcome × Disk
    with_key original (err e) key d = (failure (invalid_identity e), d)
    with_key original (ok cfg) (err e) d = (failure (invalid_identity e), d)
    with_key original (ok cfg) (ok key) d =
        bind_enrollment original cfg key (read f.read_enrollment d.enrollment) d

    -- `migratePrivateKeyProtection`.
    unfoldable pub migrate : Disk → Outcome × Disk
    migrate d = elim (read f.read_identity d.identity) [
      | missing ↦ (failure cannot_read_identity, d)
      | failed ↦ (failure cannot_read_identity, d)
      | content original ↦
          with_key original (decode_identity k original)
            (private_key_from_identity k original false k.unprotect) d
    ]
