-- ===== src/Identity/Migration/Outcomes.antt =====
-- What the outcomes of the migration say is true of the disk (service/private_key_migration.go).
use thesis_agent.Base.{
  ◌≡◌, ◌≢◌, refl, sym, ◌∙◌, true, false, Option, none, some, [], ◌∷◌, arith, eq_iff, Option-cases,
  Bool-cases, inl, inr, if◌then◌else◌, bytes_eq, bytes_eq_sound,
}
use thesis_agent.Identity.{
  Bytes, AgentConfig, Crypto, Result, ok, err, decode_identity, private_key_from_identity,
}
use thesis_agent.Identity.Migration.{
  Disk, Read, content, missing, failed, read, took_effect, Faults, Failure, rollback_unverified,
  migrated, failure, is_content, verify_migrated, rollback, replace, commit, encode, encrypt,
  check_backup, back_up, check_protection, bind_enrollment, with_key, migrate,
}
use thesis_agent.Identity.Migration.Safety.{is_content_sound, Result-cases}
use thesis_agent.Identity.Migration.Unchanged.{with_key_unchanged}

module _ (k : Crypto) (f : Faults) (early : (d : Disk) → (f.others_early d).identity ≡ d.identity)
    (between : (d : Disk) → (f.others_between d).identity ≡ d.identity)
    (quiet : (d : Disk) → (f.others d).identity ≡ d.identity) where
  -- A migration that fails with any error but "rollback could not be verified" leaves the original
  -- identity in place, byte for byte, if no other program changes it.
  pub migrate_unchanged :
      (d : Disk) (original : Bytes) (e : Failure)
      → d.identity ≡ some original
      → (migrate k f d).0 ≡ failure e
      → e ≢ rollback_unverified
      → (migrate k f d).1.identity ≡ some original
  unfolding migrate
  migrate_unchanged d original e i h verified = ground (
    arith,
    with_key_unchanged k f early between quiet original (decode_identity k original)
        (private_key_from_identity k original false k.unprotect) d e,
  )

-- A success leaves a verified new identity in place, and the original in the backup.
module _ (k : Crypto) (f : Faults) (quiet : (d : Disk) → (f.others d).backup ≡ d.backup) where
  -- The new bytes decode to the same agent, algorithm and public key and to the same private key.
  abbrev pub Succeeds : Bytes → AgentConfig → Bytes → Disk → Type 0
  Succeeds original cfg key d =
      (candidate : Bytes) × (d.identity ≡ some candidate)
      × (verify_migrated k candidate cfg key ≡ true)
      × (d.backup ≡ some original)

  module _ (original : Bytes) (cfg : AgentConfig) (key : Bytes) where
    rollback-ne-migrated : (d : Disk) → (rollback f original d).0 ≢ migrated
    unfolding rollback
    rollback-ne-migrated d h = ground arith

    commit-Succeeds :
        (candidate : Bytes) (enrollment : Option Bytes) (d : Disk)
        → d.backup ≡ some original
        → (commit k f original candidate cfg key enrollment d).0 ≡ migrated
        → Succeeds original cfg key (commit k f original candidate cfg key enrollment d).1
    unfolding commit replace
    commit-Succeeds candidate enrollment d b h =
        let now = f.others d in
        let d' : Disk = record now {
          identity = if took_effect f.write_identity then some candidate else now.identity;
        } in
        (
          candidate,
          ground (arith, rollback-ne-migrated d', quiet d),
          ground (arith, rollback-ne-migrated d'),
          ground (arith, rollback-ne-migrated d', quiet d),
        )

    encrypt-Succeeds :
        (enrollment cipher : Option Bytes) (d : Disk)
        → d.backup ≡ some original
        → (encrypt k f original cfg key enrollment cipher d).0 ≡ migrated
        → Succeeds original cfg key (encrypt k f original cfg key enrollment cipher d).1
    unfolding encrypt encode
    encrypt-Succeeds enrollment none d b h = cc
    encrypt-Succeeds enrollment (some []) d b h = cc
    encrypt-Succeeds enrollment (some (byte ∷ bytes)) d b h =
        elim (Option-cases
          (k.replace_fields original (k.base64_encode (byte ∷ bytes)) "dpapi-machine-v1")) [
            | inl bad ↦ absurd (ground arith)
            | inr (candidate, found) ↦
                rw (found, encode)
                  (commit-Succeeds candidate enrollment d b (rw (found, encode) at h))
          ]

    check_backup-Succeeds :
        (enrollment : Option Bytes) (d : Disk)
        → (check_backup k f original cfg key enrollment d).0 ≡ migrated
        → Succeeds original cfg key (check_backup k f original cfg key enrollment d).1
    unfolding check_backup
    check_backup-Succeeds enrollment d h =
        let now = f.others_between d in
        elim (Bool-cases (is_content (read f.check_backup now.backup) original)) [
          | inl same ↦
              rw (same, check_backup)
                (encrypt-Succeeds enrollment (k.protect key) now
                  (is_content_sound f.check_backup now.backup original same)
                  (rw (same, check_backup) at h))
          | inr other ↦ absurd (ground arith)
        ]

    back_up-Succeeds :
        (enrollment : Option Bytes) (r : Read) (d : Disk)
        → (back_up k f original cfg key enrollment r d).0 ≡ migrated
        → Succeeds original cfg key (back_up k f original cfg key enrollment r d).1
    unfolding back_up
    back_up-Succeeds enrollment failed d h = cc
    back_up-Succeeds enrollment missing d h =
        let d' : Disk = record d {
          backup = if took_effect f.write_backup then some original else d.backup;
        } in
        elim (Bool-cases f.write_backup.reports_error) [
          | inl bad ↦ absurd (ground arith)
          | inr fine ↦
              let rest = check_backup-Succeeds enrollment d' (ground arith) in
              (rest.0, ground (arith, rest.1), rest.2, ground (arith, rest.3))
        ]
    back_up-Succeeds enrollment (content existing) d h =
        elim (Bool-cases (bytes_eq existing original)) [
          | inl same ↦
              let rest = check_backup-Succeeds enrollment d (ground arith) in
              (rest.0, ground (arith, rest.1), rest.2, ground (arith, rest.3))
          | inr other ↦ absurd (ground arith)
        ]

    check_protection-Succeeds :
        (enrollment : Option Bytes) (d : Disk)
        → (check_protection k f original cfg key enrollment d).0 ≡ migrated
        → Succeeds original cfg key (check_protection k f original cfg key enrollment d).1
    unfolding check_protection
    check_protection-Succeeds enrollment d h =
        let now = f.others_early d in
        let rest = back_up-Succeeds enrollment (read f.read_backup now.backup) now (ground arith) in
        (rest.0, ground (arith, rest.1), rest.2, ground (arith, rest.3))

    bind_enrollment-Succeeds :
        (r : Read) (d : Disk)
        → (bind_enrollment k f original cfg key r d).0 ≡ migrated
        → Succeeds original cfg key (bind_enrollment k f original cfg key r d).1
    unfolding bind_enrollment
    bind_enrollment-Succeeds failed d h = cc
    bind_enrollment-Succeeds missing d h = check_protection-Succeeds none d h
    bind_enrollment-Succeeds (content enrollment) d h =
        let rest = check_protection-Succeeds (some enrollment) d (ground arith) in
        (rest.0, ground (arith, rest.1), rest.2, ground (arith, rest.3))

  with_key-Succeeds :
      (original : Bytes) (cfg : Result AgentConfig) (key : Result Bytes) (d : Disk)
      → (with_key k f original cfg key d).0 ≡ migrated
      → (c : AgentConfig) × (cfg ≡ ok c)
        × (b : Bytes) × (key ≡ ok b)
        × Succeeds original c b (with_key k f original cfg key d).1
  unfolding with_key
  with_key-Succeeds original (err x) key d h = cc
  with_key-Succeeds original (ok cfg) (err x) d h = cc
  with_key-Succeeds original (ok cfg) (ok key) d h = (
    cfg,
    refl,
    key,
    refl,
    bind_enrollment-Succeeds original cfg key (read f.read_enrollment d.enrollment) d h,
  )

  -- A migration that reports success has replaced the identity by one of the same agent, algorithm,
  -- public key and private key that is under machine protection, and has kept the original in the
  -- backup.
  pub migrate-Succeeds :
      (d : Disk) (original : Bytes)
      → d.identity ≡ some original
      → (migrate k f d).0 ≡ migrated
      → (cfg : AgentConfig) × (decode_identity k original ≡ ok cfg)
        × (key : Bytes) × (private_key_from_identity k original false k.unprotect ≡ ok key)
        × Succeeds original cfg key (migrate k f d).1
  unfolding migrate
  migrate-Succeeds d original i h = elim (Bool-cases f.read_identity) [
    | inl bad ↦ absurd (ground arith)
    | inr fine ↦
        let (cfg, c, key, p, rest) =
          with_key-Succeeds original (decode_identity k original)
            (private_key_from_identity k original false k.unprotect) d (ground arith) in
        (cfg, c, key, p, (rest.0, ground (arith, rest.1), rest.2, ground (arith, rest.3)))
  ]

-- What a verified new identity shares with the original.
pub verify_migrated_same :
    (k : Crypto) (text : Bytes) (original : AgentConfig) (key : Bytes)
    → verify_migrated k text original key ≡ true
    → (cfg : AgentConfig) × (decode_identity k text ≡ ok cfg)
      × (cfg.agent_id ≡ original.agent_id)
      × (cfg.algorithm ≡ original.algorithm)
      × (cfg.public_key ≡ original.public_key)
      × (private_key_from_identity k text true k.unprotect ≡ ok key)
unfolding verify_migrated
verify_migrated_same k text original key h = elim (Result-cases (decode_identity k text)) [
  | inr (e, bad) ↦ absurd (ground arith)
  | inl (cfg, found) ↦ elim (Result-cases (private_key_from_identity k text true k.unprotect)) [
    | inr (e, bad) ↦ absurd (ground arith)
    | inl (check, read) ↦ (
      cfg,
      found,
      ground (arith, eq_iff cfg.agent_id original.agent_id),
      ground (arith, eq_iff cfg.algorithm original.algorithm),
      ground (arith, eq_iff cfg.public_key original.public_key),
      ground (arith, bytes_eq_sound key check),
    )
  ]
]

-- A migration that reports success has replaced the identity by one with the same agent id,
-- algorithm and public key, whose machine-protected private key is the original's, and it has kept
-- the original bytes in the backup; provided that no other program touches the backup behind its
-- verification.
pub migrate_preserves :
    (k : Crypto) (f : Faults)
    → ((d : Disk) → (f.others d).backup ≡ d.backup)
    → (d : Disk) (original : Bytes) → d.identity ≡ some original
    → (migrate k f d).0 ≡ migrated
    → (old : AgentConfig) × (decode_identity k original ≡ ok old)
      × (new : AgentConfig) × (candidate : Bytes) × ((migrate k f d).1.identity ≡ some candidate)
      × (decode_identity k candidate ≡ ok new)
      × (new.agent_id ≡ old.agent_id)
      × (new.algorithm ≡ old.algorithm)
      × (new.public_key ≡ old.public_key)
      × (private_key_from_identity k candidate true k.unprotect
          ≡ private_key_from_identity k original false k.unprotect)
      × ((migrate k f d).1.backup ≡ some original)
migrate_preserves k f quiet d original i h =
    let (old, decoded, key, private, rest) = migrate-Succeeds k f quiet d original i h in
    let (new, found, id, algorithm, public, same) = verify_migrated_same k rest.0 old key rest.2 in
    (old, decoded, new, rest.0, rest.1, found, id, algorithm, public, same ∙ sym private, rest.3)
