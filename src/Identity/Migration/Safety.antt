-- ===== src/Identity/Migration/Safety.antt =====
-- No fault loses the identity (service/private_key_migration.go).
use thesis_agent.Base.{
  ◌≡◌, refl, ◌∙◌, Bool, true, false, Option, none, some, [], ◌∷◌, arith, ◌⊎◌, inl, inr,
  if◌then◌else◌, bytes_eq, bytes_eq_sound, Bool-cases,
}
use thesis_agent.Identity.{
  Bytes, AgentConfig, Crypto, Error, Result, ok, err, decode_identity, private_key_from_identity,
}
use thesis_agent.Identity.Migration.{
  Disk, Read, content, missing, failed, read, took_effect, Faults, is_content, replace, commit,
  encode, encrypt, check_backup, back_up, check_protection, bind_enrollment, with_key, migrate,
}

pub is_content_sound :
    (fails : Bool) (file : Option Bytes) (bytes : Bytes)
    → is_content (read fails file) bytes ≡ true
    → file ≡ some bytes
is_content_sound true file bytes h = cc
is_content_sound false none bytes h = cc
is_content_sound false (some b) bytes h = let e = bytes_eq_sound b bytes h in cc

read_content :
    (fails : Bool) (file : Option Bytes) (bytes : Bytes)
    → read fails file ≡ content bytes
    → file ≡ some bytes
read_content true file bytes h = cc
read_content false none bytes h = cc
read_content false (some b) bytes h = cc

Read-cases : (r : Read) → ((bytes : Bytes) × (r ≡ content bytes)) ⊎ ((r ≡ missing) ⊎ (r ≡ failed))
Read-cases (content bytes) = inl (bytes, refl)
Read-cases missing = inr (inl refl)
Read-cases failed = inr (inr refl)

pub Result-cases :
    {A : Type 0} (r : Result A) → ((a : A) × (r ≡ ok a)) ⊎ ((e : Error) × (r ≡ err e))
Result-cases (ok a) = inl (a, refl)
Result-cases (err e) = inr (e, refl)

-- The identity's bytes are still on the disk, in place or in the backup.
abbrev pub IsRecoverable : Bytes → Disk → Type 0
IsRecoverable original d = (d.identity ≡ some original) ⊎ (d.backup ≡ some original)

module _ (k : Crypto) (f : Faults) (early : (d : Disk) → (f.others_early d).identity ≡ d.identity)
    (between : (d : Disk) → (f.others_between d).identity ≡ d.identity)
    (quiet : (d : Disk) → (f.others d).backup ≡ d.backup) where
  module _ (original : Bytes) (cfg : AgentConfig) (key : Bytes) where
    backup-replace :
        (candidate : Bytes) (d : Disk)
        → (replace k f original candidate cfg key d).1.backup ≡ d.backup
    unfolding replace
    backup-replace candidate d = ground arith

    backup-encode :
        (enrollment candidate : Option Bytes) (d : Disk)
        → (encode k f original cfg key enrollment candidate d).1.backup ≡ d.backup
    unfolding encode commit
    backup-encode enrollment none d = refl
    backup-encode enrollment (some candidate) d =
        ground (arith, quiet d, backup-replace candidate (f.others d))

    backup-encrypt :
        (enrollment cipher : Option Bytes) (d : Disk)
        → (encrypt k f original cfg key enrollment cipher d).1.backup ≡ d.backup
    unfolding encrypt
    backup-encrypt enrollment none d = refl
    backup-encrypt enrollment (some []) d = refl
    backup-encrypt enrollment (some (byte ∷ bytes)) d = backup-encode enrollment _ d

    check_backup-IsRecoverable :
        (enrollment : Option Bytes) (d : Disk)
        → d.identity ≡ some original
        → IsRecoverable original (check_backup k f original cfg key enrollment d).1
    unfolding check_backup
    check_backup-IsRecoverable enrollment d h =
        let now = f.others_between d in
        elim (Bool-cases (is_content (read f.check_backup now.backup) original)) [
          | inl verified ↦ rw verified (
              inr (
                backup-encrypt enrollment (k.protect key) now
                ∙ is_content_sound f.check_backup now.backup original verified))
          | inr other ↦ rw other (inl (between d ∙ h))
        ]

    back_up-IsRecoverable :
        (enrollment : Option Bytes) (r : Read) (d : Disk)
        → d.identity ≡ some original
        → IsRecoverable original (back_up k f original cfg key enrollment r d).1
    unfolding back_up
    back_up-IsRecoverable enrollment missing d h =
        let d' : Disk = record d {
          backup = if took_effect f.write_backup then some original else d.backup;
        } in
        ground (arith, check_backup-IsRecoverable enrollment d' h)
    back_up-IsRecoverable enrollment failed d h = inl h
    back_up-IsRecoverable enrollment (content existing) d h =
        elim (Bool-cases (bytes_eq existing original)) [
          | inl same ↦ rw same (check_backup-IsRecoverable enrollment d h)
          | inr other ↦ rw other (inl h)
        ]

    check_protection-IsRecoverable :
        (enrollment : Option Bytes) (d : Disk)
        → d.identity ≡ some original
        → IsRecoverable original (check_protection k f original cfg key enrollment d).1
    unfolding check_protection
    check_protection-IsRecoverable enrollment d h =
        let now = f.others_early d in
        ground (
          arith,
          back_up-IsRecoverable enrollment (read f.read_backup now.backup) now (early d ∙ h),
        )

    bind_enrollment-IsRecoverable :
        (r : Read) (d : Disk)
        → d.identity ≡ some original
        → IsRecoverable original (bind_enrollment k f original cfg key r d).1
    unfolding bind_enrollment
    bind_enrollment-IsRecoverable failed d h = inl h
    bind_enrollment-IsRecoverable missing d h = check_protection-IsRecoverable none d h
    bind_enrollment-IsRecoverable (content enrollment) d h =
        ground (arith, check_protection-IsRecoverable (some enrollment) d h)

  with_key-IsRecoverable :
      (original : Bytes) (cfg : Result AgentConfig) (key : Result Bytes) (d : Disk)
      → d.identity ≡ some original
      → IsRecoverable original (with_key k f original cfg key d).1
  unfolding with_key
  with_key-IsRecoverable original (err e) key d h = inl h
  with_key-IsRecoverable original (ok cfg) (err e) d h = inl h
  with_key-IsRecoverable original (ok cfg) (ok key) d h =
      bind_enrollment-IsRecoverable original cfg key (read f.read_enrollment d.enrollment) d h

  -- Whatever reads and writes fail, in whatever way, the bytes of the identity at the start are in
  -- its place or in the backup when the migration ends. Other programs may change the disk before the
  -- backup is read, before it is checked and before the last look at the identity; at the first two
  -- points they leave the identity as it is, at the last one the backup.
  pub migrate-IsRecoverable :
      (d : Disk) (original : Bytes)
      → d.identity ≡ some original
      → IsRecoverable original (migrate k f d).1
  unfolding migrate
  migrate-IsRecoverable d original h = ground (
    arith,
    with_key-IsRecoverable original (decode_identity k original)
        (private_key_from_identity k original false k.unprotect) d h,
  )
