-- ===== src/Identity/Migration/Unchanged.antt =====
-- A migration that fails leaves the identity in place (service/private_key_migration.go).
use thesis_agent.Base.{
  ◌≡◌, ◌≢◌, ◌∙◌, Option, none, some, [], ◌∷◌, arith, Bool-cases, inl, inr, if◌then◌else◌,
}
use thesis_agent.Identity.{Bytes, AgentConfig, Crypto, Result, ok, err}
use thesis_agent.Identity.Migration.{
  Disk, Read, content, missing, failed, read, took_effect, Faults, Failure, rollback_unverified,
  failure, is_content, rollback, replace, commit, encode, encrypt, check_backup, back_up,
  check_protection, bind_enrollment, with_key,
}
use thesis_agent.Identity.Migration.Safety.{is_content_sound}

module _ (k : Crypto) (f : Faults) (early : (d : Disk) → (f.others_early d).identity ≡ d.identity)
    (between : (d : Disk) → (f.others_between d).identity ≡ d.identity)
    (quiet : (d : Disk) → (f.others d).identity ≡ d.identity) where
  module _ (original : Bytes) (cfg : AgentConfig) (key : Bytes) where
    rollback_unchanged :
        (d : Disk) (e : Failure)
        → (rollback f original d).0 ≡ failure e
        → e ≢ rollback_unverified
        → (rollback f original d).1.identity ≡ some original
    unfolding rollback
    rollback_unchanged d e h verified =
        elim (Bool-cases (is_content (read f.rollback_first d.identity) original)) [
          | inl same ↦
              let known = is_content_sound f.rollback_first d.identity original same in
              ground (arith, known)
          | inr other ↦
              let written : Option Bytes =
                if took_effect f.rollback_write then some original else d.identity in
              ground (arith, is_content_sound f.rollback_check written original)
        ]

    replace_unchanged :
        (candidate : Bytes) (d : Disk) (e : Failure)
        → (replace k f original candidate cfg key d).0 ≡ failure e
        → e ≢ rollback_unverified
        → (replace k f original candidate cfg key d).1.identity ≡ some original
    unfolding replace
    replace_unchanged candidate d e h verified =
        let d' : Disk = record d {
          identity = if took_effect f.write_identity then some candidate else d.identity;
        } in
        ground (arith, rollback_unchanged d' e)

    encode_unchanged :
        (enrollment candidate : Option Bytes) (d : Disk) (e : Failure)
        → d.identity ≡ some original
        → (encode k f original cfg key enrollment candidate d).0 ≡ failure e
        → e ≢ rollback_unverified
        → (encode k f original cfg key enrollment candidate d).1.identity ≡ some original
    unfolding encode commit
    encode_unchanged enrollment none d e i h verified = i
    encode_unchanged enrollment (some candidate) d e i h verified =
        ground (arith, quiet d, replace_unchanged candidate (f.others d) e)

    encrypt_unchanged :
        (enrollment cipher : Option Bytes) (d : Disk) (e : Failure)
        → d.identity ≡ some original
        → (encrypt k f original cfg key enrollment cipher d).0 ≡ failure e
        → e ≢ rollback_unverified
        → (encrypt k f original cfg key enrollment cipher d).1.identity ≡ some original
    unfolding encrypt
    encrypt_unchanged enrollment none d e i h verified = i
    encrypt_unchanged enrollment (some []) d e i h verified = i
    encrypt_unchanged enrollment (some (byte ∷ bytes)) d e i h verified =
        encode_unchanged enrollment _ d e i h verified

    check_backup_unchanged :
        (enrollment : Option Bytes) (d : Disk) (e : Failure)
        → d.identity ≡ some original
        → (check_backup k f original cfg key enrollment d).0 ≡ failure e
        → e ≢ rollback_unverified
        → (check_backup k f original cfg key enrollment d).1.identity ≡ some original
    unfolding check_backup
    check_backup_unchanged enrollment d e i h verified =
        let now = f.others_between d in
        let kept : now.identity ≡ some original = between d ∙ i in
        ground (arith, kept, encrypt_unchanged enrollment (k.protect key) now e kept)

    back_up_unchanged :
        (enrollment : Option Bytes) (r : Read) (d : Disk) (e : Failure)
        → d.identity ≡ some original
        → (back_up k f original cfg key enrollment r d).0 ≡ failure e
        → e ≢ rollback_unverified
        → (back_up k f original cfg key enrollment r d).1.identity ≡ some original
    unfolding back_up
    back_up_unchanged enrollment missing d e i h verified =
        let d' : Disk = record d {
          backup = if took_effect f.write_backup then some original else d.backup;
        } in
        ground (arith, check_backup_unchanged enrollment d' e i)
    back_up_unchanged enrollment failed d e i h verified = i
    back_up_unchanged enrollment (content existing) d e i h verified =
        ground (arith, check_backup_unchanged enrollment d e i)

    check_protection_unchanged :
        (enrollment : Option Bytes) (d : Disk) (e : Failure)
        → d.identity ≡ some original
        → (check_protection k f original cfg key enrollment d).0 ≡ failure e
        → e ≢ rollback_unverified
        → (check_protection k f original cfg key enrollment d).1.identity ≡ some original
    unfolding check_protection
    check_protection_unchanged enrollment d e i h verified =
        let now = f.others_early d in
        let kept : now.identity ≡ some original = early d ∙ i in
        ground (arith, back_up_unchanged enrollment (read f.read_backup now.backup) now e kept)

    bind_enrollment_unchanged :
        (r : Read) (d : Disk) (e : Failure)
        → d.identity ≡ some original
        → (bind_enrollment k f original cfg key r d).0 ≡ failure e
        → e ≢ rollback_unverified
        → (bind_enrollment k f original cfg key r d).1.identity ≡ some original
    unfolding bind_enrollment
    bind_enrollment_unchanged failed d e i h verified = i
    bind_enrollment_unchanged missing d e i h verified =
        check_protection_unchanged none d e i h verified
    bind_enrollment_unchanged (content enrollment) d e i h verified =
        ground (arith, check_protection_unchanged (some enrollment) d e i)

  pub with_key_unchanged :
      (original : Bytes) (cfg : Result AgentConfig) (key : Result Bytes) (d : Disk) (e : Failure)
      → d.identity ≡ some original
      → (with_key k f original cfg key d).0 ≡ failure e
      → e ≢ rollback_unverified
      → (with_key k f original cfg key d).1.identity ≡ some original
  unfolding with_key
  with_key_unchanged original (err x) key d e i h verified = i
  with_key_unchanged original (ok cfg) (err x) d e i h verified = i
  with_key_unchanged original (ok cfg) (ok key) d e i h verified =
      bind_enrollment_unchanged original cfg key (read f.read_enrollment d.enrollment) d e i h
        verified
