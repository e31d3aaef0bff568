-- ===== src/Scenarios/Identities.antt =====
-- A migration that succeeds and one that fails, and the copying of an identity, over toy bytes: [1]
-- is an identity under user protection, [2] the same under machine protection.
use thesis_agent.Base.{
  ◌≡◌, ◌≢◌, refl, true, false, if◌then◌else◌, none, some, [], ◌∷◌, String, arith, ℕ, zero, suc,
  str_eq, bytes_eq,
}
use thesis_agent.Identity.{
  Bytes, AgentConfig, Crypto, ok, decode_identity, private_key_from_identity, validate_private_key,
}
use thesis_agent.Identity.Migration.{
  Disk, Write, Faults, rollback_unverified, restored_verified, migrated, failure, migrate, with_key,
  bind_enrollment, check_protection, back_up, check_backup, encrypt, encode, commit, replace,
  verify_migrated,
}
use thesis_agent.Identity.Migration.Safety.{IsRecoverable, migrate-IsRecoverable}
use thesis_agent.Identity.Migration.Outcomes.{migrate_unchanged, migrate_preserves}
use thesis_agent.Identity.Store.{absent, file, migrate_identity, copied}
use thesis_agent.Identity.Store.Copying.{migrate_identity-safe}

abbrev zeros : ℕ → Bytes
zeros zero = []
zeros (suc n) = 0 ∷ zeros n

abbrev agent_id : String
agent_id = "11111111-1111-1111-1111-111111111111"

abbrev identity : String → String → AgentConfig
identity ciphertext protection = record {
  agent_id = agent_id;
  algorithm = "Ed25519";
  public_key = "public";
  encrypted_private_key = ciphertext;
  private_key_protection = protection;
}

abbrev crypto : Crypto
crypto = record {
  parse_identity = λ s.
      if bytes_eq s (1 ∷ [])
      then some (identity "user" "")
      else if bytes_eq s (2 ∷ [])
      then some (identity "machine" "dpapi-machine-v1")
      else none;
  parse_enrollment = λ s. none;
  replace_fields = λ s ciphertext protection. some (2 ∷ []);
  is_uuid = λ s. str_eq s agent_id;
  base64_decode = λ s. if str_eq s "public" then some (zeros 32) else some (8 ∷ []);
  base64_encode = λ s. "machine";
  key_from_seed = λ s. zeros 64;
  sha256_hex = λ s. "00";
  protect = λ s. some (8 ∷ []);
  unprotect = λ s. some (zeros 64);
}

abbrev disk : Disk
disk = record { identity = some (1 ∷ []); backup = none; enrollment = none }

abbrev good : Write
good = record { applied = true; reports_error = false }

abbrev no_faults : Faults
no_faults = record {
  read_identity = false;
  read_enrollment = false;
  others_early = λ d. d;
  read_backup = false;
  write_backup = good;
  others_between = λ d. d;
  check_backup = false;
  others = λ d. d;
  reread_identity = false;
  reread_enrollment = false;
  write_identity = good;
  read_published = false;
  rollback_first = false;
  rollback_write = good;
  rollback_check = false;
}

-- The identity's write takes effect and reports an error.
abbrev torn : Faults
torn = record no_faults { write_identity = record { applied = true; reports_error = true } }

migrate-IsRecoverable_example : IsRecoverable (1 ∷ []) (migrate crypto torn disk).1
migrate-IsRecoverable_example =
    migrate-IsRecoverable crypto torn (λ d. refl) (λ d. refl) (λ d. refl) disk (1 ∷ []) refl

torn_restores : (migrate crypto torn disk).0 ≡ failure restored_verified
unfolding migrate with_key decode_identity private_key_from_identity validate_private_key
    bind_enrollment check_protection back_up check_backup encrypt encode commit verify_migrated
    replace
torn_restores = refl

restored_differs : restored_verified ≢ rollback_unverified
restored_differs h = ground arith

migrate_unchanged_example : (migrate crypto torn disk).1.identity ≡ some (1 ∷ [])
migrate_unchanged_example =
    migrate_unchanged crypto torn (λ d. refl) (λ d. refl) (λ d. refl) disk (1 ∷ [])
      restored_verified refl torn_restores restored_differs

migration_succeeds : (migrate crypto no_faults disk).0 ≡ migrated
unfolding migrate with_key decode_identity private_key_from_identity validate_private_key
    bind_enrollment check_protection back_up check_backup encrypt encode commit verify_migrated
    replace
migration_succeeds = refl

migrate_preserves_example :
    (old : AgentConfig) × (decode_identity crypto (1 ∷ []) ≡ ok old)
    × (new : AgentConfig) × (candidate : Bytes) × ((migrate crypto no_faults disk).1.identity
        ≡ some candidate)
    × (decode_identity crypto candidate ≡ ok new)
    × (new.agent_id ≡ old.agent_id)
    × (new.algorithm ≡ old.algorithm)
    × (new.public_key ≡ old.public_key)
    × (private_key_from_identity crypto candidate true crypto.unprotect
        ≡ private_key_from_identity crypto (1 ∷ []) false crypto.unprotect)
    × ((migrate crypto no_faults disk).1.backup ≡ some (1 ∷ []))
migrate_preserves_example =
    migrate_preserves crypto no_faults (λ d. refl) disk (1 ∷ []) refl migration_succeeds

migrate_identity-safe_example :
    ((absent ≢ absent) → (migrate_identity crypto true file (file (1 ∷ [])) absent).0 ≡ absent)
    × (((migrate_identity crypto true file (file (1 ∷ [])) absent).1 ≡ copied)
        → (migrate_identity crypto true file (file (1 ∷ [])) absent).0 ≡ file (1 ∷ []))
migrate_identity-safe_example = migrate_identity-safe crypto true file (file (1 ∷ [])) absent
