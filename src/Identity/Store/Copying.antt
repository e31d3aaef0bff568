-- ===== src/Identity/Store/Copying.antt =====
-- An existing identity is never replaced (service/agent_id.go).
use thesis_agent.Base.{◌≡◌, ◌≢◌, refl, Bool, false, Option, true, arith, ◌⊎◌, bytes_eq_sound}
use thesis_agent.Identity.{Bytes, AgentConfig, Crypto}
use thesis_agent.Identity.Store.{
  Entry, absent, irregular, file, ReadResult, read_ok, not_exist, rejected, read_identity,
  load_identity, check_copy, copy_identity, migrate_identity, copied,
}

module _ (k : Crypto) where
  -- An identity is created only where none exists, and only if the caller allows it: in every other
  -- case the file stays as it is.
  pub load_identity-unchanged :
      (allow_create machine directory_valid : Bool) (fresh : Option (Bytes × AgentConfig))
      (written : Bool) (e : Entry)
      → (allow_create ≡ false) ⊎ (e ≢ absent)
      → (load_identity k allow_create machine directory_valid fresh written e).0 ≡ e
  unfolding load_identity read_identity
  load_identity-unchanged allow_create machine directory_valid fresh written absent h = ground arith
  load_identity-unchanged allow_create machine directory_valid fresh written irregular h = refl
  load_identity-unchanged allow_create machine directory_valid fresh written (file text) h =
      ground arith

  read_identity_file :
      (e : Entry) (text : Bytes) (cfg : AgentConfig)
      → read_identity k e ≡ read_ok text cfg
      → e ≡ file text
  unfolding read_identity
  read_identity_file absent text cfg h = cc
  read_identity_file irregular text cfg h = cc
  read_identity_file (file t) text cfg h = ground arith

  copy_identity_kept :
      (written : Bool) (landed : Bytes → Entry) (src dst : ReadResult) (e : Entry)
      → dst ≢ not_exist
      → (copy_identity k written landed src dst e).0 ≡ e
  unfolding copy_identity
  copy_identity_kept written landed (read_ok text c) (read_ok t d) e h = ground arith
  copy_identity_kept written landed (read_ok text c) rejected e h = refl
  copy_identity_kept written landed (read_ok text c) not_exist e h = absurd (h refl)
  copy_identity_kept written landed not_exist dst e h = refl
  copy_identity_kept written landed rejected dst e h = refl

  -- A reread that finds the bytes found them in the entry.
  check_copy-copied :
      (text : Bytes) (e : Entry) (r : ReadResult)
      → read_identity k e ≡ r
      → check_copy k text r ≡ copied
      → e ≡ file text
  unfolding check_copy
  check_copy-copied text e (read_ok check cfg) found h =
      let same = bytes_eq_sound check text (ground arith) in
      cc (read_identity_file e check cfg found, same)
  check_copy-copied text e not_exist found h = cc
  check_copy-copied text e rejected found h = cc

  copy_identity_copied :
      (written : Bool) (landed : Bytes → Entry) (src dst : ReadResult) (e : Entry)
      → (copy_identity k written landed src dst e).1 ≡ copied
      → (text : Bytes) × ((cfg : AgentConfig) × (src ≡ read_ok text cfg))
        × ((copy_identity k written landed src dst e).0 ≡ file text)
  unfolding copy_identity
  copy_identity_copied written landed (read_ok text c) (read_ok t d) e h = absurd (ground arith)
  copy_identity_copied written landed (read_ok text c) rejected e h = cc
  copy_identity_copied false landed (read_ok text c) not_exist e h = cc
  copy_identity_copied true landed (read_ok text c) not_exist e h =
      (text, (c, refl), check_copy-copied text (landed text) _ refl h)
  copy_identity_copied written landed not_exist dst e h = cc
  copy_identity_copied written landed rejected dst e h = cc

  read_identity_absent : (e : Entry) → e ≢ absent → read_identity k e ≢ not_exist
  unfolding read_identity
  read_identity_absent absent h = λ r. h refl
  read_identity_absent irregular h = λ r. cc
  read_identity_absent (file text) h = λ r. ground arith

  -- Copying an identity never changes a destination that exists, and where it reports a copy, the
  -- destination held the source's bytes at the reread, whatever the write left there.
  pub migrate_identity-safe :
      (written : Bool) (landed : Bytes → Entry) (source destination : Entry)
      → ((destination ≢ absent)
          → (migrate_identity k written landed source destination).0 ≡ destination)
        × (((migrate_identity k written landed source destination).1 ≡ copied)
            → (migrate_identity k written landed source destination).0 ≡ source)
  unfolding migrate_identity
  migrate_identity-safe written landed source destination = (
    λ h.
        copy_identity_kept written landed (read_identity k source) (read_identity k destination)
          destination (read_identity_absent destination h),
    λ h.
        let (text, (cfg, src), made) =
          copy_identity_copied written landed (read_identity k source) (read_identity k destination)
            destination h in
        cc (read_identity_file source text cfg src, made),
  )
