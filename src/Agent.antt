-- ===== src/Agent.antt =====
-- The run of the agent: `runWithSecurity` of internal/agent/runtime.go with its helpers. What it
-- calls in other packages answers by `Calls`; the transport policy and the check of the download
-- roots are those of `Transport` and `Download.Destination.Roots`. A run is the list of its effects,
-- in order, and its error.
pub mod Order
pub mod Checks
pub mod Ready
pub mod Diagnostics
pub mod Command
use thesis_agent.Base.{
  Bool, true, false, not, ◌&&◌, ◌||◌, Option, none, some, List, [], ◌∷◌, ◌++◌, String,
  if◌then◌else◌, any, Text, codes, Unicode, bytes_eq, is_some,
}
use thesis_agent.Transport.{
  Net, Mode, production, development, mode, EndpointError, Verdict, accept, refuse,
  validate_endpoint,
}
use thesis_agent.Auth.{Bytes, Loaded, key, migration_required, unavailable}
use thesis_agent.Download.Destination.{Paths, starts_with}
use thesis_agent.Download.Destination.Roots.{Checked, ok, err, RootError, validate_roots}

-- `Options`.
pub record Options : Type 0 where
  pub service : Bool
  pub provision : Bool
  pub migration_source : Text

-- `apppaths.Paths`, with `RuntimeLock` the path of the lock.
pub record Places : Type 0 where
  pub install : Text
  pub root : Text
  pub identity : Text
  pub enrollment : Text
  pub config : Text
  pub log : Text
  pub downloads : Text
  pub lock : Text

-- The fields of `config.Config` that decide something here.
pub record Settings : Type 0 where
  pub transport_mode : Text
  pub socket_url : String
  pub api_url : String
  pub download_roots : List Text
  pub allow_local_http : Bool

pub data StartError : Type 0 where
  no_paths root_missing not_locked config_unreadable log_outside log_overlaps log_failed :
      StartError
  bad_mode plaintext_downloads : StartError
  bad_api bad_socket : EndpointError → StartError
  bad_roots : RootError → StartError
  migration_without_provision migration_relative migration_failed : StartError
  identity_failed enrollment_unreadable enrollment_failed downloads_failed run_failed : StartError

-- What the run does, in the order of the calls; `session` is `wsClient.Run`, `failed_early` the
-- diagnostic of the first deferred call.
pub data Effect : Type 0 where
  lock_taken lock_released config_read : Effect
  log_opened log_closed file_ready : Effect
  said : String → Effect
  migrated identity_loaded enrollment_read enrollment_ensured : Effect
  client_created client_closed downloads_configured ready_called : Effect
  power_mode : String → Effect
  helper_started helper_closed session failed_early : Effect

abbrev pub Run : Type 0
Run = List Effect × Option StartError

-- The answers of the other packages. `config` is none where `LoadFile` fails; the two variables are
-- `AGENT_LOG_PATH` and `DOWNLOAD_DIRECTORY`. `cancelled` is `ctx.Err() != nil` behind a failed
-- enrollment, `cancelled_at_end` in the last deferred call of the log. `announces` says that `ready`
-- is not nil.
pub record Calls : Type 0 where
  pub root_exists : Bool
  pub locks : Bool
  pub config : Option Settings
  pub log_variable : Text
  pub downloads_variable : Text
  pub log_opens : Bool
  pub migrates : Bool
  pub identity_loads : Bool
  pub identity_protected : Bool
  pub enrollment_reads : Bool
  pub enrolls : Bool
  pub mock_power : Bool
  pub downloads_start : Bool
  pub announces : Bool
  pub runs : Bool
  pub cancelled : Bool
  pub cancelled_at_end : Bool

abbrev pub is_empty : Text → Bool
is_empty [] = true
is_empty (_ ∷ _) = false

module _ (p : Paths) where
  unfoldable pub resolve : Text → Text → Text → Text
  resolve root value fallback =
      if is_empty value
      then fallback
      else if p.is_abs value
      then p.clean value
      else p.join root value

  abbrev pub inner : Option Text → Bool
  inner none = false
  inner (some rel) =
      not (bytes_eq rel (codes "..")) && not (starts_with (codes "..\\") rel) && not (p.is_abs rel)

  -- `within`, with the separator of Windows.
  unfoldable pub within : Text → Text → Bool
  within root path = inner (p.rel root path)

abbrev pub is_production : Mode → Bool
is_production production = true
is_production development = false

abbrev pub machine : Options → Bool
machine o = o.service || o.provision

module _ (p : Paths) (n : Net) (u : Unicode) (fold : Text → Text → Bool) (o : Options) (at : Places)
    (c : Calls) where
  -- A step of the run that may end it.
  unfoldable pub fail_or : Option StartError → Run → Run
  fail_or none rest = rest
  fail_or (some e) rest = ([], some e)

  abbrev pub unless : Bool → StartError → Option StartError
  unless fine e = if fine then none else some e

  -- An effect in front of a run, and one behind it.
  unfoldable pub before : List Effect → Run → Run
  before effects r = (effects ++ r.0, r.1)

  unfoldable pub behind : Run → List Effect → Run
  behind r effects = (r.0 ++ effects, r.1)

  -- `validateEndpoints`.
  abbrev pub endpoint_error :
      (EndpointError → StartError) → Verdict EndpointError → Option StartError
  endpoint_error tag accept = none
  endpoint_error tag (refuse e) = some (tag e)

  abbrev pub first_error : Option StartError → Option StartError → Option StartError
  first_error (some e) _ = some e
  first_error none rest = rest

  unfoldable pub validate_endpoints : Settings → Bool → Option StartError
  validate_endpoints s is_prod =
      first_error (unless (not (is_prod && s.allow_local_http)) plaintext_downloads) (
        first_error (endpoint_error bad_api (validate_endpoint n s.api_url false is_prod))
          (endpoint_error bad_socket (validate_endpoint n s.socket_url true is_prod)))

  -- From the choice of the screen capture on.
  unfoldable pub serve : Run
  serve =
      if o.service
      then (
        helper_started
            ∷ said "Service mode: screen capture delegated to the interactive Desktop Helper"
            ∷ session
            ∷ helper_closed
            ∷ [],
        unless c.runs run_failed,
      )
      else (session ∷ [], unless c.runs run_failed)

  -- From `EnsureEnrollment` on.
  unfoldable pub enroll : Run
  enroll = before (enrollment_ensured ∷ []) (
      if c.enrolls then serve else if c.cancelled then ([], none) else ([], some enrollment_failed))

  abbrev pub announce : List Effect
  announce = if c.announces then ready_called ∷ [] else []

  -- From `ConfigureDownloads` on.
  unfoldable pub start_client : Run
  start_client =
      before (downloads_configured ∷ [])
        (fail_or (unless c.downloads_start downloads_failed) (before announce enroll))

  -- The client, and its deferred end.
  unfoldable pub with_client : Run
  with_client =
      before
        (client_created
          ∷ power_mode (if c.mock_power then "mock" else "real")
          ∷ said "power controller mode"
          ∷ [])
        (behind start_client
          (said "runtime stopping; releasing workers and connections" ∷ client_closed ∷ []))

  -- The end of provisioning, or the client.
  unfoldable pub provision_or_serve : Run
  provision_or_serve =
      if o.provision
      then before (enrollment_ensured ∷ []) (
          fail_or (unless c.enrolls enrollment_failed)
            (said "administrative provisioning complete" ∷ [], none))
      else with_client

  -- From the identity on.
  unfoldable pub with_identity : Run
  with_identity = before (identity_loaded ∷ []) (
      fail_or (unless c.identity_loads identity_failed) (
        before
          (said "agent identity successfully loaded"
            ∷ (if o.service && not c.identity_protected
                then said "legacy private-key protection" ∷ []
                else []))
          (before (enrollment_read ∷ [])
            (fail_or (unless c.enrollment_reads enrollment_unreadable) provision_or_serve))))

  -- From the migration on.
  unfoldable pub migrate : Run
  migrate =
      if is_empty o.migration_source
      then with_identity
      else fail_or (unless o.provision migration_without_provision) (
          fail_or (unless (p.is_abs o.migration_source) migration_relative) (
            before (migrated ∷ []) (
              fail_or (unless c.migrates migration_failed)
                (before (said "existing identity migration verified" ∷ []) with_identity))))

  -- The error of `ValidateRoots`, if it is called.
  abbrev pub root_error : Checked (List Text) → Option StartError
  root_error (ok _) = none
  root_error (err e) = some (bad_roots e)

  abbrev pub no_roots : List Text → Bool
  no_roots [] = true
  no_roots (_ ∷ _) = false

  unfoldable pub check_downloads : Settings → Option StartError
  check_downloads s =
      if machine o || not (no_roots s.download_roots)
      then root_error (
          validate_roots p (resolve p at.root c.downloads_variable at.downloads) s.download_roots
            at.root at.install)
      else none

  -- From the transport mode on.
  unfoldable pub with_mode : Settings → Option Mode → Run
  with_mode s none = ([], some bad_mode)
  with_mode s (some m) =
      fail_or (validate_endpoints s (is_production m))
        (before (said "transport mode" ∷ []) (fail_or (check_downloads s) migrate))

  -- The deferred lines of the log.
  abbrev pub closing : Option StartError → List Effect
  closing result =
      (if is_some result && not c.cancelled_at_end
        then said "fatal startup/runtime error" ∷ []
        else [])
      ++ (said "runtime stopped"
          ∷ (if o.service then said "service stopped; runtime resources released" ∷ [] else []))

  abbrev pub opening : List Effect
  opening =
      (if o.service then file_ready ∷ said "service starting" ∷ [] else [])
      ++ said "runtime starting" ∷ []

  -- The log, and what is deferred with it.
  unfoldable pub with_log : Settings → Run
  with_log s =
      let r = with_mode s (mode u s.transport_mode (machine o)) in
      before (log_opened ∷ opening) (behind r (closing r.1 ++ log_closed ∷ []))

  abbrev pub log_path : Text
  log_path = resolve p at.root c.log_variable at.log

  abbrev pub is_critical : Text → Bool
  is_critical path =
      any (λ critical. fold (p.clean path) (p.clean critical))
        (at.identity ∷ at.enrollment ∷ at.config ∷ at.lock ∷ [])

  -- The checks of the log's path.
  unfoldable pub check_log : Option StartError
  check_log =
      first_error
        (unless (not (machine o) || within p (p.join at.root (codes "logs")) log_path) log_outside)
        (unless (not (is_critical log_path)) log_overlaps)

  unfoldable pub with_config : Option Settings → Run
  with_config none = ([], some config_unreadable)
  with_config (some s) = fail_or check_log (fail_or (unless c.log_opens log_failed) (with_log s))

  -- The lock, and its release.
  unfoldable pub with_lock : Run
  with_lock =
      fail_or (unless c.locks not_locked) (
        before (lock_taken ∷ config_read ∷ []) (behind (with_config c.config) (lock_released ∷ [])))

  abbrev pub is_ready_file : Effect → Bool
  is_ready_file file_ready = true
  is_ready_file _ = false

  -- `runWithSecurity`; `diagnostics.ready` is set by `fileReady`.
  unfoldable pub run_with_security : Run
  run_with_security =
      let r =
        fail_or (unless (not (machine o && not o.service) || c.root_exists) root_missing)
          with_lock in
      behind r
        (if o.service && is_some r.1 && not (any is_ready_file r.0) then failed_early ∷ [] else [])

-- The answer of the private key's loader that the run gives the client: `stored` is that of
-- `LoadPrivateKey`, and `matches` says that a key has the public key that was loaded at the start.
-- A key that does not is cleared.
unfoldable pub load_private_key : Option Bytes → Bool → (Bytes → Bool) → Loaded
load_private_key none is_protected matches =
    if not is_protected then migration_required else unavailable
load_private_key (some private) is_protected matches =
    if matches private then key private else unavailable

-- `Run`: `machine_places` and `console_places` are the answers of `apppaths.Machine` and, behind
-- `os.Getwd`, of `apppaths.Console`.
module _ (p : Paths) (n : Net) (u : Unicode) (fold : Text → Text → Bool) (o : Options)
    (c : Calls) where
  unfoldable pub run_at : Option Places → Run
  run_at none = ((if o.service then failed_early ∷ [] else []), some no_paths)
  run_at (some at) = run_with_security p n u fold o at c

  unfoldable pub run : Option Places → Option Places → Run
  run machine_places console_places = run_at (if machine o then machine_places else console_places)
