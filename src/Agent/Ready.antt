-- ===== src/Agent/Ready.antt =====
-- What stands behind the call of `ready` (internal/agent/runtime.go).
use thesis_agent.Base.{◌≡◌, Bool, true, false, some, [], Text, Unicode, any, ◌⊎◌, ◌≢◌}
use thesis_agent.Transport.{Net, Mode, mode}
use thesis_agent.Download.Destination.{Paths}
use thesis_agent.Agent.{
  Options, Places, Settings, Effect, ready_called, Run, Calls, is_empty, machine, is_production,
}
use thesis_agent.Agent.Checks.{HasEndpoints, HasLogPath, HasRoots}

abbrev is_ready : Effect → Bool
is_ready ready_called = true
is_ready _ = false

module _ (p : Paths) (n : Net) (u : Unicode) (fold : Text → Text → Bool) (o : Options) (at : Places)
    (c : Calls) where
  -- The run calls `ready`.
  abbrev pub CallsReady : Run → Type 0
  CallsReady r = any is_ready r.0 ≡ true

  -- From the identity on.
  pub record IsServing : Type 0 where
    pub identity : c.identity_loads ≡ true
    pub enrollment : c.enrollment_reads ≡ true
    pub serving : o.provision ≡ false
    pub downloads : c.downloads_start ≡ true

  -- The settings and the mode of a run that calls `ready`.
  pub record IsConfigured (s : Settings) : Type 0 where
    pub chosen :
        (m : Mode) × (mode u s.transport_mode (machine o) ≡ some m)
        × HasEndpoints p n u fold o at c s (is_production m)
    pub roots : (machine o ≡ true) ⊎ (s.download_roots ≢ []) → HasRoots p n u fold o at c s
    pub started : IsServing × (is_empty o.migration_source ≡ true)

-- What was checked before `ready` was called.
pub record IsReady (p : Paths) (n : Net) (u : Unicode) (fold : Text → Text → Bool) (o : Options)
    (at : Places) (c : Calls) : Type 0 where
  pub locked : c.locks ≡ true
  pub log_checked : HasLogPath p n u fold o at c
  pub log_open : c.log_opens ≡ true
  pub configured : (s : Settings) × (c.config ≡ some s) × IsConfigured p n u fold o at c s
