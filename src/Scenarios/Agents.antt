-- ===== src/Scenarios/Agents.antt =====
-- Runs of the agent, of its command line and its configuration.
use thesis_agent.Base.{to_lower}
use thesis_agent.Base.{
  length, ◌≤◌, All, ◌≡◌, refl, Bool, true, false, none, some, List, [], ◌∷◌, ◌++◌, ℕ, Text, codes,
  bytes_eq, bytes_eq_sound, str_eq, if◌then◌else◌, ap,
}
use thesis_agent.Agent.{migrate}
use thesis_agent.Base.{trim_space}
use thesis_agent.Scenarios.{ascii, url, net, slashes}
use thesis_agent.Transport.{Net}
use thesis_agent.Agent.{
  Effect, lock_taken, lock_released, config_read, log_opened, log_closed, file_ready, said,
  identity_loaded, enrollment_read, enrollment_ensured, client_created, client_closed,
  downloads_configured, power_mode, helper_started, helper_closed, session,
}
use thesis_agent.Agent.{Options, Places, Settings, Calls, run}
use thesis_agent.Agent.Order.{idle, follow, run-InOrder}
use thesis_agent.Agent.Diagnostics.{
  reports, opens_file, reports_log, Call, fresh, calls, for_file, for_event, calls-delivers,
}
use thesis_agent.Protected.Repair.{Diagnostic}
use thesis_agent.Protected.Descriptor.{unsafe_state}
use thesis_agent.Agent.Command.{Flags, Fits, choose, choose-Fits}
use thesis_agent.Config.{Environment, Go, lookup, load_lines}
use thesis_agent.Config.Precedence.{SameLaw, or_else, first_line, lookup-load_lines}
use thesis_agent.Inventory
use thesis_agent.Inventory.{App, Entry, max_apps, collect}
use thesis_agent.Inventory.Bounds.{IsBounded, collect-IsBounded}
use thesis_agent.Host.{ready_closed, ticked, requested, stop, stop_expired, start_host, execute}
use thesis_agent.Host.Ending.{execute-Returns}

abbrev keep_order : Inventory.Go
keep_order = record {
  unicode = ascii;
  encode = λ a. a.name;
  sort = λ apps. apps;
  cancelled = λ n. false;
}

abbrev editor : App
editor = record {
  name = codes " Editor ";
  version = codes "1.0";
  publisher = [];
  install_date = [];
  size = some 12;
}

abbrev trimmed : App
trimmed = record editor { name = codes "Editor" }

abbrev wide : List Entry
wide = record { key = codes "Editor"; app = editor } ∷ []

collected : collect keep_order (wide, false) (wide, false) ≡ some (trimmed ∷ [])
unfolding collect Inventory.read_view Inventory.visit Inventory.bounded trim_space to_lower
    Inventory.cut
collected = refl

collect-IsBounded_example : (length (trimmed ∷ []) ≤ max_apps) × All IsBounded (trimmed ∷ [])
collect-IsBounded_example =
    collect-IsBounded keep_order (wide, false) (wide, false) (trimmed ∷ [])
      (record { same_length = λ xs. refl; keeps = λ P xs h. h }) collected

abbrev secure_net : Net
secure_net = record net {
  parse_url = λ s.
      if str_eq s "https://api.example"
      then some (url "https" "api.example")
      else if str_eq s "wss://api.example/ws"
      then some (url "wss" "api.example")
      else none;
}

abbrev as_service : Options
as_service = record { service = true; provision = false; migration_source = [] }

abbrev places : Places
places = record {
  install = codes "/program";
  root = codes "/agent";
  identity = codes "/agent/agent_config.json";
  enrollment = codes "/agent/enrollment_state.json";
  config = codes "/agent/.env";
  log = codes "/agent/logs/agent.log";
  downloads = codes "/agent/data/downloads";
  lock = codes "/agent/.runtime.lock";
}

abbrev settings : Settings
settings = record {
  transport_mode = [];
  socket_url = "wss://api.example/ws";
  api_url = "https://api.example";
  download_roots = [];
  allow_local_http = false;
}

abbrev answers : Calls
answers = record {
  root_exists = true;
  locks = true;
  config = some settings;
  log_variable = [];
  downloads_variable = [];
  log_opens = true;
  migrates = true;
  identity_loads = true;
  identity_protected = true;
  enrollment_reads = true;
  enrolls = true;
  mock_power = false;
  downloads_start = true;
  announces = true;
  runs = false;
  cancelled = false;
  cancelled_at_end = false;
}

run-InOrder_example :
    follow idle (run slashes secure_net ascii bytes_eq as_service answers (some places) none).0
    ≡ some idle
run-InOrder_example =
    run-InOrder slashes secure_net ascii bytes_eq as_service answers (some places) none

abbrev effects_before : List Effect
effects_before =
    lock_taken
    ∷ config_read
    ∷ log_opened
    ∷ file_ready
    ∷ said "service starting"
    ∷ said "runtime starting"
    ∷ said "transport mode"
    ∷ identity_loaded
    ∷ said "agent identity successfully loaded"
    ∷ enrollment_read
    ∷ client_created
    ∷ power_mode "real"
    ∷ said "power controller mode"
    ∷ downloads_configured
    ∷ []

abbrev effects_behind : List Effect
effects_behind =
    enrollment_ensured
    ∷ helper_started
    ∷ said "Service mode: screen capture delegated to the interactive Desktop Helper"
    ∷ session
    ∷ helper_closed
    ∷ said "runtime stopping; releasing workers and connections"
    ∷ client_closed
    ∷ said "fatal startup/runtime error"
    ∷ said "runtime stopped"
    ∷ said "service stopped; runtime resources released"
    ∷ log_closed
    ∷ lock_released
    ∷ []

abbrev flags : Flags
flags = record {
  service = false;
  provision = true;
  migrate = codes "/old/agent_config.json";
  metadata = false;
  configure = false;
  migrate_key = false;
  verify_key = false;
  repair_acl = false;
  rest = 0;
}

choose-Fits_example : Fits flags (some false) true (choose flags (some false) true)
choose-Fits_example = choose-Fits flags (some false) true

abbrev go : Go
go = record {
  unicode = ascii;
  same = bytes_eq;
  settable = λ key. true;
  parse_int = λ s. none;
  parse_bool = λ s. none;
}

same_names : SameLaw go
same_names = record {
  same_right = λ x key other same. ap (bytes_eq x) (bytes_eq_sound key other same);
}

abbrev given : Environment
given = (codes "POWER_MODE", codes "mock") ∷ []

abbrev dot_env : List Text
dot_env =
    codes "# comment" ∷ codes "POWER_MODE=real" ∷ codes "export WS_SERVER_URL = 'wss://a'" ∷ []

lookup-load_lines_example :
    lookup go (codes "WS_SERVER_URL") (load_lines go given dot_env)
    ≡ or_else
        (lookup go (codes "WS_SERVER_URL") given)
        (first_line go (codes "WS_SERVER_URL") dot_env)
lookup-load_lines_example = lookup-load_lines go same_names (codes "WS_SERVER_URL") given dot_env

execute-Returns_example :
    (code : Bool × ℕ) × ((execute
        (ready_closed ∷ ticked ∷ requested stop ∷ ticked ∷ stop_expired ∷ [])
        start_host).0
      ≡ some code)
execute-Returns_example = execute-Returns (ready_closed ∷ ticked ∷ []) (ticked ∷ []) []

abbrev diagnostic : Diagnostic
diagnostic = record {
  path = "C:\\agent";
  classification = unsafe_state;
  reason = "untrusted_owner";
  action = "fail_closed";
  owner = none;
  principal = none;
  mask = 0;
  scope = "critical";
}

abbrev told : List Call
told = reports diagnostic ∷ opens_file ∷ reports_log diagnostic ∷ []

calls-delivers_example :
    let s = calls fresh told in
    (s.file ++ s.pending ≡ for_file false told)
    × (s.event ≡ for_event false told)
    × (s.ready ≡ true → s.pending ≡ [])
calls-delivers_example = calls-delivers told
