-- ===== src/Antivirus.antt =====
-- The antivirus manager (antivirus/scan.go): one scan at a time, with a "running" event and one
-- result for each. Times are left out of the events.
pub mod Lifecycle
use thesis_agent.Base.{
  ℕ, ◌+◌, Bool, true, false, not, ◌||◌, Option, none, some, List, [], ◌∷◌, String, if◌then◌else◌,
  ltb, str_eq, codes, ℤ, any, ◌==◌,
}

pub record Command : Type 0 where
  pub request_id : String
  pub scan_type : String
  pub path : String

pub record Report : Type 0 where
  pub exit_code : ℤ
  pub output : String
  pub output_truncated : Bool

pub record Result : Type 0 where
  pub kind : String
  pub request_id : String
  pub scan_type : String
  pub status : String
  pub report : Option Report
  pub error : Option String

-- What `Validate` takes from other packages: strings.TrimSpace, the bytes of a string,
-- filepath.IsAbs and whether os.Stat finds the path.
pub record Files : Type 0 where
  pub trim : String → String
  pub size : String → ℕ
  pub is_abs : String → Bool
  pub exists : String → Bool

-- strings.ContainsAny(path, "\x00*?\"").
abbrev has_wildcard : String → Bool
has_wildcard path = any (λ c. any (λ d. c == d) (0 ∷ codes "*?\"")) (codes path)

-- `Validate`; `none` is no error.
unfoldable pub validate : Files → Command → Option String
validate f c =
    if str_eq (f.trim c.request_id) "" || ltb 128 (f.size c.request_id)
    then some "request_id must contain 1-128 bytes"
    else if str_eq c.scan_type "quick" || str_eq c.scan_type "full"
    then (if not (str_eq c.path "") then some "path is only supported for custom scans" else none)
    else if str_eq c.scan_type "custom"
    then (if not (f.is_abs c.path) || has_wildcard c.path
        then some "custom scan requires an absolute file or directory path without wildcards"
        else if not (f.exists c.path)
        then some "custom path"
        else none)
    else some "scan_type must be quick, custom or full"

-- Where the goroutine of a scan is: before its first event, scanning, or past its result and
-- before the deferred function that clears `busy`.
pub data Phase : Type 0 where
  accepted scanning reported : Phase

pub record Scan : Type 0 where
  pub command : Command
  pub phase : Phase

-- The manager, its goroutines that have not ended, and the events handed to `send`, newest first.
pub record Manager : Type 0 where
  pub closed : Bool
  pub busy : Bool
  -- The context of the scan whose `cancel` the manager keeps was cancelled.
  pub cancelled : Bool
  pub scans : List Scan
  pub sent : List Result

unfoldable pub new_manager : Manager
new_manager = record { closed = false; busy = false; cancelled = false; scans = []; sent = [] }

unfoldable pub emit : Result → Manager → Manager
emit r m = record m { sent = r ∷ m.sent }

-- `Reject`.
unfoldable pub reject : Command → String → Manager → Manager
unfolding emit
reject c reason m =
    emit
      (record {
        kind = "virus_scan_result";
        request_id = c.request_id;
        scan_type = c.scan_type;
        status = "rejected";
        report = none;
        error = some reason;
      })
      m

-- `Submit`, up to the start of the goroutine.
unfoldable pub submit : Files → Command → Manager → Manager
unfolding reject
submit f c m = elim (validate f c) [
  | some reason ↦ reject c reason m
  | none ↦
      if m.closed then m else if m.busy then reject c "another scan is running" m else record m {
        busy = true;
        cancelled = false;
        scans = record { command = c; phase = accepted } ∷ m.scans;
      }
]

-- The first event of the goroutine.
unfoldable pub running_event : Command → Result
running_event c = record {
  kind = "virus_scan_status";
  request_id = c.request_id;
  scan_type = c.scan_type;
  status = "running";
  report = none;
  error = none;
}

-- The last event of the goroutine, from what the scanner returned and the context's error.
unfoldable pub result_event : Command → Report → Option String → Option String → Result
unfolding running_event
result_event c report failure ctx_err =
    let done = record (running_event c) {
      kind = "virus_scan_result";
      status = "completed";
      report = some report;
    } in
    let checked : Result = elim failure [
      | none ↦ done
      | some e ↦ record done { status = "failed"; error = some e }
    ] in
    elim ctx_err [
      | none ↦ checked
      | some e ↦ record checked { status = "cancelled"; error = some e }
    ]

-- The three steps of the goroutine that is the newest one.
unfoldable pub begin : Manager → Manager
unfolding emit running_event
begin m = elim m.scans [
  | [] ↦ m
  | s ∷ rest ↦
      emit (running_event s.command) (record m { scans = record s { phase = scanning } ∷ rest })
]

unfoldable pub report_scan : Report → Option String → Option String → Manager → Manager
unfolding emit result_event
report_scan report failure ctx_err m = elim m.scans [
  | [] ↦ m
  | s ∷ rest ↦
      emit (result_event s.command report failure ctx_err)
        (record m { scans = record s { phase = reported } ∷ rest })
]

unfoldable pub release : Manager → Manager
release m = elim m.scans [ [] ↦ m | s ∷ rest ↦ record m { busy = false; scans = rest } ]

-- `Close`, up to its wait.
unfoldable pub close : Manager → Manager
close m = record m { closed = true; cancelled = true }
