-- ===== src/Scenarios/Services.antt =====
-- Runs of the service host, the antivirus manager, the log and the enrollment loop.
use thesis_agent.Base.{
  ◌≢◌, refl, true, false, if◌then◌else◌, ◌==◌, none, some, List, [], ◌∷◌, arith, ℕ,
}
use thesis_agent.Host.{Event, ready_closed, requested, stop, ticked, done, start_host, execute}
use thesis_agent.Host.Reporting.{IsConsistent, start_host-IsConsistent, execute-IsConsistent}
use thesis_agent.Antivirus.{Command, Files, new_manager, submit}
use thesis_agent.Antivirus.Lifecycle.{here, next, submitted, IsBalanced, Reach-IsBalanced}
use thesis_agent.Logging.{RotatingLog, System, write}
use thesis_agent.Logging.Rotation.{IsWithin, write-IsWithin}
use thesis_agent.Identity.Store.{
  Round, not_found, temporary, out_of_rounds, Marker, ensure_enrollment,
}
use thesis_agent.Identity.Store.Enrolling.{ensure_enrollment-ends}

abbrev events : List Event
events = ready_closed ∷ ticked ∷ requested stop ∷ ticked ∷ done false ∷ []

execute-IsConsistent_example : IsConsistent (execute events start_host).1
execute-IsConsistent_example = execute-IsConsistent events start_host start_host-IsConsistent

abbrev files : Files
files = record { trim = λ s. s; size = λ s. 4; is_abs = λ s. true; exists = λ s. true }

abbrev quick : Command
quick = record { request_id = "scan"; scan_type = "quick"; path = "" }

Reach-IsBalanced_example : IsBalanced (submit files quick new_manager)
Reach-IsBalanced_example =
    Reach-IsBalanced files (submit files quick new_manager) (next here (submitted quick))

-- A log of at most four bytes with two backups.
abbrev log : RotatingLog
log = record {
  limit = 4;
  size = 3;
  backups = 2;
  is_open = true;
  disk = λ i. if i == 0 then some (1 ∷ 2 ∷ 3 ∷ []) else if i == 1 then some (9 ∷ []) else none;
}

abbrev healthy : System
healthy = record {
  opens = true;
  closes = true;
  removes = λ i. true;
  renames = λ i. true;
  short_write = none;
}

log-IsWithin : IsWithin log
log-IsWithin = record {
  has_backups = omega arith;
  counted = λ h. refl;
  bounded = λ i. ground arith;
}

write-IsWithin_example : IsWithin (write healthy (4 ∷ 5 ∷ []) log).log
write-IsWithin_example = write-IsWithin healthy (4 ∷ 5 ∷ []) log log-IsWithin

-- The server fails twice, and then does not know the agent.
abbrev rounds : ℕ → Round
rounds n = record {
  cancelled = false;
  exists = if n == 2 then not_found else temporary;
  cancelled_waiting = false;
  marker_cleared = true;
  registers = true;
  marker_set = true;
}

abbrev marker : Marker
marker = record { marker = none; registrations = 0; waits = 0 }

rounds_end : (rounds 2).exists ≢ temporary
rounds_end h = ground arith

ensure_enrollment-ends_example : (ensure_enrollment 5 false rounds 0 marker).0 ≢ out_of_rounds
ensure_enrollment-ends_example =
    ensure_enrollment-ends 2 5 false rounds 0 2 marker rounds_end refl (omega arith)
