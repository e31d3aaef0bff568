-- ===== src/Host.antt =====
-- The Windows service (`Execute` of internal/servicehost/host_windows.go): the state that the
-- select loop keeps, and one round for each channel that it can receive from. The wait hints and
-- the event log's texts are left out.
pub mod Reporting
pub mod Ending
use thesis_agent.Base.{
  ℕ, ◌+◌, ◌%◌, ◌^◌, Bool, true, false, not, ◌&&◌, Option, none, some, List, [], ◌∷◌, if◌then◌else◌,
}

-- `svc.Status`, with the check point (a uint32) of a pending state.
pub data Status : Type 0 where
  start_pending stop_pending : ℕ → Status
  running : Status

pub data Request : Type 0 where
  interrogate stop shutdown other : Request

-- What the loop receives: `ready` closed, a request, `requests` closed, the two deadlines, the
-- ticker, and the runtime's return, true for an error.
pub data Event : Type 0 where
  ready_closed requests_closed startup_expired ticked stop_expired : Event
  requested : Request → Event
  done : Bool → Event

-- The locals of `Execute`. `statuses` holds what was sent, newest first; a channel that is nil or a
-- timer that was stopped or has fired is false.
pub record Host : Type 0 where
  pub status : Status
  pub statuses : List Status
  pub ready : Bool
  pub requests : Bool
  pub startup_deadline : Bool
  pub stop_deadline : Bool
  pub stopping : Bool
  pub cancelled : Bool

-- The locals before the loop.
unfoldable pub start_host : Host
start_host = record {
  status = start_pending 1;
  statuses = start_pending 1 ∷ [];
  ready = true;
  requests = true;
  startup_deadline = true;
  stop_deadline = false;
  stopping = false;
  cancelled = false;
}

-- `status = …; statuses <- status`.
unfoldable pub report : Status → Host → Host
report s h = record h { status = s; statuses = s ∷ h.statuses }

-- `beginStop`.
unfoldable pub begin_stop : Host → Host
unfolding report
begin_stop h = if h.stopping then h else record (report (stop_pending 1) h) {
  stopping = true;
  cancelled = true;
  stop_deadline = true;
}

-- `status.CheckPoint++`, on a uint32.
abbrev pub next_point : ℕ → ℕ
next_point n = (n + 1) % 2 ^ 32

unfoldable pub on_tick : Host → Host
unfolding report
on_tick h = elim h.status [
  | start_pending n ↦ report (start_pending (next_point n)) h
  | stop_pending n ↦ report (stop_pending (next_point n)) h
  | running ↦ h
]

-- Whether the select can take the case of an event.
unfoldable pub enabled : Event → Host → Bool
enabled ready_closed h = h.ready
enabled (requested _) h = h.requests
enabled requests_closed h = h.requests
enabled startup_expired h = h.startup_deadline
enabled ticked h = true
enabled (done _) h = true
enabled stop_expired h = h.stop_deadline

-- A round of the loop that does not return.
unfoldable pub handle : Event → Host → Host
unfolding report begin_stop on_tick
handle ready_closed h =
    let seen = record h { ready = false; startup_deadline = false } in
    if not h.stopping then report running seen else seen
handle (requested interrogate) h = report h.status h
handle (requested stop) h = begin_stop h
handle (requested shutdown) h = begin_stop h
handle (requested other) h = h
handle requests_closed h = record (begin_stop h) { requests = false }
handle startup_expired h = begin_stop (record h { startup_deadline = false })
handle ticked h = on_tick h
handle (done _) h = h
handle stop_expired h = h

-- The exit code of the rounds that return; the flag is `svcSpecificEC`.
unfoldable pub exit_code : Event → Option (Bool × ℕ)
exit_code (done true) = some (true, 1)
exit_code (done false) = some (false, 0)
exit_code stop_expired = some (true, 2)
exit_code _ = none

-- The loop over a sequence of events, in which a channel that is not ready is passed over; `none`
-- where it has not returned at the end of the events.
unfoldable pub execute : List Event → Host → Option (Bool × ℕ) × Host
unfolding enabled handle exit_code
execute [] h = (none, h)
execute (e ∷ events) h =
    let skipped = execute events h in
    let rest = execute events (handle e h) in
    if not (enabled e h)
    then skipped
    else elim (exit_code e) [ some code ↦ (some code, h) | none ↦ rest ]
