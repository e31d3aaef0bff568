-- ===== src/Agent/Diagnostics.antt =====
-- The diagnostics of the start (internal/agent/security.go): they go to the event log at once, and
-- wait for the log file.
use mathlib.Core.List.{append_assoc, append-nil}
use thesis_agent.Base.{
  ◌≡◌, refl, sym, ◌∙◌, Bool, true, false, List, [], ◌∷◌, ◌++◌, str_eq, if◌then◌else◌,
}
use thesis_agent.Protected.Repair.{Diagnostic}

-- `startupDiagnostics`, with what its two functions `event` and `file` were called with. A message
-- is the diagnostic that it prints.
pub record State : Type 0 where
  pub pending : List Diagnostic
  pub ready : Bool
  pub event : List (Diagnostic × Bool)
  pub file : List Diagnostic

abbrev pub fresh : State
fresh = record { pending = []; ready = false; event = []; file = [] }

abbrev pub fails : Diagnostic → Bool
fails d = str_eq d.action "fail_closed"

unfoldable pub report : Diagnostic → State → State
report d s =
    if s.ready
    then record s { file = s.file ++ d ∷ [] }
    else record s { pending = s.pending ++ d ∷ []; event = s.event ++ (d, fails d) ∷ [] }

unfoldable pub file_ready : State → State
file_ready s = record s { ready = true; file = s.file ++ s.pending; pending = [] }

unfoldable pub log_boundary_report : Diagnostic → State → State
log_boundary_report d s =
    if s.ready then record s { event = s.event ++ (d, true) ∷ [] } else report d s

-- The calls of the three methods.
pub data Call : Type 0 where
  reports : Diagnostic → Call
  opens_file : Call
  reports_log : Diagnostic → Call

abbrev pub call : State → Call → State
call s (reports d) = report d s
call s opens_file = file_ready s
call s (reports_log d) = log_boundary_report d s

unfoldable pub calls : State → List Call → State
calls s [] = s
calls s (x ∷ xs) = calls (call s x) xs

-- What belongs into the file: every report, and before the file is ready those of the log's
-- boundary as well.
abbrev pub for_file : Bool → List Call → List Diagnostic
for_file ready [] = []
for_file ready (reports d ∷ xs) = d ∷ for_file ready xs
for_file ready (opens_file ∷ xs) = for_file true xs
for_file true (reports_log d ∷ xs) = for_file true xs
for_file false (reports_log d ∷ xs) = d ∷ for_file false xs

-- What belongs into the event log: everything before the file is ready, and afterwards only the
-- reports of the log's boundary, as failures.
abbrev pub for_event : Bool → List Call → List (Diagnostic × Bool)
for_event ready [] = []
for_event true (reports d ∷ xs) = for_event true xs
for_event false (reports d ∷ xs) = (d, fails d) ∷ for_event false xs
for_event true (opens_file ∷ xs) = for_event true xs
for_event false (opens_file ∷ xs) = for_event true xs
for_event true (reports_log d ∷ xs) = (d, true) ∷ for_event true xs
for_event false (reports_log d ∷ xs) = (d, fails d) ∷ for_event false xs

record IsDelivered (s : State) (xs : List Call) : Type 0 where
  pub filed :
      (calls s xs).file ++ (calls s xs).pending ≡ (s.file ++ s.pending) ++ for_file s.ready xs
  pub evented : (calls s xs).event ≡ s.event ++ for_event s.ready xs
  pub waiting : (calls s xs).ready ≡ true → (calls s xs).pending ≡ []

abbrev state : Bool → List Diagnostic → List (Diagnostic × Bool) → List Diagnostic → State
state ready pending event file = record {
  pending = pending;
  ready = ready;
  event = event;
  file = file;
}

calls-IsDelivered :
    (ready : Bool) (pending : List Diagnostic) (event : List (Diagnostic × Bool))
    (file : List Diagnostic) (xs : List Call)
    → (ready ≡ true → pending ≡ [])
    → IsDelivered (state ready pending event file) xs
unfolding calls report file_ready log_boundary_report
calls-IsDelivered ready pending event file [] w = record {
  filed = sym (append-nil _);
  evented = sym (append-nil _);
  waiting = w;
}
calls-IsDelivered true pending event file (reports d ∷ xs) w =
    let rest = calls-IsDelivered true pending event (file ++ d ∷ []) xs w in
    record {
      filed = rest.filed ∙ rw (w refl) (simp (append-nil, append_assoc) refl);
      evented = rest.evented;
      waiting = rest.waiting;
    }
calls-IsDelivered false pending event file (reports d ∷ xs) w =
    let rest =
      calls-IsDelivered false (pending ++ d ∷ []) (event ++ (d, fails d) ∷ []) file xs (λ h. cc) in
    record {
      filed = rest.filed ∙ simp append_assoc refl;
      evented = rest.evented ∙ append_assoc event ((d, fails d) ∷ []) (for_event false xs);
      waiting = rest.waiting;
    }
calls-IsDelivered true pending event file (opens_file ∷ xs) w =
    let rest = calls-IsDelivered true [] event (file ++ pending) xs (λ h. refl) in
    record {
      filed = rest.filed ∙ simp append-nil refl;
      evented = rest.evented;
      waiting = rest.waiting;
    }
calls-IsDelivered false pending event file (opens_file ∷ xs) w =
    let rest = calls-IsDelivered true [] event (file ++ pending) xs (λ h. refl) in
    record {
      filed = rest.filed ∙ simp append-nil refl;
      evented = rest.evented;
      waiting = rest.waiting;
    }
calls-IsDelivered true pending event file (reports_log d ∷ xs) w =
    let rest = calls-IsDelivered true pending (event ++ (d, true) ∷ []) file xs w in
    record {
      filed = rest.filed;
      evented = rest.evented ∙ append_assoc event ((d, true) ∷ []) (for_event true xs);
      waiting = rest.waiting;
    }
calls-IsDelivered false pending event file (reports_log d ∷ xs) w =
    let rest =
      calls-IsDelivered false (pending ++ d ∷ []) (event ++ (d, fails d) ∷ []) file xs (λ h. cc) in
    record {
      filed = rest.filed ∙ simp append_assoc refl;
      evented = rest.evented ∙ append_assoc event ((d, fails d) ∷ []) (for_event false xs);
      waiting = rest.waiting;
    }

-- The diagnostics of a start are lost nowhere and told once: after any calls, the file and what
-- still waits for it are exactly what belongs into the file, in order; the event log is exactly what
-- belongs there; and once the file is ready nothing waits.
pub calls-delivers :
    (xs : List Call)
    → let s = calls fresh xs in
      (s.file ++ s.pending ≡ for_file false xs)
      × (s.event ≡ for_event false xs)
      × (s.ready ≡ true → s.pending ≡ [])
calls-delivers xs =
    let d = calls-IsDelivered false [] [] [] xs (λ h. refl) in (d.filed, d.evented, d.waiting)
