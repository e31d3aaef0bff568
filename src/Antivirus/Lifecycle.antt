-- ===== src/Antivirus/Lifecycle.antt =====
-- The antivirus manager as a transition system: submissions, closing and the steps of the
-- goroutine interleave in any order (antivirus/scan.go).
use thesis_agent.Base.{
  ℕ, ◌+◌, ◌≡◌, refl, Bool, true, false, ◌&&◌, not, Option, none, some, List, [], ◌∷◌, String, arith,
  if◌then◌else◌, length, str_eq,
}
use thesis_agent.Antivirus.{
  Command, Report, Result, Files, Phase, accepted, scanning, reported, Scan, Manager, new_manager,
  emit, reject, validate, submit, running_event, result_event, begin, report_scan, release, close,
}

abbrev phase_of : List Scan → Option Phase
phase_of [] = none
phase_of (s ∷ rest) = some s.phase

pub data Step (f : Files) (m : Manager) : Manager → Type 0 where
  submitted : (c : Command) → Step f m (submit f c m)
  closing : Step f m (close m)
  begun : phase_of m.scans ≡ some accepted → Step f m (begin m)
  scanned :
      (report : Report) (failure ctx_err : Option String)
      → phase_of m.scans ≡ some scanning
      → Step f m (report_scan report failure ctx_err m)
  released : phase_of m.scans ≡ some reported → Step f m (release m)

pub data Reach (f : Files) (m : Manager) : Manager → Type 0 where
  here : Reach f m m
  next : {t v : Manager} → Reach f m t → Step f t v → Reach f m v

-- The events that say that a scan runs, and the results that are no rejections.
abbrev is_running : Result → Bool
is_running r = str_eq r.status "running"

abbrev is_outcome : Result → Bool
is_outcome r = not (str_eq r.status "running") && not (str_eq r.status "rejected")

abbrev pub running_count : List Result → ℕ
running_count [] = 0
running_count (r ∷ rest) = (if is_running r then 1 else 0) + running_count rest

abbrev pub outcome_count : List Result → ℕ
outcome_count [] = 0
outcome_count (r ∷ rest) = (if is_outcome r then 1 else 0) + outcome_count rest

abbrev pub under_way : List Scan → ℕ
under_way [] = 0
under_way (s ∷ rest) =
    (elim s.phase [ accepted ↦ 0 | scanning ↦ 1 | reported ↦ 0 ]) + under_way rest

-- At most one goroutine, `busy` exactly while there is one, and as many "running" events as
-- outcomes and scans under way.
pub record IsBalanced (m : Manager) : Type 0 where
  pub one_scan : length m.scans ≡ (if m.busy then 1 else 0)
  pub balanced : running_count m.sent ≡ outcome_count m.sent + under_way m.scans

reject-IsBalanced :
    (c : Command) (reason : String) (m : Manager) → IsBalanced m → IsBalanced (reject c reason m)
unfolding reject emit
reject-IsBalanced c reason m v = record {
  one_scan = v.one_scan;
  balanced = ground (arith, v.balanced);
}

submit-IsBalanced :
    (f : Files) (c : Command) (m : Manager) → IsBalanced m → IsBalanced (submit f c m)
unfolding submit
submit-IsBalanced f c m v = record {
  one_scan = ground (arith, v.one_scan);
  balanced = ground (arith, v.balanced);
}

begin-IsBalanced :
    (m : Manager) → phase_of m.scans ≡ some accepted → IsBalanced m → IsBalanced (begin m)
unfolding begin emit running_event
begin-IsBalanced m h v = record {
  one_scan = ground (arith, v.one_scan, h);
  balanced = ground (arith, v.balanced, h);
}

result_event_outcome :
    (c : Command) (report : Report) (failure ctx_err : Option String)
    → (is_running (result_event c report failure ctx_err) ≡ false)
      × (is_outcome (result_event c report failure ctx_err) ≡ true)
unfolding result_event running_event
result_event_outcome c report none none = (refl, refl)
result_event_outcome c report none (some e) = (refl, refl)
result_event_outcome c report (some e) none = (refl, refl)
result_event_outcome c report (some e) (some e') = (refl, refl)

report_scan-IsBalanced :
    (report : Report) (failure ctx_err : Option String) (m : Manager)
    → phase_of m.scans ≡ some scanning
    → IsBalanced m
    → IsBalanced (report_scan report failure ctx_err m)
unfolding report_scan emit
report_scan-IsBalanced report failure ctx_err m h v = record {
  one_scan = ground (arith, v.one_scan, h);
  balanced = grind (arith, v.balanced, h, result_event_outcome);
}

release-IsBalanced :
    (m : Manager) → phase_of m.scans ≡ some reported → IsBalanced m → IsBalanced (release m)
unfolding release
release-IsBalanced m h v = record {
  one_scan = ground (arith, v.one_scan, h);
  balanced = ground (arith, v.balanced, h);
}

Step-IsBalanced : {f : Files} {m t : Manager} → IsBalanced m → Step f m t → IsBalanced t
Step-IsBalanced {f} {m} v (submitted c) = submit-IsBalanced f c m v
Step-IsBalanced v closing = unfold close in record { one_scan = v.one_scan; balanced = v.balanced }
Step-IsBalanced {f} {m} v (begun h) = begin-IsBalanced m h v
Step-IsBalanced {f} {m} v (scanned report failure ctx_err h) =
    report_scan-IsBalanced report failure ctx_err m h v
Step-IsBalanced {f} {m} v (released h) = release-IsBalanced m h v

-- In every reachable state at most one scan goroutine exists, `busy` says exactly whether one does,
-- and the "running" events are as many as the outcomes and the scans under way together.
pub Reach-IsBalanced : (f : Files) (m : Manager) → Reach f new_manager m → IsBalanced m
Reach-IsBalanced f m here = unfold new_manager in record { one_scan = refl; balanced = refl }
Reach-IsBalanced f m (next {t} r st) = Step-IsBalanced (Reach-IsBalanced f t r) st

-- A valid command starts a scan exactly where the manager is neither closed nor busy, and one
-- event is added exactly where it is busy and not closed, none otherwise.
pub submit_valid :
    (f : Files) (c : Command) (m : Manager)
    → validate f c ≡ none
    → (length (submit f c m).scans ≡ length m.scans + (if not m.closed && not m.busy then 1 else 0))
      × (length (submit f c m).sent ≡ length m.sent + (if not m.closed && m.busy then 1 else 0))
unfolding submit reject emit
submit_valid f c m h = (ground (arith, h), ground (arith, h))
