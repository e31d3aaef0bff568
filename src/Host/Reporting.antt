-- ===== src/Host/Reporting.antt =====
-- What the service control manager sees of the service (internal/servicehost/host_windows.go).
use thesis_agent.Base.{
  ℕ, ◌≡◌, inl, inr, refl, Bool, true, false, not, ◌&&◌, some, List, [], ◌∷◌, arith, ap, subst, sym,
  ◌∙◌, any, Bool-cases, Option-cases,
}
use thesis_agent.Host.{
  Status, start_pending, stop_pending, running, interrogate, stop, shutdown, other, Event,
  ready_closed, requests_closed, startup_expired, ticked, stop_expired, requested, done, Host,
  start_host, report, begin_stop, next_point, on_tick, enabled, handle, exit_code, execute,
}

-- A status that may follow another: the pending states count their check point up or repeat it, the
-- start leads to running or to a stop, and nothing leads out of a stop.
pub data Follows : Status → Status → Type 0 where
  repeated : (s : Status) → Follows s s
  starting : (n : ℕ) → Follows (start_pending n) (start_pending (next_point n))
  started : (n : ℕ) → Follows (start_pending n) running
  start_stopped : (n : ℕ) → Follows (start_pending n) (stop_pending 1)
  stopped : Follows running (stop_pending 1)
  stopping_on : (n : ℕ) → Follows (stop_pending n) (stop_pending (next_point n))

-- Every status of a list that is newest first follows the one before it.
pub data IsLegal : List Status → Type 0 where
  first : (n : ℕ) → IsLegal (start_pending n ∷ [])
  more :
      {s t : Status} {rest : List Status}
      → Follows t s
      → IsLegal (t ∷ rest)
      → IsLegal (s ∷ t ∷ rest)

abbrev is_stop : Status → Bool
is_stop (stop_pending _) = true
is_stop _ = false

abbrev is_start : Status → Bool
is_start (start_pending _) = true
is_start _ = false

-- The locals agree: the status is the last one that was sent, a stop was begun exactly where it is
-- a pending stop, and it is a pending start only while `ready` is awaited.
pub record IsConsistent (h : Host) : Type 0 where
  pub sent : (rest : List Status) × (h.statuses ≡ h.status ∷ rest) × IsLegal (h.status ∷ rest)
  pub stop_status : h.stopping ≡ is_stop h.status
  pub stop_cancels : h.cancelled ≡ h.stopping
  pub stop_bounded : h.stop_deadline ≡ h.stopping
  pub awaits_ready : is_start h.status ≡ h.ready && not h.stopping

abbrev IsSent : Host → Type 0
IsSent h = (rest : List Status) × (h.statuses ≡ h.status ∷ rest) × IsLegal (h.status ∷ rest)

report-IsSent : (h : Host) (s : Status) → IsSent h → Follows h.status s → IsSent (report s h)
unfolding report
report-IsSent h s v f =
    let (rest, same, legal) = v in (h.status ∷ rest, ap (λ l. s ∷ l) same, more f legal)

begin_stop-Follows : (s : Status) → is_stop s ≡ false → Follows s (stop_pending 1)
begin_stop-Follows (start_pending n) h = start_stopped n
begin_stop-Follows running h = stopped
begin_stop-Follows (stop_pending n) h = cc

begin_stop-IsSent : (h : Host) → IsConsistent h → IsSent (begin_stop h)
unfolding begin_stop
begin_stop-IsSent h v = elim (Bool-cases h.stopping) [
  | inl e ↦ simp e v.sent
  | inr e ↦
      let fresh : is_stop h.status ≡ false = cc in
      simp e (report-IsSent h (stop_pending 1) v.sent (begin_stop-Follows h.status fresh))
]

begin_stop-IsConsistent : (h : Host) → IsConsistent h → IsConsistent (begin_stop h)
unfolding begin_stop report
begin_stop-IsConsistent h v = record {
  sent = begin_stop-IsSent h v;
  stop_status = ground (arith, v.stop_status);
  stop_cancels = ground (arith, v.stop_cancels);
  stop_bounded = ground (arith, v.stop_bounded);
  awaits_ready = ground (arith, v.awaits_ready);
}

on_tick-IsSent : (h : Host) (s : Status) → h.status ≡ s → IsSent h → IsSent (on_tick h)
unfolding on_tick
on_tick-IsSent h (start_pending n) e v =
    let next = report (start_pending (next_point n)) h in
    let same : on_tick h ≡ next = ground (arith, e) in
    subst IsSent (sym same) (report-IsSent h (start_pending (next_point n)) v (simp e (starting n)))
on_tick-IsSent h (stop_pending n) e v =
    let next = report (stop_pending (next_point n)) h in
    let same : on_tick h ≡ next = ground (arith, e) in
    subst IsSent (sym same)
      (report-IsSent h (stop_pending (next_point n)) v (simp e (stopping_on n)))
on_tick-IsSent h running e v =
    let same : on_tick h ≡ h = ground (arith, e) in subst IsSent (sym same) v

start-Follows : (s : Status) → is_start s ≡ true → Follows s running
start-Follows (start_pending n) h = started n
start-Follows running h = cc
start-Follows (stop_pending n) h = cc

ready-IsSent : (h : Host) → h.ready ≡ true → IsConsistent h → IsSent (handle ready_closed h)
unfolding handle
ready-IsSent h r v = elim (Bool-cases h.stopping) [
  | inl e ↦ simp e v.sent
  | inr e ↦
      let awaits : is_start h.status ≡ true = ground (arith, v.awaits_ready) in
      let seen = record h { ready = false; startup_deadline = false } in
      simp e (report-IsSent seen running v.sent (start-Follows h.status awaits))
]

on_tick-IsConsistent : (h : Host) → IsConsistent h → IsConsistent (on_tick h)
unfolding on_tick report
on_tick-IsConsistent h v = record {
  sent = on_tick-IsSent h h.status refl v.sent;
  stop_status = ground (arith, v.stop_status);
  stop_cancels = ground (arith, v.stop_cancels);
  stop_bounded = ground (arith, v.stop_bounded);
  awaits_ready = ground (arith, v.awaits_ready);
}

ready-IsConsistent :
    (h : Host) → h.ready ≡ true → IsConsistent h → IsConsistent (handle ready_closed h)
unfolding handle report
ready-IsConsistent h r v = record {
  sent = ready-IsSent h r v;
  stop_status = ground (arith, v.stop_status);
  stop_cancels = ground (arith, v.stop_cancels);
  stop_bounded = ground (arith, v.stop_bounded);
  awaits_ready = ground (arith, v.awaits_ready, v.stop_status);
}

handle-IsConsistent :
    (e : Event) (h : Host) → enabled e h ≡ true → IsConsistent h → IsConsistent (handle e h)
unfolding handle enabled
handle-IsConsistent ready_closed h r v = ready-IsConsistent h r v
handle-IsConsistent (requested interrogate) h r v = record {
  sent = report-IsSent h h.status v.sent (repeated h.status);
  stop_status = unfold report in v.stop_status;
  stop_cancels = unfold report in v.stop_cancels;
  stop_bounded = unfold report in v.stop_bounded;
  awaits_ready = unfold report in v.awaits_ready;
}
handle-IsConsistent (requested stop) h r v = begin_stop-IsConsistent h v
handle-IsConsistent (requested shutdown) h r v = begin_stop-IsConsistent h v
handle-IsConsistent (requested other) h r v = v
handle-IsConsistent requests_closed h r v =
    let w = begin_stop-IsConsistent h v in
    record {
      sent = w.sent;
      stop_status = w.stop_status;
      stop_cancels = w.stop_cancels;
      stop_bounded = w.stop_bounded;
      awaits_ready = w.awaits_ready;
    }
handle-IsConsistent startup_expired h r v =
    begin_stop-IsConsistent (record h { startup_deadline = false })
      (record {
        sent = v.sent;
        stop_status = v.stop_status;
        stop_cancels = v.stop_cancels;
        stop_bounded = v.stop_bounded;
        awaits_ready = v.awaits_ready;
      })
handle-IsConsistent ticked h r v = on_tick-IsConsistent h v
handle-IsConsistent (done _) h r v = v
handle-IsConsistent stop_expired h r v = v

-- Whatever the loop receives, in any order, from consistent locals: the statuses that it sends form
-- a legal sequence, from a pending start over running to a pending stop that nothing leaves, and
-- the context is cancelled and the deadline of 20 seconds set exactly where the status says stop.
pub execute-IsConsistent :
    (events : List Event) (h : Host) → IsConsistent h → IsConsistent (execute events h).1
unfolding execute
execute-IsConsistent [] h v = v
execute-IsConsistent (e ∷ events) h v = elim (Bool-cases (enabled e h)) [
  | inr off ↦ simp off (execute-IsConsistent events h v)
  | inl on ↦
      let rest = execute-IsConsistent events (handle e h) (handle-IsConsistent e h on v) in
      elim (Option-cases (exit_code e)) [
        | inl stays ↦ simp (on, stays) rest
        | inr (code, leaves) ↦ simp (on, leaves) v
      ]
]

abbrev pub returns_well : Event → Bool
returns_well (done false) = true
returns_well _ = false

exit_code_success : (e : Event) → exit_code e ≡ some (false, 0) → returns_well e ≡ true
unfolding exit_code
exit_code_success (done false) h = refl
exit_code_success (done true) h = ground arith
exit_code_success stop_expired h = ground arith
exit_code_success ready_closed h = cc
exit_code_success requests_closed h = cc
exit_code_success startup_expired h = cc
exit_code_success ticked h = cc
exit_code_success (requested _) h = cc

exit_code_forced :
    (e : Event) (h : Host)
    → IsConsistent h
    → enabled e h ≡ true
    → exit_code e ≡ some (true, 2)
    → h.cancelled ≡ true
unfolding exit_code enabled
exit_code_forced (done false) h v on k = ground arith
exit_code_forced (done true) h v on k = ground arith
exit_code_forced stop_expired h v on k = ground (arith, v.stop_cancels, v.stop_bounded)
exit_code_forced ready_closed h v on k = cc
exit_code_forced requests_closed h v on k = cc
exit_code_forced startup_expired h v on k = cc
exit_code_forced ticked h v on k = cc
exit_code_forced (requested _) h v on k = cc

-- The loop answers success only where the runtime returned without an error, and the code 2 of a
-- forced exit only after it cancelled the runtime.
pub execute_code :
    (events : List Event) (h : Host)
    → IsConsistent h
    → ((execute events h).0 ≡ some (false, 0) → any returns_well events ≡ true)
      × ((execute events h).0 ≡ some (true, 2) → (execute events h).1.cancelled ≡ true)
unfolding execute
execute_code [] h v = (λ k. cc, λ k. cc)
execute_code (e ∷ events) h v = elim (Bool-cases (enabled e h)) [
  | inr off ↦ let rest = execute_code events h v in simp off (λ k. ground (arith, rest.0 k), rest.1)
  | inl on ↦
      let rest = execute_code events (handle e h) (handle-IsConsistent e h on v) in
      elim (Option-cases (exit_code e)) [
        | inl stays ↦ simp (on, stays) (λ k. ground (arith, rest.0 k), rest.1)
        | inr (code, leaves) ↦
            simp (on, leaves)
              (
                λ k. let won = exit_code_success e (leaves ∙ k) in ground (arith, won),
                λ k. exit_code_forced e h v on (leaves ∙ k),
              )
      ]
]

-- The locals before the loop are consistent.
pub start_host-IsConsistent : IsConsistent start_host
unfolding start_host
start_host-IsConsistent = record {
  sent = ([], refl, first 1);
  stop_status = refl;
  stop_cancels = refl;
  stop_bounded = refl;
  awaits_ready = refl;
}
