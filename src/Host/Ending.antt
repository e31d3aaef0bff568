-- ===== src/Host/Ending.antt =====
-- That the service ends (internal/servicehost/host_windows.go).
use thesis_agent.Base.{
  ℕ, ◌≡◌, ◌≢◌, inl, inr, refl, sym, ◌∙◌, Bool, true, false, none, some, List, [], ◌∷◌, ◌++◌, arith,
  Bool-cases, Option-cases,
}
use thesis_agent.Host.{
  Status, start_pending, stop_pending, running, interrogate, stop, shutdown, other, Event,
  ready_closed, requests_closed, startup_expired, ticked, stop_expired, requested, done, Host,
  start_host, report, begin_stop, on_tick, enabled, handle, exit_code, execute,
}

-- The deadline of a stop runs once a stop was begun, and the requests end only with a stop.
record IsArmed (h : Host) : Type 0 where
  pub if_stopping : h.stopping ≡ true → h.stop_deadline ≡ true
  pub if_deaf : h.requests ≡ false → h.stop_deadline ≡ true

begin_stop-deadline : (h : Host) → IsArmed h → (begin_stop h).stop_deadline ≡ true
unfolding begin_stop report
begin_stop-deadline h a = elim (Bool-cases h.stopping) [
  | inl s ↦ rw s (a.if_stopping s)
  | inr s ↦ rw s refl
]

-- A tick leaves the locals alone that matter here.
record IsTicked (h : Host) : Type 0 where
  pub same_stopping : (on_tick h).stopping ≡ h.stopping
  pub same_deadline : (on_tick h).stop_deadline ≡ h.stop_deadline
  pub same_requests : (on_tick h).requests ≡ h.requests

on_tick-IsTicked : (h : Host) (s : Status) → h.status ≡ s → IsTicked h
unfolding on_tick report
on_tick-IsTicked h (start_pending n) e = record {
  same_stopping = rw e refl;
  same_deadline = rw e refl;
  same_requests = rw e refl;
}
on_tick-IsTicked h (stop_pending n) e = record {
  same_stopping = rw e refl;
  same_deadline = rw e refl;
  same_requests = rw e refl;
}
on_tick-IsTicked h running e = record {
  same_stopping = rw e refl;
  same_deadline = rw e refl;
  same_requests = rw e refl;
}

handle-deadline :
    (e : Event) (h : Host) → h.stop_deadline ≡ true → (handle e h).stop_deadline ≡ true
unfolding handle begin_stop report on_tick
handle-deadline ready_closed h d = ground arith
handle-deadline (requested interrogate) h d = d
handle-deadline (requested stop) h d = ground arith
handle-deadline (requested shutdown) h d = ground arith
handle-deadline (requested other) h d = d
handle-deadline requests_closed h d = ground arith
handle-deadline startup_expired h d = ground arith
handle-deadline ticked h d = (on_tick-IsTicked h h.status refl).same_deadline ∙ d
handle-deadline (done _) h d = d
handle-deadline stop_expired h d = d

handle-IsArmed : (e : Event) (h : Host) → IsArmed h → IsArmed (handle e h)
unfolding handle begin_stop report on_tick
handle-IsArmed ready_closed h a = record {
  if_stopping = λ s. ground (arith, a.if_stopping);
  if_deaf = λ s. ground (arith, a.if_deaf);
}
handle-IsArmed (requested interrogate) h a = record {
  if_stopping = a.if_stopping;
  if_deaf = a.if_deaf;
}
handle-IsArmed (requested stop) h a = record {
  if_stopping = λ _. begin_stop-deadline h a;
  if_deaf = λ _. begin_stop-deadline h a;
}
handle-IsArmed (requested shutdown) h a = record {
  if_stopping = λ _. begin_stop-deadline h a;
  if_deaf = λ _. begin_stop-deadline h a;
}
handle-IsArmed (requested other) h a = a
handle-IsArmed requests_closed h a = record {
  if_stopping = λ _. begin_stop-deadline h a;
  if_deaf = λ _. begin_stop-deadline h a;
}
handle-IsArmed startup_expired h a =
    let armed =
      begin_stop-deadline (record h { startup_deadline = false })
        (record { if_stopping = a.if_stopping; if_deaf = a.if_deaf }) in
    record { if_stopping = λ _. armed; if_deaf = λ _. armed }
handle-IsArmed ticked h a =
    let t = on_tick-IsTicked h h.status refl in
    record {
      if_stopping = λ s. t.same_deadline ∙ a.if_stopping (sym t.same_stopping ∙ s);
      if_deaf = λ s. t.same_deadline ∙ a.if_deaf (sym t.same_requests ∙ s);
    }
handle-IsArmed (done _) h a = a
handle-IsArmed stop_expired h a = a

-- The loop returns if every round that it takes leads to a return.
next_round :
    (e : Event) (events : List Event) (h : Host)
    → (execute events h).0 ≢ none
    → (execute events (handle e h)).0 ≢ none
    → (execute (e ∷ events) h).0 ≢ none
unfolding execute
next_round e events h skipped taken = elim (Bool-cases (enabled e h)) [
  | inr passed ↦ rw passed skipped
  | inl takes ↦ elim (Option-cases (exit_code e)) [
    | inl goes_on ↦ rw takes (rw goes_on taken)
    | inr (code, returns) ↦ rw takes (rw returns (λ n. cc))
  ]
]

expires :
    (h : Host) (ys zs : List Event)
    → h.stop_deadline ≡ true
    → (execute (ys ++ stop_expired ∷ zs) h).0 ≢ none
unfolding execute enabled exit_code
expires h [] zs d = rw d (λ e. cc)
expires h (y ∷ ys) zs d =
    next_round y (ys ++ stop_expired ∷ zs) h (expires h ys zs d)
      (expires (handle y h) ys zs (handle-deadline y h d))

taken_round :
    (e : Event) (events : List Event) (h : Host)
    → enabled e h ≡ true
    → exit_code e ≡ none
    → (execute events (handle e h)).0 ≢ none
    → (execute (e ∷ events) h).0 ≢ none
unfolding execute
taken_round e events h takes goes_on rest = rw takes (rw goes_on rest)

passed_round :
    (e : Event) (events : List Event) (h : Host)
    → enabled e h ≡ false
    → (execute events h).0 ≢ none
    → (execute (e ∷ events) h).0 ≢ none
unfolding execute
passed_round e events h passed rest = rw passed rest

stop_taken :
    (h : Host) (ys zs : List Event)
    → IsArmed h
    → (execute (requested stop ∷ (ys ++ stop_expired ∷ zs)) h).0 ≢ none
unfolding enabled handle exit_code
stop_taken h ys zs a = elim (Bool-cases h.requests) [
  | inl heard ↦
      taken_round (requested stop) _ h heard refl
        (expires (begin_stop h) ys zs (begin_stop-deadline h a))
  | inr deaf ↦ passed_round (requested stop) _ h deaf (expires h ys zs (a.if_deaf deaf))
]

stops :
    (h : Host) (xs ys zs : List Event)
    → IsArmed h
    → (execute (xs ++ requested stop ∷ (ys ++ stop_expired ∷ zs)) h).0 ≢ none
stops h [] ys zs a = stop_taken h ys zs a
stops h (x ∷ xs) ys zs a =
    next_round x _ h (stops h xs ys zs a) (stops (handle x h) xs ys zs (handle-IsArmed x h a))

-- The service ends once it is told to: whatever came before, behind a request to stop, with any
-- events in between, the expiry of the stop's deadline makes the loop return, if it has not
-- returned before.
pub execute-Returns :
    (before between after : List Event)
    → let events = before ++ requested stop ∷ (between ++ stop_expired ∷ after) in
      (code : Bool × ℕ) × ((execute events start_host).0 ≡ some code)
unfolding start_host
execute-Returns before between after =
    elim (Option-cases
      (execute (before ++ requested stop ∷ (between ++ stop_expired ∷ after)) start_host).0) [
        | inl stuck ↦ absurd (
            stops start_host before between after
              (record { if_stopping = λ s. cc; if_deaf = λ s. cc }) stuck)
        | inr found ↦ found
      ]
