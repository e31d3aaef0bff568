-- ===== src/Agent/Order.antt =====
-- The order of a run (internal/agent/runtime.go): what is held when an effect occurs.
use thesis_agent.Base.{
  ◌≡◌, refl, ◌∙◌, Bool, true, false, not, ◌&&◌, Option, none, some, List, [], ◌∷◌, ◌++◌,
  if◌then◌else◌, Text, Unicode, Option-cases, inl, inr, arith,
}
use thesis_agent.Transport.{Net, Mode, mode}
use thesis_agent.Download.Destination.{Paths}
use thesis_agent.Agent.{
  Options, Places, Settings, StartError, Effect, lock_taken, lock_released, config_read, log_opened,
  log_closed, file_ready, said, migrated, identity_loaded, enrollment_read, enrollment_ensured,
  client_created, client_closed, downloads_configured, ready_called, power_mode, helper_started,
  helper_closed, session, failed_early, Run, Calls, is_empty, machine, fail_or, before, behind,
  announce, serve, enroll, start_client, with_client, provision_or_serve, with_identity, migrate,
  with_mode, with_log, with_config, with_lock, run_with_security, run_at, run,
}

-- What the run holds: nothing, the runtime lock, also the log, also the client, also the helper.
pub data Phase : Type 0 where
  idle holding logging connected assisted : Phase

-- The phases in which an effect may occur, and the phase behind it.
abbrev pub step : Phase → Effect → Option Phase
step idle lock_taken = some holding
step idle failed_early = some idle
step holding config_read = some holding
step holding lock_released = some idle
step holding log_opened = some logging
step logging log_closed = some holding
step logging file_ready = some logging
step logging (said _) = some logging
step logging migrated = some logging
step logging identity_loaded = some logging
step logging enrollment_read = some logging
step logging enrollment_ensured = some logging
step logging client_created = some connected
step connected client_closed = some logging
step connected (said _) = some connected
step connected (power_mode _) = some connected
step connected downloads_configured = some connected
step connected ready_called = some connected
step connected enrollment_ensured = some connected
step connected session = some connected
step connected helper_started = some assisted
step assisted helper_closed = some connected
step assisted (said _) = some assisted
step assisted session = some assisted
step _ _ = none

abbrev pub follow : Phase → List Effect → Option Phase
follow phase [] = some phase
follow phase (e ∷ es) = elim (step phase e) [ none ↦ none | some next ↦ follow next es ]

follow-append :
    (a b : Phase) (xs ys : List Effect) → follow a xs ≡ some b → follow a (xs ++ ys) ≡ follow b ys
follow-append a b [] ys h = cc
follow-append a b (x ∷ xs) ys h = elim (Option-cases (step a x)) [
  | inl stuck ↦ absurd (ground (arith, stuck))
  | inr (q, e) ↦ rw (e, follow) (follow-append q b xs ys (rw (e, follow) at h))
]

-- `ready` is called in the one phase that has the client.
pub follow-ready :
    (a b : Phase) (xs ys : List Effect)
    → follow a (xs ++ ready_called ∷ ys) ≡ some b
    → follow a xs ≡ some connected
follow-ready idle b [] ys h = cc
follow-ready holding b [] ys h = cc
follow-ready logging b [] ys h = cc
follow-ready connected b [] ys h = refl
follow-ready assisted b [] ys h = cc
follow-ready a b (x ∷ xs) ys h = elim (Option-cases (step a x)) [
  | inl stuck ↦ absurd (ground (arith, stuck))
  | inr (q, e) ↦ rw (e, follow) (follow-ready q b xs ys (rw (e, follow) at h))
]

-- A run that starts and ends in a phase.
record Stays (phase : Phase) (r : Run) : Type 0 where
  pub in_order : follow phase r.0 ≡ some phase

if-Stays :
    (phase : Phase) (b : Bool) (x y : Run)
    → Stays phase x
    → Stays phase y
    → Stays phase (if b then x else y)
if-Stays phase true x y g h = g
if-Stays phase false x y g h = h

module _ (p : Paths) (n : Net) (u : Unicode) (fold : Text → Text → Bool) (o : Options) (at : Places)
    (c : Calls) where
  fail_or-Stays :
      (phase : Phase) (e : Option StartError) (r : Run)
      → Stays phase r
      → Stays phase (fail_or p n u fold o at c e r)
  unfolding fail_or
  fail_or-Stays phase none r h = h
  fail_or-Stays phase (some e) r h = record { in_order = refl }

  before-Stays :
      (phase : Phase) (effects : List Effect) (r : Run)
      → follow phase effects ≡ some phase
      → Stays phase r
      → Stays phase (before p n u fold o at c effects r)
  unfolding before
  before-Stays phase effects r e h = record {
    in_order = follow-append phase phase effects r.0 e ∙ h.in_order;
  }

  -- Something is taken, a run follows, and it is given back.
  bracket-Stays :
      (outer inner : Phase) (first last : List Effect) (r : Run)
      → follow outer first ≡ some inner
      → follow inner last ≡ some outer
      → Stays inner r
      → Stays outer (before p n u fold o at c first (behind p n u fold o at c r last))
  unfolding before behind
  bracket-Stays outer inner first last r f l h = record {
    in_order =
        follow-append outer inner first (r.0 ++ last) f
        ∙ follow-append inner inner r.0 last h.in_order
        ∙ l;
  }

  only :
      (phase : Phase) (effects : List Effect) (e : Option StartError)
      → follow phase effects ≡ some phase
      → Stays phase (effects, e)
  only phase effects e h = record { in_order = h }

  serve-Stays : Stays connected (serve p n u fold o at c)
  unfolding serve
  serve-Stays = if-Stays connected o.service _ _ (only _ _ _ refl) (only _ _ _ refl)

  enroll-Stays : Stays connected (enroll p n u fold o at c)
  unfolding enroll
  enroll-Stays = before-Stays connected _ _ refl (
      if-Stays connected c.enrolls _ _ serve-Stays
        (if-Stays connected c.cancelled _ _ (only _ _ none refl) (only _ _ _ refl)))

  announced : follow connected (announce p n u fold o at c) ≡ some connected
  announced =
      elim c.announces
        as (λ b. follow connected (if b then ready_called ∷ [] else []) ≡ some connected) [
          | true ↦ refl
          | false ↦ refl
        ]

  start_client-Stays : Stays connected (start_client p n u fold o at c)
  unfolding start_client
  start_client-Stays =
      before-Stays connected _ _ refl
        (fail_or-Stays connected _ _ (before-Stays connected _ _ announced enroll-Stays))

  with_client-Stays : Stays logging (with_client p n u fold o at c)
  unfolding with_client
  with_client-Stays = bracket-Stays logging connected _ _ _ refl refl start_client-Stays

  provision_or_serve-Stays : Stays logging (provision_or_serve p n u fold o at c)
  unfolding provision_or_serve
  provision_or_serve-Stays =
      if-Stays logging o.provision _ _
        (before-Stays logging _ _ refl (fail_or-Stays logging _ _ (only _ _ _ refl)))
        with_client-Stays

  legacy_line :
      (b : Bool)
      → follow logging (
          said "agent identity successfully loaded"
          ∷ (if b then said "legacy private-key protection" ∷ [] else []))
        ≡ some logging
  legacy_line true = refl
  legacy_line false = refl

  with_identity-Stays : Stays logging (with_identity p n u fold o at c)
  unfolding with_identity
  with_identity-Stays = before-Stays logging _ _ refl (
      fail_or-Stays logging _ _ (
        before-Stays logging _ _ (legacy_line (o.service && not c.identity_protected))
          (before-Stays logging _ _ refl (fail_or-Stays logging _ _ provision_or_serve-Stays))))

  migrate-Stays : Stays logging (migrate p n u fold o at c)
  unfolding migrate
  migrate-Stays = if-Stays logging (is_empty o.migration_source) _ _ with_identity-Stays (
      fail_or-Stays logging _ _ (
        fail_or-Stays logging _ _ (
          before-Stays logging _ _ refl
            (fail_or-Stays logging _ _ (before-Stays logging _ _ refl with_identity-Stays)))))

  with_mode-Stays :
      (s : Settings) (m : Option Mode) → Stays logging (with_mode p n u fold o at c s m)
  unfolding with_mode
  with_mode-Stays s none = only _ _ _ refl
  with_mode-Stays s (some m) =
      fail_or-Stays logging _ _
        (before-Stays logging _ _ refl (fail_or-Stays logging _ _ migrate-Stays))

  opened :
      (b : Bool)
      → follow holding (
          log_opened
          ∷ ((if b then file_ready ∷ said "service starting" ∷ [] else [])
              ++ said "runtime starting" ∷ []))
        ≡ some logging
  opened true = refl
  opened false = refl

  closed :
      (failed service : Bool)
      → follow logging (
          ((if failed then said "fatal startup/runtime error" ∷ [] else [])
            ++ (said "runtime stopped"
                ∷ (if service
                    then said "service stopped; runtime resources released" ∷ []
                    else [])))
          ++ log_closed ∷ [])
        ≡ some holding
  closed true true = refl
  closed true false = refl
  closed false true = refl
  closed false false = refl

  with_log-Stays : (s : Settings) → Stays holding (with_log p n u fold o at c s)
  unfolding with_log
  with_log-Stays s =
      bracket-Stays holding logging _ _ _ (opened o.service) (closed _ o.service)
        (with_mode-Stays s (mode u s.transport_mode (machine o)))

  with_config-Stays : (s : Option Settings) → Stays holding (with_config p n u fold o at c s)
  unfolding with_config
  with_config-Stays none = only _ _ _ refl
  with_config-Stays (some s) =
      fail_or-Stays holding _ _ (fail_or-Stays holding _ _ (with_log-Stays s))

  with_lock-Stays : Stays idle (with_lock p n u fold o at c)
  unfolding with_lock
  with_lock-Stays =
      fail_or-Stays idle _ _
        (bracket-Stays idle holding _ _ _ refl refl (with_config-Stays c.config))

  reported : (b : Bool) → follow idle (if b then failed_early ∷ [] else []) ≡ some idle
  reported true = refl
  reported false = refl

  reported-Stays :
      (r : Run) (b : Bool)
      → Stays idle r
      → follow idle (behind p n u fold o at c r (if b then failed_early ∷ [] else [])).0 ≡ some idle
  unfolding behind
  reported-Stays r b h = follow-append idle idle r.0 _ h.in_order ∙ reported b

pub run_with_security-InOrder :
    (p : Paths) (n : Net) (u : Unicode) (fold : Text → Text → Bool) (o : Options) (at : Places)
    (c : Calls)
    → follow idle (run_with_security p n u fold o at c).0 ≡ some idle
unfolding run_with_security
run_with_security-InOrder p n u fold o at c =
    reported-Stays p n u fold o at c _ _
      (fail_or-Stays p n u fold o at c idle _ _ (with_lock-Stays p n u fold o at c))

run_at-InOrder :
    (p : Paths) (n : Net) (u : Unicode) (fold : Text → Text → Bool) (o : Options) (c : Calls)
    (found : Option Places)
    → follow idle (run_at p n u fold o c found).0 ≡ some idle
unfolding run_at
run_at-InOrder p n u fold o c none =
    elim o.service as (λ b. follow idle (if b then failed_early ∷ [] else []) ≡ some idle) [
      | true ↦ refl
      | false ↦ refl
    ]
run_at-InOrder p n u fold o c (some at) = run_with_security-InOrder p n u fold o at c

-- A run of the agent keeps to its order and gives everything back, whatever the calls answer:
-- the configuration is read and the log opened only under the runtime lock, an identity is migrated
-- and the identity and the enrollment are read only with the log open, `ready` is called and the
-- session runs only with the client, and the helper, the client, the log and the lock are given back
-- in this order before the run ends.
pub run-InOrder :
    (p : Paths) (n : Net) (u : Unicode) (fold : Text → Text → Bool) (o : Options) (c : Calls)
    (machine_places console_places : Option Places)
    → follow idle (run p n u fold o c machine_places console_places).0 ≡ some idle
unfolding run
run-InOrder p n u fold o c machine_places console_places = run_at-InOrder p n u fold o c _
