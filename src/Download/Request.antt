-- ===== src/Download/Request.antt =====
-- The HTTP request of a download with its retries (`doRequest` of download/manager.go). What the
-- clock, the HTTP client and the context answer in an attempt are arguments; times are nanoseconds.
use thesis_agent.Base.{
  ℕ, zero, suc, ◌+◌, ◌*◌, ◌≤◌, ◌<◌, ◌≡◌, ◌≢◌, Bool, true, not, ◌||◌, List, [], ◌∷◌, ◌++◌, arith,
  if◌then◌else◌, ltb, leb, ◌==◌, ℤ,
}
use thesis_agent.Download.{JobError, job_error, url_expired, invalid_command, internal_error}

pub record Response : Type 0 where
  pub status : ℕ
  pub content_length : ℤ

pub data Reply : Type 0 where
  transport_error : Reply
  response : Response → Reply

pub record Attempt : Type 0 where
  -- time.Now().Before(c.ExpiresAt).
  pub before_expiry : Bool
  -- http.NewRequestWithContext returns no error.
  pub request_valid : Bool
  pub reply : Reply
  -- time.Until(c.ExpiresAt), a negative rest as 0.
  pub remaining : ℕ
  -- The context ends before the timer.
  pub cancelled_waiting : Bool

pub data Outcome : Type 0 where
  responded : Response → Outcome
  refused : JobError → Outcome
  transport_failed context_ended : Outcome

-- The outcome, how many requests were sent, and the delays waited for in full.
pub record Trace : Type 0 where
  pub outcome : Outcome
  pub requests : ℕ
  pub waits : List ℕ

abbrev pub max_attempts : ℕ
max_attempts = 3

abbrev pub first_backoff : ℕ
first_backoff = 500000000

abbrev pub ended_unexpectedly : JobError
ended_unexpectedly = job_error internal_error "HTTP retry loop ended unexpectedly"

-- The rounds of the loop from number `attempt` on; `rounds` of them are left.
unfoldable pub retry_loop : (ℕ → Attempt) → ℕ → ℕ → ℕ → Trace → Trace
retry_loop env zero attempt backoff t = record t { outcome = refused ended_unexpectedly }
retry_loop env (suc rounds) attempt backoff t =
    let a = env attempt in
    let sent = record t { requests = t.requests + 1 } in
    let again =
      retry_loop env rounds (attempt + 1) (backoff * 2)
        (record sent { waits = t.waits ++ backoff ∷ [] }) in
    if not a.before_expiry
    then record t {
      outcome =
          refused (job_error url_expired "temporary download URL expired before HTTP request");
    }
    else if not a.request_valid
    then record t { outcome = refused (job_error invalid_command "invalid download request") }
    else elim a.reply [
      | transport_error ↦ record sent { outcome = transport_failed }
      | response r ↦
          if ltb r.status 500 || ltb 599 r.status || attempt == max_attempts
          then record sent { outcome = responded r }
          else if leb a.remaining backoff
          then record sent {
            outcome =
                refused
                  (job_error url_expired "temporary download URL expired during retry backoff");
          }
          else if a.cancelled_waiting
          then record sent { outcome = context_ended }
          else again
    ]

-- `doRequest`.
unfoldable pub do_request : (ℕ → Attempt) → Trace
unfolding retry_loop
do_request env =
    retry_loop env max_attempts 1 first_backoff
      (record { outcome = refused ended_unexpectedly; requests = 0; waits = [] })

abbrev pub total : List ℕ → ℕ
total [] = 0
total (n ∷ ns) = n + total ns

-- A server error: its status is from 500 to 599.
abbrev pub IsServerError : Response → Type 0
IsServerError r = (500 ≤ r.status) × (r.status ≤ 599)

-- Whatever the clock, the server and the context do, at most three requests are sent, with at most
-- 1.5 seconds of backoff between them, and the loop never runs past its last round.
pub do_request-bounded :
    (env : ℕ → Attempt)
    → ((do_request env).requests ≤ 3)
      × (total (do_request env).waits ≤ 1500000000)
      × ((do_request env).outcome ≢ refused ended_unexpectedly)
unfolding do_request
do_request-bounded env = (ground arith, ground arith, ground arith)

-- A response that is handed on is no server error, unless it answers the third request.
pub do_request-responded :
    (env : ℕ → Attempt) (r : Response)
    → (do_request env).outcome ≡ responded r
    → IsServerError r
    → (do_request env).requests ≡ 3
unfolding do_request
do_request-responded env r e s = ground arith

-- An expired URL is never requested: the requests sent were all made before the expiry.
pub do_request-before_expiry :
    (env : ℕ → Attempt) (k : ℕ) → k < (do_request env).requests → (env (k + 1)).before_expiry ≡ true
unfolding do_request
do_request-before_expiry env zero h = ground arith
do_request-before_expiry env (suc zero) h = ground arith
do_request-before_expiry env (suc (suc zero)) h = ground arith
do_request-before_expiry env (suc (suc (suc k))) h = absurd (omega (arith, do_request-bounded env))
