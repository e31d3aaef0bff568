-- ===== src/Scenarios/Downloads.antt =====
-- Runs of the download manager: a job that completes, one whose checksum differs, and the paths and
-- commands that they use.
use thesis_agent.Download.Destination.Roots.{overlaps_install}
use thesis_agent.Download.Destination.Roots.{overlaps_runtime}
use thesis_agent.Download.Destination.Roots.{check_root}
use thesis_agent.Download.Destination.Roots.{check_roots}
use thesis_agent.Base.{
  ◌+◌, ◌≡◌, ◌≢◌, ◌≤◌, ◌<◌, refl, true, false, if◌then◌else◌, none, some, [], ◌∷◌, length, suc,
  String, arith, pos, Text, codes, All, ℕ, str_eq, ◌==◌, bytes_eq,
}
use thesis_agent.Base.Dict.{lookup, insert, delete}
use thesis_agent.Download.{Command, Result, completed, Manager, emit}
use thesis_agent.Download.Handlers.{admit, full, remember, evict, set_status, fail, fail_at}
use thesis_agent.Download.Cache.{IsValid, displaced, is_key, lookup-remember}
use thesis_agent.Download.Attempts.{System, submit_answered, take_job, here, next, initial}
use thesis_agent.Download.Attempts.Exclusion.{IsExclusive, Reach-IsExclusive}
use thesis_agent.Download.Destination.{
  Lstat, link, plain, clear, out_of_fuel, clean_destination, destination_components, split_slash,
  destination_directory, roots_or_default, contains_path, valid_filename, check_links,
  check_destination_links, contains_any, starts_with,
}
use thesis_agent.Download.Destination.Links.{IsSafe, ancestor, check_destination_links-IsSafe}
use thesis_agent.Download.Destination.Roots.{
  ok, validate_roots, InsideOne, IsAllowed, validate_roots-IsAllowed,
}
use thesis_agent.Download.Validate.{check_url, validate, IsAcceptable, validate-IsAcceptable}
use thesis_agent.Download.Request.{
  Attempt, response, refused, ended_unexpectedly, total, do_request, retry_loop, do_request-bounded,
}
use thesis_agent.Download.Progress.{write, final, quotient, percent}
use thesis_agent.Download.Run.{
  Env, run, prepare_destination, boundary_for, first_root, run_in, download, after_request,
  transfer, receive, copy, settle, finish_file, emit_reports, emit_requests,
}
use thesis_agent.Download.Publishing.{results, completions, publications, run-Reports}
use thesis_agent.Download.Integrity.{IsVerified, run-IsVerified}
use thesis_agent.Scenarios.{net, parsers, slashes, slashes_laws, config, checksum}

abbrev job_id : String
job_id = "11111111-1111-1111-1111-111111111111"

abbrev command : Command
command = record {
  kind = "DOWNLOAD_FILE";
  job_id = job_id;
  file_id = job_id;
  filename = codes "a.txt";
  destination_path = [];
  size = pos 3;
  sha256 = checksum;
  download_url = "https://files.example/a";
  expires_at = some 100;
}

abbrev empty : Manager
empty = (initial "agent" 4).manager

empty-IsValid : IsValid empty
unfolding initial lookup
empty-IsValid = record { listed_once = λ k. refl; bounded = omega arith }

abbrev result : Result
result = record {
  job_id = job_id;
  agent_id = "agent";
  file_id = job_id;
  status = completed;
  bytes_downloaded = 3;
  sha256 = checksum;
  error = none;
}

lookup-remember_example : lookup "other" (remember job_id result empty).completed ≡ (
    if str_eq job_id "other"
    then some result
    else if is_key (displaced job_id empty) "other"
    then none
    else lookup "other" empty.completed)
lookup-remember_example = lookup-remember job_id result empty "other" empty-IsValid

-- A submission, a worker that takes the job, and the end of the job.
abbrev submitted : System
submitted = record (initial "agent" 4) { manager = (admit job_id command empty).0 }

admit_queued : (admit job_id command empty).1 ≢ full
unfolding admit initial lookup
admit_queued h = ground arith

abbrev taken : System
taken = record submitted { manager = record submitted.manager { jobs = [] }; running = job_id ∷ [] }

submitted_jobs : submitted.manager.jobs ≡ record { key = job_id; command = command } ∷ []
unfolding admit initial lookup
submitted_jobs = refl

submitted_idle : length submitted.running < 1
unfolding initial
submitted_idle = omega arith

Reach-IsExclusive_example : IsExclusive 1 taken
unfolding initial
Reach-IsExclusive_example = Reach-IsExclusive 1 "agent" 4 taken (
    next (next here (submit_answered job_id command admit_queued))
      (take_job (record { key = job_id; command = command }) [] submitted_jobs submitted_idle))

validate_passes : validate parsers net slashes config 50 command ≡ none
unfolding validate check_url destination_directory clean_destination valid_filename contains_any
    destination_components starts_with split_slash roots_or_default contains_path
validate_passes = refl

validate-IsAcceptable_example : IsAcceptable parsers net slashes config 50 command
validate-IsAcceptable_example =
    validate-IsAcceptable parsers net slashes config 50 command validate_passes

abbrev linked : Text → Lstat
linked path = if bytes_eq path (codes "/data/link") then link else plain

destination_accepted : clean_destination slashes (codes "/data/in") ≡ some (codes "/data/in")
unfolding clean_destination destination_components starts_with contains_any split_slash
    valid_filename
destination_accepted = refl

check_destination_links-IsSafe_example :
    (check_destination_links slashes linked (codes "/data/in") ≢ out_of_fuel)
    × (check_destination_links slashes linked (codes "/data/in") ≡ clear
        → (k : ℕ) → IsSafe slashes linked (ancestor slashes linked k (codes "/data/in")))
check_destination_links-IsSafe_example =
    check_destination_links-IsSafe slashes linked slashes_laws (codes "/data/in") (codes "/data/in")
      destination_accepted

roots_allowed :
    validate_roots slashes (codes "/home/downloads") [] (codes "/srv/agent") (codes "/opt/agent")
    ≡ ok (codes "/home/downloads" ∷ [])
unfolding validate_roots check_roots check_root clean_destination destination_components starts_with
    contains_any split_slash valid_filename overlaps_runtime contains_path overlaps_install
roots_allowed = refl

validate_roots-IsAllowed_example :
    All (IsAllowed slashes (codes "/srv/agent") (codes "/opt/agent")) (codes "/home/downloads" ∷ [])
    × ((path : Text) × (clean_destination slashes (codes "/home/downloads") ≡ some path)
        × InsideOne slashes path (codes "/home/downloads" ∷ []))
validate_roots-IsAllowed_example =
    validate_roots-IsAllowed slashes (codes "/home/downloads") [] (codes "/srv/agent")
      (codes "/opt/agent") (codes "/home/downloads" ∷ []) roots_allowed

-- The answers to a job that succeeds, with one retry.
abbrev env : Env
env = record {
  lstat_first = linked;
  mkdir_ok = true;
  lstat_made = linked;
  hold_ok = true;
  target_ok = true;
  free_space = some 1000;
  lstat_create = linked;
  temporary = some (codes "/data/.download");
  attempts = λ n. record {
    before_expiry = true;
    request_valid = true;
    reply = response (record { status = if n == 1 then 503 else 200; content_length = pos 3 });
    remaining = 1000000000000;
    cancelled_waiting = false;
  };
  cancelled_request = false;
  chunks =
      record { bytes = 2; write_failed = false; at = 10 }
      ∷ record { bytes = 1; write_failed = false; at = 20 }
      ∷ [];
  read_failed = false;
  cancelled_copy = false;
  close_ok = true;
  digest = some (1 ∷ 2 ∷ []);
  cancelled_end = false;
  lstat_publish = linked;
  publish_ok = true;
  progress_interval = 5;
}

abbrev finished : Manager
finished = run parsers slashes config env job_id command empty

run-Reports_example :
    (results finished ≡ suc (results empty))
    × (completions finished + publications empty ≡ completions empty + publications finished)
run-Reports_example = run-Reports parsers slashes config env job_id command empty

finished_once : publications finished ≡ 1
unfolding run publications initial prepare_destination destination_directory clean_destination
    destination_components starts_with contains_any split_slash valid_filename roots_or_default
    contains_path check_destination_links check_links boundary_for first_root emit run_in download
    do_request retry_loop after_request transfer receive copy write final settle finish_file
    set_status remember evict fail_at fail emit_reports emit_requests insert lookup delete percent
    quotient
finished_once = refl

finished_publishes : publications empty < publications finished
unfolding publications initial
finished_publishes = omega (arith, finished_once)

run-IsVerified_example : IsVerified parsers slashes config env command
run-IsVerified_example =
    run-IsVerified parsers slashes config env command job_id empty finished_publishes

-- A server that is down.
abbrev failing : ℕ → Attempt
failing n = record (env.attempts n) {
  reply = response (record { status = 503; content_length = pos 0 });
}

do_request-bounded_example :
    ((do_request failing).requests ≤ 3)
    × (total (do_request failing).waits ≤ 1500000000)
    × ((do_request failing).outcome ≢ refused ended_unexpectedly)
do_request-bounded_example = do_request-bounded failing
