-- ===== src/Client/Apps.antt =====
-- The installed-applications worker of a connection (client/installed_apps.go): two bounded queues
-- and the set of pending requests.
use thesis_agent.Base.{
  ℕ, ◌+◌, ◌≤◌, ◌<◌, ◌≡◌, refl, Bool, true, Option, none, some, List, [], ◌∷◌, ◌++◌, String, arith,
  if◌then◌else◌, ltb, leb, length, length-append, eq_iff, str_eq, is_some, inl, inr, Option-cases,
  Bool-cases,
}
use thesis_agent.Base.Dict.{Dict, lookup, insert, delete, lookup-insert, lookup-delete}
use thesis_agent.Base.Count.{count, indicator}

abbrev pub queue_size : ℕ
queue_size = 4

abbrev pub result_queue_size : ℕ
result_queue_size = 8

-- installedapps.MaxPayload.
abbrev pub max_payload : ℕ
max_payload = 4194304

pub data Answer : Type 0 where
  -- A success, with the size of its JSON.
  inventory : ℕ → Answer
  failure : String → Answer

pub record Result : Type 0 where
  pub request_id : String
  pub answer : Answer

pub record Job : Type 0 where
  pub request_id : String
  pub deadline : ℕ

-- The channels' buffers, the oldest first, and the request that the collector holds.
pub record Worker : Type 0 where
  pub jobs : List Job
  pub results : List Result
  pub pending : Dict Bool
  pub collecting : Option Job

unfoldable pub new_worker : Worker
new_worker = record { jobs = []; results = []; pending = []; collecting = none }

-- `submit` at the time `now`; the timeout is ten seconds.
unfoldable pub submit : ℕ → String → Worker → Worker
submit now id w =
    if is_some (lookup id w.pending)
    then w
    else if ltb (length w.jobs) queue_size
    then record w {
      jobs = w.jobs ++ record { request_id = id; deadline = now + 10000000000 } ∷ [];
      pending = insert id true w.pending;
    }
    else if ltb (length w.results) result_queue_size
    then record w {
      results = w.results ++ record { request_id = id; answer = failure "collection busy" } ∷ [];
    }
    else w

-- What `collect` answers: the deadline passed before or behind the collection, the collection
-- failed, or the size of the encoded inventory, `none` if it cannot be encoded.
pub data Collected : Type 0 where
  too_late collection_error : Collected
  collected : Option ℕ → Collected

unfoldable pub answer_of : Collected → Answer
answer_of too_late = failure "collection failed"
answer_of collection_error = failure "collection failed"
answer_of (collected none) = failure "inventory exceeds limit"
answer_of (collected (some size)) =
    if ltb max_payload size then failure "inventory exceeds limit" else inventory size

-- The collector takes the oldest job.
unfoldable pub take_job : Worker → Worker
take_job w = elim w.collecting [
  | some job ↦ w
  | none ↦ elim w.jobs [ [] ↦ w | job ∷ jobs ↦ record w { jobs = jobs; collecting = some job } ]
]

-- The collector hands its result over; on a full queue it waits, which changes nothing.
unfoldable pub give_result : Collected → Worker → Worker
unfolding answer_of
give_result c w = elim w.collecting [
  | none ↦ w
  | some job ↦
      if ltb (length w.results) result_queue_size
      then record w {
        results = w.results ++ record { request_id = job.request_id; answer = answer_of c } ∷ [];
        collecting = none;
      }
      else w
]

-- The writer takes a result, sends it, and ends its request.
unfoldable pub write_result : Worker → Worker × Option Result
write_result w = elim w.results [
  | [] ↦ (w, none)
  | r ∷ rs ↦ (record w { results = rs; pending = delete r.request_id w.pending }, some r)
]

pub data Step (w : Worker) : Worker → Type 0 where
  submitted : (now : ℕ) (id : String) → Step w (submit now id w)
  taken : Step w (take_job w)
  given : (c : Collected) → Step w (give_result c w)
  written : Step w (write_result w).0

pub data Reach (w : Worker) : Worker → Type 0 where
  here : Reach w w
  next : {v x : Worker} → Reach w v → Step v x → Reach w x

abbrev is_inventory_within : Result → Bool
is_inventory_within r = elim r.answer [ inventory size ↦ leb size max_payload | failure e ↦ true ]

abbrev pub AllWithin : List Result → Type 0
AllWithin [] = Unit
AllWithin (r ∷ rs) = (is_inventory_within r ≡ true) × AllWithin rs

pub record IsBounded (w : Worker) : Type 0 where
  pub jobs_bounded : length w.jobs ≤ queue_size
  pub results_bounded : length w.results ≤ result_queue_size
  pub within : AllWithin w.results

AllWithin-append :
    (rs : List Result) (r : Result)
    → AllWithin rs
    → is_inventory_within r ≡ true
    → AllWithin (rs ++ r ∷ [])
AllWithin-append [] r h k = (k, tt)
AllWithin-append (x ∷ rs) r h k = (h.0, AllWithin-append rs r h.1 k)

answer_within :
    (id : String) (c : Collected)
    → is_inventory_within (record { request_id = id; answer = answer_of c }) ≡ true
unfolding answer_of
answer_within id too_late = refl
answer_within id collection_error = refl
answer_within id (collected none) = refl
answer_within id (collected (some size)) = ground arith

submit-IsBounded : (now : ℕ) (id : String) (w : Worker) → IsBounded w → IsBounded (submit now id w)
unfolding submit
submit-IsBounded now id w b =
    let busy : Result = record { request_id = id; answer = failure "collection busy" } in
    record {
      jobs_bounded = ground (
        arith,
        length-append w.jobs (record { request_id = id; deadline = now + 10000000000 } ∷ []),
      );
      results_bounded = ground (arith, length-append w.results (busy ∷ []));
      within = ground (arith, AllWithin-append w.results busy b.within refl);
    }

give_result-IsBounded : (c : Collected) (w : Worker) → IsBounded w → IsBounded (give_result c w)
unfolding give_result
give_result-IsBounded c w b = elim (Option-cases w.collecting) [
  | inl idle ↦ rw (idle, give_result) b
  | inr (job, busy) ↦
      let r : Result = record { request_id = job.request_id; answer = answer_of c } in
      record {
        jobs_bounded = ground (arith, b.jobs_bounded);
        results_bounded = ground (arith, length-append w.results (r ∷ []), b.results_bounded);
        within = elim (Bool-cases (ltb (length w.results) result_queue_size)) [
          | inl room ↦
              rw (busy, room)
                (AllWithin-append w.results r b.within (answer_within job.request_id c))
          | inr full ↦ rw (busy, full) b.within
        ];
      }
]

Step-IsBounded : {w v : Worker} → IsBounded w → Step w v → IsBounded v
unfolding take_job write_result
Step-IsBounded {w} b (submitted now id) = submit-IsBounded now id w b
Step-IsBounded {w} b taken = ground arith
Step-IsBounded {w} b (given c) = give_result-IsBounded c w b
Step-IsBounded {w} b written = ground arith

-- Whatever the server asks for, and however the reader, the collector and the writer interleave, at
-- most four jobs and eight results wait, and no inventory among them exceeds 4 MiB of JSON.
pub Reach-IsBounded : (w : Worker) → Reach new_worker w → IsBounded w
Reach-IsBounded w here =
    unfold new_worker in
    record { jobs_bounded = omega arith; results_bounded = omega arith; within = tt }
Reach-IsBounded w (next {v} r st) = Step-IsBounded (Reach-IsBounded v r) st

abbrev pub job_ids : List Job → List String
job_ids [] = []
job_ids (j ∷ js) = j.request_id ∷ job_ids js

count-job_ids :
    (id : String) (js : List Job) (j : Job)
    → count id (job_ids (js ++ j ∷ [])) ≡ count id (job_ids js) + indicator (str_eq j.request_id id)
count-job_ids id [] j = omega arith
count-job_ids id (x ∷ js) j = omega (arith, count-job_ids id js j)

-- A request that is not marked as pending is queued once by two submissions in a row.
pub submit_twice :
    (now later : ℕ) (id : String) (w : Worker)
    → lookup id w.pending ≡ none
    → count id (job_ids (submit later id (submit now id w)).jobs) ≤ count id (job_ids w.jobs) + 1
unfolding submit
submit_twice now later id w fresh = ground (
  arith,
  lookup-insert id id true w.pending,
  eq_iff id id,
  count-job_ids id w.jobs (record { request_id = id; deadline = now + 10000000000 }),
  count-job_ids id w.jobs (record { request_id = id; deadline = later + 10000000000 }),
)

-- Where the next answer to be written is "collection busy", its writing unmarks the request id:
-- with room in the queue, the next submission of that id queues it once more, beside any job of
-- the id that was queued since.
pub submit-after_busy :
    (now : ℕ) (id : String) (w : Worker) (rs : List Result)
    → w.results ≡ record { request_id = id; answer = failure "collection busy" } ∷ rs
    → length w.jobs < queue_size
    → count id (job_ids (submit now id (write_result w).0).jobs) ≡ count id (job_ids w.jobs) + 1
unfolding submit write_result
submit-after_busy now id w rs busy room = ground (
  arith,
  lookup-delete id id w.pending,
  eq_iff id id,
  count-job_ids id w.jobs (record { request_id = id; deadline = now + 10000000000 }),
)
