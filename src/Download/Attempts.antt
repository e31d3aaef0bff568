-- ===== src/Download/Attempts.antt =====
-- Interleavings of download/manager.go: submitters, workers and Close, each taking the mutex for
-- one section at a time. A full queue releases the mutex before it takes the mark back, and a
-- worker's jobs pass through the channel; both waits are part of the state.
pub mod Exclusion
use thesis_agent.Base.{
  ℕ, ◌+◌, ◌≤◌, ◌<◌, ◌≡◌, ◌≢◌, Bool, true, false, Option, none, some, List, [], ◌∷◌, ◌++◌, String,
  length, map,
}
use thesis_agent.Base.Count.{count, remove_one}
use thesis_agent.Download.{Command, Result, QueuedJob, Manager}
use thesis_agent.Download.Handlers.{admit, queued, full, finish, remember, set_status, close}

-- The manager, the attempt keys that workers hold, and those of submitters between the release of
-- the mutex on a full queue and `finish`.
pub record System : Type 0 where
  pub manager : Manager
  pub running : List String
  pub refused : List String

abbrev pub job_keys : List QueuedJob → List String
job_keys [] = []
job_keys (j ∷ js) = j.key ∷ job_keys js

-- One section of one thread. `workers` is MaxConcurrent.
pub data Step (workers : ℕ) (s : System) : System → Type 0 where
  -- Submit of a valid command whose section leaves nothing to do but to answer.
  submit_answered :
      (key : String) (cmd : Command)
      → (admit key cmd s.manager).1 ≢ full
      → Step workers s (record s { manager = (admit key cmd s.manager).0 })
  -- Submit with the queue full.
  submit_full :
      (key : String) (cmd : Command)
      → (admit key cmd s.manager).1 ≡ full
      → Step workers s
          (record s { manager = (admit key cmd s.manager).0; refused = key ∷ s.refused })
  -- The `finish` of that submitter.
  submit_undo :
      (key : String)
      → 0 < count key s.refused
      → Step workers s
          (record s { manager = finish key s.manager; refused = remove_one key s.refused })
  -- A free worker receives the oldest job.
  take_job :
      (job : QueuedJob) (rest : List QueuedJob)
      → s.manager.jobs ≡ job ∷ rest
      → length s.running < workers
      → Step workers s
          (record s { manager = record s.manager { jobs = rest }; running = job.key ∷ s.running })
  -- `setStatus` and `remember` while a worker runs the job.
  report_status :
      (key : String) (cmd : Command) (status : String)
      → 0 < count key s.running
      → Step workers s (record s { manager = set_status key cmd status s.manager })
  keep_result :
      (key : String) (result : Result)
      → 0 < count key s.running
      → Step workers s (record s { manager = remember key result s.manager })
  -- The worker's own `finish`, after the job.
  end_job :
      (key : String)
      → 0 < count key s.running
      → Step workers s
          (record s { manager = finish key s.manager; running = remove_one key s.running })
  shut_down : Step workers s (record s { manager = close s.manager })

pub data Reach (workers : ℕ) (s : System) : System → Type 0 where
  here : Reach workers s s
  next : {t u : System} → Reach workers s t → Step workers t u → Reach workers s u

-- What `NewManager` makes.
unfoldable pub initial : String → ℕ → System
initial agent_id queue_size = record {
  manager = record {
    agent_id = agent_id;
    queue_size = queue_size;
    is_closed = false;
    jobs = [];
    active = [];
    completed = [];
    completed_order = [];
    effects = [];
  };
  running = [];
  refused = [];
}
