-- ===== src/Download/Attempts/Exclusion.antt =====
-- No attempt is queued or run twice at the same time (download/manager.go).
use thesis_agent.Base.{
  ℕ, ◌+◌, ◌≤◌, ◌≡◌, refl, ◌≢◌, ap, List, [], ◌∷◌, ◌++◌, String, arith, eq_iff, length,
  length-append, is_some,
}
use thesis_agent.Base.Dict.{lookup, lookup-insert, lookup-delete}
use thesis_agent.Base.Count.{count, count-append, indicator, remove_one, count-remove_one}
use thesis_agent.Download.{Command, QueuedJob, emit}
use thesis_agent.Download.Handlers.{admit, full, finish, remember, set_status, close}
use thesis_agent.Download.Attempts.{
  System, job_keys, Step, submit_answered, submit_full, submit_undo, take_job, report_status,
  keep_result, end_job, shut_down, Reach, here, next, initial,
}

-- In how many places an attempt is held: the queue, a worker, or a submitter that was refused.
abbrev pub held : String → System → ℕ
held k s = count k (job_keys s.manager.jobs) + count k s.running + count k s.refused

-- The active map marks exactly the attempts that are held, each in one place; the queue and the
-- workers stay within their bounds.
pub record IsExclusive (workers : ℕ) (s : System) : Type 0 where
  pub held_once : (k : String) → held k s ≡ indicator (is_some (lookup k s.manager.active))
  pub queue_bounded : length s.manager.jobs ≤ s.manager.queue_size
  pub workers_bounded : length s.running ≤ workers

job_keys-append :
    (js : List QueuedJob) (j : QueuedJob) → job_keys (js ++ j ∷ []) ≡ job_keys js ++ j.key ∷ []
job_keys-append [] j = refl
job_keys-append (i ∷ js) j = ap (λ l. i.key ∷ l) (job_keys-append js j)

length-remove_one : (k : String) (xs : List String) → length (remove_one k xs) ≤ length xs
length-remove_one k [] = omega arith
length-remove_one k (x ∷ xs) = ground (arith, length-remove_one k xs)

module _ (workers : ℕ) where
  IsExclusive-admit :
      (key : String) (cmd : Command) (s : System)
      → IsExclusive workers s
      → (admit key cmd s.manager).1 ≢ full
      → IsExclusive workers (record s { manager = (admit key cmd s.manager).0 })
  unfolding admit
  IsExclusive-admit key cmd s v a = record {
    held_once = λ k. ground (
      arith,
      v.held_once k,
      lookup-insert key k "QUEUED" s.manager.active,
      eq_iff key k,
      job_keys-append s.manager.jobs (record { key = key; command = cmd }),
      count-append k (job_keys s.manager.jobs) (key ∷ []),
    );
    queue_bounded = ground (
      arith,
      v.queue_bounded,
      length-append s.manager.jobs (record { key = key; command = cmd } ∷ []),
    );
    workers_bounded = v.workers_bounded;
  }

  IsExclusive-admit_full :
      (key : String) (cmd : Command) (s : System)
      → IsExclusive workers s
      → (admit key cmd s.manager).1 ≡ full
      → IsExclusive workers
          (record s { manager = (admit key cmd s.manager).0; refused = key ∷ s.refused })
  unfolding admit
  IsExclusive-admit_full key cmd s v a = record {
    held_once = λ k.
        ground (arith, v.held_once k, lookup-insert key k "QUEUED" s.manager.active, eq_iff key k);
    queue_bounded = ground (arith, v.queue_bounded);
    workers_bounded = v.workers_bounded;
  }

  Step-IsExclusive :
      {s t : System} → IsExclusive workers s → Step workers s t → IsExclusive workers t
  unfolding finish remember set_status emit close
  Step-IsExclusive {s} v (submit_answered key cmd a) = IsExclusive-admit key cmd s v a
  Step-IsExclusive {s} v (submit_full key cmd e) = IsExclusive-admit_full key cmd s v e
  Step-IsExclusive {s} v (submit_undo key h) = record {
    held_once = λ k. ground (
      arith,
      v.held_once k,
      v.held_once key,
      lookup-delete key k s.manager.active,
      eq_iff key k,
      count-remove_one key k s.refused h,
    );
    queue_bounded = v.queue_bounded;
    workers_bounded = v.workers_bounded;
  }
  Step-IsExclusive {s} v (take_job job rest e free) = record {
    held_once = λ k. ground (arith, v.held_once k, ap (λ js. count k (job_keys js)) e);
    queue_bounded = omega (arith, v.queue_bounded, ap (λ js. length js) e);
    workers_bounded = free;
  }
  Step-IsExclusive {s} v (report_status key cmd status h) = record {
    held_once = λ k. ground (
      arith,
      v.held_once k,
      v.held_once key,
      lookup-insert key k status s.manager.active,
      eq_iff key k,
    );
    queue_bounded = v.queue_bounded;
    workers_bounded = v.workers_bounded;
  }
  Step-IsExclusive {s} v (keep_result key result h) = record {
    held_once = λ k. v.held_once k;
    queue_bounded = v.queue_bounded;
    workers_bounded = v.workers_bounded;
  }
  Step-IsExclusive {s} v (end_job key h) = record {
    held_once = λ k. ground (
      arith,
      v.held_once k,
      v.held_once key,
      lookup-delete key k s.manager.active,
      eq_iff key k,
      count-remove_one key k s.running h,
    );
    queue_bounded = v.queue_bounded;
    workers_bounded = omega (arith, v.workers_bounded, length-remove_one key s.running);
  }
  Step-IsExclusive {s} v shut_down = record {
    held_once = v.held_once;
    queue_bounded = v.queue_bounded;
    workers_bounded = v.workers_bounded;
  }

  initial-IsExclusive :
      (agent_id : String) (queue_size : ℕ) → IsExclusive workers (initial agent_id queue_size)
  unfolding initial lookup
  initial-IsExclusive agent_id queue_size = record {
    held_once = λ k. refl;
    queue_bounded = omega arith;
    workers_bounded = omega arith;
  }

  -- However submissions, workers, refusals and Close interleave, the active map marks exactly the
  -- attempts in the queue, in a worker or being refused, each of them in one such place only, and
  -- the queue and the workers stay within their bounds.
  pub Reach-IsExclusive :
      (agent_id : String) (queue_size : ℕ) (s : System)
      → Reach workers (initial agent_id queue_size) s
      → IsExclusive workers s
  Reach-IsExclusive agent_id queue_size s here = initial-IsExclusive agent_id queue_size
  Reach-IsExclusive agent_id queue_size s (next {t} r st) =
      Step-IsExclusive (Reach-IsExclusive agent_id queue_size t r) st
