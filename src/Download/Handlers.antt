-- ===== src/Download/Handlers.antt =====
-- The operations of download/manager.go on the manager's maps and its queue. A section under the
-- manager's mutex is one function; `m.send` is an effect, whose error the code ignores.
use thesis_agent.Base.{
  ℕ, true, Option, none, some, List, [], ◌∷◌, ◌++◌, String, if◌then◌else◌, ltb, length, is_some,
}
use thesis_agent.Base.Dict.{Dict, lookup, insert, delete}
use thesis_agent.Download.{
  Command, JobError, job_error, invalid_command, download_failed, internal_error, Result, failed,
  status_event, result_event, send, Manager, emit,
}

-- `remember`'s bound on the completed jobs.
abbrev pub completed_limit : ℕ
completed_limit = 128

-- `finish`.
unfoldable pub finish : String → Manager → Manager
finish key m = record m { active = delete key m.active }

-- The eviction at the end of `remember`.
unfoldable pub evict : List String → Dict Result → List String × Dict Result
evict [] done = ([], done)
evict (oldest ∷ order) done =
    if ltb completed_limit (length (oldest ∷ order))
    then (order, delete oldest done)
    else (oldest ∷ order, done)

-- `remember`.
unfoldable pub remember : String → Result → Manager → Manager
unfolding evict
remember key result m =
    let order =
      if is_some (lookup key m.completed)
      then m.completed_order
      else m.completed_order ++ key ∷ [] in
    let (kept, done) = evict order (insert key result m.completed) in
    record m { completed = done; completed_order = kept }

-- `setStatus`; `key` is the command's attempt key.
unfoldable pub set_status : String → Command → String → Manager → Manager
unfolding emit
set_status key cmd status m =
    emit (send (status_event cmd.job_id m.agent_id status))
      (record m { active = insert key status m.active })

-- The error that `failAt` reports: an error that is no JobError is reported as internal.
unfoldable pub reported : Option JobError → JobError
reported none = job_error internal_error "internal error"
reported (some e) = e

-- `failAt`.
unfoldable pub fail_at : Command → Option JobError → ℕ → Manager → Manager
unfolding emit reported
fail_at cmd err downloaded m =
    emit
      (send (
        result_event (record {
          job_id = cmd.job_id;
          agent_id = m.agent_id;
          file_id = cmd.file_id;
          status = failed;
          bytes_downloaded = downloaded;
          sha256 = "";
          error = some (reported err);
        })))
      m

-- `fail`.
unfoldable pub fail : Command → Option JobError → Manager → Manager
unfolding fail_at
fail cmd err m = fail_at cmd err 0 m

-- `Reject`.
unfoldable pub reject : Command → String → Manager → Manager
unfolding fail
reject cmd message m = fail cmd (some (job_error invalid_command message)) m

-- How the section of `Submit` under the mutex ends.
pub data Admission : Type 0 where
  ignored queued full : Admission
  replay : Result → Admission
  duplicate : String → Admission

-- The section of `Submit` under the mutex.
unfoldable pub admit : String → Command → Manager → Manager × Admission
admit key cmd m = if m.is_closed then (m, ignored) else elim (lookup key m.completed) [
  | some result ↦ (m, replay result)
  | none ↦ elim (lookup key m.active) [
    | some status ↦ (m, duplicate status)
    | none ↦
        let marked = record m { active = insert key "QUEUED" m.active } in
        if ltb (length m.jobs) m.queue_size
        then (record marked { jobs = m.jobs ++ record { key = key; command = cmd } ∷ [] }, queued)
        else (marked, full)
  ]
]

-- What `Submit` does once the mutex is released.
unfoldable pub answer : String → Command → Admission → Manager → Manager
unfolding emit finish fail
answer key cmd ignored m = m
answer key cmd queued m = m
answer key cmd full m =
    fail cmd (some (job_error download_failed "download queue is full")) (finish key m)
answer key cmd (replay result) m = emit (send (result_event result)) m
answer key cmd (duplicate status) m = emit (send (status_event cmd.job_id m.agent_id status)) m

-- `Submit`, where nothing runs between its sections; `invalid` is the answer of `validate`.
unfoldable pub submit : Option JobError → String → Command → Manager → Manager
unfolding admit answer fail
submit (some e) key cmd m = fail cmd (some e) m
submit none key cmd m = let (m', admission) = admit key cmd m in answer key cmd admission m'

-- `Close` up to the wait for the workers: once.
unfoldable pub close : Manager → Manager
close m = record m { is_closed = true }
