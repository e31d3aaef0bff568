-- ===== src/Download.antt =====
-- File downloads (download/messages.go and the manager's state in download/manager.go): messages,
-- error codes and the state that the manager's operations share.
pub mod Destination
pub mod Validate
pub mod Request
pub mod Progress
pub mod Handlers
pub mod Cache
pub mod Attempts
pub mod Run
pub mod Publishing
pub mod Integrity
use thesis_agent.Base.{ℕ, Bool, Option, none, some, List, String, ℤ, pos, Text, ◌++◌, [], ◌∷◌}
use thesis_agent.Base.Dict.{Dict}

pub record Command : Type 0 where
  pub kind : String
  pub job_id : String
  pub file_id : String
  pub filename : Text
  pub destination_path : Text
  pub size : ℤ
  pub sha256 : String
  pub download_url : String
  -- `none` is the zero time.
  pub expires_at : Option ℕ

pub data ErrorCode : Type 0 where
  invalid_command url_expired http_error download_failed disk_write_failed : ErrorCode
  insufficient_disk_space invalid_destination_path size_mismatch : ErrorCode
  hash_mismatch cancelled internal_error : ErrorCode

-- JobError; its cause, which only `Error` prints, is left out.
pub record JobError : Type 0 where
  pub code : ErrorCode
  pub message : String

abbrev pub job_error : ErrorCode → String → JobError
job_error c m = record { code = c; message = m }

pub data ResultStatus : Type 0 where
  completed failed : ResultStatus

pub record Result : Type 0 where
  pub job_id : String
  pub agent_id : String
  pub file_id : String
  pub status : ResultStatus
  pub bytes_downloaded : ℕ
  pub sha256 : String
  pub error : Option JobError

-- The three messages of messages.go. `Result` carries its error code and message as one value.
pub data Event : Type 0 where
  status_event : (job_id agent_id status : String) → Event
  progress_event : (job_id agent_id : String) (downloaded : ℕ) (total : ℤ) (percent : ℕ) → Event
  result_event : Result → Event

-- What a job does outside the manager's own state. Opening, writing and publishing are recorded
-- where they succeed.
pub data Effect : Type 0 where
  send : Event → Effect
  hold_directory release_directory : Text → Effect
  create_part remove_part close_part : Text → Effect
  request_url : String → Effect
  write_part : Text → ℕ → Effect
  publish : Text → Text → Effect

pub record QueuedJob : Type 0 where
  pub key : String
  pub command : Command

-- The fields of `Manager` that its operations change, the agent's identity and the queue's size,
-- and the effects so far, the newest first. `jobs` is the channel's buffer, the oldest first; the key of a queued
-- command is kept beside it.
pub record Manager : Type 0 where
  pub agent_id : String
  pub queue_size : ℕ
  pub is_closed : Bool
  pub jobs : List QueuedJob
  pub active : Dict String
  pub completed : Dict Result
  pub completed_order : List String
  pub effects : List Effect

unfoldable pub emit : Effect → Manager → Manager
emit e m = record m { effects = e ∷ m.effects }
