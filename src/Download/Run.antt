-- ===== src/Download/Run.antt =====
-- One download from its directory to its result (`run` of download/manager.go, with
-- `prepareDestination` of download/destination.go and `boundaryFor` of download/policy.go). What the
-- file system, the network, the clock and the context answer is a record of the job.
use thesis_agent.Base.{
  ℕ, zero, suc, Bool, true, false, not, ◌&&◌, ◌||◌, Option, none, some, List, [], ◌∷◌, ◌++◌, String,
  if◌then◌else◌, ltb, ◌==◌, ℤ, pos, negsuc, to_u64, is_some, Text, codes, bytes_eq,
}
use thesis_agent.Download.{
  Command, JobError, job_error, invalid_command, http_error, download_failed, disk_write_failed,
  insufficient_disk_space, size_mismatch, hash_mismatch, cancelled, internal_error, completed,
  progress_event, result_event, send, hold_directory, release_directory, create_part, remove_part,
  close_part, request_url, write_part, publish, Manager, Result, emit,
}
use thesis_agent.Download.Destination.{
  Paths, Config, Lstat, Walk, clear, out_of_fuel, blocked, check_destination_links, contains_path,
  destination_directory, invalid_destination, inspect_error, starts_with,
}
use thesis_agent.Download.Handlers.{set_status, fail, fail_at, remember}
use thesis_agent.Download.Progress.{Writer, write, final}
use thesis_agent.Download.Request.{Attempt, Response, Outcome, responded, refused, do_request}
use thesis_agent.Download.Validate.{Parsers}

pub data Boundary : Type 0 where
  runtime_boundary download_boundary : Text → Boundary

-- A write of the body's bytes: how many the file took, whether it failed, and when.
pub record Chunk : Type 0 where
  pub bytes : ℕ
  pub write_failed : Bool
  pub at : ℕ

pub record Env : Type 0 where
  pub lstat_first : Text → Lstat
  pub mkdir_ok : Bool
  pub lstat_made : Text → Lstat
  pub hold_ok : Bool
  pub target_ok : Bool
  pub free_space : Option ℕ
  pub lstat_create : Text → Lstat
  -- The name of the temporary file, if it was created.
  pub temporary : Option Text
  pub attempts : ℕ → Attempt
  pub cancelled_request : Bool
  pub chunks : List Chunk
  pub read_failed : Bool
  pub cancelled_copy : Bool
  pub close_ok : Bool
  -- The SHA-256 of the temporary file, if it could be read.
  pub digest : Option (List ℕ)
  pub cancelled_end : Bool
  pub lstat_publish : Text → Lstat
  pub publish_ok : Bool
  pub progress_interval : ℕ

-- The walk over the ancestors as an error; it does not run out of fuel.
abbrev pub walk_error : Walk → Option JobError
walk_error clear = none
walk_error out_of_fuel = some inspect_error
walk_error (blocked e) = some e

pub data Prepared : Type 0 where
  directory : Text → Prepared
  unprepared : JobError → Prepared

abbrev add_report : Option (ℕ × ℕ) → List (ℕ × ℕ) → List (ℕ × ℕ)
add_report none reports = reports
add_report (some r) reports = r ∷ reports

-- io.Copy into the progress writer, with the reports made, the newest first.
unfoldable pub copy : Writer → List (ℕ × ℕ) → List Chunk → Writer × List (ℕ × ℕ)
copy w reports [] = (w, reports)
copy w reports (chunk ∷ chunks) =
    let (w', report) = write w chunk.bytes chunk.write_failed chunk.at in
    let reports' = add_report report reports in
    let rest = copy w' reports' chunks in if chunk.write_failed then (w', reports') else rest

-- The Progress messages of the reports.
unfoldable pub emit_reports : Command → List (ℕ × ℕ) → Manager → Manager
emit_reports c [] m = m
emit_reports c ((n, percent) ∷ reports) m =
    emit (send (progress_event c.job_id m.agent_id n c.size percent)) (emit_reports c reports m)

unfoldable pub emit_requests : String → ℕ → Manager → Manager
emit_requests url zero m = m
emit_requests url (suc n) m = emit (request_url url) (emit_requests url n m)

abbrev pub is_size : ℤ → ℕ → Bool
is_size (pos k) n = k == n
is_size (negsuc k) n = false

-- A checksum that does not decode is none of the same length.
abbrev pub matches_digest : Option (List ℕ) → List ℕ → Bool
matches_digest none actual = false
matches_digest (some expected) actual = bytes_eq actual expected

-- `resp.ContentLength >= 0 && resp.ContentLength != c.Size`.
abbrev pub length_differs : ℤ → ℤ → Bool
length_differs (pos n) size = not (is_size size n)
length_differs (negsuc n) size = false

abbrev pub discard : Text → Manager → Manager
discard part m = emit (remove_part part) m

module _ (x : Parsers) (p : Paths) (cfg : Config) where
  -- `boundaryFor`.
  unfoldable pub first_root : Text → List Text → Option Text
  first_root path [] = none
  first_root path (root ∷ roots) =
      let rest = first_root path roots in if contains_path p root path then some root else rest

  unfoldable pub boundary_for : Text → Option Boundary
  boundary_for path = elim cfg.boundary [
    | none ↦ none
    | some root ↦
        if contains_path p root path
        then some (runtime_boundary root)
        else elim (first_root path cfg.allowed_roots) [
          | some allowed ↦ some (download_boundary allowed)
          | none ↦ some (runtime_boundary root)
        ]
  ]

  module _ (env : Env) where
    -- `prepareDestination`.
    unfoldable pub prepare_destination : Text → Prepared
    prepare_destination path = elim (destination_directory p cfg path) [
      | none ↦ unprepared invalid_destination
      | some chosen ↦ elim (walk_error (check_destination_links p env.lstat_first chosen)) [
        | some e ↦ unprepared e
        | none ↦
            if not env.mkdir_ok
            then unprepared (job_error disk_write_failed "could not create destination directory")
            else elim (walk_error (check_destination_links p env.lstat_made chosen)) [
              | some e ↦ unprepared e
              | none ↦ directory chosen
            ]
      ]
    ]

    -- From the check of the checksum on. `n` bytes were written to `part`.
    unfoldable pub finish_file : String → Command → Text → Text → Text → ℕ → Manager → Manager
    finish_file key c dir part dest n m = elim env.digest [
      | none ↦
          fail_at c (some (job_error internal_error "could not calculate checksum")) n
            (discard part m)
      | some actual ↦
          if not (matches_digest (x.hex_decode c.sha256) actual)
          then fail_at c (some (job_error hash_mismatch "downloaded file checksum does not match"))
              n (discard part m)
          else if env.cancelled_end
          then fail_at c (some (job_error cancelled "download cancelled")) n m
          else elim (if bytes_eq c.destination_path []
              then none
              else walk_error (check_destination_links p env.lstat_publish dir)) [
                | some e ↦ fail_at c (some e) n m
                | none ↦
                    if not env.publish_ok
                    then fail_at c
                        (some (job_error disk_write_failed "could not finalize downloaded file")) n
                        (discard part m)
                    else (let result : Result = record {
                      job_id = c.job_id;
                      agent_id = m.agent_id;
                      file_id = c.file_id;
                      status = completed;
                      bytes_downloaded = n;
                      sha256 = x.hex_encode actual;
                      error = none;
                    } in
                        emit (send (result_event result))
                          (remember key result (emit (publish part dest) m)))
              ]
    ]

    -- From the end of the copy on: its errors and the number of bytes.
    unfoldable pub settle : String → Command → Text → Text → Text → Writer → Manager → Manager
    settle key c dir part dest w m =
        let n = w.written in
        let counted = emit_reports c ((final w n).1 ∷ []) m in
        if w.write_failed || env.read_failed
        then fail_at c
            (some (
              job_error
                (if env.cancelled_copy
                  then cancelled
                  else if w.write_failed
                  then disk_write_failed
                  else download_failed)
                "download interrupted"))
            n (discard part m)
        else if not env.close_ok
        then fail_at c (some (job_error disk_write_failed "could not flush temporary file")) n
            (discard part m)
        else if not (is_size c.size n)
        then fail_at c (some (job_error size_mismatch "downloaded file size does not match")) n
            (discard part counted)
        else finish_file key c dir part dest n (set_status key c "VERIFYING" counted)

    -- The progress writer as `run` makes it.
    abbrev pub new_writer : Command → Writer
    new_writer c = record {
      written = 0;
      write_failed = false;
      total = c.size;
      last = none;
      interval = env.progress_interval;
    }

    -- The copy of the body into the temporary file, and the end of writing to it.
    unfoldable pub receive : Command → Text → Manager → Writer × Manager
    receive c part m =
        let (w, reports) = copy (new_writer c) [] env.chunks in
        (w, emit (close_part part) (emit (write_part part w.written) (emit_reports c reports m)))

    -- From the response on.
    unfoldable pub transfer : String → Command → Text → Text → Text → Response → Manager → Manager
    transfer key c dir part dest r m =
        if not (r.status == 200) && not (r.status == 206)
        then fail c (some (job_error http_error (x.status_message r.status))) m
        else if length_differs r.content_length c.size
        then fail c (some (job_error size_mismatch "Content-Length does not match expected size")) m
        else (let (w, m') = receive c part m in settle key c dir part dest w m')

    -- What the outcome of the request leads to.
    unfoldable pub after_request :
        String → Command → Text → Text → Text → Outcome → Manager → Manager
    after_request key c dir part dest (refused e) m = fail c (some e) m
    after_request key c dir part dest (responded r) m = transfer key c dir part dest r m
    after_request key c dir part dest _ m =
        fail c
          (some (
            job_error (if env.cancelled_request then cancelled else download_failed)
              "HTTP download failed"))
          m

    -- From the temporary file on.
    unfoldable pub download : String → Command → Text → Text → Text → Manager → Manager
    download key c dir part dest m =
        let t = do_request env.attempts in
        after_request key c dir part dest t.outcome
          (emit_requests c.download_url t.requests (set_status key c "DOWNLOADING" m))

    abbrev pub separator : ℕ
    separator = if p.windows then b'\\' else b'/'

    abbrev pub escapes : Option Text → Bool
    escapes none = true
    escapes (some rel) = bytes_eq rel (codes "..") || starts_with (codes ".." ++ separator ∷ []) rel

    -- In the directory: the space, the destination and the temporary file, which the deferred calls
    -- close and remove.
    unfoldable pub run_in : String → Command → Text → Manager → Manager
    run_in key c dir m = elim env.free_space [
      | none ↦ fail c (some (job_error internal_error "could not check available disk space")) m
      | some free ↦
          if ltb free (to_u64 c.size)
          then fail c (some (job_error insufficient_disk_space "insufficient disk space")) m
          else (let dest = p.join dir c.filename in
              if escapes (p.rel dir dest)
              then fail c
                  (some (job_error invalid_command "destination escapes download directory")) m
              else elim (walk_error (check_destination_links p env.lstat_create dir)) [
                | some e ↦ fail c (some e) m
                | none ↦ elim env.temporary [
                  | none ↦
                      fail c (some (job_error disk_write_failed "could not create temporary file"))
                        m
                  | some part ↦ discard part (
                      emit (close_part part)
                        (download key c dir part dest (emit (create_part part) m)))
                ]
              ])
    ]

    -- `run`; `key` is the command's attempt key.
    unfoldable pub run : String → Command → Manager → Manager
    run key c m = elim (prepare_destination c.destination_path) [
      | unprepared e ↦ fail c (some e) m
      | directory dir ↦
          if is_some (boundary_for dir)
          then (if not env.hold_ok
              then fail c
                  (some (job_error disk_write_failed "could not secure destination directory")) m
              else if not env.target_ok
              then emit (release_directory dir) (
                  fail c
                    (some (
                      job_error disk_write_failed
                        "download destination failed security validation"))
                    (emit (hold_directory dir) m))
              else emit (release_directory dir) (run_in key c dir (emit (hold_directory dir) m)))
          else run_in key c dir m
    ]
