-- ===== src/Download/Integrity.antt =====
-- A file is published only after its size and its checksum were verified, and no temporary file
-- outlives its job (`run` of download/manager.go).
use thesis_agent.Base.{
  ℕ, ◌<◌, ◌≡◌, Bool, true, false, Option, none, some, List, [], ◌∷◌, String, arith, Text, ℤ, pos,
  negsuc, Option-cases, Bool-cases, is_some, inl, inr, bytes_eq_sound,
}
use thesis_agent.Download.{Command, Effect, hold_directory, create_part, remove_part, Manager, emit}
use thesis_agent.Download.Destination.{Paths, Config}
use thesis_agent.Download.Handlers.{set_status, fail, fail_at, remember}
use thesis_agent.Download.Request.{Response, Outcome, responded, do_request}
use thesis_agent.Download.Progress.{Writer, final}
use thesis_agent.Download.Publishing.{
  publications, Prepared-cases, emit_reports-tally, emit_requests-tally, receive-tally,
}
use thesis_agent.Download.Validate.{Parsers}
use thesis_agent.Download.Run.{
  Env, copy, emit_reports, emit_requests, finish_file, settle, receive, new_writer, transfer,
  after_request, download, run_in, run, boundary_for, prepare_destination, matches_digest, is_size,
}

matches_digest_sound :
    (expected : Option (List ℕ)) (actual : List ℕ)
    → matches_digest expected actual ≡ true
    → expected ≡ some actual
matches_digest_sound none actual h = cc
matches_digest_sound (some d) actual h = let e = bytes_eq_sound actual d h in cc

is_size_sound : (size : ℤ) (n : ℕ) → is_size size n ≡ true → size ≡ pos n
is_size_sound (pos k) n h = ground arith
is_size_sound (negsuc k) n h = cc

module _ (x : Parsers) (p : Paths) (cfg : Config) (env : Env) (c : Command) where
  -- The bytes that the copy of the body writes.
  abbrev pub written : ℕ
  written = (copy (new_writer x p cfg env c) [] env.chunks).0.written

  pub record IsVerified : Type 0 where
    pub whole : c.size ≡ pos written
    pub checksum : (d : List ℕ) × (env.digest ≡ some d) × (x.hex_decode c.sha256 ≡ some d)
    pub not_cancelled : env.cancelled_end ≡ false

  -- The checks of the last stage.
  abbrev IsChecked : Type 0
  IsChecked =
      ((d : List ℕ) × (env.digest ≡ some d) × (x.hex_decode c.sha256 ≡ some d))
      × (env.cancelled_end ≡ false)

  finish_file_checked :
      (key : String) (dir part dest : Text) (n : ℕ) (m : Manager)
      → publications m < publications (finish_file x p cfg env key c dir part dest n m)
      → IsChecked
  unfolding finish_file publications emit fail_at remember
  finish_file_checked key dir part dest n m h = elim (Option-cases env.digest) [
    | inl unread ↦ absurd (ground arith)
    | inr (d, e) ↦
        ((d, e, matches_digest_sound (x.hex_decode c.sha256) d (ground arith)), ground arith)
  ]

  settle_checked :
      (key : String) (dir part dest : Text) (w : Writer) (m : Manager)
      → publications m < publications (settle x p cfg env key c dir part dest w m)
      → (c.size ≡ pos w.written) × IsChecked
  unfolding settle publications emit fail_at set_status
  settle_checked key dir part dest w m h =
      let counted = emit_reports c ((final w w.written).1 ∷ []) m in
      let same = emit_reports-tally x p cfg env c ((final w w.written).1 ∷ []) m in
      let rest =
        finish_file_checked key dir part dest w.written (set_status key c "VERIFYING" counted) in
      (is_size_sound c.size w.written (ground (arith, same)), rest (ground (arith, same)))

  transfer_verified :
      (key : String) (dir part dest : Text) (r : Response) (m : Manager)
      → publications m < publications (transfer x p cfg env key c dir part dest r m)
      → IsVerified
  unfolding transfer publications emit fail fail_at receive
  transfer_verified key dir part dest r m h =
      let (w, m') = receive x p cfg env c part m in
      let same = receive-tally x p cfg env c part m in
      let grown : publications m' < publications (settle x p cfg env key c dir part dest w m') =
        ground (arith, same) in
      let (whole, checked) = settle_checked key dir part dest w m' grown in
      record { whole = whole; checksum = checked.0; not_cancelled = checked.1 }

  after_request_verified :
      (key : String) (dir part dest : Text) (o : Outcome) (m : Manager)
      → publications m < publications (after_request x p cfg env key c dir part dest o m)
      → IsVerified
  unfolding after_request publications emit fail fail_at
  after_request_verified key dir part dest (responded r) m h =
      transfer_verified key dir part dest r m h
  after_request_verified key dir part dest _ m h = absurd (omega arith)

  download_verified :
      (key : String) (dir part dest : Text) (m : Manager)
      → publications m < publications (download x p cfg env key c dir part dest m)
      → IsVerified
  unfolding download publications emit set_status
  download_verified key dir part dest m h =
      let t = do_request env.attempts in
      let started = set_status key c "DOWNLOADING" m in
      let sent = emit_requests c.download_url t.requests started in
      after_request_verified key dir part dest t.outcome sent
        (omega (arith, emit_requests-tally x p cfg env c.download_url t.requests started))

  run_in_verified :
      (key : String) (dir : Text) (m : Manager)
      → publications m < publications (run_in x p cfg env key c dir m)
      → IsVerified
  unfolding run_in publications emit fail fail_at
  run_in_verified key dir m h = elim (Option-cases env.temporary) [
    | inl missing ↦ absurd (ground arith)
    | inr (part, made) ↦
        download_verified key dir part (p.join dir c.filename) (emit (create_part part) m)
          (ground arith)
  ]

  -- A job publishes a file only if the bytes written are as many as the command says, the SHA-256
  -- of the temporary file is the one that the command names, and the job was not cancelled.
  pub run-IsVerified :
      (key : String) (m : Manager)
      → publications m < publications (run x p cfg env key c m)
      → IsVerified
  unfolding run publications emit fail fail_at
  run-IsVerified key m h =
      elim (Prepared-cases (prepare_destination x p cfg env c.destination_path)) [
        | inl (e, stopped) ↦ absurd (ground arith)
        | inr (dir, ready) ↦ elim (Bool-cases (is_some (boundary_for x p cfg dir))) [
          | inl guarded ↦ run_in_verified key dir (emit (hold_directory dir) m) (ground arith)
          | inr free ↦ run_in_verified key dir m (ground arith)
        ]
      ]

-- Is a temporary file left? The newest effect that creates or removes one says so.
abbrev pub leaves_part : List Effect → Bool
leaves_part [] = false
leaves_part (create_part part ∷ es) = true
leaves_part (remove_part part ∷ es) = false
leaves_part (_ ∷ es) = leaves_part es

module _ (x : Parsers) (p : Paths) (cfg : Config) (env : Env) where
  run_in-leaves_part :
      (key : String) (c : Command) (dir : Text) (m : Manager)
      → leaves_part m.effects ≡ false
      → leaves_part (run_in x p cfg env key c dir m).effects ≡ false
  unfolding run_in emit fail fail_at
  run_in-leaves_part key c dir m h = ground arith

  -- However a job ends, it leaves no temporary file behind, if none was left before.
  pub run-leaves_part :
      (key : String) (c : Command) (m : Manager)
      → leaves_part m.effects ≡ false
      → leaves_part (run x p cfg env key c m).effects ≡ false
  unfolding run emit fail fail_at
  run-leaves_part key c m h =
      elim (Prepared-cases (prepare_destination x p cfg env c.destination_path)) [
        | inl (e, stopped) ↦ ground arith
        | inr (dir, ready) ↦ ground (
          arith,
          run_in-leaves_part key c dir (emit (hold_directory dir) m),
          run_in-leaves_part key c dir m,
        )
      ]
