-- ===== src/Download/Publishing.antt =====
-- What one download does to the disk and what it reports (`run` of download/manager.go).
use thesis_agent.Base.{
  ℕ, zero, suc, ◌+◌, ◌≡◌, refl, Bool, true, false, List, [], ◌∷◌, String, arith, Text, Option-cases,
  inl, inr, ◌⊎◌,
}
use thesis_agent.Base.Count.{indicator}
use thesis_agent.Download.{
  Command, JobError, completed, Effect, send, create_part, publish, hold_directory, result_event,
  Manager, emit,
}
use thesis_agent.Download.Destination.{Paths, Config}
use thesis_agent.Download.Handlers.{set_status, fail, fail_at, remember}
use thesis_agent.Download.Request.{Response, Outcome, responded, do_request}
use thesis_agent.Download.Progress.{Writer, final}
use thesis_agent.Download.Validate.{Parsers}
use thesis_agent.Download.Run.{
  Env, copy, emit_reports, emit_requests, finish_file, transfer, settle, receive, new_writer,
  after_request, Prepared, download, run_in, run, directory, unprepared, prepare_destination,
}

pub Prepared-cases :
    (q : Prepared) → ((e : JobError) × (q ≡ unprepared e)) ⊎ ((dir : Text) × (q ≡ directory dir))
Prepared-cases (unprepared e) = inl (e, refl)
Prepared-cases (directory dir) = inr (dir, refl)

abbrev pub is_result : Effect → Bool
is_result (send (result_event r)) = true
is_result _ = false

abbrev pub is_completion : Effect → Bool
is_completion (send (result_event r)) = elim r.status [ completed ↦ true | _ ↦ false ]
is_completion _ = false

abbrev pub is_publication : Effect → Bool
is_publication (publish part dest) = true
is_publication _ = false

abbrev pub tally : (Effect → Bool) → List Effect → ℕ
tally q [] = 0
tally q (e ∷ es) = indicator (q e) + tally q es

-- How many results were sent, how many of them say COMPLETED, and how many files were published.
unfoldable pub results : Manager → ℕ
results m = tally is_result m.effects

unfoldable pub completions : Manager → ℕ
completions m = tally is_completion m.effects

unfoldable pub publications : Manager → ℕ
publications m = tally is_publication m.effects

module _ (x : Parsers) (p : Paths) (cfg : Config) (env : Env) where
  -- One result is sent; it says COMPLETED exactly if the file is published.
  abbrev Reports : Manager → Manager → Type 0
  Reports m m' =
      (results m' ≡ suc (results m))
      × (completions m' + publications m ≡ completions m + publications m')

  finish_file-Reports :
      (key : String) (c : Command) (dir part dest : Text) (n : ℕ) (m : Manager)
      → Reports m (finish_file x p cfg env key c dir part dest n m)
  unfolding finish_file results completions publications emit fail_at remember
  finish_file-Reports key c dir part dest n m = (ground arith, ground arith)

  -- Progress reports, requests and status messages count as neither.
  abbrev pub SameTally : Manager → Manager → Type 0
  SameTally m m' =
      (results m' ≡ results m)
      × (completions m' ≡ completions m)
      × (publications m' ≡ publications m)

  pub emit_reports-tally :
      (c : Command) (reports : List (ℕ × ℕ)) (m : Manager) → SameTally m (emit_reports c reports m)
  unfolding emit_reports emit results completions publications
  emit_reports-tally c [] m = (refl, refl, refl)
  emit_reports-tally c (r ∷ reports) m = omega (arith, emit_reports-tally c reports m)

  pub emit_requests-tally :
      (url : String) (n : ℕ) (m : Manager) → SameTally m (emit_requests url n m)
  unfolding emit_requests emit results completions publications
  emit_requests-tally url zero m = (refl, refl, refl)
  emit_requests-tally url (suc n) m = omega (arith, emit_requests-tally url n m)

  pub receive-tally :
      (c : Command) (part : Text) (m : Manager) → SameTally m (receive x p cfg env c part m).1
  unfolding receive results completions publications emit
  receive-tally c part m =
      omega (arith, emit_reports-tally c (copy (new_writer x p cfg env c) [] env.chunks).1 m)

  settle-Reports :
      (key : String) (c : Command) (dir part dest : Text) (w : Writer) (m : Manager)
      → Reports m (settle x p cfg env key c dir part dest w m)
  unfolding settle results completions publications emit fail_at set_status
  settle-Reports key c dir part dest w m =
      let counted = emit_reports c ((final w w.written).1 ∷ []) m in
      let same = emit_reports-tally c ((final w w.written).1 ∷ []) m in
      let rest =
        finish_file-Reports key c dir part dest w.written (set_status key c "VERIFYING" counted) in
      (ground (arith, same, rest), ground (arith, same, rest))

  transfer-Reports :
      (key : String) (c : Command) (dir part dest : Text) (r : Response) (m : Manager)
      → Reports m (transfer x p cfg env key c dir part dest r m)
  unfolding transfer results completions publications emit fail fail_at
  transfer-Reports key c dir part dest r m =
      let (w, m') = receive x p cfg env c part m in
      let rest = settle-Reports key c dir part dest w m' in
      let same = receive-tally c part m in (ground (arith, same, rest), ground (arith, same, rest))

  after_request-Reports :
      (key : String) (c : Command) (dir part dest : Text) (o : Outcome) (m : Manager)
      → Reports m (after_request x p cfg env key c dir part dest o m)
  unfolding after_request results completions publications emit fail fail_at
  after_request-Reports key c dir part dest (responded r) m =
      transfer-Reports key c dir part dest r m
  after_request-Reports key c dir part dest _ m = omega arith

  download-Reports :
      (key : String) (c : Command) (dir part dest : Text) (m : Manager)
      → Reports m (download x p cfg env key c dir part dest m)
  unfolding download results completions publications emit set_status
  download-Reports key c dir part dest m =
      let t = do_request env.attempts in
      let started = set_status key c "DOWNLOADING" m in
      let sent = emit_requests c.download_url t.requests started in
      omega (
        arith,
        emit_requests-tally c.download_url t.requests started,
        after_request-Reports key c dir part dest t.outcome sent,
      )

  run_in-Reports :
      (key : String) (c : Command) (dir : Text) (m : Manager)
      → Reports m (run_in x p cfg env key c dir m)
  unfolding run_in results completions publications emit fail fail_at
  run_in-Reports key c dir m = elim (Option-cases env.temporary) [
    | inl missing ↦ (ground arith, ground arith)
    | inr (part, made) ↦
        let rest =
          download-Reports key c dir part (p.join dir c.filename) (emit (create_part part) m) in
        (ground (arith, rest), ground (arith, rest))
  ]

  -- Whatever the disk, the network, the clock and the context do, a job sends exactly one result,
  -- and that result says COMPLETED if and only if the file was published.
  pub run-Reports :
      (key : String) (c : Command) (m : Manager)
      → (results (run x p cfg env key c m) ≡ suc (results m))
        × (completions (run x p cfg env key c m) + publications m
            ≡ completions m + publications (run x p cfg env key c m))
  unfolding run results completions publications emit fail fail_at
  run-Reports key c m = elim (Prepared-cases (prepare_destination x p cfg env c.destination_path)) [
    | inl (e, stopped) ↦ (ground arith, ground arith)
    | inr (dir, ready) ↦
        let held = run_in-Reports key c dir (emit (hold_directory dir) m) in
        let free = run_in-Reports key c dir m in
        (ground (arith, held, free), ground (arith, held, free))
  ]
