-- ===== src/Client/Message/Kills.antt =====
-- When a message makes the agent end a process (client/message.go).
use thesis_agent.Base.{
  ◌≡◌, refl, true, false, some, List, [], ◌∷◌, arith, any, ◌⊎◌, inl, inr, ℤ, Text, codes, Unicode,
  Option-cases,
}
use thesis_agent.Client.Message.{
  ServerCommand, StreamKind, unknown, performance, process, screen, StreamCommand,
  normalize_command, one_of, kill_words, kill_process, alias, first_alias, stream_of, typed_command,
  is_one_shot, parse_stream,
}

alias_kill :
    (pid : ℤ) (value : Text) (c : StreamCommand)
    → alias pid value ≡ some c
    → c.kill ≡ true
    → (one_of value kill_words ≡ true) × (c ≡ kill_process pid)
unfolding alias
alias_kill pid value c e k = (ground arith, ground arith)

first_alias_kill :
    (pid : ℤ) (values : List Text) (c : StreamCommand)
    → first_alias pid values ≡ some c
    → c.kill ≡ true
    → (any (λ v. one_of v kill_words) values ≡ true) × (c ≡ kill_process pid)
unfolding first_alias
first_alias_kill pid [] c e k = cc
first_alias_kill pid (v ∷ vs) c e k =
    let here = alias_kill pid v c in
    let later = first_alias_kill pid vs c in
    elim (Option-cases (alias pid v)) [
      | inl other ↦ let (w, s) = later (ground arith) k in (ground (arith, w), s)
      | inr (d, found) ↦ let (w, s) = here (ground arith) k in (ground (arith, w), s)
    ]

typed_command_kill :
    (stream : StreamKind) (action : Text) (pid : ℤ)
    → (typed_command stream action pid).kill ≡ true
    → (one_of action (codes "kill" ∷ codes "terminate" ∷ []) ≡ true)
      × (typed_command stream action pid ≡ kill_process pid)
unfolding typed_command
typed_command_kill unknown action pid k = cc
typed_command_kill process action pid k = (ground arith, ground arith)
typed_command_kill performance action pid k = (ground arith, ground arith)
typed_command_kill screen action pid k = (ground arith, ground arith)

-- What a message must say for a kill: its action, command or type is a kill word, or its action is
-- "kill" or "terminate"; its type is none of the two one-shot types.
abbrev pub AsksForKill : Unicode → ServerCommand → Type 0
AsksForKill u m =
    (is_one_shot (normalize_command u m.kind) ≡ false)
    × ((any (λ v. one_of v kill_words)
            (normalize_command u m.action
              ∷ normalize_command u m.command
              ∷ normalize_command u m.kind
              ∷ [])
          ≡ true)
        ⊎ (one_of (normalize_command u m.action) (codes "kill" ∷ codes "terminate" ∷ []) ≡ true))

-- A message that makes the agent end a process asks for it in one of its words, is no power or
-- inventory message, and the process is the one it names; it starts no stream.
pub parse_stream_kill :
    (u : Unicode) (m : ServerCommand)
    → (parse_stream u (some m)).kill ≡ true
    → AsksForKill u m × (parse_stream u (some m) ≡ kill_process m.pid)
unfolding parse_stream
parse_stream_kill u m k =
    let values =
      normalize_command u m.action
      ∷ normalize_command u m.command
      ∷ normalize_command u m.kind
      ∷ [] in
    elim (Option-cases (first_alias m.pid values)) [
      | inl none_found ↦
          let (w, s) =
            typed_command_kill (stream_of (normalize_command u m.kind))
              (normalize_command u m.action) m.pid (ground arith) in
          ((ground arith, inr w), ground (arith, s))
      | inr (c, found) ↦
          let (w, s) = first_alias_kill m.pid values c found (ground arith) in
          ((ground arith, inl w), ground (arith, s))
    ]

-- A message of any type but the two one-shot ones, a virus scan or a download request included,
-- ends the process that it names if its action is kill_process in some spelling.
pub parse_stream-kill_word :
    (u : Unicode) (m : ServerCommand)
    → is_one_shot (normalize_command u m.kind) ≡ false
    → normalize_command u m.action ≡ codes "kill_process"
    → parse_stream u (some m) ≡ kill_process m.pid
unfolding parse_stream
parse_stream-kill_word u m other e = rw (other, e) (unfold first_alias alias one_of in refl)
