-- ===== src/Client/Message.antt =====
-- Stream commands (client/message.go). json.Unmarshal is outside the model: a command comes decoded,
-- or as `none` where decoding fails.
pub mod Spelling
pub mod Kills
use thesis_agent.Base.{
  ℕ, ◌≡◌, Bool, true, false, ◌&&◌, ◌||◌, Option, none, some, List, [], ◌∷◌, String, if◌then◌else◌,
  any, ℤ, pos, Text, codes, bytes_eq, Unicode, trim_space, to_lower, replace_char,
}

pub record ServerCommand : Type 0 where
  pub kind : Text
  pub action : Text
  pub command : Text
  pub pid : ℤ

pub data StreamKind : Type 0 where
  unknown performance process screen : StreamKind

pub record StreamCommand : Type 0 where
  pub stream : StreamKind
  pub start : Bool
  pub kill : Bool
  pub kill_pid : ℤ

-- `streamCommand{}`.
abbrev pub no_command : StreamCommand
no_command = record { stream = unknown; start = false; kill = false; kill_pid = pos 0 }

abbrev pub start_stream : StreamKind → StreamCommand
start_stream k = record { stream = k; start = true; kill = false; kill_pid = pos 0 }

abbrev pub stop_stream : StreamKind → StreamCommand
stop_stream k = record { stream = k; start = false; kill = false; kill_pid = pos 0 }

abbrev pub kill_process : ℤ → StreamCommand
kill_process pid = record { stream = process; start = false; kill = true; kill_pid = pid }

-- `normalizeCommand`.
unfoldable pub normalize_command : Unicode → Text → Text
normalize_command u value = to_lower u (replace_char b'-' b'_' (trim_space u value))

unfoldable pub one_of : Text → List Text → Bool
one_of value words = any (λ word. bytes_eq value word) words

abbrev pub kill_words : List Text
kill_words = codes "kill_process" ∷ codes "process_kill" ∷ codes "terminate_process" ∷ []

-- The first switch of `parseStreamCommand`, for one of its three values.
unfoldable pub alias : ℤ → Text → Option StreamCommand
alias pid value =
    if one_of value
      (codes "start_performance" ∷ codes "performance_start" ∷ codes "request_performance" ∷ [])
    then some (start_stream performance)
    else if one_of value (codes "stop_performance" ∷ codes "performance_stop" ∷ [])
    then some (stop_stream performance)
    else if one_of value
        (codes "start_process" ∷ codes "process_start" ∷ codes "request_process" ∷ [])
    then some (start_stream process)
    else if one_of value (codes "stop_process" ∷ codes "process_stop" ∷ [])
    then some (stop_stream process)
    else if one_of value (
        codes "start_stream"
        ∷ codes "start_screen"
        ∷ codes "screen_start"
        ∷ codes "request_screen"
        ∷ [])
    then some (start_stream screen)
    else if one_of value (codes "stop_stream" ∷ codes "stop_screen" ∷ codes "screen_stop" ∷ [])
    then some (stop_stream screen)
    else if one_of value kill_words
    then some (kill_process pid)
    else none

-- The loop over the three values: the first that is an alias decides.
unfoldable pub first_alias : ℤ → List Text → Option StreamCommand
first_alias pid [] = none
first_alias pid (value ∷ values) =
    let rest = first_alias pid values in elim (alias pid value) [ some c ↦ some c | none ↦ rest ]

-- The second switch: the stream that a type names.
unfoldable pub stream_of : Text → StreamKind
stream_of kind =
    if bytes_eq kind (codes "performance")
    then performance
    else if one_of kind (codes "process" ∷ codes "processes" ∷ [])
    then process
    else if one_of kind (codes "screen" ∷ codes "screen_stream" ∷ [])
    then screen
    else unknown

-- What follows the second switch.
unfoldable pub typed_command : StreamKind → Text → ℤ → StreamCommand
typed_command unknown action pid = no_command
typed_command stream action pid =
    if (elim stream [ process ↦ true | _ ↦ false ])
      && one_of action (codes "kill" ∷ codes "terminate" ∷ [])
    then kill_process pid
    else if one_of action (codes "start" ∷ codes "request" ∷ [])
    then start_stream stream
    else if bytes_eq action (codes "stop")
    then stop_stream stream
    else no_command

abbrev pub is_one_shot : Text → Bool
is_one_shot kind = bytes_eq kind (codes "power") || bytes_eq kind (codes "installed_apps")

-- `parseStreamCommand` behind json.Unmarshal.
unfoldable pub parse_stream : Unicode → Option ServerCommand → StreamCommand
parse_stream u none = no_command
parse_stream u (some m) =
    let kind = normalize_command u m.kind in
    let action = normalize_command u m.action in
    let command = normalize_command u m.command in
    if is_one_shot kind
    then no_command
    else elim (first_alias m.pid (action ∷ command ∷ kind ∷ [])) [
      | some c ↦ c
      | none ↦ typed_command (stream_of kind) action m.pid
    ]

pub data PerformanceCommand : Type 0 where
  performance_none performance_start performance_stop : PerformanceCommand

-- `parsePerformanceCommand`.
unfoldable pub parse_performance : Unicode → Option ServerCommand → PerformanceCommand
parse_performance u m =
    let c = parse_stream u m in
    elim c.stream [
      | performance ↦ if c.start then performance_start else performance_stop
      | _ ↦ performance_none
    ]
