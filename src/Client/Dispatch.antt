-- ===== src/Client/Dispatch.antt =====
-- What a connection does with a frame from the server (`readJSONMessages` of client/message.go, the
-- handlers of `runConnection` in client/client.go, `parsePowerCommand` of client/power.go,
-- `parseInstalledAppsCommand` of client/installed_apps.go, `handleVirusScan` of client/antivirus.go).
pub mod OneShot
use thesis_agent.Base.{
  ℕ, Bool, true, false, not, ◌&&◌, ◌||◌, Option, none, some, List, [], ◌∷◌, ◌++◌, if◌then◌else◌,
  leb, ◌==◌, length, ℤ, Text, codes, bytes_eq, Unicode, is_some,
}
use thesis_agent.Client.Message.{
  ServerCommand, StreamCommand, unknown, performance, process, screen, normalize_command,
  parse_stream,
}
use thesis_agent.Download.{Command}

-- {type, action, request_id}, the fields of a power message and of an inventory command.
pub record Request : Type 0 where
  pub kind : Text
  pub action : Text
  pub request_id : Text

-- antivirus.Command.
pub record ScanCommand : Type 0 where
  pub request_id : Text
  pub scan_type : Text
  pub path : Text

-- json.Unmarshal at the types that the client decodes, and uuid.Validate of google/uuid. Where
-- decoding fails, the fields that were read are kept.
pub record Wire : Type 1 where
  pub Frame : Type 0
  pub is_text : Frame → Bool
  pub valid_json : Frame → Bool
  pub size : Frame → ℕ
  pub as_server : Frame → Option ServerCommand
  pub as_envelope : Frame → Option Text
  pub as_power : Frame → Option Request
  pub as_apps : Frame → Option Request
  pub as_scan : Frame → ScanCommand × Bool
  pub as_download : Frame → Command × Bool
  pub is_uuid : Text → Bool

pub data Action : Type 0 where
  submit_apps : Request → Action
  scan reject_scan : ScanCommand → Action
  shut_down : Text → Action
  submit_download reject_download : Command → Action
  set_performance set_process : Bool → Action
  kill : ℤ → Action
  start_screen stop_screen : Action

module _ (u : Unicode) (w : Wire) where
  open w use {
    Frame, is_text, valid_json, size, as_server, as_envelope, as_power, as_apps, as_scan,
    as_download, is_uuid,
  }

  -- `parsePowerCommand`: the request id, if the frame asks for a shutdown.
  unfoldable pub parse_power : Frame → Option Text
  parse_power frame = elim (as_power frame) [
    | none ↦ none
    | some m ↦
        if not (bytes_eq m.kind (codes "power")) || not (bytes_eq m.action (codes "shutdown"))
        then none
        else if not (length m.request_id == 36) || not (is_uuid m.request_id)
        then none
        else some m.request_id
  ]

  -- `parseInstalledAppsCommand`.
  unfoldable pub parse_apps : Frame → Option Request
  parse_apps frame = elim (as_apps frame) [
    | none ↦ none
    | some m ↦
        if leb (size frame) 1024
          && bytes_eq m.kind (codes "installed_apps")
          && bytes_eq m.action (codes "get")
          && length m.request_id == 36
          && is_uuid m.request_id
        then some m
        else none
  ]

  abbrev pub has_type : Text → Option Text → Bool
  has_type kind none = false
  has_type kind (some t) = bytes_eq (normalize_command u t) kind

  -- `handleVirusScan`; `none` is its false.
  unfoldable pub handle_virus_scan : Frame → Option Action
  handle_virus_scan frame =
      if not (has_type (codes "virus_scan") (as_envelope frame))
      then none
      else (let (c, decoded) = as_scan frame in some (if decoded then scan c else reject_scan c))

  -- The end of the message handler: downloads. `configured` is a download manager that is not nil.
  unfoldable pub handle_download : Bool → Frame → List Action
  handle_download configured frame =
      if not configured
      then []
      else if not (has_type (codes "download_file") (as_envelope frame))
      then []
      else (let (c, decoded) = as_download frame in
          (if decoded then submit_download c else reject_download c) ∷ [])

  -- The message handler of `runConnection`.
  unfoldable pub on_message : Bool → Frame → List Action
  on_message configured frame = elim (parse_apps frame) [
    | some m ↦ submit_apps m ∷ []
    | none ↦ elim (handle_virus_scan frame) [
      | some action ↦ action ∷ []
      | none ↦ elim (parse_power frame) [
        | some request_id ↦ shut_down request_id ∷ []
        | none ↦ handle_download configured frame
      ]
    ]
  ]

  -- The stream handler of `runConnection`. `providing` is a process provider that is not nil.
  unfoldable pub on_stream : Bool → StreamCommand → List Action
  on_stream providing c = elim c.stream [
    | unknown ↦ []
    | performance ↦ set_performance c.start ∷ []
    | process ↦
        if c.kill then kill c.kill_pid ∷ [] else if providing then set_process c.start ∷ [] else []
    | screen ↦ (if c.start then start_screen else stop_screen) ∷ []
  ]

  -- One round of `readJSONMessages`.
  unfoldable pub handle_frame : Bool → Bool → Frame → List Action
  handle_frame configured providing frame =
      if not (is_text frame) || not (valid_json frame)
      then []
      else on_message configured frame ++ on_stream providing (parse_stream u (as_server frame))

  -- The loop, up to the failing read.
  unfoldable pub read_messages : Bool → Bool → List Frame → List Action
  read_messages configured providing [] = []
  read_messages configured providing (frame ∷ frames) =
      handle_frame configured providing frame ++ read_messages configured providing frames
