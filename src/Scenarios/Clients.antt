-- ===== src/Scenarios/Clients.antt =====
-- Runs of the client: frames of the server, its event queue, its streams and the inventory worker.
use thesis_agent.Client.Streams.{round}
use thesis_agent.Client.Message.{one_of}
use thesis_agent.Client.Message.{alias}
use thesis_agent.Client.Message.{first_alias}
use thesis_agent.Base.{
  ◌≡◌, refl, Bool, true, false, if◌then◌else◌, none, some, List, [], ◌∷◌, arith, pos, Text, codes,
  ℕ, to_lower, replace_char, trim_space, bytes_eq, ◌==◌,
}
use thesis_agent.Client.Message.{ServerCommand, normalize_command, parse_stream, kill_process}
use thesis_agent.Client.Message.Kills.{AsksForKill, parse_stream_kill}
use thesis_agent.Client.Dispatch.{Request, Wire, shut_down, parse_power, handle_frame}
use thesis_agent.Client.Dispatch.OneShot.{ReadsType, handle_frame-power}
use thesis_agent.Client.Events.{Outbox, flush}
use thesis_agent.Client.Events.Delivery.{Conserves, flush-Conserves}
use thesis_agent.Client.Streams.{
  Publisher, Input, command, tick, running, rounds, requested, rounds-requested,
}
use thesis_agent.Client.Screen.{
  new_streamer, start, here, next, start_called, IsSingle, Reach-IsSingle,
}
use thesis_agent.Client.Apps.{new_worker, submit, submitted, IsBounded, Reach-IsBounded}
use thesis_agent.Client.Apps.{here as apps_here, next as apps_next}
use thesis_agent.Download.{Command}
use thesis_agent.Scenarios.{ascii, ascii_laws}

-- A virus scan whose action is a kill word.
abbrev scan_and_kill : ServerCommand
scan_and_kill = record {
  kind = codes "virus_scan";
  action = codes "kill-process";
  command = [];
  pid = pos 42;
}

scan_kills : (parse_stream ascii (some scan_and_kill)).kill ≡ true
unfolding parse_stream normalize_command to_lower replace_char trim_space first_alias alias one_of
scan_kills = refl

parse_stream_kill_example :
    AsksForKill ascii scan_and_kill
    × (parse_stream ascii (some scan_and_kill) ≡ kill_process (pos 42))
parse_stream_kill_example = parse_stream_kill ascii scan_and_kill scan_kills

abbrev request_id : Text
request_id = codes "11111111-1111-1111-1111-111111111111"

abbrev server_command : Bool → ServerCommand
server_command power = record {
  kind = if power then codes "power" else codes "installed_apps";
  action = if power then codes "shutdown" else codes "get";
  command = [];
  pid = pos 0;
}

abbrev request : Bool → Request
request power = record {
  kind = if power then codes "power" else codes "installed_apps";
  action = if power then codes "shutdown" else codes "get";
  request_id = request_id;
}

abbrev no_download : Command
no_download = record {
  kind = "";
  job_id = "";
  file_id = "";
  filename = [];
  destination_path = [];
  size = pos 0;
  sha256 = "";
  download_url = "";
  expires_at = none;
}

-- Two frames: true is a power message, false asks for the inventory.
abbrev wire : Wire
wire = record {
  Frame = Bool;
  is_text = λ f. true;
  valid_json = λ f. true;
  size = λ f. 100;
  as_server = λ f. some (server_command f);
  as_envelope = λ f. some (server_command f).kind;
  as_power = λ f. some (request f);
  as_apps = λ f. some (request f);
  as_scan = λ f. (record { request_id = request_id; scan_type = []; path = [] }, true);
  as_download = λ f. (no_download, true);
  is_uuid = λ s. bytes_eq s request_id;
}

power_reads : ReadsType ascii ascii_laws wire true (codes "power")
power_reads = record {
  server_type = λ m h. ground arith;
  envelope_type = λ t h. ground arith;
  apps_type = λ m h. ground arith;
}

power_parses : parse_power ascii wire true ≡ some request_id
unfolding parse_power
power_parses = refl

handle_frame-power_example : handle_frame ascii wire true true true ≡ shut_down request_id ∷ []
handle_frame-power_example =
    handle_frame-power ascii ascii_laws wire true true true request_id power_reads refl refl
      power_parses

abbrev outbox : Outbox ℕ
outbox = record {
  stopping = false;
  connected = true;
  pending = 1 ∷ 2 ∷ 3 ∷ [];
  sent = [];
  lost = [];
}

flush-Conserves_example : Conserves outbox (flush (λ n. n == 0) outbox)
flush-Conserves_example = flush-Conserves (λ n. n == 0) outbox (omega arith)

abbrev idle : Publisher
idle = record { active = false; ticking = false }

abbrev inputs : List Input
inputs = command true true ∷ tick true ∷ command true true ∷ tick true ∷ []

inputs_run : rounds inputs idle 0 ≡ running (record { active = true; ticking = true }) 3
unfolding rounds round
inputs_run = refl

rounds-requested_example : (true ≡ requested false inputs) × (true ≡ true)
rounds-requested_example =
    rounds-requested inputs idle (record { active = true; ticking = true }) 0 3 refl inputs_run

Reach-IsSingle_example : IsSingle (start (new_streamer true))
Reach-IsSingle_example = Reach-IsSingle true (start (new_streamer true)) (next here start_called)

Reach-IsBounded_example : IsBounded (submit 5 "a" new_worker)
Reach-IsBounded_example =
    Reach-IsBounded (submit 5 "a" new_worker) (apps_next apps_here (submitted 5 "a"))
