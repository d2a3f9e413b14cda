-- ===== src/Messages/Commands.antt =====
-- toolbox/message_processor.go: the app commands that subjects ask the processor to run, and the
-- whole of `StoreReport` and `Execute`.
--
-- The command processor is a function from a command to a result. A command that runs leaves the
-- mutex: `begin_command` and `complete_command` are the two steps that other calls may come
-- between. Each function returns, beside its result, the command that it ran. `none` of a state is
-- a panic. `json.Marshal` is an argument, and log messages are left out.
pub mod Repeat
pub mod Delivery
pub mod Execute
use laitos.Base.{
  ℕ, ◌+◌, ◌-◌, ◌*◌, ◌/◌, ◌%◌, Bool, true, false, ◌&&◌, ◌||◌, List, [], ◌∷◌, ◌++◌, Option, none,
  some, Bytes, codes, ◌>>=◌, ltb, leb, ◌==◌, if◌then◌else◌, equal, has_prefix,
}
use laitos.Base.Dict.{lookup, insert, delete}
use laitos.Text.Numbers.{ℤ, pos, negsuc}
use laitos.Toolbox.Command.{Command, Result, Error, other, error_result, no_command, trim}
use laitos.Messages.Report.{
  Time, AppCommandResponse, SubjectReportRequest, SubjectReportResponse, zero_time,
  deserialise_from_compact, DecodeError, truncated, nothing_decoded,
}
use laitos.Messages.Store.{
  MessageProcessor, IncomingAppCommand, keep_report, stamped, report_interval_sec, second,
}

abbrev pub command_response_retention_sec : ℕ
command_response_retention_sec = report_interval_sec * 10

-- The clock's readings within `processCommandRequest`.
pub record Clock : Type 0 where
  pub checked : ℕ
  pub started : ℕ
  pub ended : ℕ

-- A reading of the clock as a `time.Time`.
abbrev pub time_of : ℕ → Time
time_of t = record { unix = pos (t / second); nanosecond = t % second }

-- `a - b` on `int64`.
abbrev pub difference : ℕ → ℕ → ℤ
difference a b = if leb b a then pos (a - b) else negsuc (b - a - 1)

abbrev pub no_response : AppCommandResponse
no_response = record {
  command = [];
  received_at = zero_time;
  result = [];
  run_duration_sec = pos 0;
}

-- White space of a regular expression.
abbrev is_white : ℕ → Bool
is_white c = c == 9 || c == 10 || c == 12 || c == 13 || c == b' '

unfoldable pub skip_white : Bytes → Bytes
skip_white [] = []
skip_white (c ∷ s) = let rest = skip_white s in if is_white c then rest else c ∷ s

abbrev opens_report : Bytes → Bool
opens_report [] = false
opens_report (c ∷ s) = c == b'{' && has_prefix (skip_white s) (b'"' ∷ [])

abbrev without_trigger : Bytes → Bytes
without_trigger (_ ∷ _ ∷ _ ∷ s) = s
without_trigger _ = []

-- `RegexNoRecursion.MatchString`, for `\.0m\s*{\s*"`.
unfoldable pub is_recursive : Bytes → Bool
unfolding skip_white has_prefix
is_recursive [] = false
is_recursive (c ∷ s) =
    (has_prefix (c ∷ s) (codes ".0m") && opens_report (skip_white (without_trigger (c ∷ s))))
    || is_recursive s

abbrev pub requested : IncomingAppCommand → Bytes
requested c = c.request.command_request

-- No command is asked for, or the one that was asked for before.
unfoldable pub is_repeated : Bytes → Option IncomingAppCommand → Bool
unfolding equal
is_repeated app_cmd none = equal app_cmd []
is_repeated app_cmd (some prev) = equal app_cmd [] || equal (requested prev) app_cmd

abbrev pub memorised : IncomingAppCommand → AppCommandResponse
memorised c = record {
  command = requested c;
  received_at = time_of c.request.server_time;
  result = c.result.combined_output;
  run_duration_sec = c.run_duration_sec;
}

-- The retrieval of a result, which forgets it where it is beyond its retention.
unfoldable pub retrieve :
    ℕ → Bytes → Option IncomingAppCommand → MessageProcessor → MessageProcessor × AppCommandResponse
unfolding delete
retrieve now host none proc = (proc, no_response)
retrieve now host (some prev) proc = (
  if ltb (prev.request.server_time + command_response_retention_sec * second) now
      then record proc { incoming_app_commands = delete host proc.incoming_app_commands }
      else proc,
  memorised prev,
)

abbrev pub app_command : SubjectReportRequest → Bytes → Bytes → Command
app_command request client_id daemon_name = record {
  daemon_name = daemon_name;
  client_id = client_id;
  content = request.command_request;
  timeout_sec = command_response_retention_sec;
}

abbrev pub with_incoming : Bytes → IncomingAppCommand → MessageProcessor → MessageProcessor
with_incoming host c proc = record proc {
  incoming_app_commands = insert host c proc.incoming_app_commands;
}

-- A command that has no result yet, which a duration of -1 says.
abbrev pub outstanding : SubjectReportRequest → Bytes → Bytes → IncomingAppCommand
outstanding request client_id daemon_name = record {
  request = request;
  run_duration_sec = negsuc 0;
  result = record {
    command = app_command request client_id daemon_name;
    error = none;
    output = [];
    combined_output = [];
  };
}

unfoldable pub begin_command :
    SubjectReportRequest → Bytes → Bytes → MessageProcessor → MessageProcessor
unfolding insert
begin_command request client_id daemon_name proc =
    with_incoming request.subject_host_name (outstanding request client_id daemon_name) proc

-- The result is stored in its place.
unfoldable pub complete_command :
    SubjectReportRequest → Result → ℤ → MessageProcessor → MessageProcessor
unfolding insert
complete_command request result duration proc =
    with_incoming request.subject_host_name
      (record { request = request; run_duration_sec = duration; result = result }) proc

pub record Processed : Type 0 where
  pub processor : MessageProcessor
  pub response : AppCommandResponse
  pub ran : Option Command

abbrev recursion_refused : SubjectReportRequest → AppCommandResponse
recursion_refused request = record {
  command = request.command_request;
  received_at = time_of request.server_time;
  result = codes "error: will not run a recursive store&forward command";
  run_duration_sec = pos 0;
}

-- A command that is new, run to its end.
unfoldable pub run_request :
    (Command → Result) → Clock → SubjectReportRequest → Bytes → Bytes → MessageProcessor → Processed
unfolding begin_command complete_command
run_request run clock request client_id daemon_name proc =
    let cmd = app_command request client_id daemon_name in
    let result = run cmd in
    let duration = difference (clock.ended / second) (clock.started / second) in
    record {
      processor =
          complete_command request result duration
            (begin_command request client_id daemon_name proc);
      response = record {
        command = request.command_request;
        received_at = time_of request.server_time;
        result = result.combined_output;
        run_duration_sec = duration;
      };
      ran = some cmd;
    }

-- `processCommandRequest`; the command processor may be nil.
unfoldable pub process_command_request :
    Option (Command → Result)
    → Clock
    → SubjectReportRequest
    → Bytes
    → Bytes
    → MessageProcessor
    → Processed
unfolding lookup is_repeated retrieve is_recursive run_request
process_command_request none clock request client_id daemon_name proc = record {
  processor = proc;
  response = no_response;
  ran = none;
}
process_command_request (some run) clock request client_id daemon_name proc =
    let host = request.subject_host_name in
    let prev = lookup host proc.incoming_app_commands in
    let (after, found) = retrieve clock.checked host prev proc in
    if is_repeated request.command_request prev
    then record { processor = after; response = found; ran = none }
    else if is_recursive request.command_request
    then record { processor = proc; response = recursion_refused request; ran = none }
    else run_request run clock request client_id daemon_name proc

pub record Stored : Type 0 where
  pub processor : MessageProcessor
  pub response : SubjectReportResponse
  pub ran : Option Command

abbrev pub or_empty : Option Bytes → Bytes
or_empty none = []
or_empty (some s) = s

-- `StoreReport` on a request that is stamped.
unfoldable pub store_stamped :
    Option (Command → Result)
    → ℕ
    → Clock
    → SubjectReportRequest
    → Bytes
    → Bytes
    → MessageProcessor
    → Option Stored
unfolding keep_report lookup process_command_request
store_stamped run expiring clock request client_id daemon_name proc = do
  kept ← keep_report expiring request client_id daemon_name proc
  let p = process_command_request run clock request client_id daemon_name kept
  some (record {
    processor = p.processor;
    response = record {
      command_request = or_empty (lookup request.subject_host_name kept.outgoing_app_commands);
      command_response = p.response;
    };
    ran = p.ran;
  })

-- `StoreReport`; `received` and `expiring` are the readings of the clock under the mutex.
unfoldable pub store_report :
    (Bytes → Bytes)
    → Option (Command → Result)
    → ℕ
    → ℕ
    → Clock
    → SubjectReportRequest
    → Bytes
    → Bytes
    → MessageProcessor
    → Option Stored
unfolding store_stamped equal
store_report to_lower run received expiring clock request client_id daemon_name proc =
    if equal (stamped to_lower received request).subject_host_name []
    then some (record {
      processor = proc;
      response = record { command_request = []; command_response = no_response };
      ran = none;
    })
    else store_stamped run expiring clock (stamped to_lower received request) client_id daemon_name
        proc
