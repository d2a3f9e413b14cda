-- ===== src/Messages/Store.antt =====
-- toolbox/message_processor.go: the reports that the processor keeps, and the commands that wait
-- for subjects.
--
-- Each map is an association list. The clock is an argument, in nanoseconds since the epoch, read
-- as often as the code reads it, but for the removal of expired subjects, which reads it once.
-- `strings.ToLower` is an argument. The mutex makes the part of `StoreReport` that it guards one
-- step. `none` is a panic.
pub mod Window
pub mod Expiry
pub mod Removal
use laitos.Base.{
  ℕ, zero, suc, ◌+◌, ◌*◌, ◌/◌, ◌%◌, ◌^◌, Bool, true, false, List, [], ◌∷◌, ◌++◌, Option, none, some,
  Bytes, ◌>>=◌, ltb, ◌==◌, if◌then◌else◌, length, drop, equal,
}
use laitos.Base.Dict.{lookup, insert, delete}
use laitos.Text.Trim.{trim_space}
use laitos.Text.Numbers.{ℤ}
use laitos.Toolbox.Command.{Result}
use laitos.Toolbox.Processor.Sanity.{ConfigError}
use laitos.Messages.Report.{SubjectReportRequest}

abbrev pub report_interval_sec : ℕ
report_interval_sec = 5 * 60

abbrev pub second : ℕ
second = 10 ^ 9

abbrev pub subject_expiry_second : ℕ
subject_expiry_second = 72 * 3600

pub record SubjectReport : Type 0 where
  pub original_request : SubjectReportRequest
  pub subject_client_id : Bytes
  pub server_time : ℕ
  pub daemon_name : Bytes

-- `run_duration_sec` is -1 while the command runs.
pub record IncomingAppCommand : Type 0 where
  pub request : SubjectReportRequest
  pub run_duration_sec : ℤ
  pub result : Result

pub record MessageProcessor : Type 0 where
  pub subject_reports : List (Bytes × List SubjectReport)
  pub incoming_app_commands : List (Bytes × IncomingAppCommand)
  pub outgoing_app_commands : List (Bytes × Bytes)
  pub max_reports_per_host_name : ℕ
  pub total_reports : ℕ

-- The state that `Initialise` sets up.
unfoldable pub initialise_store : ℕ → MessageProcessor
initialise_store max_reports = record {
  subject_reports = [];
  incoming_app_commands = [];
  outgoing_app_commands = [];
  max_reports_per_host_name =
      if ltb max_reports 1 then 3 * 24 * 3600 / report_interval_sec else max_reports;
  total_reports = 0;
}

-- `Initialise`, on the errors of the command processor, where there is one.
unfoldable pub initialise_processor :
    ℕ → Option (List ConfigError) → MessageProcessor × Option (List ConfigError)
unfolding initialise_store
initialise_processor max_reports none = (initialise_store max_reports, none)
initialise_processor max_reports (some []) = (initialise_store max_reports, none)
initialise_processor max_reports (some (e ∷ errors)) =
    (initialise_store max_reports, some (e ∷ errors))

unfoldable pub set_outgoing_command :
    (Bytes → Bytes) → Bytes → Bytes → MessageProcessor → MessageProcessor
unfolding insert delete equal
set_outgoing_command to_lower host_name cmd_content proc =
    let host = to_lower host_name in
    let cleared =
      if equal cmd_content []
      then delete host proc.outgoing_app_commands
      else proc.outgoing_app_commands in
    record proc { outgoing_app_commands = insert host cmd_content cleared }

-- `GetAllOutgoingCommands`
abbrev pub get_all_outgoing_commands : MessageProcessor → List (Bytes × Bytes)
get_all_outgoing_commands proc = proc.outgoing_app_commands

-- The report that was stored last.
abbrev pub latest : List SubjectReport → Option SubjectReport
latest [] = none
latest (r ∷ []) = some r
latest (r ∷ s ∷ rs) = latest (s ∷ rs)

-- The report was made more than three days before.
abbrev pub is_expired : ℕ → SubjectReport → Bool
is_expired now r = ltb (r.original_request.server_time + subject_expiry_second * second) now

-- `subjectsToRemove`
unfoldable pub subjects_to_remove : ℕ → List (Bytes × List SubjectReport) → Option (List Bytes)
subjects_to_remove now [] = some []
subjects_to_remove now ((subject, reports) ∷ rest) = do
  r ← latest reports
  hosts ← subjects_to_remove now rest
  some (if is_expired now r then subject ∷ hosts else hosts)

abbrev pub delete_all {ℓ} : {V : Type ℓ} → List Bytes → List (Bytes × V) → List (Bytes × V)
delete_all [] dict = dict
delete_all (key ∷ keys) dict = delete_all keys (delete key dict)

unfoldable pub remove_expired_subjects : ℕ → MessageProcessor → Option MessageProcessor
unfolding subjects_to_remove delete
remove_expired_subjects now proc = do
  hosts ← subjects_to_remove now proc.subject_reports
  some (record proc {
    subject_reports = delete_all hosts proc.subject_reports;
    incoming_app_commands = delete_all hosts proc.incoming_app_commands;
    outgoing_app_commands = delete_all hosts proc.outgoing_app_commands;
  })

abbrev pub or_none {ℓ} : {A : Type ℓ} → Option (List A) → List A
or_none none = []
or_none (some xs) = xs

-- The list without its oldest report where it is full, and with the new one.
unfoldable pub with_report : ℕ → List SubjectReport → SubjectReport → List SubjectReport
with_report max reports new =
    (if length reports == max then drop 1 reports else reports) ++ (new ∷ [])

abbrev pub new_report : SubjectReportRequest → Bytes → Bytes → SubjectReport
new_report request client_id daemon_name = record {
  original_request = request;
  subject_client_id = client_id;
  server_time = request.server_time;
  daemon_name = daemon_name;
}

-- The request as it is stored: with its host name in the form of the maps' keys, and the time.
abbrev pub stamped : (Bytes → Bytes) → ℕ → SubjectReportRequest → SubjectReportRequest
stamped to_lower now request = record request {
  subject_host_name = trim_space (to_lower request.subject_host_name);
  server_time = now;
}

-- The processor with a report on a request that is stamped.
unfoldable pub stored_report :
    SubjectReportRequest → Bytes → Bytes → MessageProcessor → MessageProcessor
unfolding lookup insert with_report
stored_report request client_id daemon_name proc =
    let host = request.subject_host_name in
    let old = or_none (lookup host proc.subject_reports) in
    let new = new_report request client_id daemon_name in
    record proc {
      subject_reports =
          insert host (with_report proc.max_reports_per_host_name old new) proc.subject_reports;
      total_reports = proc.total_reports + 1;
    }

-- The part of `StoreReport` under the mutex, on a request that is stamped; `now` is the second
-- reading of the clock. A limit of 0 panics in the division.
unfoldable pub keep_report :
    ℕ → SubjectReportRequest → Bytes → Bytes → MessageProcessor → Option MessageProcessor
unfolding stored_report remove_expired_subjects
keep_report now request client_id daemon_name proc =
    let stored = stored_report request client_id daemon_name proc in
    if proc.max_reports_per_host_name == 0
    then none
    else if stored.total_reports % proc.max_reports_per_host_name == 0
    then remove_expired_subjects now stored
    else some stored
