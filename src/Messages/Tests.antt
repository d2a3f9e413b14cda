-- ===== src/Messages/Tests.antt =====
-- The theorems about the message processor at concrete inputs.
use laitos.Base.{ℕ, ◌+◌, ◌*◌, ◌≡◌, refl, [], ◌∷◌, ◌++◌, none, some, Bytes, codes, arith, equal, inr}
use laitos.Base.Dict.{lookup}
use laitos.Text.Numbers.{negsuc}
use laitos.Text.Trim.{trim_space}
use laitos.Text.Separators.{lacks}
use laitos.Toolbox.Command.{Command, Result}
use laitos.Messages.Report.{SubjectReportRequest, serialise_compact, deserialise_from_compact}
use laitos.Messages.Report.RoundTrip.{IsCompactable, deserialise_from_compact-serialise_compact}
use laitos.Messages.Store.{
  MessageProcessor, SubjectReport, keep_report, remove_expired_subjects, new_report, second,
  stamped, subject_expiry_second,
}
use laitos.Messages.Store.Expiry.{IsKept}
use laitos.Messages.Store.Removal.{Removed, remove_expired_subjects-Removed}
use laitos.Messages.Store.Window.{Kept, keep_report-Kept}
use laitos.Base.Dict.{lookup}
use laitos.Messages.Store.{or_none}
use laitos.Messages.Latest.{get_latest_reports_from_subject}
use laitos.Messages.Latest.Order.{newest, get_latest_reports_from_subject-newest}
use laitos.Messages.Commands.{
  Clock, Processed, Stored, process_command_request, begin_command, run_request, store_report,
  no_response, time_of, app_command,
}
use laitos.Messages.Commands.Execute.{no_report}
use laitos.Messages.Commands.Repeat.{
  IsNew, process_command_request-IsNew, process_command_request-repeat, begin_command-busy,
}
use laitos.Messages.Commands.Delivery.{Delivered, store_report-Delivered}

abbrev report : SubjectReportRequest
report = record no_report {
  subject_host_name = codes "host";
  subject_comment = codes "two" ++ (10 ∷ codes "lines");
  command_request = codes ".s ls";
  server_time = 1000 * second;
  command_response = record no_response {
    command = codes ".e";
    result = codes "done";
    received_at = time_of (7 * second);
    run_duration_sec = negsuc 0;
  };
}

report-IsCompactable : IsCompactable report
unfolding lacks
report-IsCompactable = record {
  named = λ e. absurd (cc);
  host_name = refl;
  request = refl;
  command = refl;
  result = refl;
  result_lines = refl;
  platform = refl;
  comment = refl;
  comment_lines = refl;
  ip = refl;
  whole_second = refl;
  time_64 = omega arith;
  duration_64 = omega arith;
}

deserialise_from_compact-serialise_compact_example :
    deserialise_from_compact no_report (serialise_compact report)
    ≡ (record report { server_time = 0 }, none)
deserialise_from_compact-serialise_compact_example =
    deserialise_from_compact-serialise_compact no_report report report-IsCompactable

abbrev report_of : Bytes → ℕ → SubjectReport
report_of host now =
    new_report (record report { subject_host_name = host; server_time = now }) [] []

-- A processor that keeps two reports of each of two subjects, one of which is silent since.
abbrev proc : MessageProcessor
proc = record {
  subject_reports =
      (codes "host", report_of (codes "host") 1 ∷ report_of (codes "host") 2 ∷ [])
      ∷ (codes "silent", report_of (codes "silent") 1 ∷ [])
      ∷ [];
  incoming_app_commands = [];
  outgoing_app_commands = (codes "host", codes ".e info") ∷ (codes "silent", codes "x") ∷ [];
  max_reports_per_host_name = 2;
  total_reports = 3;
}

proc-IsKept : IsKept proc
unfolding lookup equal
proc-IsKept = record {
  distinct = (refl, (refl, tt));
  filled = (omega arith, (omega arith, tt));
  bounded = (omega arith, (omega arith, tt));
  positive = omega arith;
}

abbrev later : ℕ
later = subject_expiry_second * second + 2

remove_expired_subjects-Removed_example :
    (after : MessageProcessor) × (remove_expired_subjects later proc ≡ some after)
    × Removed later proc after
    × IsKept after
remove_expired_subjects-Removed_example = remove_expired_subjects-Removed later proc proc-IsKept

keep_report-Kept_example :
    (after : MessageProcessor) × (keep_report (1001 * second) report [] [] proc ≡ some after)
    × Kept (1001 * second) (new_report report [] []) (codes "host") proc after
keep_report-Kept_example =
    keep_report-Kept report [] [] proc proc-IsKept (1001 * second) (omega arith)

abbrev clock : Clock
clock = record { checked = 1001 * second; started = 1001 * second; ended = 1003 * second }

abbrev runs : Command → Result
runs cmd = record { command = cmd; error = none; output = []; combined_output = codes "files" }

abbrev processed : Processed
processed = run_request runs clock report [] [] proc

process_command_request-IsNew_example :
    IsNew report proc × (app_command report [] [] ≡ app_command report [] [])
unfolding process_command_request
process_command_request-IsNew_example =
    process_command_request-IsNew (some runs) clock report [] [] proc (app_command report [] [])
      refl

process_command_request-repeat_example :
    ((process_command_request (some runs) clock report [] [] processed.processor).response
      ≡ processed.response)
    × ((process_command_request (some runs) clock report [] [] processed.processor).ran ≡ none)
unfolding process_command_request
process_command_request-repeat_example =
    process_command_request-repeat runs clock clock report report [] [] proc processed
      (app_command report [] []) refl refl refl (inr refl)

begin_command-busy_example :
    ((process_command_request
        (some runs)
        clock
        report
        []
        []
        (begin_command report [] [] proc)).response.run_duration_sec
      ≡ negsuc 0)
    × ((process_command_request
          (some runs)
          clock
          report
          []
          []
          (begin_command report [] [] proc)).ran
        ≡ none)
begin_command-busy_example =
    begin_command-busy runs clock report report [] [] proc (begin_command report [] [] proc) refl
      refl (inr refl)

store_report-Delivered_example :
    (s : Stored) × (store_report
        (λ t. t)
        (some runs)
        (1000 * second)
        (1001 * second)
        clock
        report
        []
        []
        proc
      ≡ some s)
    × Delivered (stamped (λ t. t) (1000 * second) report) [] [] proc s
unfolding trim_space
store_report-Delivered_example =
    store_report-Delivered (λ t. t) (some runs) (1000 * second) (1001 * second) clock report [] []
      proc proc-IsKept (omega arith) (λ e. absurd (cc))

get_latest_reports_from_subject-newest_example :
    get_latest_reports_from_subject (λ s. s) (codes "host") 5 proc
    ≡ some (newest 5 (or_none (lookup (codes "host") proc.subject_reports)))
get_latest_reports_from_subject-newest_example =
    get_latest_reports_from_subject-newest (λ s. s) (codes "host") 5 proc
