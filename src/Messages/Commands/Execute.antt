-- ===== src/Messages/Commands/Execute.antt =====
-- toolbox/message_processor.go, Execute: a report that comes in as an app command.
use laitos.Base.{ℕ, [], Option, none, some, Bytes, codes, ◌>>=◌, if◌then◌else◌, equal}
use laitos.Toolbox.Command.{Command, Result, other, error_result, no_command, trim}
use laitos.Messages.Report.{
  SubjectReportRequest, SubjectReportResponse, deserialise_from_compact, DecodeError, truncated,
  nothing_decoded,
}
use laitos.Messages.Store.{MessageProcessor}
use laitos.Messages.Commands.{Clock, Stored, store_report, no_response}

abbrev pub no_report : SubjectReportRequest
no_report = record {
  subject_ip = [];
  subject_host_name = [];
  subject_platform = [];
  subject_comment = [];
  server_time = 0;
  command_request = [];
  command_response = no_response;
}

-- Why a report is not taken; one that is truncated is stored all the same.
abbrev refusal : Option DecodeError → SubjectReportRequest → Option Bytes
refusal (some truncated) report = none
refusal (some nothing_decoded) report = some (codes "failed to decode subject report")
refusal none report =
    if equal report.subject_host_name []
    then some (codes "the report does not have a host name")
    else none

abbrev failed : Bytes → Result
failed text = error_result (other text)

-- The response as JSON, or the error of its encoding.
abbrev encoded : Option Bytes → Result
encoded none = failed (codes "failed to encode JSON response")
encoded (some json) = record {
  command = no_command;
  error = none;
  output = json;
  combined_output = [];
}

pub record Executed : Type 0 where
  pub processor : MessageProcessor
  pub result : Result

-- `Execute` on a command that is trimmed. The text of a wrapped error is left out.
unfoldable pub execute_report :
    (SubjectReportResponse → Option Bytes)
    → (SubjectReportRequest → Option Stored)
    → Bytes
    → MessageProcessor
    → Option Executed
unfolding deserialise_from_compact equal
execute_report marshal store content proc =
    let (report, error) = deserialise_from_compact no_report content in
    elim (refusal error report) [
      | some text ↦ some (record { processor = proc; result = failed text })
      | none ↦ store report >>= λ s.
          some (record { processor = s.processor; result = encoded (marshal s.response) })
    ]

-- `Execute`
unfoldable pub execute :
    (Bytes → Bytes)
    → (SubjectReportResponse → Option Bytes)
    → Option (Command → Result)
    → ℕ
    → ℕ
    → Clock
    → Command
    → MessageProcessor
    → Option Executed
unfolding execute_report store_report trim
execute to_lower marshal run received expiring clock cmd proc = elim (trim cmd).1 [
  | some refused ↦ some (record { processor = proc; result = refused })
  | none ↦
      execute_report marshal
        (λ report.
          store_report to_lower run received expiring clock report cmd.client_id cmd.daemon_name
            proc)
        (trim cmd).0.content proc
]
