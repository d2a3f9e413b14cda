-- ===== src/Messages/Commands/Delivery.antt =====
-- What a report brings about: it is stored, and the reply carries the command that waits for the
-- subject.
use mathlib.Core.Path.{subst}
use laitos.Base.{
  ℕ, ◌+◌, ◌*◌, ◌≤◌, ◌≡◌, ◌≢◌, refl, sym, ap, ◌∙◌, false, ◌++◌, List, [], ◌∷◌, Option, ltb, ◌<◌,
  length, none, some, Bytes, arith, equal, equal_iff, equal_self, Bool-cases, inl, inr,
}
use laitos.Base.Dict.{lookup, lookup-insert}
use laitos.Toolbox.Command.{Command, Result}
use laitos.Messages.Report.{SubjectReportRequest}
use laitos.Messages.Store.{
  SubjectReport, MessageProcessor, IncomingAppCommand, stamped, set_outgoing_command, new_report,
  or_none, second, subject_expiry_second,
}
use laitos.Base.Dict.Entries.{Distinct, AllValues}
use laitos.Messages.Store.Expiry.{IsKept, IsSome}
use laitos.Messages.Store.Window.{keep_report-Kept, window}
use laitos.Messages.Commands.{
  Clock, Stored, process_command_request, run_request, retrieve, begin_command, complete_command,
  store_report, store_stamped, or_empty, is_repeated, is_recursive, command_response_retention_sec,
}

-- A command that is set for a host is what waits for it, also where it is empty: the entry of the
-- host is then an empty command, and is not taken away.
pub set_outgoing_command-stays :
    (to_lower : Bytes → Bytes) (host cmd : Bytes) (proc : MessageProcessor)
    → lookup (to_lower host) (set_outgoing_command to_lower host cmd proc).outgoing_app_commands
      ≡ some cmd
unfolding set_outgoing_command
set_outgoing_command-stays to_lower host cmd proc =
    lookup-insert (to_lower host) (to_lower host) cmd _ ∙ rw (equal_self (to_lower host)) refl

-- The reports, their limit and the commands that wait are the same.
record SameReports (before after : MessageProcessor) : Type 0 where
  reports : after.subject_reports ≡ before.subject_reports
  max : after.max_reports_per_host_name ≡ before.max_reports_per_host_name

retrieve-SameReports :
    (now : ℕ) (host : Bytes) (prev : Option IncomingAppCommand) (proc : MessageProcessor)
    → SameReports proc (retrieve now host prev proc).0
unfolding retrieve
retrieve-SameReports now host none proc = record { reports = refl; max = refl }
retrieve-SameReports now host (some prev) proc =
    elim (Bool-cases
      (ltb (prev.request.server_time + command_response_retention_sec * second) now)) [
        | inl y ↦ record { reports = rw y refl; max = rw y refl }
        | inr n ↦ record { reports = rw n refl; max = rw n refl }
      ]

process_command_request-SameReports :
    (run : Option (Command → Result)) (clock : Clock) (request : SubjectReportRequest)
    (client_id daemon_name : Bytes) (proc : MessageProcessor)
    → SameReports proc
        (process_command_request run clock request client_id daemon_name proc).processor
unfolding process_command_request run_request begin_command complete_command
process_command_request-SameReports none clock request client_id daemon_name proc = record {
  reports = refl;
  max = refl;
}
process_command_request-SameReports (some run) clock request client_id daemon_name proc =
    let prev = lookup request.subject_host_name proc.incoming_app_commands in
    let kept = retrieve-SameReports clock.checked request.subject_host_name prev proc in
    elim (Bool-cases (is_repeated request.command_request prev)) [
      | inl y ↦ record { reports = rw y kept.reports; max = rw y kept.max }
      | inr n ↦ elim (Bool-cases (is_recursive request.command_request)) [
        | inl y ↦ record { reports = rw (n, y) refl; max = rw (n, y) refl }
        | inr m ↦ record { reports = rw (n, m) refl; max = rw (n, m) refl }
      ]
    ]

IsKept-same :
    (before after : MessageProcessor) → SameReports before after → IsKept before → IsKept after
IsKept-same before after s k = record {
  distinct = subst Distinct (sym s.reports) k.distinct;
  filled = subst (AllValues IsSome) (sym s.reports) k.filled;
  bounded =
      subst
        (λ reports.
          AllValues (λ (rs : List SubjectReport). length rs ≤ after.max_reports_per_host_name)
            reports)
        (sym s.reports)
        (subst (λ m. AllValues (λ (rs : List SubjectReport). length rs ≤ m) before.subject_reports)
          (sym s.max) k.bounded);
  positive = subst (λ m. 0 < m) (sym s.max) k.positive;
}

-- What the call has done for a subject that reports.
pub record Delivered (request : SubjectReportRequest) (client_id daemon_name : Bytes)
    (proc : MessageProcessor) (s : Stored) : Type 0 where
  pub reply :
      s.response.command_request
      ≡ or_empty (lookup request.subject_host_name proc.outgoing_app_commands)
  pub own :
      lookup request.subject_host_name s.processor.subject_reports
      ≡ some (
          window proc.max_reports_per_host_name (
            or_none (lookup request.subject_host_name proc.subject_reports)
            ++ (new_report request client_id daemon_name ∷ [])))
  pub kept : IsKept s.processor

store_stamped-Delivered :
    (run : Option (Command → Result)) (expiring : ℕ) (clock : Clock)
    (request : SubjectReportRequest) (client_id daemon_name : Bytes) (proc : MessageProcessor)
    → IsKept proc
    → expiring ≤ request.server_time + subject_expiry_second * second
    → (s : Stored) × (store_stamped run expiring clock request client_id daemon_name proc ≡ some s)
      × Delivered request client_id daemon_name proc s
unfolding store_stamped
store_stamped-Delivered run expiring clock request client_id daemon_name proc k f =
    let (after, e, kept) = keep_report-Kept request client_id daemon_name proc k expiring f in
    let p = process_command_request run clock request client_id daemon_name after in
    let same = process_command_request-SameReports run clock request client_id daemon_name after in
    (
      record {
        processor = p.processor;
        response = record {
          command_request = or_empty (lookup request.subject_host_name after.outgoing_app_commands);
          command_response = p.response;
        };
        ran = p.ran;
      },
      rw e refl,
      record {
        reply = ap or_empty kept.own_outgoing;
        own = ap (lookup request.subject_host_name) same.reports ∙ kept.own;
        kept = IsKept-same after p.processor same kept.kept;
      },
    )

-- A report with a host name is stored, whatever command it asks for: the call does not panic, the
-- reply carries the command that waits for the host, the host's reports are the last of those that
-- it had and the new one, as many as the limit, and the processor still has at least one report of
-- each subject and no more than the limit. The clock must not go three days further in the call.
pub store_report-Delivered :
    (to_lower : Bytes → Bytes) (run : Option (Command → Result)) (received expiring : ℕ)
    (clock : Clock) (request : SubjectReportRequest) (client_id daemon_name : Bytes)
    (proc : MessageProcessor)
    → IsKept proc
    → expiring ≤ received + subject_expiry_second * second
    → (stamped to_lower received request).subject_host_name ≢ []
    → (s : Stored) × (store_report to_lower run received expiring clock request client_id
          daemon_name proc
        ≡ some s)
      × Delivered (stamped to_lower received request) client_id daemon_name proc s
unfolding store_report
store_report-Delivered to_lower run received expiring clock request client_id daemon_name proc k f
      named =
    let stamp = stamped to_lower received request in
    let (s, e, d) =
      store_stamped-Delivered run expiring clock stamp client_id daemon_name proc k f in
    let unnamed : equal stamp.subject_host_name [] ≡ false =
      ground (arith, equal_iff stamp.subject_host_name [], named) in
    (s, rw unnamed e, d)
