-- ===== src/Messages/Commands/Repeat.antt =====
-- Which commands of subjects run, and which do not run again.
use mathlib.Core.Option
use laitos.Base.{
  ◌/◌, ◌≡◌, ◌≢◌, ◌⊎◌, refl, sym, ap, ◌∙◌, true, false, List, [], Option, none, some, Bytes, arith,
  equal_iff, equal_self, Bool-cases, inl, inr, ℕ, All, ◌++◌, ◌∷◌, codes, ◌||◌, Bool, has_prefix,
}
use laitos.Base.Dict.{lookup, insert, lookup-insert}
use laitos.Text.Numbers.{negsuc}
use laitos.Toolbox.Command.{Command, Result}
use laitos.Messages.Report.{SubjectReportRequest, AppCommandResponse}
use laitos.Messages.Store.{MessageProcessor, IncomingAppCommand, second}
use laitos.Messages.Commands.{
  Clock, Processed, process_command_request, run_request, begin_command, complete_command, retrieve,
  is_repeated, is_recursive, is_white, skip_white, requested, memorised, app_command, difference,
  outstanding,
}

-- A text of the white space that a regular expression's `\s` stands for.
abbrev pub IsGap : Bytes → Type 0
IsGap gap = All (λ b. (b ≡ 32) ⊎ (b ≡ 9) ⊎ (b ≡ 10) ⊎ (b ≡ 12) ⊎ (b ≡ 13)) gap

-- Somewhere in a text stands the trigger of the message processor, a brace behind it and a
-- quotation mark behind that, with nothing but white space in between.
pub record CallsByJson (text : Bytes) : Type 0 where
  pub front : Bytes
  pub gap : Bytes
  pub inner_gap : Bytes
  pub back : Bytes
  pub spelled : text ≡ front ++ (codes ".0m" ++ (gap ++ (b'{' ∷ (inner_gap ++ (b'"' ∷ back)))))
  pub is_gap : IsGap gap
  pub is_inner_gap : IsGap inner_gap

-- A command that may run: it is not empty, it is not the subject's latest, and it does not
-- have the trigger of the message processor in front of a JSON object.
pub record IsNew (request : SubjectReportRequest) (proc : MessageProcessor) : Type 0 where
  pub asked : request.command_request ≢ []
  pub changed :
      Option.map requested (lookup request.subject_host_name proc.incoming_app_commands)
      ≢ some request.command_request
  pub direct : ¬ CallsByJson request.command_request

skip_white-gap :
    (gap : Bytes) (c : ℕ) (s : Bytes)
    → IsGap gap
    → is_white c ≡ false
    → skip_white (gap ++ (c ∷ s)) ≡ c ∷ s
unfolding skip_white
skip_white-gap [] c s g n = ground (arith, n)
skip_white-gap (b ∷ gap) c s (w, g) n = ground (arith, w, skip_white-gap gap c s g n)

or-right : (a b : Bool) → b ≡ true → (a || b) ≡ true
or-right true b h = refl
or-right false b h = h

is_recursive-calls :
    (front gap inner_gap back : Bytes)
    → IsGap gap
    → IsGap inner_gap
    → is_recursive (front ++ (codes ".0m" ++ (gap ++ (b'{' ∷ (inner_gap ++ (b'"' ∷ back)))))) ≡ true
unfolding is_recursive has_prefix
is_recursive-calls [] gap inner_gap back g h =
    rw (skip_white-gap gap b'{' (inner_gap ++ (b'"' ∷ back)) g refl)
      (rw (skip_white-gap inner_gap b'"' back h refl) refl)
is_recursive-calls (c ∷ front) gap inner_gap back g h =
    or-right _ _ (is_recursive-calls front gap inner_gap back g h)

CallsByJson-is_recursive : (text : Bytes) → CallsByJson text → is_recursive text ≡ true
CallsByJson-is_recursive text j =
    ap is_recursive j.spelled
    ∙ is_recursive-calls j.front j.gap j.inner_gap j.back j.is_gap j.is_inner_gap

is_repeated-false :
    (app_cmd : Bytes) (prev : Option IncomingAppCommand)
    → is_repeated app_cmd prev ≡ false
    → (app_cmd ≢ []) × (Option.map requested prev ≢ some app_cmd)
unfolding is_repeated
is_repeated-false app_cmd none h = (λ e. ground (arith, h, equal_iff app_cmd []), λ e. absurd (cc))
is_repeated-false app_cmd (some d) h = (
  λ e. ground (arith, h, equal_iff app_cmd []),
  λ e. ground (arith, h, equal_iff (requested d) app_cmd, e),
)

-- The command that ran is the one that was asked for. It is not empty, and it is not the one that
-- is memorised for the host; nowhere in it stands `.0m`, then `{`, then `"`, with only white space
-- in between. A call of the message processor in another form is not excluded.
pub process_command_request-IsNew :
    (run : Option (Command → Result)) (clock : Clock) (request : SubjectReportRequest)
    (client_id daemon_name : Bytes) (proc : MessageProcessor) (cmd : Command)
    → (process_command_request run clock request client_id daemon_name proc).ran ≡ some cmd
    → IsNew request proc × (cmd ≡ app_command request client_id daemon_name)
unfolding process_command_request run_request
process_command_request-IsNew none clock request client_id daemon_name proc cmd e = absurd (cc)
process_command_request-IsNew (some run) clock request client_id daemon_name proc cmd e =
    let prev = lookup request.subject_host_name proc.incoming_app_commands in
    elim (Bool-cases (is_repeated request.command_request prev)) [
      | inl y ↦ absurd (ground (arith, y, e))
      | inr n ↦ elim (Bool-cases (is_recursive request.command_request)) [
        | inl y ↦ absurd (ground (arith, n, y, e))
        | inr m ↦
            let (asked, changed) = is_repeated-false request.command_request prev n in
            (
              record {
                asked = asked;
                changed = changed;
                direct = λ j. absurd (ground (arith, m, CallsByJson-is_recursive _ j));
              },
              ground (arith, n, m, e),
            )
      ]
    ]

repeated :
    (app_cmd : Bytes) (prev : IncomingAppCommand)
    → (app_cmd ≡ []) ⊎ (app_cmd ≡ requested prev)
    → is_repeated app_cmd (some prev) ≡ true
unfolding is_repeated
repeated app_cmd prev (inl e) = ground (arith, equal_iff app_cmd [], e)
repeated app_cmd prev (inr e) = ground (arith, equal_iff (requested prev) app_cmd, e)

insert_own :
    (host : Bytes) (c : IncomingAppCommand) (dict : List (Bytes × IncomingAppCommand))
    → lookup host (insert host c dict) ≡ some c
insert_own host c dict = lookup-insert host host c dict ∙ rw (equal_self host) refl

run_request-stored :
    (run : Command → Result) (clock : Clock) (request : SubjectReportRequest)
    (client_id daemon_name : Bytes) (proc : MessageProcessor)
    → lookup request.subject_host_name
        (run_request run clock request client_id daemon_name proc).processor.incoming_app_commands
      ≡ some (record {
        request = request;
        run_duration_sec = difference (clock.ended / second) (clock.started / second);
        result = run (app_command request client_id daemon_name);
      })
unfolding run_request complete_command
run_request-stored run clock request client_id daemon_name proc =
    insert_own request.subject_host_name _
      (begin_command request client_id daemon_name proc).incoming_app_commands

run_request-response :
    (run : Command → Result) (clock : Clock) (request : SubjectReportRequest)
    (client_id daemon_name : Bytes) (proc : MessageProcessor)
    → memorised (record {
      request = request;
      run_duration_sec = difference (clock.ended / second) (clock.started / second);
      result = run (app_command request client_id daemon_name);
    })
      ≡ (run_request run clock request client_id daemon_name proc).response
unfolding run_request
run_request-response run clock request client_id daemon_name proc = refl

begin_command-stored :
    (request : SubjectReportRequest) (client_id daemon_name : Bytes) (proc : MessageProcessor)
    → lookup request.subject_host_name
        (begin_command request client_id daemon_name proc).incoming_app_commands
      ≡ some (outstanding request client_id daemon_name)
unfolding begin_command
begin_command-stored request client_id daemon_name proc =
    insert_own request.subject_host_name _ proc.incoming_app_commands

process_command_request-ran :
    (run : Command → Result) (clock : Clock) (request : SubjectReportRequest)
    (client_id daemon_name : Bytes) (proc : MessageProcessor) (cmd : Command)
    → (process_command_request (some run) clock request client_id daemon_name proc).ran ≡ some cmd
    → process_command_request (some run) clock request client_id daemon_name proc
      ≡ run_request run clock request client_id daemon_name proc
unfolding process_command_request
process_command_request-ran run clock request client_id daemon_name proc cmd e =
    let prev = lookup request.subject_host_name proc.incoming_app_commands in
    elim (Bool-cases (is_repeated request.command_request prev)) [
      | inl y ↦ absurd (ground (arith, y, e))
      | inr n ↦ elim (Bool-cases (is_recursive request.command_request)) [
        | inl y ↦ absurd (ground (arith, n, y, e))
        | inr m ↦ rw n (rw m refl)
      ]
    ]

-- A request for nothing, or for the command that is memorised, of which the response is known.
process_command_request-memorised :
    (run : Command → Result) (clock : Clock) (request : SubjectReportRequest)
    (client_id daemon_name : Bytes) (proc : MessageProcessor) (prev : IncomingAppCommand)
    → lookup request.subject_host_name proc.incoming_app_commands ≡ some prev
    → (request.command_request ≡ []) ⊎ (request.command_request ≡ requested prev)
    → ((process_command_request (some run) clock request client_id daemon_name proc).response
        ≡ memorised prev)
      × ((process_command_request (some run) clock request client_id daemon_name proc).ran ≡ none)
unfolding process_command_request retrieve
process_command_request-memorised run clock request client_id daemon_name proc prev e s =
    let known : is_repeated request.command_request (some prev) ≡ true =
      repeated request.command_request prev s in
    rw e (rw known (refl, refl))

-- A command that ran is not run again: where the same host next asks for it, or for nothing, the
-- response is the one that the run gave, whatever the time, and nothing runs.
pub process_command_request-repeat :
    (run : Command → Result) (clock later : Clock) (request again : SubjectReportRequest)
    (client_id daemon_name : Bytes) (proc : MessageProcessor) (p : Processed) (cmd : Command)
    → process_command_request (some run) clock request client_id daemon_name proc ≡ p
    → p.ran ≡ some cmd
    → again.subject_host_name ≡ request.subject_host_name
    → (again.command_request ≡ []) ⊎ (again.command_request ≡ request.command_request)
    → ((process_command_request (some run) later again client_id daemon_name p.processor).response
        ≡ p.response)
      × ((process_command_request (some run) later again client_id daemon_name p.processor).ran
          ≡ none)
process_command_request-repeat run clock later request again client_id daemon_name proc p cmd d e h
      s =
    let ran =
      process_command_request-ran run clock request client_id daemon_name proc cmd
        (ap (λ (q : Processed). q.ran) d ∙ e) in
    let same : p ≡ run_request run clock request client_id daemon_name proc = sym d ∙ ran in
    let c : IncomingAppCommand = record {
      request = request;
      run_duration_sec = difference (clock.ended / second) (clock.started / second);
      result = run (app_command request client_id daemon_name);
    } in
    let stored : lookup again.subject_host_name p.processor.incoming_app_commands ≡ some c =
      ap (λ k. lookup k p.processor.incoming_app_commands) h
      ∙ ap (λ (q : Processed). lookup request.subject_host_name q.processor.incoming_app_commands)
          same
      ∙ run_request-stored run clock request client_id daemon_name proc in
    let (response, none_ran) =
      process_command_request-memorised run later again client_id daemon_name p.processor c stored
        s in
    (
      response
          ∙ run_request-response run clock request client_id daemon_name proc
          ∙ ap (λ (q : Processed). q.response) (sym same),
      none_ran,
    )

-- While a command runs, the same request of its host is answered with a duration of -1, and does
-- not run the command beside it.
pub begin_command-busy :
    (run : Command → Result) (clock : Clock) (request again : SubjectReportRequest)
    (client_id daemon_name : Bytes) (proc begun : MessageProcessor)
    → begin_command request client_id daemon_name proc ≡ begun
    → again.subject_host_name ≡ request.subject_host_name
    → (again.command_request ≡ []) ⊎ (again.command_request ≡ request.command_request)
    → ((process_command_request
          (some run)
          clock
          again
          client_id
          daemon_name
          begun).response.run_duration_sec
        ≡ negsuc 0)
      × ((process_command_request (some run) clock again client_id daemon_name begun).ran ≡ none)
begin_command-busy run clock request again client_id daemon_name proc begun d h s =
    let c = outstanding request client_id daemon_name in
    let stored : lookup again.subject_host_name begun.incoming_app_commands ≡ some c =
      ap (λ k. lookup k begun.incoming_app_commands) h
      ∙ ap (λ (q : MessageProcessor). lookup request.subject_host_name q.incoming_app_commands)
          (sym d)
      ∙ begin_command-stored request client_id daemon_name proc in
    let (response, ran) =
      process_command_request-memorised run clock again client_id daemon_name begun c stored s in
    (ap (λ (r : AppCommandResponse). r.run_duration_sec) response, ran)
