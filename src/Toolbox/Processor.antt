-- ===== src/Toolbox/Processor.antt =====
-- toolbox/cmd_processor.go: the command processor.
--
-- Features are functions from a command to a result. `LookupByTrigger` is a map, and Go ranges over
-- a map in any order: the order of the list stands for the one that a call meets. The internal
-- rate limiter, the lock-down flag and the clock are arguments. `int` is 64 bits wide.
pub mod Access
pub mod Sanity
pub mod Features
pub mod Bound
use laitos.Base.{
  ℕ, zero, suc, ◌+◌, ◌-◌, ◌*◌, ◌^◌, Bool, true, false, not, ◌&&◌, ◌||◌, List, [], ◌∷◌, ◌++◌, map,
  Option, none, some, Bytes, codes, ltb, leb, ◌==◌, if◌then◌else◌, take, drop, length, equal,
  has_prefix,
}
use laitos.Toolbox.Command.{
  Command, Result, Error, error_result, trim, find_and_remove_prefix, reset_combined_text,
  locked_down, rate_limit_exceeded, command_too_long, bad_prefix, bad_plt, no_lint_text,
}
use laitos.Toolbox.Patterns.{match_plt, atoi, is_subject_report}
use laitos.Toolbox.InputFilter.{
  PinAndShortcuts, TotpMemory, Filtered, Codes, transform_pin, translate,
}
use laitos.Toolbox.ResultFilter.{
  LintText, Mail, ResultFilter, lint_text, notify_via_email, say_empty, custom, transform_result,
}

pub data CommandFilter : Type 0 where
  pin_and_shortcuts : PinAndShortcuts → CommandFilter
  translate_sequences : List (List Bytes) → CommandFilter

abbrev pub Feature : Type 0
Feature = Command → Result

pub record Processor : Type 0 where
  pub features : List (Bytes × Feature)
  pub command_filters : List CommandFilter
  pub result_filters : List ResultFilter

-- `CommandFilter.Transform`
unfoldable pub transform_command :
    (Bytes → Option Codes) → CommandFilter → TotpMemory → Command → Filtered
transform_command codes_of (pin_and_shortcuts p) mem cmd = transform_pin codes_of p mem cmd
transform_command codes_of (translate_sequences tuples) mem cmd = record {
  command = record cmd { content = translate tuples cmd.content };
  error = none;
  memory = mem;
}

-- The walk through the command filters, which ends at the first that disapproves.
unfoldable pub filter_command :
    (Bytes → Option Codes) → List CommandFilter → TotpMemory → Command → Filtered
filter_command codes_of [] mem cmd = record { command = cmd; error = none; memory = mem }
filter_command codes_of (f ∷ fs) mem cmd =
    let r = transform_command codes_of f mem cmd in
    let later = filter_command codes_of fs r.memory r.command in
    elim r.error [ none ↦ later | some e ↦ r ]

-- The first `LintText` among the result filters.
unfoldable pub find_lint_text : List ResultFilter → Option LintText
find_lint_text [] = none
find_lint_text (lint_text l ∷ fs) = some l
find_lint_text (_ ∷ fs) = find_lint_text fs

-- The state at the label `result`, but for the result's own command.
pub record Executed : Type 0 where
  pub command : Command
  pub log_content : Bytes
  pub override : Option LintText
  pub result : Result
  pub ran : Option (Bytes × Command)  -- the trigger of the feature that ran, and its command

abbrev pub stopped : Error → Option LintText → Command → Executed
stopped e override cmd = record {
  command = cmd;
  log_content = [];
  override = override;
  result = error_result e;
  ran = none;
}

-- The loop over the features: the first whose trigger the command begins with.
unfoldable pub match_feature : List (Bytes × Feature) → Command → Option (Bytes × Feature × Command)
match_feature [] cmd = none
match_feature ((prefix, feature) ∷ features) cmd =
    let found = find_and_remove_prefix prefix cmd in
    if found.1 then some (prefix, feature, found.0) else match_feature features cmd

abbrev hidden_content : Bytes
hidden_content = codes "<hidden due to AESDecryptTrigger or TwoFATrigger>"

-- From the look-up of the command's feature up to the label `result`.
unfoldable pub run_feature : List (Bytes × Feature) → Option LintText → Command → Executed
run_feature features override cmd = elim (match_feature features cmd) [
  | none ↦ record (stopped bad_prefix override cmd) { log_content = cmd.content }
  | some (prefix, feature, stripped) ↦ record {
    command = stripped;
    log_content =
        if equal prefix (codes ".a") || equal prefix (codes ".2")
        then hidden_content
        else cmd.content;
    override = override;
    result = feature stripped;
    ran = some (prefix, stripped);
  }
]

-- The parameters behind `.plt`, read into the override and the command up to the first that is
-- bad; the flag says that all were good.
unfoldable pub read_plt : LintText → Command → LintText × Command × Bool
unfolding match_plt atoi
read_plt l cmd = elim (match_plt cmd.content) [
  | none ↦ (l, cmd, false)
  | some m ↦
      let p = atoi m.position in
      let n = atoi m.length_digits in
      let t = atoi m.timeout in
      let timed = record cmd { timeout_sec = t.0 } in
      let l' = record l { begin_position = p.0; max_length = n.0 } in
      if not p.1
      then (record l { begin_position = p.0 }, cmd, false)
      else if not n.1
      then (l', cmd, false)
      else if not t.1
      then (l', timed, false)
      else (l', record timed { content = m.rest }, not (equal m.rest []))
]

-- From the look for the PLT prefix on.
unfoldable pub run_command : Processor → Command → Executed
unfolding run_feature read_plt find_lint_text
run_command proc cmd =
    let plt = find_and_remove_prefix (codes ".plt") cmd in
    let plain = run_feature proc.features none cmd in
    if plt.1
    then elim (find_lint_text proc.result_filters) [
      | none ↦ stopped no_lint_text none plt.0
      | some l ↦
          let read = read_plt l plt.0 in
          if read.2
          then run_feature proc.features (some read.0) read.1
          else stopped bad_plt (some read.0) read.1
    ]
    else plain

-- `LintText` is replaced by the override, if there is one.
unfoldable pub replaced : Option LintText → ResultFilter → ResultFilter
replaced (some o) (lint_text l) = lint_text o
replaced _ f = f

-- The walk through the result filters. Where one fails, the result is a new one with the command
-- and the error of the command filters, `disapproval`, in place of the filter's.
unfoldable pub filter_result :
    Option LintText → Option Error → List ResultFilter → Result → Result × List Mail
unfolding replaced
filter_result override disapproval [] r = (r, [])
filter_result override disapproval (f ∷ fs) r =
    let (r', err, mails) = transform_result (replaced override f) r in
    let later = filter_result override disapproval fs r' in
    elim err [
      | none ↦ (later.0, mails ++ later.1)
      | some e ↦ (
        record { command = r'.command; error = disapproval; output = []; combined_output = [] },
        mails,
      )
    ]

pub record Outcome : Type 0 where
  pub result : Result
  pub memory : TotpMemory
  pub ran : Option (Bytes × Command)
  pub mails : List Mail

-- From the label `result` on.
unfoldable pub conclude : List ResultFilter → Bool → Option Error → TotpMemory → Executed → Outcome
unfolding filter_result
conclude filters run_result_filters disapproval mem x =
    let r =
      reset_combined_text
        (record x.result { command = record x.command { content = x.log_content } }) in
    let filtered =
      if run_result_filters then filter_result x.override disapproval filters r else (r, []) in
    record { result = filtered.0; memory = mem; ran = x.ran; mails = filtered.1 }

abbrev pub max_cmd_length : ℕ
max_cmd_length = 1024 * 1024

abbrev refused : Error → TotpMemory → Outcome
refused e mem = record { result = error_result e; memory = mem; ran = none; mails = [] }

-- The walk of a command that the limits let through: filters, trimming, execution.
unfoldable pub execute :
    (Bytes → Option Codes) → Processor → TotpMemory → Command → Option Error × TotpMemory × Executed
execute codes_of proc mem cmd =
    let f = filter_command codes_of proc.command_filters mem cmd in
    let trimmed = trim f.command in
    elim f.error [
      | some e ↦ (some e, f.memory, stopped e none f.command)
      | none ↦ elim trimmed.1 [
        | some r ↦ (none, f.memory, record (stopped bad_prefix none trimmed.0) { result = r })
        | none ↦ (none, f.memory, run_command proc trimmed.0)
      ]
    ]

-- `CommandProcessor.Process`
unfoldable pub process :
    (Bytes → Option Codes) → Bool → Bool → Processor → TotpMemory → Command → Bool → Outcome
process codes_of locked_down_now under_limit proc mem cmd run_result_filters =
    let (disapproval, mem', x) = execute codes_of proc mem cmd in
    let filtering = if is_subject_report cmd.content then false else run_result_filters in
    if locked_down_now
    then refused locked_down mem
    else if not under_limit
    then refused rate_limit_exceeded mem
    else if ltb max_cmd_length (length cmd.content)
    then refused command_too_long mem
    else conclude proc.result_filters filtering disapproval mem' x
