-- ===== src/Toolbox/Command.antt =====
-- toolbox/cmd.go: commands and results. An `error` is a value of `Error` with a text; the errors
-- that the code compares or returns by name have constructors.
use laitos.Base.{
  ℕ, Bool, true, false, List, [], ◌++◌, Option, none, some, Bytes, codes, if◌then◌else◌, has_prefix,
  drop, length, equal,
}
use laitos.Text.Trim.{trim_space}
use laitos.Text.Lines.{split}

pub data Error : Type 0 where
  locked_down rate_limit_exceeded command_too_long bad_prefix bad_plt : Error
  empty_command pin_and_shortcut_not_found totp_already_used no_pin_or_shortcut no_lint_text : Error
  other : Bytes → Error

pub record Command : Type 0 where
  pub client_id : Bytes
  pub daemon_name : Bytes
  pub timeout_sec : ℕ
  pub content : Bytes

pub record Result : Type 0 where
  pub command : Command
  pub error : Option Error
  pub output : Bytes
  pub combined_output : Bytes

abbrev pub no_command : Command
no_command = record { client_id = []; daemon_name = []; timeout_sec = 0; content = [] }

-- `&Result{Error: e}`
abbrev pub error_result : Error → Result
error_result e = record { command = no_command; error = some e; output = []; combined_output = [] }

-- `err.Error()`
unfoldable pub error_text : Error → Bytes
error_text locked_down = codes "LOCKED DOWN"
error_text rate_limit_exceeded = codes "command processor internal rate limit has been exceeded"
error_text command_too_long = codes "command input exceeds the maximum length of 1048576 characters"
error_text bad_prefix = codes "bad prefix or feature is not configured"
error_text bad_plt = codes ".plt P L T command"
error_text empty_command = codes "empty command"
error_text pin_and_shortcut_not_found = codes "invalid password PIN or shortcut"
error_text totp_already_used = codes "the TOTP has already been used with a different command"
error_text no_pin_or_shortcut =
    codes "PINAndShortcut must use a password PIN, shortcut(s), or both."
error_text no_lint_text = codes "PLT is not available because LintText is not used"
error_text (other text) = text

-- `Command.Trim`: the command trimmed, and a result if nothing is left of it.
unfoldable pub trim : Command → Command × Option Result
trim cmd =
    let c = record cmd { content = trim_space cmd.content } in
    (c, if equal c.content [] then some (error_result empty_command) else none)

-- `Command.FindAndRemovePrefix`
unfoldable pub find_and_remove_prefix : Bytes → Command → Command × Bool
find_and_remove_prefix prefix cmd =
    let trimmed = trim_space cmd.content in
    if has_prefix trimmed prefix
    then (record cmd { content = trim_space (drop (length prefix) trimmed) }, true)
    else (cmd, false)

abbrev pub newline : ℕ
newline = 10

-- `Command.Lines`
abbrev pub lines : Command → List Bytes
lines cmd = split newline cmd.content

-- `Result.ErrText`
unfoldable pub err_text : Result → Bytes
unfolding error_text
err_text r = elim r.error [ none ↦ [] | some e ↦ error_text e ]

-- `Result.ResetCombinedText`
unfoldable pub reset_combined_text : Result → Result
unfolding error_text
reset_combined_text r = record r {
  combined_output = elim r.error [
    | none ↦ r.output
    | some e ↦ error_text e ++ (if equal r.output [] then r.output else codes "|" ++ r.output)
  ];
}
