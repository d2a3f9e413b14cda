-- ===== src/Toolbox/Tests.antt =====
-- The theorems about the toolbox at concrete inputs.
use mathlib.Core.List.{Memᴰ, tail}
use laitos.Base.{
  ◌↔◌, ◌<◌, ◌≤◌, ◌≡◌, refl, true, false, List, [], ◌∷◌, ◌++◌, Option, none, some, Bytes, codes,
  arith, length, equal, has_prefix,
}
use laitos.Base.Dict.{lookup}
use laitos.Text.Trim.{trim_space}
use laitos.Text.Lines.{split}
use laitos.Toolbox.Command.{Command, trim, find_and_remove_prefix}
use laitos.Toolbox.InputFilter.{
  PinAndShortcuts, TotpMemory, Codes, get_totp, transform_pin, match_line, match_secret, or_secret,
  match_lines, expanded, by_totp, contains,
}
use laitos.Toolbox.InputFilter.Access.{Granted, transform_pin-Granted}
use laitos.Toolbox.InputFilter.Accepts.{match_line-pin, match_line-other_code}
use laitos.Toolbox.ResultFilter.{LintText, lint_text, say_empty}
use laitos.Toolbox.Patterns.{is_subject_report}
use laitos.Toolbox.Processor.{
  Processor, Feature, pin_and_shortcuts, process, execute, filter_command, transform_command,
  run_command, run_feature, match_feature, replaced, conclude,
}
use laitos.Toolbox.Processor.Access.{Admitted, process-Admitted}
use laitos.Toolbox.Processor.Bound.{process-bound}
use laitos.Toolbox.Processor.Features.{run_feature-order, IsFree}
use laitos.Toolbox.Processor.Sanity.{IsSane, is_sane_for_internet, is_sane_for_internet-IsSane}
use laitos.Toolbox.Http.{HttpResponse, http_error_to_result, http_error_to_result-none_iff}
use laitos.Toolbox.Dtmf.{dtmf_decode}
use laitos.Toolbox.Dtmf.RoundTrip.{dial_all, dtmf_decode-dial_all}

abbrev command : Bytes → Command
command s = record {
  client_id = codes "me";
  daemon_name = codes "test";
  timeout_sec = 5;
  content = s;
}

abbrev pin : PinAndShortcuts
pin = record { pin = codes "verysecret"; shortcuts = (codes "hi", codes ".s echo hi") ∷ [] }

abbrev memory : TotpMemory
memory = record { last_totp = []; last_content = [] }

-- Codes that stand for those of a clock.
abbrev some_codes : Bytes → Option Codes
some_codes s = some (codes "111111", codes "222222", codes "333333")

abbrev shell : Feature
shell c = record { command = c; error = none; output = c.content; combined_output = [] }

abbrev lint35 : LintText
lint35 = record {
  trim_spaces = true;
  compress_to_single_line = false;
  keep_visible_7bit_char_only = false;
  compress_spaces = false;
  begin_position = 0;
  max_length = 35;
}

abbrev proc : Processor
proc = record {
  features = (codes ".s", shell) ∷ (codes ".e", shell) ∷ [];
  command_filters = pin_and_shortcuts pin ∷ [];
  result_filters = lint_text lint35 ∷ say_empty ∷ [];
}

transform_pin-Granted_example :
    Granted pin
      (get_totp some_codes pin)
      memory
      (command (codes "verysecret.s ls"))
      (transform_pin some_codes pin memory (command (codes "verysecret.s ls"))).command
unfolding transform_pin match_line match_secret or_secret match_lines lookup split trim_space equal
transform_pin-Granted_example =
    transform_pin-Granted some_codes pin memory (command (codes "verysecret.s ls")) refl

process-Admitted_example :
    Admitted some_codes pin false true memory (command (codes "verysecret.s ls"))
unfolding process conclude execute filter_command transform_command transform_pin match_line
    match_secret or_secret match_lines lookup split trim_space equal trim run_command run_feature
    match_feature find_and_remove_prefix has_prefix
process-Admitted_example =
    process-Admitted some_codes false true proc memory (command (codes "verysecret.s ls")) true pin
      [] refl (λ e. cc)

process-bound_example :
    length
      (process some_codes false true proc memory
        (command (codes "verysecret.s ls"))
        true).result.combined_output
    ≤ 35
unfolding execute filter_command transform_command transform_pin match_line match_secret or_secret
    match_lines lookup split trim_space equal trim run_command run_feature match_feature
    find_and_remove_prefix has_prefix is_subject_report replaced
process-bound_example =
    process-bound some_codes false true proc memory (command (codes "verysecret.s ls")) 35
      (omega arith) refl (omega arith) refl

match_line-pin_example :
    match_line pin [] memory (codes "x") (codes "verysecret" ++ codes ".s ls")
    ≡ expanded (codes ".s ls")
unfolding lookup equal
match_line-pin_example =
    match_line-pin pin [] memory (codes "x") (codes ".s ls") (λ e. cc) (λ e. cc) refl

match_line-other_code_example :
    match_line pin
      (codes "111111222222" ∷ [])
      memory
      (codes "x")
      (codes "111111222222" ++ codes ".s ls")
    ≡ by_totp (codes "111111222222") (codes ".s ls")
unfolding lookup equal contains
match_line-other_code_example =
    match_line-other_code pin (codes "111111222222" ∷ []) memory (codes "x") (codes ".s ls")
      (codes "111111222222") (λ e. cc) (λ e. cc) refl refl (λ e. cc) refl refl

-- The triggers of all features, in the order of app_set.go; the message processor's comes last.
abbrev entry : Bytes → Bytes × Feature
entry trigger = (trigger, shell)

abbrev table : List (Bytes × Feature)
table =
    entry (codes ".a")
    ∷ entry (codes ".bp")
    ∷ entry (codes ".bs")
    ∷ entry (codes ".c")
    ∷ entry (codes ".e")
    ∷ entry (codes ".g")
    ∷ entry (codes ".i")
    ∷ entry (codes ".j")
    ∷ entry (codes ".r")
    ∷ entry (codes ".m")
    ∷ entry (codes ".s")
    ∷ entry (codes ".p")
    ∷ entry (codes ".t")
    ∷ entry (codes ".2")
    ∷ entry (codes ".w")
    ∷ entry (codes ".0m")
    ∷ []

table-IsFree : IsFree table
unfolding has_prefix
table-IsFree = ground arith

rotate_in :
    (a : Bytes × Feature) (x : Bytes × Feature) (fs : List (Bytes × Feature))
    → Memᴰ a (x ∷ fs)
    → Memᴰ a (fs ++ (x ∷ []))
rotate_in a x [] m = m
rotate_in a x (y ∷ fs) (Memᴰ.head e) = Memᴰ.tail (rotate_in a x fs (Memᴰ.head e))
rotate_in a x (y ∷ fs) (Memᴰ.tail (Memᴰ.head e)) = Memᴰ.head e
rotate_in a x (y ∷ fs) (Memᴰ.tail (Memᴰ.tail m)) = Memᴰ.tail (rotate_in a x fs (Memᴰ.tail m))

rotate_out :
    (a : Bytes × Feature) (x : Bytes × Feature) (fs : List (Bytes × Feature))
    → Memᴰ a (fs ++ (x ∷ []))
    → Memᴰ a (x ∷ fs)
rotate_out a x [] m = m
rotate_out a x (y ∷ fs) (Memᴰ.head e) = Memᴰ.tail (Memᴰ.head e)
rotate_out a x (y ∷ fs) (Memᴰ.tail m) = later (rotate_out a x fs m)
  where
    later : Memᴰ a (x ∷ fs) → Memᴰ a (x ∷ y ∷ fs)
    later (Memᴰ.head e) = Memᴰ.head e
    later (Memᴰ.tail n) = Memᴰ.tail (Memᴰ.tail n)

run_feature-order_example :
    run_feature table none (command (codes ".s ls"))
    ≡ run_feature (tail table ++ (entry (codes ".a") ∷ [])) none (command (codes ".s ls"))
run_feature-order_example =
    run_feature-order table (tail table ++ (entry (codes ".a") ∷ [])) none (command (codes ".s ls"))
      table-IsFree (λ a m. rotate_in a (entry (codes ".a")) (tail table) m)
      (λ a m. rotate_out a (entry (codes ".a")) (tail table) m)

dtmf_decode-dial_all_example : dtmf_decode (dial_all (codes "Hi 5")) ≡ codes "Hi 5"
dtmf_decode-dial_all_example = dtmf_decode-dial_all (codes "Hi 5") (
  (omega arith, omega arith),
  ((omega arith, omega arith), ((omega arith, omega arith), ((omega arith, omega arith), tt))),
)

abbrev short_linter : LintText
short_linter = record {
  trim_spaces = true;
  compress_to_single_line = true;
  keep_visible_7bit_char_only = true;
  compress_spaces = true;
  begin_position = 0;
  max_length = 80;
}

is_sane_for_internet-IsSane_example :
    IsSane table (pin_and_shortcuts pin ∷ []) (say_empty ∷ lint_text short_linter ∷ [])
unfolding is_sane_for_internet
is_sane_for_internet-IsSane_example =
    is_sane_for_internet-IsSane table (pin_and_shortcuts pin ∷ [])
      (say_empty ∷ lint_text short_linter ∷ []) refl

abbrev redirect : HttpResponse
redirect = record { status_code = 302; body = none }

abbrev no_error : Option Bytes
no_error = none

http_error_to_result-none_iff_example :
    (http_error_to_result redirect no_error ≡ none)
    ↔ ((no_error ≡ none) × (200 ≤ 302) × (302 < 400))
http_error_to_result-none_iff_example = http_error_to_result-none_iff redirect no_error
