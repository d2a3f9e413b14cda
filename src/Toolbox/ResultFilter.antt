-- ===== src/Toolbox/ResultFilter.antt =====
-- toolbox/cmd_result_filter.go: the filters that a result passes on its way out.
--
-- A filter that another package brings, `custom`, is a function of the result. What
-- `NotifyViaEmail` does besides is to start a goroutine that sends a mail: the model keeps the
-- mails asked for as a list. The mail client's `IsConfigured` is a field.
use laitos.Base.{
  ℕ, Bool, true, false, not, ◌&&◌, ◌||◌, List, [], ◌∷◌, ◌++◌, map, Option, none, some, Bytes, codes,
  ltb, leb, ◌==◌, if◌then◌else◌, take, drop, length, is_space,
}
use laitos.Text.Trim.{trim_space}
use laitos.Text.Utf8.{Char, chars}
use laitos.Text.Lines.{split, join}
use laitos.Toolbox.Command.{Result, Error, newline, pin_and_shortcut_not_found}

pub record LintText : Type 0 where
  pub trim_spaces : Bool
  pub compress_to_single_line : Bool
  pub keep_visible_7bit_char_only : Bool
  pub compress_spaces : Bool
  pub begin_position : ℕ
  pub max_length : ℕ

-- The text trimmed line by line, and then as a whole.
unfoldable pub trim_lines : Bytes → Bytes
trim_lines s = trim_space (join (newline ∷ []) (map trim_space (split newline s)) ++ (newline ∷ []))

-- A character that is printable or white space, and ASCII.
abbrev is_visible : Char → Bool
is_visible c = elim c.bytes [
  | [] ↦ false
  | b ∷ _ ↦ ltb b 128 && ((leb 32 b && leb b 126) || is_space b)
]

unfoldable pub keep_visible : List Char → Bytes
keep_visible [] = []
keep_visible (c ∷ cs) = (if is_visible c then c.bytes else b'?' ∷ []) ++ keep_visible cs

-- `[ \a\f\t\v]+`
abbrev is_blank : ℕ → Bool
is_blank c = c == 32 || c == 7 || c == 12 || c == 9 || c == 11

-- A run of blanks becomes one space; the flag says whether the byte before is in a run.
unfoldable pub squeeze : Bool → Bytes → Bytes
squeeze in_run [] = []
squeeze in_run (c ∷ s) =
    let rest = squeeze (is_blank c) s in
    if is_blank c then (if in_run then rest else 32 ∷ rest) else c ∷ rest

-- The bytes from a position on, none past the end.
abbrev cut_leading : ℕ → Bytes → Bytes
cut_leading begin s = if ltb 0 begin then (if ltb begin (length s) then drop begin s else []) else s

abbrev cut_trailing : ℕ → Bytes → Bytes
cut_trailing max s = if ltb 0 max && ltb max (length s) then take max s else s

-- `LintText.Transform` on the combined output.
unfoldable pub lint : LintText → Bytes → Bytes
unfolding trim_lines keep_visible squeeze
lint l s =
    let trimmed = if l.trim_spaces then trim_lines s else s in
    let single =
      if l.compress_to_single_line
      then map (λ c. if c == newline then b';' else c) trimmed
      else trimmed in
    let visible = if l.keep_visible_7bit_char_only then keep_visible (chars single) else single in
    let squeezed = if l.compress_spaces then squeeze false visible else visible in
    cut_trailing l.max_length (cut_leading l.begin_position squeezed)

pub record NotifyViaEmail : Type 0 where
  pub recipients : List Bytes
  pub client_configured : Bool

pub record Mail : Type 0 where
  pub subject : Bytes
  pub body : Bytes
  pub recipients : List Bytes

abbrev is_pin_error : Option Error → Bool
is_pin_error (some pin_and_shortcut_not_found) = true
is_pin_error _ = false

-- `NotifyViaEmail.IsConfigured`
abbrev pub is_configured : NotifyViaEmail → Bool
is_configured n = not (length n.recipients == 0) && n.client_configured

-- `NotifyViaEmail.Transform`: the mails that it sends; the result stays as it is.
unfoldable pub notify : NotifyViaEmail → Result → List Mail
notify n r =
    if is_configured n && not (is_pin_error r.error)
    then record {
      subject = codes "laitos-notify-" ++ r.command.content;
      body = r.combined_output;
      recipients = n.recipients;
    }
      ∷ []
    else []

-- `[[:graph:]]` matches somewhere.
unfoldable pub has_graph_char : Bytes → Bool
has_graph_char [] = false
has_graph_char (c ∷ s) = (leb 33 c && leb c 126) || has_graph_char s

abbrev pub empty_output_text : Bytes
empty_output_text = codes "EMPTY OUTPUT"

-- `SayEmptyOutput.Transform` on the combined output.
unfoldable pub say_empty_output : Bytes → Bytes
unfolding has_graph_char
say_empty_output s = if has_graph_char s then s else empty_output_text

pub data ResultFilter : Type 0 where
  lint_text : LintText → ResultFilter
  notify_via_email : NotifyViaEmail → ResultFilter
  say_empty : ResultFilter
  custom : (Result → Result × Option Error) → ResultFilter

-- `ResultFilter.Transform`: the result, an error that stops the filters, and mails sent.
unfoldable pub transform_result : ResultFilter → Result → Result × Option Error × List Mail
unfolding lint notify say_empty_output
transform_result (lint_text l) r =
    (record r { combined_output = lint l r.combined_output }, none, [])
transform_result (notify_via_email n) r = (r, none, notify n r)
transform_result say_empty r =
    (record r { combined_output = say_empty_output r.combined_output }, none, [])
transform_result (custom f) r = ((f r).0, (f r).1, [])
