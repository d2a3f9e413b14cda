-- ===== src/Toolbox/InputFilter.antt =====
-- toolbox/cmd_input_filter.go: the filters that a command passes before it runs.
--
-- The two-factor codes of a PIN are an argument here, `two_fa_codes` (Toolbox.TwoFa computes
-- them). The two global variables that remember the latest code and its command are a value that
-- goes in and comes out. `subtle.ConstantTimeCompare` compares texts of one length.
pub mod Access
pub mod Accepts
use laitos.Base.{
  ℕ, ◌+◌, Bool, true, false, not, ◌&&◌, ◌||◌, List, [], ◌∷◌, ◌++◌, map, reverse, Option, none, some,
  Bytes, codes, ltb, leb, ◌==◌, if◌then◌else◌, take, drop, length, equal,
}
use mathlib.Core.List.{flatten}
use laitos.Base.Dict.{lookup}
use laitos.Text.Trim.{trim_space}
use laitos.Text.Utf8.{Char, chars}
use laitos.Text.Lines.{replace_all}
use laitos.Toolbox.Command.{
  Command, Error, lines, no_command, pin_and_shortcut_not_found, totp_already_used,
  no_pin_or_shortcut,
}

-- `LastTOTP` and `LastTOTPCommandContent`
pub record TotpMemory : Type 0 where
  pub last_totp : Bytes
  pub last_content : Bytes

-- The shortcuts are nil, or a map.
pub record PinAndShortcuts : Type 0 where
  pub pin : Bytes
  pub shortcuts : List (Bytes × Bytes)

-- `[]rune(s)`, reversed, back as a string: an invalid byte becomes U+FFFD.
unfoldable pub reverse_runes : Bytes → Bytes
reverse_runes s =
    flatten
      (map (λ (c : Char). if c.valid then c.bytes else 0xEF ∷ 0xBF ∷ 0xBD ∷ []) (reverse (chars s)))

abbrev pub Codes : Type 0
Codes = Bytes × Bytes × Bytes

-- The inner loop of `getTOTP`: `none` once a code has the wrong length, which ends the function.
concat_codes : Bytes → List Bytes → List Bytes × Bool
concat_codes s1 [] = ([], true)
concat_codes s1 (s2 ∷ rest) =
    let (later, ok) = concat_codes s1 rest in
    if length (s1 ++ s2) == 12 then ((s1 ++ s2) ∷ later, ok) else ([], false)

concat_all : List Bytes → List Bytes → List Bytes
unfolding concat_codes
concat_all [] seconds = []
concat_all (s1 ∷ firsts) seconds =
    let (here, ok) = concat_codes s1 seconds in
    let later = concat_all firsts seconds in if ok then here ++ later else here

abbrev three : Codes → List Bytes
three (a, b, c) = a ∷ b ∷ c ∷ []

-- `getTOTP`: the set of codes as a list.
unfoldable pub get_totp : (Bytes → Option Codes) → PinAndShortcuts → List Bytes
unfolding concat_all reverse_runes
get_totp two_fa_codes p = if equal p.pin [] then [] else elim (two_fa_codes p.pin) [
  | none ↦ []
  | some firsts ↦ elim (two_fa_codes (reverse_runes p.pin)) [
    | none ↦ []
    | some seconds ↦ concat_all (three firsts) (three seconds)
  ]
]

unfoldable pub contains : Bytes → List Bytes → Bool
contains s [] = false
contains s (t ∷ ts) = equal t s || contains s ts

-- How a line of input fits.
pub data Match : Type 0 where
  no_match : Match
  expanded : Bytes → Match  -- the command, from a shortcut or behind the PIN
  reused : Match  -- a code that was used with another command
  by_totp : Bytes → Bytes → Match  -- the code, and the command behind it

-- The look for the PIN or a code on a line.
unfoldable pub match_secret : PinAndShortcuts → List Bytes → TotpMemory → Bytes → Bytes → Match
match_secret p totp_codes mem content line =
    if equal p.pin []
    then no_match
    else if ltb (length p.pin) (length line) && equal (take (length p.pin) line) p.pin
    then expanded (drop (length p.pin) line)
    else if not (ltb 12 (length line) && contains (take 12 line) totp_codes)
    then no_match
    else if equal (take 12 line) mem.last_totp && not (equal content mem.last_content)
    then reused
    else by_totp (take 12 line) (drop 12 line)

unfoldable pub or_secret : Option Bytes → Match → Match
or_secret (some shortcut) m = expanded shortcut
or_secret none m = m

-- The body of the loop over the lines, on the line trimmed.
unfoldable pub match_line : PinAndShortcuts → List Bytes → TotpMemory → Bytes → Bytes → Match
match_line p totp_codes mem content line =
    or_secret (lookup line p.shortcuts) (match_secret p totp_codes mem content line)

pub record Filtered : Type 0 where
  pub command : Command
  pub error : Option Error
  pub memory : TotpMemory

-- What the loop returns for a match; `later` is the result of its next rounds.
unfoldable pub after_match : Match → Filtered → TotpMemory → Command → Filtered
after_match no_match later mem cmd = later
after_match (expanded content) later mem cmd = record {
  command = record cmd { content = content };
  error = none;
  memory = mem;
}
after_match reused later mem cmd = record {
  command = cmd;
  error = some totp_already_used;
  memory = mem;
}
after_match (by_totp code content) later mem cmd = record {
  command = record cmd { content = content };
  error = none;
  memory = record { last_totp = code; last_content = cmd.content };
}

-- The loop over the lines.
unfoldable pub match_lines :
    PinAndShortcuts → List Bytes → TotpMemory → Command → List Bytes → Filtered
unfolding after_match
match_lines p totp_codes mem cmd [] = record {
  command = cmd;
  error = some pin_and_shortcut_not_found;
  memory = mem;
}
match_lines p totp_codes mem cmd (line ∷ rest) =
    after_match (match_line p totp_codes mem cmd.content (trim_space line))
      (match_lines p totp_codes mem cmd rest) mem cmd

-- The first test of `PINAndShortcuts.Transform`: there has to be a PIN, or a shortcut.
unfoldable pub pin_or_shortcuts : List (Bytes × Bytes) → Bool → TotpMemory → Filtered → Filtered
pin_or_shortcuts [] true mem checked = record {
  command = no_command;
  error = some no_pin_or_shortcut;
  memory = mem;
}
pin_or_shortcuts [] false mem checked = checked
pin_or_shortcuts (_ ∷ _) _ mem checked = checked

-- `PINAndShortcuts.Transform`
unfoldable pub transform_pin :
    (Bytes → Option Codes) → PinAndShortcuts → TotpMemory → Command → Filtered
unfolding pin_or_shortcuts
transform_pin two_fa_codes p mem cmd =
    pin_or_shortcuts p.shortcuts (equal p.pin []) mem
      (match_lines p (get_totp two_fa_codes p) mem cmd (lines cmd))

-- The loop of `TranslateSequences.Transform`: a tuple that is no pair is skipped.
unfoldable pub translate : List (List Bytes) → Bytes → Bytes
translate [] content = content
translate ((old ∷ new ∷ []) ∷ tuples) content = translate tuples (replace_all old new content)
translate (_ ∷ tuples) content = translate tuples content
