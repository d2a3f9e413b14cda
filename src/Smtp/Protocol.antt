-- ===== src/Smtp/Protocol.antt =====
-- daemon/smtpd/smtp/protocol.go: the verbs, and the decoding of one command line. An access to
-- the line out of its range is a panic in Go, and is `none` here.
pub mod Safety
pub mod RoundTrip
use laitos.Base.{
  ℕ, ◌+◌, ◌-◌, Bool, true, false, not, ◌&&◌, ◌||◌, List, [], ◌∷◌, map, Option, none, some, Bytes,
  codes, ltb, leb, ◌==◌, if◌then◌else◌, length, ◌>>=◌, byte_at, slice, has_prefix, index_byte,
  to_upper_byte,
}
use laitos.Text.Trim.{trim_right, trim_space}

-- The constants of `ProtocolVerb`.
pub data Verb : Type 0 where
  absent unknown helo ehlo starttls vrfy mail_from rcpt_to data_verb quit rset noop : Verb

pub data Expectation : Type 0 where
  optional_parameter mail_address : Expectation

pub record ProtocolCommand : Type 0 where
  pub verb : Verb
  pub parameter : Bytes
  pub error_info : Bytes

pub record VerbRow : Type 0 where
  pub verb : Verb
  pub text : Bytes
  pub expects : Expectation

abbrev row : Verb → Bytes → Expectation → VerbRow
row v t e = record { verb = v; text = t; expects = e }

abbrev pub mail_from_row : VerbRow
mail_from_row = row mail_from (codes "MAIL FROM") mail_address

abbrev pub rcpt_to_row : VerbRow
rcpt_to_row = row rcpt_to (codes "RCPT TO") mail_address

abbrev pub protocol_commands : List VerbRow
protocol_commands =
    row helo (codes "HELO") optional_parameter
    ∷ row ehlo (codes "EHLO") optional_parameter
    ∷ row starttls (codes "STARTTLS") optional_parameter
    ∷ row vrfy (codes "VRFY") optional_parameter
    ∷ mail_from_row
    ∷ rcpt_to_row
    ∷ row data_verb (codes "DATA") optional_parameter
    ∷ row quit (codes "QUIT") optional_parameter
    ∷ row rset (codes "RSET") optional_parameter
    ∷ row noop (codes "NOOP") optional_parameter
    ∷ []

unfoldable pub contains_7bit_ascii_only : Bytes → Bool
contains_7bit_ascii_only [] = true
contains_7bit_ascii_only (b ∷ input) = if ltb 127 b then false else contains_7bit_ascii_only input

-- The loop that looks for the verb whose text the line begins with.
unfoldable pub find_verb : Bytes → List VerbRow → Option VerbRow
find_verb line [] = none
find_verb line (r ∷ rs) = if has_prefix line r.text then some r else find_verb line rs

abbrev pub failure : Verb → Bytes → ProtocolCommand
failure v info = record { verb = v; parameter = []; error_info = info }

abbrev pub success : Verb → Bytes → ProtocolCommand
success v p = record { verb = v; parameter = p; error_info = [] }

-- `indexAddressEnd`: the index of the closing bracket, -1, or text that makes it malformed.
pub data AddressEnd : Type 0 where
  found : ℕ → AddressEnd
  missing : AddressEnd
  trailing_text : AddressEnd

address_end : Bytes → Option AddressEnd
address_end line = do
  last ← byte_at line (length line - 1)
  if last == b'>' then some (found (length line - 1)) else elim (index_byte line b'>') [
    | none ↦ some missing
    | some i ↦ byte_at line (i + 1) >>= λ c. some (if c == b' ' then found i else trailing_text)
  ]

-- From the opening bracket on, behind the verb of `n` bytes and its colon.
bracketed : Verb → Bytes → ℕ → ℕ → Option ProtocolCommand
bracketed v line n end = do
  after_colon ← byte_at line (n + 1)
  let begin = if after_colon == b' ' then n + 2 else n + 1
  bracket ← byte_at line begin
  if bracket == b'<'
      then slice line (begin + 1) end >>= (λ address. some (success v address))
      else some (failure v (codes "improper argument formatting"))

-- The rest of `case expectMailAddress` behind `indexAddressEnd`.
address_between : Verb → Bytes → ℕ → AddressEnd → Option ProtocolCommand
unfolding bracketed
address_between v line n (found end) = do
  after_verb ← byte_at line n
  if after_verb == b':'
      then bracketed v line n end
      else some (failure v (codes "malformed mail address"))
address_between v line n missing =
    byte_at line n >>= λ _. some (failure v (codes "malformed mail address"))
address_between v line n trailing_text = some (failure v (codes "malformed mail address"))

-- The `switch` on the verb's expectation; `n` is the length of its text.
decode_parameter : Verb → Expectation → ℕ → Bytes → Option ProtocolCommand
unfolding address_end address_between
decode_parameter v optional_parameter n line =
    if ltb (n + 1) (length line)
    then slice line (n + 1) (length line) >>= (λ p. some (success v (trim_space p)))
    else some (success v [])
decode_parameter v mail_address n line =
    if ltb (length line) (n + 3)
    then some (failure v (codes "missing mail address"))
    else address_end line >>= address_between v line n

-- What follows the verb must be the line's end, a space or a colon.
at_word_boundary : Bytes → ℕ → Option Bool
at_word_boundary line n =
    if length line == n then some true else byte_at line n >>= λ c. some (c == b' ' || c == b':')

decode_row : Bytes → VerbRow → Option ProtocolCommand
unfolding at_word_boundary decode_parameter
decode_row line r = do
  boundary ← at_word_boundary line (length r.text)
  if boundary
      then decode_parameter r.verb r.expects (length r.text) line
      else some (failure unknown (codes "unrecognised verb"))

-- The part of `parseConversationCommand` behind the check for ASCII, on the line trimmed.
decode_line : Bytes → Option ProtocolCommand
unfolding decode_row find_verb
decode_line line = elim (find_verb (map to_upper_byte line) protocol_commands) [
  | none ↦ some (failure unknown (codes "unrecognised verb"))
  | some r ↦ decode_row line r
]

unfoldable pub parse_conversation_command : Bytes → Option ProtocolCommand
unfolding decode_line contains_7bit_ascii_only trim_right
parse_conversation_command line =
    if contains_7bit_ascii_only line
    then decode_line (trim_right line)
    else some (failure unknown (codes "verb contains non 7-bit ASCII"))
