-- ===== src/Dns/Command.antt =====
-- daemon/dnsd/query.go, DecodeDTMFCommandInput, and daemon/phonehome/dns_query_builder.go: app
-- commands that are carried in the names of DNS queries.
--
-- Characters other than ASCII ones are neither letters nor in the table of the encoder, so that
-- reading bytes comes to the same. `int` capacities that would be negative are 0, which ends the
-- loop over labels just as well.
pub mod Letters
pub mod Labels
pub mod RoundTrip
pub mod Delivery
use laitos.Base.{
  ℕ, zero, suc, ◌+◌, ◌-◌, ◌≤◌, ◌<◌, Bool, true, false, not, ◌&&◌, ◌||◌, List, [], ◌∷◌, ◌++◌, Option,
  none, some, Bytes, codes, ltb, leb, ◌==◌, if◌then◌else◌, length, take, drop, min, equal,
}
use laitos.Text.Trim.{trim_space}
use laitos.Text.Lines.{split}
use laitos.Toolbox.Dtmf.{dtmf_decode}
use laitos.Messages.Report.{field_separator, line_separator}

abbrev pub toolbox_command_prefix : ℕ
toolbox_command_prefix = b'_'

abbrev pub is_digit_byte : ℕ → Bool
is_digit_byte c = leb b'0' c && leb c b'9'

-- What a run of digits stands for.
unfoldable pub decode_run : Bytes → Bytes
unfolding dtmf_decode
decode_run [] = []
decode_run (c ∷ digits) = dtmf_decode (c ∷ digits)

-- The loop over the runs of digits, and the letters between them; `digits` is the run so far.
unfoldable pub decode_runs : Bytes → Bytes → Bytes
unfolding decode_run
decode_runs digits [] = decode_run digits
decode_runs digits (c ∷ s) =
    let longer = decode_runs (digits ++ (c ∷ [])) s in
    let ended = decode_run digits ++ (c ∷ decode_runs [] s) in
    if is_digit_byte c then longer else ended

unfoldable pub discover_labels : List Bytes → List Bytes
unfolding trim_space equal
discover_labels [] = []
discover_labels (label ∷ labels) =
    let rest = discover_labels labels in
    let trimmed = trim_space label in if equal trimmed [] then rest else trimmed ∷ rest

-- The labels joined.
abbrev pub joined : List Bytes → Bytes
joined [] = []
joined (label ∷ labels) = label ++ joined labels

-- The command in the labels in front of the last two.
unfoldable pub decode_labels : List Bytes → Bytes
unfolding decode_runs
decode_labels labels =
    if ltb (length labels) 3 then [] else decode_runs [] (joined (take (length labels - 2) labels))

abbrev pub starts_otherwise : Bytes → Bool
starts_otherwise [] = true
starts_otherwise (c ∷ _) = not (c == toolbox_command_prefix)

unfoldable pub decode_dtmf_command_input : Bytes → Bytes
unfolding split discover_labels decode_labels
decode_dtmf_command_input name =
    if ltb (length name) 2 || ltb 253 (length name) || starts_otherwise name
    then []
    else decode_labels (discover_labels (split b'.' (drop 1 name)))

-- `DTMFEncodeTable`
abbrev pub dtmf_encode_table : List (ℕ × Bytes)
dtmf_encode_table =
    (b' ', codes "0")
    ∷ (b'!', codes "1110")
    ∷ (b'@', codes "1120")
    ∷ (b'#', codes "1130")
    ∷ (b'$', codes "1140")
    ∷ (b'%', codes "1150")
    ∷ (b'^', codes "1160")
    ∷ (b'&', codes "1170")
    ∷ (b'*', codes "1180")
    ∷ (b'(', codes "1190")
    ∷ (b'`', codes "1210")
    ∷ (b'~', codes "1220")
    ∷ (b')', codes "1230")
    ∷ (b'-', codes "1240")
    ∷ (b'_', codes "1250")
    ∷ (b'=', codes "1260")
    ∷ (b'+', codes "1270")
    ∷ (b'[', codes "1280")
    ∷ (b'{', codes "1290")
    ∷ (b']', codes "1310")
    ∷ (b'}', codes "1320")
    ∷ (0x5C, codes "1330")
    ∷ (b'|', codes "1340")
    ∷ (b';', codes "1350")
    ∷ (b':', codes "1360")
    ∷ (0x27, codes "1370")
    ∷ (b'"', codes "1380")
    ∷ (b',', codes "1390")
    ∷ (b'<', codes "1410")
    ∷ (b'.', codes "1420")
    ∷ (b'>', codes "1430")
    ∷ (b'/', codes "1440")
    ∷ (b'?', codes "1450")
    ∷ (field_separator, codes "1460")
    ∷ (line_separator, codes "1470")
    ∷ (b'0', codes "10")
    ∷ (b'1', codes "110")
    ∷ (b'2', codes "120")
    ∷ (b'3', codes "130")
    ∷ (b'4', codes "140")
    ∷ (b'5', codes "150")
    ∷ (b'6', codes "160")
    ∷ (b'7', codes "170")
    ∷ (b'8', codes "180")
    ∷ (b'9', codes "190")
    ∷ []

abbrev pub is_letter : ℕ → Bool
is_letter c = (leb b'a' c && leb c b'z') || (leb b'A' c && leb c b'Z')

-- The digits for a byte, none for one that the table lacks.
unfoldable pub sequence_of : ℕ → List (ℕ × Bytes) → Bytes
sequence_of c [] = []
sequence_of c ((symbol, digits) ∷ rows) =
    let rest = sequence_of c rows in if symbol == c then digits else rest

unfoldable pub encode_byte : ℕ → Bytes
unfolding sequence_of
encode_byte c = if is_letter c then c ∷ [] else sequence_of c dtmf_encode_table

unfoldable pub encode_to_dtmf : Bytes → Bytes
unfolding encode_byte
encode_to_dtmf [] = []
encode_to_dtmf (c ∷ s) = encode_byte c ++ encode_to_dtmf s

-- The loop that takes labels off the encoded command, by rounds; each takes a byte or more.
unfoldable pub command_labels : ℕ → ℕ → Bytes → List Bytes
command_labels zero capacity s = []
command_labels (suc rounds) capacity s =
    let label_len = min (min 60 (length s)) capacity in
    let rest = command_labels rounds (capacity - label_len - 1) (drop label_len s) in
    if ltb label_len 1 then [] else take label_len s ∷ rest

-- Each label with a full stop behind it.
abbrev pub dotted : List Bytes → Bytes
dotted [] = []
dotted (label ∷ labels) = label ++ (b'.' ∷ dotted labels)

unfoldable pub get_dns_query : Bytes → Bytes → Bytes
unfolding command_labels encode_to_dtmf
get_dns_query app_cmd domain_name =
    let encoded = encode_to_dtmf app_cmd in
    let labels = command_labels (length encoded) (246 - length domain_name) encoded in
    toolbox_command_prefix ∷ b'.' ∷ (dotted labels ++ domain_name)
