-- ===== src/Messages/Report.antt =====
-- toolbox/message_processor_struct.go: a subject's report, and its form as a compact string.
--
-- `time.Time` is seconds since the epoch and nanoseconds within one. The server's own time of a
-- report is a reading of its clock, in nanoseconds since the epoch. `AppCommandRequest`, a struct
-- of one string, is that string.
pub mod RoundTrip
use laitos.Base.{
  ℕ, ◌/◌, ◌%◌, ◌^◌, List, [], ◌∷◌, ◌++◌, Option, none, some, Bytes, ◌==◌, if◌then◌else◌, length,
  get_elem?, equal, not,
}
use laitos.Text.Lines.{split, replace_all}
use laitos.Text.Numbers.{ℤ, pos, negsuc, show_int, atoi}

pub record Time : Type 0 where
  pub unix : ℤ
  pub nanosecond : ℕ

-- The zero `time.Time`, which is the beginning of the year 1.
abbrev pub zero_time : Time
zero_time = record { unix = negsuc 62135596799; nanosecond = 0 }

pub record AppCommandResponse : Type 0 where
  pub command : Bytes
  pub received_at : Time
  pub result : Bytes
  pub run_duration_sec : ℤ

pub record SubjectReportRequest : Type 0 where
  pub subject_ip : Bytes
  pub subject_host_name : Bytes
  pub subject_platform : Bytes
  pub subject_comment : Bytes
  pub server_time : ℕ
  pub command_request : Bytes
  pub command_response : AppCommandResponse

pub record SubjectReportResponse : Type 0 where
  pub command_request : Bytes
  pub command_response : AppCommandResponse

abbrev pub field_separator : ℕ
field_separator = 0x1F

abbrev pub line_separator : ℕ
line_separator = 0x1E

abbrev pub newline : ℕ
newline = 10

-- Line breaks as separators of lines, and back.
abbrev pub compacted : Bytes → Bytes
compacted s = replace_all (newline ∷ []) (line_separator ∷ []) s

abbrev pub restored : Bytes → Bytes
restored s = replace_all (line_separator ∷ []) (newline ∷ []) s

unfoldable pub serialise_compact : SubjectReportRequest → Bytes
unfolding replace_all show_int
serialise_compact req =
    req.subject_host_name
    ++ (field_separator
        ∷ (req.command_request
            ++ (field_separator
                ∷ (req.command_response.command
                    ++ (field_separator
                        ∷ (compacted req.command_response.result
                            ++ (field_separator
                                ∷ (req.subject_platform
                                    ++ (field_separator
                                        ∷ (compacted req.subject_comment
                                            ++ (field_separator
                                                ∷ (req.subject_ip
                                                    ++ (field_separator
                                                        ∷ (show_int
                                                            req.command_response.received_at.unix
                                                            ++ (field_separator
                                                            ∷ show_int
                                                            req.command_response.run_duration_sec)))))))))))))))

pub data DecodeError : Type 0 where
  truncated nothing_decoded : DecodeError

-- What a component that is there makes of a field, or else the field as it is.
abbrev pub or_kept {ℓ} : {A : Type ℓ} → (Bytes → A) → A → Option Bytes → A
or_kept read kept none = kept
or_kept read kept (some s) = read s

abbrev pub verbatim : Bytes → Bytes
verbatim s = s

abbrev pub read_time : Bytes → Time
read_time s = record { unix = atoi s; nanosecond = 0 }

-- The report with the components that there are in its fields.
unfoldable pub with_components : SubjectReportRequest → List Bytes → SubjectReportRequest
unfolding replace_all atoi
with_components req cs =
    let resp = req.command_response in
    record req {
      subject_host_name = or_kept verbatim req.subject_host_name (get_elem? cs 0);
      command_request = or_kept verbatim req.command_request (get_elem? cs 1);
      command_response = record {
        command = or_kept verbatim resp.command (get_elem? cs 2);
        result = or_kept restored resp.result (get_elem? cs 3);
        received_at = or_kept read_time resp.received_at (get_elem? cs 7);
        run_duration_sec = or_kept atoi resp.run_duration_sec (get_elem? cs 8);
      };
      subject_platform = or_kept verbatim req.subject_platform (get_elem? cs 4);
      subject_comment = or_kept restored req.subject_comment (get_elem? cs 5);
      subject_ip = or_kept verbatim req.subject_ip (get_elem? cs 6);
    }

unfoldable pub decode_error : List Bytes → SubjectReportRequest → Option DecodeError
unfolding equal
decode_error cs req =
    if not (length cs == 9)
    then some truncated
    else if equal req.subject_host_name []
    then some nothing_decoded
    else none

-- `DeserialiseFromCompact`, on the report that it is called on.
unfoldable pub deserialise_from_compact :
    SubjectReportRequest → Bytes → SubjectReportRequest × Option DecodeError
unfolding split with_components decode_error
deserialise_from_compact req input =
    let cs = split field_separator input in
    let decoded = with_components req cs in (decoded, decode_error cs decoded)
