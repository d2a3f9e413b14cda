-- ===== src/Messages/Report/RoundTrip.antt =====
-- A report in its compact form comes back.
use laitos.Base.{◌≡◌, ◌≢◌, refl, ap, ◌∙◌, true, List, [], ◌∷◌, none, Bytes, arith, equal_iff}
use laitos.Text.Lines.{split, join}
use laitos.Text.Numbers.{show_int, atoi-show_int, IsInt64}
use laitos.Text.Separators.{
  lacks, split-join, swap, swap-swap, lacks-swap, replace_all-swap, lacks-show_int,
}
use laitos.Messages.Report.{
  Time, SubjectReportRequest, field_separator, line_separator, newline, compacted, restored,
  serialise_compact, deserialise_from_compact, with_components, decode_error,
}

-- A report that the compact form can carry: it has a host name, no text has the separator of
-- fields, no text of several lines has the separator of lines, the times are whole seconds of 64
-- bits.
pub record IsCompactable (req : SubjectReportRequest) : Type 0 where
  pub named : req.subject_host_name ≢ []
  pub host_name : lacks field_separator req.subject_host_name ≡ true
  pub request : lacks field_separator req.command_request ≡ true
  pub command : lacks field_separator req.command_response.command ≡ true
  pub result : lacks field_separator req.command_response.result ≡ true
  pub result_lines : lacks line_separator req.command_response.result ≡ true
  pub platform : lacks field_separator req.subject_platform ≡ true
  pub comment : lacks field_separator req.subject_comment ≡ true
  pub comment_lines : lacks line_separator req.subject_comment ≡ true
  pub ip : lacks field_separator req.subject_ip ≡ true
  pub whole_second : req.command_response.received_at.nanosecond ≡ 0
  pub time_64 : IsInt64 req.command_response.received_at.unix
  pub duration_64 : IsInt64 req.command_response.run_duration_sec

restored-compacted : (s : Bytes) → lacks line_separator s ≡ true → restored (compacted s) ≡ s
restored-compacted s h =
    ap restored (replace_all-swap newline line_separator s)
    ∙ replace_all-swap line_separator newline (swap newline line_separator s)
    ∙ swap-swap newline line_separator s h

lacks-compacted :
    (s : Bytes) → lacks field_separator s ≡ true → lacks field_separator (compacted s) ≡ true
lacks-compacted s h =
    ap (lacks field_separator) (replace_all-swap newline line_separator s)
    ∙ lacks-swap field_separator newline line_separator s (omega arith) h

-- The components that a report is made of.
abbrev components : SubjectReportRequest → List Bytes
components req =
    req.subject_host_name
    ∷ req.command_request
    ∷ req.command_response.command
    ∷ compacted req.command_response.result
    ∷ req.subject_platform
    ∷ compacted req.subject_comment
    ∷ req.subject_ip
    ∷ show_int req.command_response.received_at.unix
    ∷ show_int req.command_response.run_duration_sec
    ∷ []

serialise_compact-join :
    (req : SubjectReportRequest)
    → serialise_compact req ≡ join (field_separator ∷ []) (components req)
unfolding serialise_compact join
serialise_compact-join req = refl

split-serialise_compact :
    (req : SubjectReportRequest)
    → IsCompactable req
    → split field_separator (serialise_compact req) ≡ components req
split-serialise_compact req c =
    ap (split field_separator) (serialise_compact-join req)
    ∙ split-join field_separator req.subject_host_name _ (
      c.host_name,
      (
        c.request,
        (
          c.command,
          (
            lacks-compacted req.command_response.result c.result,
            (
              c.platform,
              (
                lacks-compacted req.subject_comment c.comment,
                (
                  c.ip,
                  (
                    lacks-show_int field_separator req.command_response.received_at.unix refl
                        (omega arith),
                    (
                      lacks-show_int field_separator req.command_response.run_duration_sec refl
                          (omega arith),
                      tt,
                    ),
                  ),
                ),
              ),
            ),
          ),
        ),
      ),
    )

whole-time :
    (t : Time) → t.nanosecond ≡ 0 → ◌≡◌ {A = Time} (record { unix = t.unix; nanosecond = 0 }) t
whole-time t e = ground arith

with_components-components :
    (base req : SubjectReportRequest)
    → IsCompactable req
    → with_components base (components req) ≡ record req { server_time = base.server_time }
unfolding with_components
with_components-components base req c = simp (
  restored-compacted req.command_response.result c.result_lines,
  restored-compacted req.subject_comment c.comment_lines,
  atoi-show_int req.command_response.received_at.unix c.time_64,
  atoi-show_int req.command_response.run_duration_sec c.duration_64,
  whole-time req.command_response.received_at c.whole_second,
)

-- A report that the compact form can carry comes back from it as it was, but for the server's own
-- time, whatever the report that it is read into held before, and without an error.
pub deserialise_from_compact-serialise_compact :
    (base req : SubjectReportRequest)
    → IsCompactable req
    → deserialise_from_compact base (serialise_compact req)
      ≡ (record req { server_time = base.server_time }, none)
unfolding deserialise_from_compact
deserialise_from_compact-serialise_compact base req c =
    ap (λ cs. (with_components base cs, decode_error cs (with_components base cs)))
      (split-serialise_compact req c)
    ∙ ap (λ r. (r, decode_error (components req) r)) (with_components-components base req c)
    ∙ unfold decode_error in ground (arith, equal_iff req.subject_host_name [], c.named)
