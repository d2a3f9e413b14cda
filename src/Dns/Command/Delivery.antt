-- ===== src/Dns/Command/Delivery.antt =====
-- A command from the name that carries it, through the packet of the query, to the DNS daemon.
use laitos.Base.{
  ◌⊎◌, ◌+◌, ◌-◌, ◌/◌, ◌≤◌, ◌≡◌, refl, sym, ap, ◌∙◌, true, List, [], ◌∷◌, ◌++◌, Bytes, arith, All,
  length, length-append,
}
use laitos.Text.Lines.{split, join, join-split}
use laitos.Dns.Query.{recovered, extract_text_query_input}
use laitos.Dns.Query.Names.{
  IsLabel, wire, recovered_name, text_query, extract_text_query_input-recovered_name,
}
use laitos.Dns.Command.{is_letter, encode_to_dtmf, decode_dtmf_command_input, get_dns_query}
use laitos.Dns.Command.Letters.{IsEncodable}
use laitos.Dns.Command.RoundTrip.{
  IsDomain, get_dns_query-length, decode_dtmf_command_input-get_dns_query,
}

-- A label whose length is read as a full stop: it has other than 45 and 47 to 57 bytes.
abbrev pub IsDotted : Bytes → Type 0
IsDotted label = recovered (length label) ≡ b'.'

recovered_name-join :
    (label : Bytes) (labels : List Bytes)
    → All IsDotted labels
    → recovered_name label labels ≡ join (b'.' ∷ []) (label ∷ labels)
unfolding join
recovered_name-join label [] p = refl
recovered_name-join label (next ∷ labels) (d, p) =
    ap (λ c. label ++ (c ∷ recovered_name next labels)) d
    ∙ ap (λ s. label ++ (b'.' ∷ s)) (recovered_name-join next labels p)

length-recovered_name :
    (label : Bytes) (labels : List Bytes)
    → length (recovered_name label labels) ≡ length (label ++ wire labels)
length-recovered_name label [] = omega (arith, length-append label [])
length-recovered_name label (next ∷ labels) = omega (
  arith,
  length-append label (recovered (length next) ∷ recovered_name next labels),
  length-append label (wire (next ∷ labels)),
  length-recovered_name next labels,
)

-- Of a packet that asks for a name, whose labels after the first are dotted, the name is read.
extract_text_query_input-name :
    (header name label : Bytes) (labels : List Bytes) (more : Bytes)
    → length header ≡ 12
    → split b'.' name ≡ label ∷ labels
    → All IsLabel (label ∷ labels)
    → All IsDotted labels
    → length name ≤ 255
    → extract_text_query_input (text_query header label labels more) ≡ name
extract_text_query_input-name header name label labels more e s p d b =
    let same : recovered_name label labels ≡ name =
      recovered_name-join label labels d ∙ ap (join (b'.' ∷ [])) (sym s) ∙ join-split b'.' name in
    let bound : length (label ++ wire labels) ≤ 255 =
      omega (arith, length-recovered_name label labels, ap length same, b) in
    extract_text_query_input-recovered_name header label labels more e p bound ∙ same

-- A command that fits in a name reaches the DNS daemon: the daemon reads it from the packet that
-- asks for the name, where no label of the name but the first has 45 or 47 to 57 bytes. The
-- command has letters, digits, spaces and punctuation, the labels have letters, digits, `-`
-- and `_`, and the domain has two labels.
pub get_dns_query-reaches :
    (app_cmd domain_name header label : Bytes) (labels : List Bytes) (more : Bytes)
    → All (λ c. (is_letter c ≡ true) ⊎ IsEncodable c) app_cmd
    → IsDomain domain_name
    → length domain_name ≤ 246
    → length (encode_to_dtmf app_cmd) + length (encode_to_dtmf app_cmd) / 60
      ≤ 246 - length domain_name
    → length header ≡ 12
    → split b'.' (get_dns_query app_cmd domain_name) ≡ label ∷ labels
    → All IsLabel (label ∷ labels)
    → All IsDotted labels
    → decode_dtmf_command_input (extract_text_query_input (text_query header label labels more))
      ≡ app_cmd
get_dns_query-reaches app_cmd domain_name header label labels more p d b f e s l dots =
    let short : length (get_dns_query app_cmd domain_name) ≤ 255 =
      omega (arith, (get_dns_query-length app_cmd domain_name b).0) in
    ap decode_dtmf_command_input (
      extract_text_query_input-name header (get_dns_query app_cmd domain_name) label labels more e s
        l dots short)
    ∙ decode_dtmf_command_input-get_dns_query app_cmd domain_name p d b f
