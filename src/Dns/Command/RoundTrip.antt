-- ===== src/Dns/Command/RoundTrip.antt =====
-- Commands that the phone-home daemon puts in a name reach the DNS daemon.
use laitos.Base.{
  ◌⊎◌, ◌+◌, ◌-◌, ◌/◌, ◌≤◌, ◌<◌, ◌≡◌, refl, ap, ◌∙◌, true, false, ◌||◌, List, [], ◌∷◌, ◌++◌,
  append_assoc, Bytes, arith, ltb, All, equal, length, take, length-append, take-append,
}
use laitos.Text.Trim.{all_visible, trim_space, trim_left, trim_right, trim_space-all_visible}
use laitos.Text.Lines.{split}
use laitos.Text.Separators.{lacks, split-lacking, split-last}
use laitos.Dns.Command.{
  is_letter, encode_to_dtmf, command_labels, dotted, joined, discover_labels, decode_labels,
  decode_dtmf_command_input, decode_run, decode_runs, get_dns_query, starts_otherwise,
}
use laitos.Dns.Command.Letters.{IsEncodable, decode_runs-encode_to_dtmf}
use laitos.Dns.Command.Labels.{
  all_plain, IsCommandLabel, encode_to_dtmf-plain, command_labels-IsCommandLabel,
  command_labels-joined, length-command_labels,
}

-- A domain of two labels, of which neither has a full stop or white space.
pub record IsDomain (domain_name : Bytes) : Type 0 where
  pub name : Bytes
  pub top : Bytes
  pub spelling : domain_name ≡ name ++ (b'.' ∷ top)
  pub named : 0 < length name
  pub topped : 0 < length top
  pub name_visible : all_visible name ≡ true
  pub top_visible : all_visible top ≡ true
  pub name_whole : lacks b'.' name ≡ true
  pub top_whole : lacks b'.' top ≡ true

lacks-plain : (s : Bytes) → all_plain s ≡ true → lacks b'.' s ≡ true
unfolding lacks
lacks-plain [] h = refl
lacks-plain (c ∷ s) h = ground (arith, lacks-plain s (ground arith))

visible-plain : (s : Bytes) → all_plain s ≡ true → all_visible s ≡ true
visible-plain [] h = refl
visible-plain (c ∷ s) h = ground (arith, visible-plain s (ground arith))

split-dotted :
    (labels : List Bytes) (s : Bytes)
    → All IsCommandLabel labels
    → split b'.' (dotted labels ++ s) ≡ labels ++ split b'.' s
split-dotted [] s p = refl
split-dotted (label ∷ labels) s ((_, _, h), p) =
    ap (split b'.') (append_assoc label (b'.' ∷ dotted labels) s)
    ∙ split-lacking b'.' label (dotted labels ++ s) (lacks-plain label h)
    ∙ ap (◌∷◌ label) (split-dotted labels s p)

discover_labels-visible :
    (label : Bytes) (labels : List Bytes)
    → 0 < length label
    → all_visible label ≡ true
    → discover_labels (label ∷ labels) ≡ label ∷ discover_labels labels
unfolding discover_labels
discover_labels-visible [] labels p v = absurd (omega arith)
discover_labels-visible (c ∷ label) labels p v =
    rw (trim_space-all_visible (c ∷ label) v) (unfold equal in refl)

discover_labels-command :
    (labels more : List Bytes)
    → All IsCommandLabel labels
    → discover_labels (labels ++ more) ≡ labels ++ discover_labels more
discover_labels-command [] more p = refl
discover_labels-command (label ∷ labels) more ((n, _, h), p) =
    discover_labels-visible label (labels ++ more) n (visible-plain label h)
    ∙ ap (◌∷◌ label) (discover_labels-command labels more p)

-- The name that a command and a domain make has at most 249 bytes where the domain has at most
-- 246, and stays so for a command of any length: it is the prefix, labels of 1 to 60 letters and
-- digits, and the domain.
pub get_dns_query-length :
    (app_cmd domain_name : Bytes)
    → length domain_name ≤ 246
    → (length (get_dns_query app_cmd domain_name) ≤ 249)
      × ((labels : List Bytes) × (get_dns_query app_cmd domain_name
            ≡ b'_' ∷ b'.' ∷ (dotted labels ++ domain_name))
          × All IsCommandLabel labels)
unfolding get_dns_query
get_dns_query-length app_cmd domain_name d =
    let encoded = encode_to_dtmf app_cmd in
    let capacity = 246 - length domain_name in
    let labels = command_labels (length encoded) capacity encoded in
    (
      omega (
        arith,
        length-append (dotted labels) domain_name,
        length-command_labels (length encoded) capacity encoded,
        d,
      ),
      (
        labels,
        refl,
        command_labels-IsCommandLabel (length encoded) capacity encoded
            (encode_to_dtmf-plain app_cmd),
      ),
    )

split-full_stop : (s : Bytes) → split b'.' (b'.' ∷ s) ≡ [] ∷ split b'.' s
unfolding split
split-full_stop s = refl

discover_labels-nil : (labels : List Bytes) → discover_labels ([] ∷ labels) ≡ discover_labels labels
unfolding discover_labels trim_space trim_left trim_right equal
discover_labels-nil labels = refl

-- The labels of a name that has the prefix, and a domain of two labels.
discover_labels-query :
    (labels : List Bytes) (domain_name : Bytes) (d : IsDomain domain_name)
    → All IsCommandLabel labels
    → discover_labels (split b'.' (b'.' ∷ (dotted labels ++ domain_name)))
      ≡ labels ++ (d.name ∷ d.top ∷ [])
discover_labels-query labels domain_name d p =
    ap discover_labels (split-full_stop (dotted labels ++ domain_name))
    ∙ discover_labels-nil (split b'.' (dotted labels ++ domain_name))
    ∙ ap discover_labels (split-dotted labels domain_name p)
    ∙ discover_labels-command labels (split b'.' domain_name) p
    ∙ ap (λ ls. labels ++ discover_labels ls)
        (ap (split b'.') d.spelling
          ∙ split-lacking b'.' d.name d.top d.name_whole
          ∙ ap (◌∷◌ d.name) (split-last b'.' d.top d.top_whole))
    ∙ ap (λ ls. labels ++ ls)
        (discover_labels-visible d.name (d.top ∷ []) d.named d.name_visible
          ∙ ap (◌∷◌ d.name) (discover_labels-visible d.top [] d.topped d.top_visible))
    ∙ unfold discover_labels in refl

decode_labels-command :
    (labels : List Bytes) (name top : Bytes)
    → decode_labels (labels ++ (name ∷ top ∷ [])) ≡ decode_runs [] (joined labels)
unfolding decode_labels
decode_labels-command [] name top = unfold decode_runs decode_run in refl
decode_labels-command (label ∷ labels) name top =
    let domain : List Bytes = name ∷ top ∷ [] in
    let whole = length-append labels domain in
    let enough : ltb (length ((label ∷ labels) ++ domain)) 3 ≡ false = ground (arith, whole) in
    let rest : length ((label ∷ labels) ++ domain) - 2 ≡ length (label ∷ labels) =
      omega (arith, whole) in
    rw enough (
      ap (λ n. decode_runs [] (joined (take n ((label ∷ labels) ++ domain)))) rest
      ∙ ap (λ ls. decode_runs [] (joined ls)) (take-append (label ∷ labels) domain))

-- A command of letters, digits, spaces and punctuation that fits in the name comes back from
-- the name that it makes with a domain of two labels. It fits where the domain has at most 246
-- bytes, and the encoded command with its full stops fits in what the domain leaves of 246.
pub decode_dtmf_command_input-get_dns_query :
    (app_cmd domain_name : Bytes)
    → All (λ c. (is_letter c ≡ true) ⊎ IsEncodable c) app_cmd
    → IsDomain domain_name
    → length domain_name ≤ 246
    → length (encode_to_dtmf app_cmd) + length (encode_to_dtmf app_cmd) / 60
      ≤ 246 - length domain_name
    → decode_dtmf_command_input (get_dns_query app_cmd domain_name) ≡ app_cmd
unfolding decode_dtmf_command_input get_dns_query
decode_dtmf_command_input-get_dns_query app_cmd domain_name p d b f =
    let encoded = encode_to_dtmf app_cmd in
    let capacity = 246 - length domain_name in
    let labels = command_labels (length encoded) capacity encoded in
    let name : Bytes = b'_' ∷ b'.' ∷ (dotted labels ++ domain_name) in
    let (short, _) = get_dns_query-length app_cmd domain_name b in
    let bounded : length name ≤ 253 = omega (arith, short) in
    let valid : (ltb (length name) 2 || ltb 253 (length name) || starts_otherwise name) ≡ false =
      ground (arith, bounded) in
    let good =
      command_labels-IsCommandLabel (length encoded) capacity encoded
        (encode_to_dtmf-plain app_cmd) in
    rw valid (
      ap decode_labels (discover_labels-query labels domain_name d good)
      ∙ decode_labels-command labels d.name d.top
      ∙ ap (decode_runs [])
          (command_labels-joined (length encoded) capacity encoded (omega arith) f)
      ∙ decode_runs-encode_to_dtmf app_cmd p)
