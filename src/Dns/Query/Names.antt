-- ===== src/Dns/Query/Names.antt =====
-- What names the daemon reads from the packets that DNS clients make.
use laitos.Base.{
  ℕ, suc, ◌+◌, ◌-◌, ◌≤◌, ◌≡◌, ◌≢◌, refl, sym, ap, ◌∙◌, Bool, true, false, ◌&&◌, ◌||◌, List, [], ◌∷◌,
  ◌++◌, some, Bytes, arith, ltb, leb, ◌==◌, length, take, drop, All, length-append, has_prefix,
  append-nil, take-append, if◌then◌else◌,
}
use laitos.Text.Index.{index_of, index_of-lacks, drop-suc-length}
use laitos.Text.Separators.{lacks}
use laitos.Dns.Query.{
  text_query_magic, recovered, recover_full_stop_symbols, name_until, extract_text_query_input,
}

-- A label as a packet has it: its length, and its bytes.
abbrev pub wire : List Bytes → Bytes
wire [] = []
wire (label ∷ labels) = length label ∷ (label ++ wire labels)

-- A byte of names of DNS: a letter, a digit, `-` or `_`.
abbrev pub is_name_byte : ℕ → Bool
is_name_byte b =
    (leb b'a' b && leb b b'z')
    || (leb b'A' b && leb b b'Z')
    || (leb b'0' b && leb b b'9')
    || b == b'-'
    || b == b'_'

abbrev pub all_name_bytes : Bytes → Bool
all_name_bytes [] = true
all_name_bytes (b ∷ s) = is_name_byte b && all_name_bytes s

abbrev pub IsLabel : Bytes → Type 0
IsLabel label = (label ≢ []) × (all_name_bytes label ≡ true)

-- The name behind `recover_full_stop_symbols`: in front of a label stands what becomes of its
-- length.
abbrev pub recovered_name : Bytes → List Bytes → Bytes
recovered_name label [] = label
recovered_name label (next ∷ labels) =
    label ++ (recovered (length next) ∷ recovered_name next labels)

-- What stands in front of a label of so many bytes: the characters 45 to 57 are `-`, `.`, `/` and
-- the digits.
abbrev pub separator : ℕ → ℕ
separator n = if leb 45 n && leb n 57 then n else b'.'

-- The labels with their separators.
abbrev pub spelled : Bytes → List Bytes → Bytes
spelled label [] = label
spelled label (next ∷ labels) = label ++ (separator (length next) ∷ spelled next labels)

-- A label of DNS has at most 63 bytes.
abbrev pub IsWithin63 : Bytes → Type 0
IsWithin63 label = length label ≤ 63

-- A packet of a text query: twelve bytes of header, the labels, and what follows the question.
abbrev pub text_query : Bytes → Bytes → List Bytes → Bytes → Bytes
text_query header label labels more =
    header ++ (wire (label ∷ labels) ++ (0 ∷ (text_query_magic ++ more)))

recover-name : (s : Bytes) → all_name_bytes s ≡ true → recover_full_stop_symbols s ≡ s
recover-name [] h = refl
recover-name (b ∷ s) h = ground (arith, recover-name s (ground arith))

recover-append :
    (s t : Bytes)
    → recover_full_stop_symbols (s ++ t)
      ≡ recover_full_stop_symbols s ++ recover_full_stop_symbols t
recover-append [] t = refl
recover-append (b ∷ s) t = ap (◌∷◌ (recovered b)) (recover-append s t)

recover-wire :
    (label : Bytes) (labels : List Bytes)
    → All IsLabel (label ∷ labels)
    → recover_full_stop_symbols (label ++ wire labels) ≡ recovered_name label labels
recover-wire label [] ((n, h), p) =
    recover-append label [] ∙ ap (λ s. s ++ []) (recover-name label h) ∙ append-nil label
recover-wire label (next ∷ labels) ((n, h), p) =
    recover-append label (wire (next ∷ labels))
    ∙ ap (λ s. s ++ recover_full_stop_symbols (wire (next ∷ labels))) (recover-name label h)
    ∙ ap (λ s. label ++ (recovered (length next) ∷ s)) (recover-wire next labels p)

pub lacks-append :
    (b : ℕ) (s t : Bytes) → lacks b s ≡ true → lacks b t ≡ true → lacks b (s ++ t) ≡ true
unfolding lacks
lacks-append b [] t h e = e
lacks-append b (c ∷ s) t h e = ground (arith, lacks-append b s t (ground arith) e)

pub lacks-name : (s : Bytes) → all_name_bytes s ≡ true → lacks 0 s ≡ true
unfolding lacks
lacks-name [] h = refl
lacks-name (b ∷ s) h = ground (arith, lacks-name s (ground arith))

pub lacks-wire : (labels : List Bytes) → All IsLabel labels → lacks 0 (wire labels) ≡ true
unfolding lacks
lacks-wire [] p = refl
lacks-wire ([] ∷ labels) ((n, h), p) = absurd (n refl)
lacks-wire ((b ∷ s) ∷ labels) ((n, h), p) =
    let rest : lacks 0 ((b ∷ s) ++ wire labels) ≡ true =
      lacks-append 0 (b ∷ s) (wire labels) (lacks-name (b ∷ s) h) (lacks-wire labels p) in
    ground (arith, rest)

-- What stands behind the header and the first length.
drop-header :
    (header : Bytes) (b : ℕ) (s : Bytes) → length header ≡ 12 → drop 13 (header ++ (b ∷ s)) ≡ s
drop-header header b s e =
    ap (λ n. drop n (header ++ (b ∷ s))) (ap suc (sym e)) ∙ drop-suc-length header b s

pub magic-at : (more : Bytes) → index_of text_query_magic (0 ∷ (text_query_magic ++ more)) ≡ some 1
unfolding index_of has_prefix
magic-at more = refl

-- The packet behind its header and the first length.
text_query-drop :
    (header label : Bytes) (labels : List Bytes) (more : Bytes)
    → length header ≡ 12
    → drop 13 (text_query header label labels more)
      ≡ (label ++ wire labels) ++ (0 ∷ (text_query_magic ++ more))
text_query-drop header label labels more e = drop-header header (length label) _ e

name_until-text_query :
    (header label : Bytes) (labels : List Bytes) (more : Bytes)
    → length header ≡ 12
    → name_until (length (label ++ wire labels) + 1) (text_query header label labels more)
      ≡ label ++ wire labels
name_until-text_query header label labels more e =
    let name = label ++ wire labels in
    let n : length name + 1 - 1 ≡ length name = omega arith in
    ap (take (length name + 1 - 1)) (text_query-drop header label labels more e)
    ∙ ap (λ k. take k (name ++ (0 ∷ (text_query_magic ++ more)))) n
    ∙ take-append name (0 ∷ (text_query_magic ++ more))

-- The name that is read, for labels of any length.
pub extract_text_query_input-recovered_name :
    (header label : Bytes) (labels : List Bytes) (more : Bytes)
    → length header ≡ 12
    → All IsLabel (label ∷ labels)
    → length (label ++ wire labels) ≤ 255
    → extract_text_query_input (text_query header label labels more) ≡ recovered_name label labels
unfolding extract_text_query_input
extract_text_query_input-recovered_name header label labels more e (l, p) bound =
    let name = label ++ wire labels in
    let packet = text_query header label labels more in
    let found : index_of text_query_magic (drop 13 packet) ≡ some (length name + 1) =
      ap (index_of text_query_magic) (text_query-drop header label labels more e)
      ∙ index_of-lacks 0 (16 ∷ 0 ∷ 1 ∷ []) name (0 ∷ (text_query_magic ++ more)) 1
          (lacks-append 0 label (wire labels) (lacks-name label l.1) (lacks-wire labels p))
          (magic-at more) in
    let enough : ltb (length packet) 14 ≡ false = ground (
      arith,
      e,
      length-append header (wire (label ∷ labels) ++ (0 ∷ (text_query_magic ++ more))),
      length-append name (0 ∷ (text_query_magic ++ more)),
    ) in
    let positive : ltb (length name + 1) 1 ≡ false = ground arith in
    let within : ltb 255 (length (name_until (length name + 1) packet)) ≡ false =
      ap (λ s. ltb 255 (length s)) (name_until-text_query header label labels more e)
      ∙ ground (arith, bound) in
    let read : recover_full_stop_symbols (name_until (length name + 1) packet)
        ≡ recovered_name label labels =
      ap recover_full_stop_symbols (name_until-text_query header label labels more e)
      ∙ recover-wire label labels (l, p) in
    rw (enough, found, positive, within) read

recovered-separator : (n : ℕ) → n ≤ 63 → recovered n ≡ separator n
recovered-separator n h = ground arith

recovered_name-spelled :
    (label : Bytes) (labels : List Bytes)
    → All IsWithin63 labels
    → recovered_name label labels ≡ spelled label labels
recovered_name-spelled label [] p = refl
recovered_name-spelled label (next ∷ labels) (h, p) =
    ap (λ c. label ++ (c ∷ recovered_name next labels)) (recovered-separator (length next) h)
    ∙ ap (λ s. label ++ (separator (length next) ∷ s)) (recovered_name-spelled next labels p)

-- Of a text query that DNS clients make, the daemon reads the labels, and in front of each but the
-- first a full stop, or, where the label has 45 to 57 bytes, the character that has the code of the
-- length. The labels are of letters, digits, `-` and `_`, those behind the first have at most 63
-- bytes each, and the name has at most 255 bytes.
pub extract_text_query_input-spelled :
    (header label : Bytes) (labels : List Bytes) (more : Bytes)
    → length header ≡ 12
    → All IsLabel (label ∷ labels)
    → All IsWithin63 labels
    → length (label ++ wire labels) ≤ 255
    → extract_text_query_input (text_query header label labels more) ≡ spelled label labels
extract_text_query_input-spelled header label labels more e l w bound =
    extract_text_query_input-recovered_name header label labels more e l bound
    ∙ recovered_name-spelled label labels w
