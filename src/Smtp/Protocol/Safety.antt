-- ===== src/Smtp/Protocol/Safety.antt =====
-- No command line makes the decoder panic: every index and slice is in range.
use laitos.Base.{
  ℕ, zero, suc, ◌+◌, ◌-◌, ◌≤◌, ◌<◌, ◌≡◌, ◌≢◌, true, List, [], ◌∷◌, map, Option, none, some, Bytes,
  ltb, ◌==◌, length, length-map, get_elem?-lt, slice, get_elem?-some, has_prefix, index_byte,
  to_upper_byte, arith, Bool-cases, Option-cases, inl, inr, get_elem?, dec_lt, All,
}
use laitos.Text.Index.{index_byte-lt}
use laitos.Text.Trim.{trim_right}
use laitos.Smtp.Protocol.{
  Verb, VerbRow, ProtocolCommand, Expectation, AddressEnd, address_end, address_between,
  decode_parameter, at_word_boundary, decode_row, decode_line, parse_conversation_command,
  protocol_commands, find_verb, bracketed, optional_parameter, mail_address, found, missing,
  trailing_text,
}

-- The computation produces a value.
abbrev Runs {ℓ} : {A : Type ℓ} → Option A → Type ℓ
Runs {A} o = (a : A) × (o ≡ some a)

has_prefix-length : (s p : Bytes) → has_prefix s p ≡ true → length p ≤ length s
unfolding has_prefix
has_prefix-length s [] h = omega arith
has_prefix-length [] (p ∷ ps) h = absurd (cc)
has_prefix-length (c ∷ s) (p ∷ ps) h = ground (arith, has_prefix-length s ps)

-- What the decoder relies on in a row that `find_verb` finds.
abbrev Fits : Bytes → VerbRow → Type 0
Fits line r = (has_prefix line r.text ≡ true) × (index_byte r.text b'>' ≡ none)

abbrev IsPlain : VerbRow → Type 0
IsPlain r = index_byte r.text b'>' ≡ none

find_verb-Fits :
    (line : Bytes) (rs : List VerbRow) {r : VerbRow}
    → All IsPlain rs
    → find_verb line rs ≡ some r
    → Fits line r
unfolding find_verb
find_verb-Fits line [] p h = absurd (cc)
find_verb-Fits line (x ∷ rs) {r} p h = ground (arith, find_verb-Fits line rs {r = r} p.1)

protocol_commands-IsPlain : All IsPlain protocol_commands
unfolding index_byte
protocol_commands-IsPlain = ground arith

-- A closing bracket on the line stands behind the verb.
has_prefix-le :
    (line text : Bytes) (i : ℕ)
    → has_prefix (map to_upper_byte line) text ≡ true
    → index_byte text b'>' ≡ none
    → get_elem? line i ≡ some b'>'
    → length text ≤ i
unfolding has_prefix index_byte
has_prefix-le line [] i h p e = omega arith
has_prefix-le [] (t ∷ ts) i h p e = absurd (cc)
has_prefix-le (c ∷ line) (t ∷ ts) zero h p e = ground arith
has_prefix-le (c ∷ line) (t ∷ ts) (suc i) h p e = ground (arith, has_prefix-le line ts i)

-- The byte found is the first of its kind: no byte before it is `b`.
index_byte-at : (s : Bytes) (b : ℕ) {i : ℕ} → index_byte s b ≡ some i → get_elem? s i ≡ some b
unfolding index_byte
index_byte-at [] b h = absurd (cc)
index_byte-at (c ∷ s) b {i} h = elim (Option-cases (index_byte s b)) [
  | inl e ↦ ground (arith, e)
  | inr (j, e) ↦ ground (arith, e, index_byte-at s b e)
]

index_byte-last :
    (s : Bytes) (b : ℕ) {i : ℕ}
    → index_byte s b ≡ some i
    → ¬ (get_elem? s (length s - 1) ≡ some b)
    → i + 1 < length s
index_byte-last s b {i} h last = elim (dec_lt (i + 1) (length s)) [
  | yes p ↦ p
  | no p ↦
      let e : length s - 1 ≡ i = omega (arith, index_byte-lt s b h) in
      absurd (last (rw e (index_byte-at s b h)))
]

-- `indexAddressEnd`, where it is no error, is the index of a closing bracket.
abbrev IsEnd : Bytes → AddressEnd → Type 0
IsEnd line (found i) = get_elem? line i ≡ some b'>'
IsEnd line _ = Unit

address_end-IsEnd :
    (line : Bytes) → 0 < length line → (e : AddressEnd) × (address_end line ≡ some e) × IsEnd line e
unfolding address_end
address_end-IsEnd line h =
    let (last, at_last) = get_elem?-lt line (length line - 1) (omega arith) in
    elim (Bool-cases (last == b'>')) [
      | inl y ↦ (found (length line - 1), rw (at_last, y), ground (arith, at_last))
      | inr n ↦ elim (Option-cases (index_byte line b'>')) [
        | inl e ↦ (missing, rw (at_last, n, e), tt)
        | inr (i, e) ↦
            let inner = index_byte-last line b'>' e (λ l. ground (arith, at_last)) in
            let (c, at_c) = get_elem?-lt line (i + 1) inner in
            elim (Bool-cases (c == b' ')) [
              | inl y ↦ (found i, rw (at_last, n, e, at_c, y), index_byte-at line b'>' e)
              | inr m ↦ (trailing_text, rw (at_last, n, e, at_c, m), tt)
            ]
      ]
    ]

bracketed_runs :
    (v : Verb) (line : Bytes) (n end : ℕ)
    → n + 3 ≤ length line
    → n < end
    → end < length line
    → get_elem? line end ≡ some b'>'
    → bracketed v line n end ≢ none
unfolding bracketed slice
bracketed_runs v line n end h p q e none_at =
    let (a, at_a) = get_elem?-lt line (n + 1) (omega arith) in
    let (b, at_b) = get_elem?-lt line (n + 2) (omega arith) in
    let apart : (k : ℕ) → end ≡ k → get_elem? line k ≡ some b'>' = λ k x. rw (← x) e in
    ground (arith, at_a, at_b, apart (n + 1), apart (n + 2))

address_between_runs :
    (v : Verb) (line : Bytes) (n : ℕ) (e : AddressEnd)
    → n + 3 ≤ length line
    → IsEnd line e
    → ((i : ℕ) → get_elem? line i ≡ some b'>' → n ≤ i)
    → address_between v line n e ≢ none
unfolding address_between
address_between_runs v line n (found end) h e behind none_at =
    let (a, at_a) = get_elem?-lt line n (omega arith) in
    let at_verb : end ≡ n → get_elem? line n ≡ some b'>' = λ x. rw (← x) e in
    ground
      (arith, at_a, at_verb, behind end e, get_elem?-some line end e, bracketed_runs v line n end)
address_between_runs v line n missing h e behind none_at =
    let (a, at_a) = get_elem?-lt line n (omega arith) in ground (arith, at_a)
address_between_runs v line n trailing_text h e behind none_at = cc

decode_parameter_runs :
    (v : Verb) (x : Expectation) (n : ℕ) (line : Bytes)
    → n ≤ length line
    → ((i : ℕ) → get_elem? line i ≡ some b'>' → n ≤ i)
    → decode_parameter v x n line ≢ none
unfolding decode_parameter slice
decode_parameter_runs v optional_parameter n line h behind none_at = ground arith
decode_parameter_runs v mail_address n line h behind none_at =
    elim (Bool-cases (ltb (length line) (n + 3))) [
      | inl short ↦ ground (arith, short)
      | inr long ↦
          let (e, ends, is_end) = address_end-IsEnd line (ground arith) in
          ground (arith, ends, address_between_runs v line n e (ground arith) is_end behind)
    ]

decode_row_runs :
    (line : Bytes) (r : VerbRow) → Fits (map to_upper_byte line) r → decode_row line r ≢ none
unfolding decode_row at_word_boundary
decode_row_runs line r f none_at =
    let n = length r.text in
    let fits : n ≤ length line = omega (
      arith,
      has_prefix-length (map to_upper_byte line) r.text f.0,
      length-map line to_upper_byte,
    ) in
    let behind =
      λ (i : ℕ) (e : get_elem? line i ≡ some b'>'). has_prefix-le line r.text i f.0 f.1 e in
    let runs = decode_parameter_runs r.verb r.expects n line fits behind in
    elim (Bool-cases (length line == n)) [
      | inl y ↦ ground (arith, y, runs)
      | inr m ↦ let (c, at_c) = get_elem?-lt line n (ground arith) in ground (arith, m, at_c, runs)
    ]

decode_line_runs : (line : Bytes) → decode_line line ≢ none
unfolding decode_line
decode_line_runs line none_at =
    elim (Option-cases (find_verb (map to_upper_byte line) protocol_commands)) [
      | inl e ↦ ground (arith, e)
      | inr (r, e) ↦ ground (
        arith,
        e,
        decode_row_runs line r
            (find_verb-Fits (map to_upper_byte line) protocol_commands protocol_commands-IsPlain e),
      )
    ]

-- No line makes `parseConversationCommand` panic: every index and every slice it takes of the
-- line is in range, whatever bytes the client sends, so it always returns a command.
pub parse_conversation_command_total :
    (line : Bytes) → (c : ProtocolCommand) × (parse_conversation_command line ≡ some c)
unfolding parse_conversation_command
parse_conversation_command_total line = elim (Option-cases (parse_conversation_command line)) [
  | inl e ↦ absurd (ground (arith, e, decode_line_runs (trim_right line)))
  | inr found_it ↦ found_it
]
