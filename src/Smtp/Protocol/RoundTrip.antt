-- ===== src/Smtp/Protocol/RoundTrip.antt =====
-- What a client writes as a mail address is what the decoder hands on.
use laitos.Base.{
  ℕ, ◌+◌, ◌-◌, ◌≡◌, refl, ap, ◌∙◌, sym, true, [], ◌∷◌, ◌++◌, map, some, length, Bytes, codes, arith,
  to_upper_byte, append_assoc, length-append, get_elem?, slice, ◌⊎◌, inl, inr, slice-in_range,
  get_elem?-append, drop-append, take-append, length-map, has_prefix,
}
use mathlib.Core.List.{map-append}
use laitos.Text.Trim.{trim_right_visible}
use laitos.Smtp.Protocol.{
  Verb, VerbRow, mail_address, success, contains_7bit_ascii_only, decode_line, decode_row,
  decode_parameter, address_end, address_between, bracketed, at_word_boundary, find_verb,
  parse_conversation_command, protocol_commands, mail_from_row, rcpt_to_row,
}

7bit-append :
    (s t : Bytes)
    → contains_7bit_ascii_only s ≡ true
    → contains_7bit_ascii_only t ≡ true
    → contains_7bit_ascii_only (s ++ t) ≡ true
unfolding contains_7bit_ascii_only
7bit-append [] t h k = k
7bit-append (b ∷ s) t h k = ground (arith, 7bit-append s t)

7bit_of_upper :
    (s : Bytes)
    → contains_7bit_ascii_only (map to_upper_byte s) ≡ true
    → contains_7bit_ascii_only s ≡ true
unfolding contains_7bit_ascii_only
7bit_of_upper [] h = refl
7bit_of_upper (b ∷ s) h = ground (arith, 7bit_of_upper s)

-- A line of a mail verb, an address in brackets, and nothing behind it.
abbrev pub mail_line : Bytes → Bytes → Bytes
mail_line verb address = (verb ++ (b':' ∷ b'<' ∷ address)) ++ (b'>' ∷ [])

mail_line-regroup : (verb a : Bytes) → mail_line verb a ≡ verb ++ (b':' ∷ b'<' ∷ (a ++ (b'>' ∷ [])))
mail_line-regroup verb a = append_assoc verb (b':' ∷ b'<' ∷ a) (b'>' ∷ [])

module _ (verb a : Bytes) where
  length-mail_line : length (mail_line verb a) ≡ length verb + 3 + length a
  length-mail_line = omega (
    arith,
    length-append (verb ++ (b':' ∷ b'<' ∷ a)) (b'>' ∷ []),
    length-append verb (b':' ∷ b'<' ∷ a),
  )

  mail_line-at :
      (i : ℕ)
      → get_elem? (mail_line verb a) (length verb + i)
        ≡ get_elem? (b':' ∷ b'<' ∷ (a ++ (b'>' ∷ []))) i
  mail_line-at i = rw (mail_line-regroup verb a) (get_elem?-append verb _ i)

  mail_line-colon : get_elem? (mail_line verb a) (length verb) ≡ some b':'
  mail_line-colon =
      let e : length verb ≡ length verb + 0 = omega arith in
      ap (get_elem? (mail_line verb a)) e ∙ mail_line-at 0

  mail_line-open : get_elem? (mail_line verb a) (length verb + 1) ≡ some b'<'
  mail_line-open = mail_line-at 1

  mail_line-close : get_elem? (mail_line verb a) (length (mail_line verb a) - 1) ≡ some b'>'
  mail_line-close =
      let front = verb ++ (b':' ∷ b'<' ∷ a) in
      let e : length (mail_line verb a) - 1 ≡ length front + 0 =
        omega (arith, length-append front (b'>' ∷ [])) in
      ap (get_elem? (mail_line verb a)) e ∙ get_elem?-append front (b'>' ∷ []) 0

  mail_line-address :
      slice (mail_line verb a) (length verb + 2) (length (mail_line verb a) - 1) ≡ some a
  mail_line-address =
      let front = verb ++ (b':' ∷ b'<' ∷ []) in
      let n : length front ≡ length verb + 2 = length-append verb (b':' ∷ b'<' ∷ []) in
      let whole : mail_line verb a ≡ front ++ (a ++ (b'>' ∷ [])) =
        mail_line-regroup verb a ∙ sym (append_assoc verb (b':' ∷ b'<' ∷ []) (a ++ (b'>' ∷ []))) in
      let k : length (mail_line verb a) - 1 - (length verb + 2) ≡ length a =
        omega (arith, length-mail_line) in
      slice-in_range (mail_line verb a) (length verb + 2) (length (mail_line verb a) - 1)
        (omega (arith, length-mail_line)) (omega arith)
      ∙ ap some (
          rw k (
            rw whole
              (rw (← n) (rw (drop-append front (a ++ (b'>' ∷ []))) (take-append a (b'>' ∷ []))))))

  mail_line-parameter :
      (v : Verb)
      → decode_parameter v mail_address (length verb) (mail_line verb a) ≡ some (success v a)
  unfolding decode_parameter address_end address_between bracketed
  mail_line-parameter v =
      ground (
        arith, length-mail_line, mail_line-colon, mail_line-open, mail_line-close,
        mail_line-address,
      )

  mail_line-row :
      (r : VerbRow)
      → length r.text ≡ length verb
      → r.expects ≡ mail_address
      → decode_row (mail_line verb a) r ≡ some (success r.verb a)
  unfolding decode_row at_word_boundary
  mail_line-row r n x =
      rw (n, x) (ground (arith, length-mail_line, mail_line-colon, mail_line-parameter r.verb))

  mail_line-upper :
      map to_upper_byte (mail_line verb a)
      ≡ map to_upper_byte verb ++ (b':' ∷ b'<' ∷ (map to_upper_byte a ++ (b'>' ∷ [])))
  mail_line-upper = rw (mail_line-regroup verb a) (simp map-append)

mail_line-decode :
    (verb a : Bytes) (r : VerbRow)
    → map to_upper_byte verb ≡ r.text
    → r.expects ≡ mail_address
    → find_verb (map to_upper_byte (mail_line verb a)) protocol_commands ≡ some r
    → decode_line (mail_line verb a) ≡ some (success r.verb a)
unfolding decode_line
mail_line-decode verb a r e x f =
    rw (f, decode_line)
      (mail_line-row verb a r (ap length (sym e) ∙ length-map verb to_upper_byte) x)

mail_line-trimmed :
    (verb a : Bytes) (t : Bytes)
    → map to_upper_byte verb ≡ t
    → contains_7bit_ascii_only t ≡ true
    → contains_7bit_ascii_only a ≡ true
    → parse_conversation_command (mail_line verb a) ≡ decode_line (mail_line verb a)
unfolding parse_conversation_command
mail_line-trimmed verb a t e plain ascii =
    let line_ascii : contains_7bit_ascii_only (mail_line verb a) ≡ true =
      7bit-append (verb ++ (b':' ∷ b'<' ∷ a)) (b'>' ∷ [])
        (7bit-append verb (b':' ∷ b'<' ∷ a) (7bit_of_upper verb (rw e plain))
          (unfold contains_7bit_ascii_only in ascii))
        (unfold contains_7bit_ascii_only in refl) in
    rw line_ascii
      (ap decode_line (trim_right_visible (verb ++ (b':' ∷ b'<' ∷ a)) b'>' refl (omega arith)))

mail_from-find :
    (verb a : Bytes)
    → map to_upper_byte verb ≡ codes "MAIL FROM"
    → find_verb (map to_upper_byte (mail_line verb a)) protocol_commands ≡ some mail_from_row
unfolding find_verb has_prefix
mail_from-find verb a e = rw (mail_line-upper verb a) (rw e)

rcpt_to-find :
    (verb a : Bytes)
    → map to_upper_byte verb ≡ codes "RCPT TO"
    → find_verb (map to_upper_byte (mail_line verb a)) protocol_commands ≡ some rcpt_to_row
unfolding find_verb has_prefix
rcpt_to-find verb a e = rw (mail_line-upper verb a) (rw e)

-- A line of `MAIL FROM` or `RCPT TO`, in letters of either case, a colon and an address of
-- 7-bit bytes in brackets, decodes to that verb and exactly that address, with no error. The
-- address is arbitrary: it may hold spaces and brackets itself.
pub parse_conversation_command-mail_line :
    (verb a : Bytes) (r : VerbRow)
    → (r ≡ mail_from_row) ⊎ (r ≡ rcpt_to_row)
    → map to_upper_byte verb ≡ r.text
    → contains_7bit_ascii_only a ≡ true
    → parse_conversation_command (mail_line verb a) ≡ some (success r.verb a)
unfolding contains_7bit_ascii_only
parse_conversation_command-mail_line verb a r (inl e) t ascii =
    let u : map to_upper_byte verb ≡ codes "MAIL FROM" = rw e at t in
    rw e (
      mail_line-trimmed verb a (codes "MAIL FROM") u refl ascii
      ∙ mail_line-decode verb a mail_from_row u refl (mail_from-find verb a u))
parse_conversation_command-mail_line verb a r (inr e) t ascii =
    let u : map to_upper_byte verb ≡ codes "RCPT TO" = rw e at t in
    rw e (
      mail_line-trimmed verb a (codes "RCPT TO") u refl ascii
      ∙ mail_line-decode verb a rcpt_to_row u refl (rcpt_to-find verb a u))
