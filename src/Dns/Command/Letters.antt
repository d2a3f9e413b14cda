-- ===== src/Dns/Command/Letters.antt =====
-- What the encoder makes of a text, the decoder turns back.
use laitos.Base.{
  ◌⊎◌, ℕ, ◌≡◌, ◌≢◌, refl, sym, ap, ◌∙◌, Bool, true, false, ◌&&◌, List, [], ◌∷◌, ◌++◌, append_assoc,
  append-nil, Bytes, arith, ◌==◌, All, Bool-cases, inl, inr, equal, ==_iff,
}
use laitos.Base.Dict.{lookup}
use laitos.Text.Trim.{all_visible, trim_space-all_visible}
use laitos.Toolbox.Dtmf.{dtmf_decode, decode_keys, split_words, translate_words}
use laitos.Toolbox.Dtmf.RoundTrip.{reads_keys, keys-reads, decode_keys-words}
use laitos.Dns.Command.{
  is_digit_byte, decode_run, decode_runs, dtmf_encode_table, is_letter, sequence_of, encode_byte,
  encode_to_dtmf,
}

-- Digits that stand for a text, whatever digits follow them.
abbrev IsReadAs : Bytes → Bytes → Type 0
IsReadAs digits text =
    (t : Bytes)
    → translate_words false (split_words [] (digits ++ t))
      ≡ text ++ translate_words false (split_words [] t)

abbrev all_digit_bytes : Bytes → Bool
all_digit_bytes [] = true
all_digit_bytes (c ∷ s) = is_digit_byte c && all_digit_bytes s

-- Each row of the table has digits that read back as its symbol, which is no letter.
rows_read_back : List (ℕ × Bytes) → Bool
unfolding reads_keys
rows_read_back [] = true
rows_read_back ((symbol, digits) ∷ rows) =
    reads_keys symbol digits && (all_digit_bytes digits && rows_read_back rows)

dtmf_encode_table-rows_read_back : rows_read_back dtmf_encode_table ≡ true
unfolding rows_read_back equal lookup
dtmf_encode_table-rows_read_back = refl

both : (a b : Bool) → (a && b) ≡ true → (a ≡ true) × (b ≡ true)
both true b h = (refl, h)
both false b h = absurd (cc)

-- A byte that the encoder knows: a letter, or one of the table.
abbrev pub IsEncodable : ℕ → Type 0
IsEncodable c = sequence_of c dtmf_encode_table ≢ []

sequence_of-reads :
    (c : ℕ) (rows : List (ℕ × Bytes))
    → rows_read_back rows ≡ true
    → sequence_of c rows ≢ []
    → (reads_keys c (sequence_of c rows) ≡ true) × (all_digit_bytes (sequence_of c rows) ≡ true)
unfolding sequence_of rows_read_back
sequence_of-reads c [] h n = absurd (n refl)
sequence_of-reads c ((symbol, digits) ∷ rows) h n =
    let (reads, rest) = both (reads_keys symbol digits) _ h in
    let (digital, later) = both (all_digit_bytes digits) _ rest in
    elim (Bool-cases (symbol == c)) [
      | inl y ↦ rw y (ap (λ d. reads_keys d digits) (sym ((==_iff symbol c).0 y)) ∙ reads, digital)
      | inr m ↦ rw m (sequence_of-reads c rows later (rw m at n))
    ]

IsReadAs-nil : IsReadAs [] []
IsReadAs-nil t = refl

IsReadAs-append :
    (digits text keys : Bytes) (c : ℕ)
    → IsReadAs digits text
    → reads_keys c keys ≡ true
    → IsReadAs (digits ++ keys) (text ++ (c ∷ []))
IsReadAs-append digits text keys c r h t =
    ap (λ s. translate_words false (split_words [] s)) (append_assoc digits keys t)
    ∙ r (keys ++ t)
    ∙ ap (λ s. text ++ s) (keys-reads c keys t h)
    ∙ sym (append_assoc text (c ∷ []) (translate_words false (split_words [] t)))

visible-digits : (s : Bytes) → all_digit_bytes s ≡ true → all_visible s ≡ true
visible-digits [] h = refl
visible-digits (c ∷ s) h = ground (arith, visible-digits s (ground arith))

translate-nil : translate_words false (split_words [] []) ≡ []
unfolding translate_words split_words
translate-nil = refl

dtmf_decode-reads :
    (digits text : Bytes)
    → all_digit_bytes digits ≡ true
    → IsReadAs digits text
    → dtmf_decode digits ≡ text
unfolding dtmf_decode
dtmf_decode-reads digits text h r =
    ap decode_keys (trim_space-all_visible digits (visible-digits digits h))
    ∙ decode_keys-words digits
    ∙ ap (λ s. translate_words false (split_words [] s)) (sym (append-nil digits))
    ∙ r []
    ∙ ap (λ s. text ++ s) translate-nil
    ∙ append-nil text

decode_run-reads :
    (digits text : Bytes)
    → all_digit_bytes digits ≡ true
    → IsReadAs digits text
    → decode_run digits ≡ text
unfolding decode_run
decode_run-reads [] text h r =
    sym translate-nil ∙ r [] ∙ ap (λ s. text ++ s) translate-nil ∙ append-nil text
decode_run-reads (c ∷ digits) text h r = dtmf_decode-reads (c ∷ digits) text h r

all_digit_bytes-append :
    (s t : Bytes)
    → all_digit_bytes s ≡ true
    → all_digit_bytes t ≡ true
    → all_digit_bytes (s ++ t) ≡ true
all_digit_bytes-append [] t h e = e
all_digit_bytes-append (c ∷ s) t h e = ground (arith, all_digit_bytes-append s t (ground arith) e)

-- Digits in front are added to the run.
decode_runs-digits :
    (digits keys s : Bytes)
    → all_digit_bytes keys ≡ true
    → decode_runs digits (keys ++ s) ≡ decode_runs (digits ++ keys) s
unfolding decode_runs
decode_runs-digits digits [] s h = ap (λ d. decode_runs d s) (sym (append-nil digits))
decode_runs-digits digits (c ∷ keys) s h =
    let (digit, rest) = both (is_digit_byte c) _ h in
    rw digit (
      decode_runs-digits (digits ++ (c ∷ [])) keys s rest
      ∙ ap (λ d. decode_runs d s) (append_assoc digits (c ∷ []) keys))

letter-not_digit : (c : ℕ) → is_letter c ≡ true → is_digit_byte c ≡ false
letter-not_digit c h = ground arith

-- The decoder behind a run of digits that is complete.
decode_runs-reads :
    (digits text s : Bytes)
    → all_digit_bytes digits ≡ true
    → IsReadAs digits text
    → All (λ c. (is_letter c ≡ true) ⊎ IsEncodable c) s
    → decode_runs digits (encode_to_dtmf s) ≡ text ++ s
unfolding decode_runs encode_to_dtmf encode_byte
decode_runs-reads digits text [] h r p = decode_run-reads digits text h r ∙ sym (append-nil text)
decode_runs-reads digits text (c ∷ s) h r (q, p) = elim (Bool-cases (is_letter c)) [
  | inl y ↦ rw y (
      rw (letter-not_digit c y) (
        ap (λ t. t ++ (c ∷ decode_runs [] (encode_to_dtmf s))) (decode_run-reads digits text h r)
        ∙ ap (λ t. text ++ (c ∷ t)) (decode_runs-reads [] [] s refl IsReadAs-nil p)))
  | inr n ↦
      let known : IsEncodable c = elim q [ inl y ↦ absurd (cc) | inr k ↦ k ] in
      let (reads, digital) =
        sequence_of-reads c dtmf_encode_table dtmf_encode_table-rows_read_back known in
      let keys = sequence_of c dtmf_encode_table in
      rw n (
        decode_runs-digits digits keys (encode_to_dtmf s) digital
        ∙ decode_runs-reads (digits ++ keys) (text ++ (c ∷ [])) s
            (all_digit_bytes-append digits keys h digital)
            (IsReadAs-append digits text keys c r reads) p
        ∙ append_assoc text (c ∷ []) s)
]

-- A text of letters and of bytes of the table is what its encoding decodes to.
pub decode_runs-encode_to_dtmf :
    (s : Bytes)
    → All (λ c. (is_letter c ≡ true) ⊎ IsEncodable c) s
    → decode_runs [] (encode_to_dtmf s) ≡ s
decode_runs-encode_to_dtmf s p = decode_runs-reads [] [] s refl IsReadAs-nil p
