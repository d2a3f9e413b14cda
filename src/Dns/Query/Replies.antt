-- ===== src/Dns/Query/Replies.antt =====
-- The replies that the daemon makes of queries.
use laitos.Base.{
  ℕ, zero, suc, ◌+◌, ◌-◌, ◌%◌, ◌^◌, ◌≤◌, ◌≡◌, refl, sym, ap, ◌∙◌, false, List, [], ◌∷◌, ◌++◌,
  append_assoc, append-nil, some, Bytes, arith, ltb, length, take, drop, replicate, length-append,
  length-take, take-append, drop-append, All, Bool-cases, inl, inr,
}
use laitos.Text.Index.{index_of, index_of-lacks}
use laitos.Dns.Query.{
  text_query_magic, black_hole_answer, copy_at, limited, get_black_hole_response, text_response_at,
  make_text_response, text_command_reply_ttl,
}
use laitos.Dns.Query.Names.{
  IsLabel, wire, text_query, lacks-append, lacks-name, lacks-wire, magic-at,
}

-- The header of a packet.
pub record Header : Type 0 where
  pub id : ℕ × ℕ
  pub flags : ℕ × ℕ
  pub questions : ℕ × ℕ
  pub answers : ℕ × ℕ
  pub authorities : ℕ × ℕ
  pub additional : ℕ × ℕ

abbrev pub two : ℕ × ℕ → Bytes → Bytes
two (a, b) s = a ∷ b ∷ s

abbrev pub header_bytes : Header → Bytes
header_bytes h =
    two h.id
      (two h.flags (two h.questions (two h.answers (two h.authorities (two h.additional [])))))

-- The header of a reply with one answer and without an error.
abbrev pub answered : Header → Header
answered h = record h { flags = (129, 128); answers = (0, 1) }

abbrev pub question : Bytes → List Bytes → Bytes
question label labels = wire (label ∷ labels) ++ (0 ∷ text_query_magic)

-- A text record of one string for the name of the question.
abbrev pub text_record : Bytes → Bytes
text_record text =
    (192 ∷ 12 ∷ [])
    ++ (text_query_magic
        ++ ((0 ∷ 0 ∷ 0 ∷ text_command_reply_ttl ∷ [])
            ++ (0 ∷ (length text + 1) ∷ length text ∷ text)))

length-limited : (text : Bytes) → length (limited text) ≤ 254
length-limited text = elim (Bool-cases (ltb 254 (length text))) [
  | inl y ↦ rw y (omega (arith, length-take 254 text))
  | inr n ↦ rw n (ground arith)
]

-- The packet up to its magic bytes, with them, and what follows.
text_query-split :
    (h : Header) (label : Bytes) (labels : List Bytes) (more : Bytes)
    → text_query (header_bytes h) label labels more
      ≡ (header_bytes h ++ question label labels) ++ more
text_query-split h label labels more =
    ap (λ s. header_bytes h ++ s)
      (sym (append_assoc (wire (label ∷ labels)) (0 ∷ text_query_magic) more))

make_text_response-found :
    (h : Header) (label : Bytes) (labels : List Bytes) (more : Bytes)
    → All IsLabel (label ∷ labels)
    → (i : ℕ) × (index_of text_query_magic (drop 14 (text_query (header_bytes h) label labels more))
        ≡ some i)
      × (length (header_bytes h ++ question label labels) ≡ 14 + i + 4)
make_text_response-found h [] labels more ((n, _), p) = absurd (n refl)
make_text_response-found h (b ∷ label) labels more ((n, l), p) = (
  length (label ++ wire labels) + 1,
  index_of-lacks 0 (16 ∷ 0 ∷ 1 ∷ []) (label ++ wire labels) (0 ∷ (text_query_magic ++ more)) 1
      (lacks-append 0 label (wire labels) (lacks-name label (ground arith)) (lacks-wire labels p))
      (magic-at more),
  omega (arith, length-append (b ∷ (label ++ wire labels)) (0 ∷ text_query_magic)),
)

-- The flags and the count that are written over a header.
answered-header :
    (h : Header) (q : Bytes)
    → copy_at 6 (0 ∷ 1 ∷ []) (copy_at 2 (129 ∷ 128 ∷ []) (header_bytes h ++ q))
      ≡ header_bytes (answered h) ++ q
answered-header h q = refl

-- A reply where the question and what follows it are known.
text_response_at-record :
    (h : Header) (i : ℕ) (q packet text rest : Bytes)
    → take (14 + i + 4) packet ≡ header_bytes h ++ q
    → drop (i + 14) packet ≡ rest
    → length text ≤ 254
    → text_response_at i packet text
      ≡ header_bytes (answered h) ++ (q ++ (text_record text ++ rest))
unfolding text_response_at
text_response_at-record h i q packet text rest t d b =
    let one_more : (length text + 1) % 2 ^ 8 ≡ length text + 1 = omega arith in
    let same : length text % 2 ^ 8 ≡ length text = omega arith in rw (t, d, one_more, same) refl

-- A text reply to a query that DNS clients make has the identifier and the question of the query,
-- no error, one answer, and as the answer a text record of the first 254 bytes of the text.
-- Behind it stand the four bytes of type and class of the question once more, and what followed
-- the question in the query.
pub make_text_response-record :
    (h : Header) (label : Bytes) (labels : List Bytes) (more text : Bytes)
    → All IsLabel (label ∷ labels)
    → make_text_response (text_query (header_bytes h) label labels more) text
      ≡ header_bytes (answered h)
        ++ (question label labels ++ (text_record (limited text) ++ (text_query_magic ++ more)))
unfolding make_text_response
make_text_response-record h label labels more text p =
    let packet = text_query (header_bytes h) label labels more in
    let prefix = header_bytes h ++ question label labels in
    let name = header_bytes h ++ (wire (label ∷ labels) ++ (0 ∷ [])) in
    let (i, found, size) = make_text_response-found h label labels more p in
    let split = text_query-split h label labels more in
    let taken : take (14 + i + 4) packet ≡ prefix =
      ap (λ n. take n packet) (sym size)
      ∙ ap (take (length prefix)) split
      ∙ take-append prefix more in
    let behind : packet ≡ name ++ (text_query_magic ++ more) =
      ap (λ s. header_bytes h ++ s)
        (sym (append_assoc (wire (label ∷ labels)) (0 ∷ []) (text_query_magic ++ more))) in
    let name_size : i + 14 ≡ length name = omega (
      arith,
      size,
      length-append (wire (label ∷ labels)) (0 ∷ text_query_magic),
      length-append (wire (label ∷ labels)) (0 ∷ []),
    ) in
    let left : drop (i + 14) packet ≡ text_query_magic ++ more =
      ap (λ n. drop n packet) name_size
      ∙ ap (drop (length name)) behind
      ∙ drop-append name (text_query_magic ++ more) in
    let enough : ltb (length packet) 14 ≡ false =
      ground (arith, ap length split, length-append prefix more, size) in
    rw (enough, found)
      (text_response_at-record h i (question label labels) packet (limited text)
        (text_query_magic ++ more) taken left (length-limited text))

drop-replicate : (m n : ℕ) (a : ℕ) → drop m (replicate (m + n) a) ≡ replicate n a
drop-replicate zero n a = ap (λ k. replicate k a) (omega arith)
drop-replicate (suc m) n a =
    let e : suc m + n ≡ suc (m + n) = omega arith in
    ap (λ k. drop (suc m) (replicate k a)) e ∙ drop-replicate m n a

-- The end of a text written over.
copy_at-end : (s t u : Bytes) → length t ≡ length u → copy_at (length s) u (s ++ t) ≡ s ++ u
copy_at-end [] t u e =
    let whole : 0 + length u ≡ length (t ++ []) = omega (arith, e, length-append t []) in
    ap (λ r. u ++ r)
      (ap (λ k. drop k t) whole
        ∙ ap (drop (length (t ++ []))) (sym (append-nil t))
        ∙ ap (drop (length (t ++ []))) (sym (append-nil (t ++ [])))
        ∙ drop-append (t ++ []) [])
    ∙ append-nil u
copy_at-end (c ∷ s) t u e =
    let one_more : suc (length s) + length u ≡ suc (length s + length u) = omega arith in
    ap (λ k. c ∷ (take (length s) (s ++ t) ++ (u ++ drop k (c ∷ (s ++ t))))) one_more
    ∙ ap (◌∷◌ c) (copy_at-end s t u e)

copy_at-four :
    (a b c d : ℕ) (s t : Bytes)
    → copy_at 4 s (a ∷ b ∷ c ∷ d ∷ t) ≡ a ∷ b ∷ c ∷ d ∷ (s ++ drop (length s) t)
copy_at-four a b c d s t =
    let e : 4 + length s ≡ suc (suc (suc (suc (length s)))) = omega arith in
    ap (λ k. a ∷ b ∷ c ∷ d ∷ (s ++ drop k (a ∷ b ∷ c ∷ d ∷ t))) e

-- The packet before its answer is written: the query, and sixteen bytes.
black_hole-before :
    (h : Header) (rest : Bytes) (size : ℕ)
    → size ≡ length rest + 28
    → copy_at 6 (0 ∷ 1 ∷ []) (
        copy_at 4 (drop 4 (header_bytes h ++ rest)) (
          copy_at 2
            (129 ∷ 128 ∷ [])
            (copy_at 0 (take 2 (header_bytes h ++ rest)) (replicate size 0))))
      ≡ (header_bytes (answered h) ++ rest) ++ replicate 16 0
black_hole-before h rest size e =
    let body = drop 4 (header_bytes h ++ rest) in
    let n : size ≡ suc (suc (suc (suc (length body + 16)))) = omega (arith, e) in
    ap
      (λ k. copy_at 6 (0 ∷ 1 ∷ []) (
        copy_at 4 body (
          copy_at 2 (129 ∷ 128 ∷ [])
            (copy_at 0 (take 2 (header_bytes h ++ rest)) (replicate k 0)))))
      n
    ∙ ap (copy_at 6 (0 ∷ 1 ∷ [])) (
        copy_at-four h.id.0 h.id.1 129 128 body (replicate (length body + 16) 0)
        ∙ ap (λ r. h.id.0 ∷ h.id.1 ∷ 129 ∷ 128 ∷ (body ++ r)) (drop-replicate (length body) 16 0))

-- A black hole reply has the identifier of the query and all that follows the query's header, no
-- error, one answer, and behind them the answer 0.0.0.0.
pub get_black_hole_response-answer :
    (h : Header) (rest : Bytes)
    → 2 ≤ length rest
    → get_black_hole_response (header_bytes h ++ rest)
      ≡ header_bytes (answered h) ++ (rest ++ black_hole_answer)
unfolding get_black_hole_response
get_black_hole_response-answer h rest b =
    let query = header_bytes h ++ rest in
    let size = 2 + 2 + (length query - 4) + 16 in
    let large : size ≡ length rest + 28 = omega arith in
    let enough : ltb (length query) 14 ≡ false = ground (arith, b) in
    let start : size - 16 ≡ length (header_bytes (answered h) ++ rest) = omega arith in
    rw enough (
      ap (copy_at (size - 16) black_hole_answer) (black_hole-before h rest size large)
      ∙ ap
          (λ k. copy_at k black_hole_answer ((header_bytes (answered h) ++ rest) ++ replicate 16 0))
          start
      ∙ copy_at-end (header_bytes (answered h) ++ rest) (replicate 16 0) black_hole_answer refl
      ∙ append_assoc (header_bytes (answered h)) rest black_hole_answer)
