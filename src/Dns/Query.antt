-- ===== src/Dns/Query.antt =====
-- daemon/dnsd/query.go: names that are read from query packets, and replies that are made of them.
--
-- A packet is a list of bytes, without the prefix of its length; a packet that is nil is empty. The
-- slices are in range behind the guard on the packet's length and where the magic bytes are found.
pub mod Names
pub mod Replies
use laitos.Base.{
  ℕ, ◌+◌, ◌-◌, ◌*◌, ◌%◌, ◌^◌, ◌≤◌, ◌<◌, ◌≡◌, refl, sym, ap, ◌∙◌, Bool, true, false, not, ◌&&◌, ◌||◌,
  List, [], ◌∷◌, ◌++◌, Option, none, some, Bytes, ltb, leb, ◌==◌, if◌then◌else◌, length, take, drop,
  replicate, map,
}
use laitos.Text.Trim.{trim_space}
use laitos.Text.Index.{index_of}

abbrev pub min_name_query_size : ℕ
min_name_query_size = 14

-- `TextCommandReplyTTL`
abbrev pub text_command_reply_ttl : ℕ
text_command_reply_ttl = 30

abbrev pub name_query_magic : Bytes
name_query_magic = 0 ∷ 1 ∷ 0 ∷ 1 ∷ []

abbrev pub text_query_magic : Bytes
text_query_magic = 0 ∷ 16 ∷ 0 ∷ 1 ∷ []

abbrev pub standard_response_no_error : Bytes
standard_response_no_error = 129 ∷ 128 ∷ []

abbrev pub black_hole_answer : Bytes
black_hole_answer = 192 ∷ 12 ∷ 0 ∷ 1 ∷ 0 ∷ 1 ∷ 0 ∷ 0 ∷ 5 ∷ 186 ∷ 0 ∷ 4 ∷ 0 ∷ 0 ∷ 0 ∷ 0 ∷ []

-- `copy(t[n:], s)`, where `t` is long enough.
abbrev pub copy_at : ℕ → Bytes → Bytes → Bytes
copy_at n s t = take n t ++ (s ++ drop (n + length s) t)

unfoldable pub get_black_hole_response : Bytes → Bytes
get_black_hole_response query =
    if ltb (length query) min_name_query_size
    then []
    else let size = 2 + 2 + (length query - 4) + length black_hole_answer in
      let with_id = copy_at 0 (take 2 query) (replicate size 0) in
      let with_flags = copy_at 2 standard_response_no_error with_id in
      let with_query = copy_at 4 (drop 4 query) with_flags in
      let with_count = copy_at 6 (0 ∷ 1 ∷ []) with_query in
      copy_at (size - length black_hole_answer) black_hole_answer with_count

-- A text reply to a query whose magic bytes stand at an index behind the shortest query.
unfoldable pub text_response_at : ℕ → Bytes → Bytes → Bytes
text_response_at index query text =
    let question = take (min_name_query_size + index + length text_query_magic) query in
    let with_flags = copy_at 2 standard_response_no_error question in
    let with_count = copy_at 6 (0 ∷ 1 ∷ []) with_flags in
    with_count
    ++ ((192 ∷ 12 ∷ [])
        ++ (text_query_magic
            ++ ((0 ∷ 0 ∷ 0 ∷ text_command_reply_ttl ∷ [])
                ++ ((0 ∷ (length text + 1) % 2 ^ 8 ∷ [])
                    ++ ((length text % 2 ^ 8 ∷ [])
                        ++ (text ++ drop (index + min_name_query_size) query))))))

abbrev pub limited : Bytes → Bytes
limited text = if ltb 254 (length text) then take 254 text else text

unfoldable pub make_text_response : Bytes → Bytes → Bytes
unfolding index_of text_response_at
make_text_response query text =
    if ltb (length query) min_name_query_size
    then []
    else elim (index_of text_query_magic (drop min_name_query_size query)) [
      | none ↦ []
      | some index ↦ text_response_at index query (limited text)
    ]

-- A byte of a name, or a full stop for one that is no character of names.
abbrev pub recovered : ℕ → ℕ
recovered b =
    if leb b 44 || (leb 58 b && leb b 64) || (leb 91 b && leb b 96 && not (b == 95))
    then b'.'
    else b

abbrev pub recover_full_stop_symbols : Bytes → Bytes
recover_full_stop_symbols name = map recovered name

-- The name in front of magic bytes, but for the empty byte that ends it.
abbrev pub name_until : ℕ → Bytes → Bytes
name_until index packet = take (index - 1) (drop 13 packet)

abbrev domain_name_of : Bytes → Bytes
domain_name_of name =
    let trimmed = trim_space (recover_full_stop_symbols name) in
    if ltb 255 (length trimmed) then [] else trimmed

unfoldable pub extract_domain_name : Bytes → Bytes
unfolding index_of trim_space
extract_domain_name packet =
    if ltb (length packet) min_name_query_size
    then []
    else elim (index_of name_query_magic (drop 13 packet)) [
      | none ↦ []
      | some index ↦ if ltb index 1 then [] else domain_name_of (name_until index packet)
    ]

abbrev pub text_name_of : Bytes → Bytes
text_name_of name = if ltb 255 (length name) then [] else recover_full_stop_symbols name

unfoldable pub extract_text_query_input : Bytes → Bytes
unfolding index_of
extract_text_query_input packet =
    if ltb (length packet) min_name_query_size
    then []
    else elim (index_of text_query_magic (drop 13 packet)) [
      | none ↦ []
      | some index ↦ if ltb index 1 then [] else text_name_of (name_until index packet)
    ]

-- `isTextQuery`, on a packet of at least 13 bytes.
unfoldable pub is_text_query : Bytes → Bool
unfolding index_of
is_text_query packet = elim (index_of text_query_magic (drop 13 packet)) [
  | none ↦ false
  | some index ↦ ltb 0 index
]
