-- ===== src/Toolbox/Dtmf.antt =====
-- toolbox/dtmf.go: text that is dialled on a number pad.
--
-- `range` over the digits reads characters; none but ASCII ones are keys, so that reading bytes
-- comes to the same.
pub mod RoundTrip
use laitos.Base.{
  ℕ, Bool, true, false, not, ◌&&◌, ◌||◌, List, [], ◌∷◌, ◌++◌, map, none, some, Bytes, codes, leb,
  ◌==◌, if◌then◌else◌, equal, to_upper_byte,
}
use laitos.Base.Dict.{lookup}
use laitos.Text.Trim.{trim_space}

-- `DTMFDecodeTable`, with the two separators of message_processor_struct.go.
abbrev pub dtmf_decode_table : List (Bytes × Bytes)
dtmf_decode_table =
    (codes " ", codes " ")
    ∷ (codes "111", codes "!")
    ∷ (codes "112", codes "@")
    ∷ (codes "113", codes "#")
    ∷ (codes "114", codes "$")
    ∷ (codes "115", codes "%")
    ∷ (codes "116", codes "^")
    ∷ (codes "117", codes "&")
    ∷ (codes "118", codes "*")
    ∷ (codes "119", codes "(")
    ∷ (codes "121", codes "`")
    ∷ (codes "122", codes "~")
    ∷ (codes "123", codes ")")
    ∷ (codes "124", codes "-")
    ∷ (codes "125", codes "_")
    ∷ (codes "126", codes "=")
    ∷ (codes "127", codes "+")
    ∷ (codes "128", codes "[")
    ∷ (codes "129", codes "{")
    ∷ (codes "131", codes "]")
    ∷ (codes "132", codes "}")
    ∷ (codes "133", codes "\\")
    ∷ (codes "134", codes "|")
    ∷ (codes "135", codes ";")
    ∷ (codes "136", codes ":")
    ∷ (codes "137", codes "'")
    ∷ (codes "138", codes "\"")
    ∷ (codes "139", codes ",")
    ∷ (codes "141", codes "<")
    ∷ (codes "142", codes ".")
    ∷ (codes "143", codes ">")
    ∷ (codes "144", codes "/")
    ∷ (codes "145", codes "?")
    ∷ (codes "146", (0x1F ∷ []))
    ∷ (codes "147", (0x1E ∷ []))
    ∷ (codes "1", codes "0")
    ∷ (codes "11", codes "1")
    ∷ (codes "12", codes "2")
    ∷ (codes "13", codes "3")
    ∷ (codes "14", codes "4")
    ∷ (codes "15", codes "5")
    ∷ (codes "16", codes "6")
    ∷ (codes "17", codes "7")
    ∷ (codes "18", codes "8")
    ∷ (codes "19", codes "9")
    ∷ (codes "2", codes "a")
    ∷ (codes "22", codes "b")
    ∷ (codes "222", codes "c")
    ∷ (codes "3", codes "d")
    ∷ (codes "33", codes "e")
    ∷ (codes "333", codes "f")
    ∷ (codes "4", codes "g")
    ∷ (codes "44", codes "h")
    ∷ (codes "444", codes "i")
    ∷ (codes "5", codes "j")
    ∷ (codes "55", codes "k")
    ∷ (codes "555", codes "l")
    ∷ (codes "6", codes "m")
    ∷ (codes "66", codes "n")
    ∷ (codes "666", codes "o")
    ∷ (codes "7", codes "p")
    ∷ (codes "77", codes "q")
    ∷ (codes "777", codes "r")
    ∷ (codes "7777", codes "s")
    ∷ (codes "8", codes "t")
    ∷ (codes "88", codes "u")
    ∷ (codes "888", codes "v")
    ∷ (codes "9", codes "w")
    ∷ (codes "99", codes "x")
    ∷ (codes "999", codes "y")
    ∷ (codes "9999", codes "z")
    ∷ []

-- The first byte of a word is not `1`.
abbrev not_symbol : Bytes → Bool
not_symbol [] = false
not_symbol (c ∷ _) = not (c == b'1')

-- The last byte of a word is not `key`.
abbrev ends_otherwise : ℕ → Bytes → Bool
ends_otherwise key [] = false
ends_otherwise key (c ∷ []) = not (c == key)
ends_otherwise key (_ ∷ c ∷ s) = ends_otherwise key (c ∷ s)

abbrev pub stored : Bytes → List Bytes
stored [] = []
stored (c ∷ word) = (c ∷ word) ∷ []

-- One key: the words that it stores, and the word that runs on.
unfoldable pub press : ℕ → Bytes → List Bytes × Bytes
press key word =
    if key == b'1'
    then (if not_symbol word then (word ∷ [], key ∷ []) else ([], word ++ (key ∷ [])))
    else if leb b'2' key && leb key b'9'
    then (if ends_otherwise key word && not_symbol word
        then (word ∷ [], key ∷ [])
        else ([], word ++ (key ∷ [])))
    else if key == b'0'
    then (elim word [ [] ↦ (codes " " ∷ [], []) | c ∷ s ↦ ((c ∷ s) ∷ [], []) ])
    else if key == b'*'
    then (stored word ++ (codes "*" ∷ []), [])
    else ([], word)

-- The loop over the keys, with the store of the last word behind it.
unfoldable pub split_words : Bytes → Bytes → List Bytes
unfolding press
split_words word [] = stored word
split_words word (key ∷ keys) = (press key word).0 ++ split_words (press key word).1 keys

-- What one word adds to the message.
unfoldable pub translate_word : Bool → Bytes → Bytes
translate_word shift word =
    if equal word (codes "*") then [] else elim (lookup word dtmf_decode_table) [
      | none ↦ []
      | some decoded ↦ if shift then map to_upper_byte decoded else decoded
    ]

abbrev pub shift_after : Bool → Bytes → Bool
shift_after shift word = if equal word (codes "*") then not shift else shift

-- The loop over the words.
unfoldable pub translate_words : Bool → List Bytes → Bytes
unfolding translate_word
translate_words shift [] = []
translate_words shift (word ∷ words) =
    translate_word shift word ++ translate_words (shift_after shift word) words

-- `DTMFDecode` on digits that are trimmed.
unfoldable pub decode_keys : Bytes → Bytes
unfolding split_words translate_words
decode_keys [] = []
decode_keys (c ∷ s) = translate_words false (split_words [] (c ∷ s))

unfoldable pub dtmf_decode : Bytes → Bytes
unfolding decode_keys trim_space
dtmf_decode digits = decode_keys (trim_space digits)
