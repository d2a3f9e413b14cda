-- ===== src/Toolbox/Dtmf/RoundTrip.antt =====
-- Every printable ASCII text can be dialled.
use laitos.Base.{
  ℕ, zero, suc, ◌+◌, ◌≤◌, ◌<◌, ◌≡◌, refl, sym, ap, ◌∙◌, Bool, true, false, not, ◌&&◌, List, [], ◌∷◌,
  ◌++◌, append_assoc, Bytes, codes, arith, leb, ◌==◌, if◌then◌else◌, equal, equal_iff, All,
  ℕ_discrete,
}
use laitos.Base.Dict.{lookup}
use laitos.Text.Trim.{all_visible, all_visible-append, trim_space-all_visible}
use laitos.Toolbox.Dtmf.{
  dtmf_decode_table, press, split_words, translate_word, translate_words, shift_after, decode_keys,
  dtmf_decode,
}

-- The keys of the first row of a table that gives the byte, none if no row does.
abbrev keys_of : ℕ → List (Bytes × Bytes) → Bytes
keys_of c [] = []
keys_of c ((keys, text) ∷ rows) =
    let later = keys_of c rows in if equal text (c ∷ []) then keys else later

-- How a printable character is dialled: `0` is a space, a capital letter stands between two `*`,
-- and every other character is the keys of its row, closed by `0`.
abbrev pub dial : ℕ → Bytes
dial c =
    if c == b' '
    then codes "0"
    else if leb b'A' c && leb c b'Z'
    then codes "*" ++ keys_of (c + 32) dtmf_decode_table ++ codes "0*"
    else keys_of c dtmf_decode_table ++ codes "0"

abbrev pub dial_all : Bytes → Bytes
dial_all [] = []
dial_all (c ∷ s) = dial c ++ dial_all s

-- What the keys store and leave behind.
run : Bytes → Bytes → List Bytes × Bytes
unfolding press
run word [] = ([], word)
run word (key ∷ keys) =
    ((press key word).0 ++ (run (press key word).1 keys).0, (run (press key word).1 keys).1)

abbrev shift_behind : Bool → List Bytes → Bool
shift_behind shift [] = shift
shift_behind shift (word ∷ words) = shift_behind (shift_after shift word) words

-- No word is left open and no shift, and the words come to the character.
reads_as : ℕ → List Bytes × Bytes → Bool
unfolding translate_words
reads_as c (words, word) =
    equal word []
    && (equal (translate_words false words) (c ∷ []) && not (shift_behind false words))

-- The keys read as the character, and leave nothing open behind them.
unfoldable pub reads_keys : ℕ → Bytes → Bool
unfolding run reads_as
reads_keys c keys = reads_as c (run [] keys)

reads_back : ℕ → Bool
unfolding reads_keys
reads_back c = reads_keys c (dial c)

-- The test holds of `n` characters from the byte on.
abbrev pub holds_from : (ℕ → Bool) → ℕ → ℕ → Bool
holds_from test zero c = true
holds_from test (suc n) c = test c && holds_from test n (suc c)

printable-reads_back : holds_from reads_back 95 32 ≡ true
unfolding reads_back equal lookup
printable-reads_back = refl

pub holds_from-at :
    (test : ℕ → Bool) (n c d : ℕ) → holds_from test n c ≡ true → c ≤ d → d < c + n → test d ≡ true
holds_from-at test zero c d h l u = absurd (omega arith)
holds_from-at test (suc n) c d h l u = elim (ℕ_discrete c d) [
  | yes e ↦ rw (← e) (ground arith)
  | no n' ↦ holds_from-at test n (suc c) d (ground arith) (omega arith) (omega arith)
]

split_words-append :
    (word s t : Bytes) → split_words word (s ++ t) ≡ (run word s).0 ++ split_words (run word s).1 t
unfolding split_words run
split_words-append word [] t = refl
split_words-append word (key ∷ s) t =
    ap (λ ws. (press key word).0 ++ ws) (split_words-append (press key word).1 s t)
    ∙ sym (
        append_assoc (press key word).0 (run (press key word).1 s).0
          (split_words (run (press key word).1 s).1 t))

translate_words-append :
    (shift : Bool) (words more : List Bytes)
    → translate_words shift (words ++ more)
      ≡ translate_words shift words ++ translate_words (shift_behind shift words) more
unfolding translate_words
translate_words-append shift [] more = refl
translate_words-append shift (word ∷ words) more =
    ap (λ s. translate_word shift word ++ s)
      (translate_words-append (shift_after shift word) words more)
    ∙ sym (
        append_assoc (translate_word shift word) (translate_words (shift_after shift word) words)
          (translate_words (shift_behind (shift_after shift word) words) more))

both : (a b : Bool) → (a && b) ≡ true → (a ≡ true) × (b ≡ true)
both true b h = (refl, h)
both false b h = absurd (cc)

not-true : (b : Bool) → not b ≡ true → b ≡ false
not-true true h = absurd (cc)
not-true false h = refl

reads_as-parts :
    (c : ℕ) (words : List Bytes) (word : Bytes)
    → reads_as c (words, word) ≡ true
    → (word ≡ []) × (translate_words false words ≡ c ∷ []) × (shift_behind false words ≡ false)
unfolding reads_as
reads_as-parts c words word h =
    let text = equal_iff (translate_words false words) (c ∷ []) in
    let left = equal_iff word [] in
    let (no_word, rest) = both (equal word []) _ h in
    let (reads, shift) = both (equal (translate_words false words) (c ∷ [])) _ rest in
    (left.0 no_word, text.0 reads, not-true (shift_behind false words) shift)

-- The message of a character's keys followed by others.
pub keys-reads :
    (c : ℕ) (keys t : Bytes)
    → reads_keys c keys ≡ true
    → translate_words false (split_words [] (keys ++ t))
      ≡ c ∷ translate_words false (split_words [] t)
unfolding reads_keys
keys-reads c keys t h =
    let r = run [] keys in
    let (word, text, shift) = reads_as-parts c r.0 r.1 h in
    ap (translate_words false) (split_words-append [] keys t)
    ∙ ap (λ w. translate_words false (r.0 ++ split_words w t)) word
    ∙ translate_words-append false r.0 (split_words [] t)
    ∙ ap (λ b. translate_words false r.0 ++ translate_words b (split_words [] t)) shift
    ∙ ap (λ s. s ++ translate_words false (split_words [] t)) text

abbrev pub IsPrintable : ℕ → Type 0
IsPrintable c = (32 ≤ c) × (c < 127)

dial_all-reads :
    (s : Bytes) → All IsPrintable s → translate_words false (split_words [] (dial_all s)) ≡ s
unfolding split_words translate_words
dial_all-reads [] p = refl
dial_all-reads (c ∷ s) ((l, u), p) =
    keys-reads c (dial c) (dial_all s)
      (unfold reads_back in holds_from-at reads_back 95 32 c printable-reads_back l u)
    ∙ ap (◌∷◌ c) (dial_all-reads s p)

pub decode_keys-words : (s : Bytes) → decode_keys s ≡ translate_words false (split_words [] s)
unfolding decode_keys split_words translate_words
decode_keys-words [] = refl
decode_keys-words (c ∷ s) = refl

dial_visible : holds_from (λ c. all_visible (dial c)) 95 32 ≡ true
unfolding equal
dial_visible = refl

dial_all-visible : (s : Bytes) → All IsPrintable s → all_visible (dial_all s) ≡ true
dial_all-visible [] p = refl
dial_all-visible (c ∷ s) ((l, u), p) =
    all_visible-append (dial c) (dial_all s)
    ∙ ap (λ b. b && all_visible (dial_all s))
        (holds_from-at (λ d. all_visible (dial d)) 95 32 c dial_visible l u)
    ∙ dial_all-visible s p

-- A text of printable ASCII characters that is dialled character by character (a space as `0`, a
-- capital letter between two `*`, any other as the keys of its row of the table and `0`) decodes
-- to the text itself.
pub dtmf_decode-dial_all : (s : Bytes) → All IsPrintable s → dtmf_decode (dial_all s) ≡ s
unfolding dtmf_decode
dtmf_decode-dial_all s p =
    ap decode_keys (trim_space-all_visible (dial_all s) (dial_all-visible s p))
    ∙ decode_keys-words (dial_all s)
    ∙ dial_all-reads s p
