-- ===== src/Smtp/Daemon/Dmarc.antt =====
-- daemon/smtpd/dmarc_workaround.go: the change of a sender's domain that enforces DMARC.
--
-- `net.LookupTXT` and `strings.ToLower` are arguments, as is the random number, in decimal digits.
-- `none` is a panic.
use mathlib.Core.Option
use laitos.Base.{
  or_else, ◌*◌, ℕ, zero, suc, ◌+◌, ◌≤◌, ◌<◌, ◌≡◌, ◌≢◌, refl, ap, Bool, true, false, not, ◌&&◌, ◌||◌,
  List, [], ◌∷◌, ◌++◌, map, Option, none, some, Bytes, codes, arith, ltb, leb, ◌==◌, if◌then◌else◌,
  take, drop, length, equal, equal_iff, has_prefix, index_byte, min, Bool-cases, inl, inr,
}
use laitos.Text.Trim.{trim_space}

abbrev pub dmarc_workaround_domain_label : Bytes
dmarc_workaround_domain_label = codes "laitos-nodmarc"

abbrev components_at : Bytes → Option ℕ → Bytes × Bytes
components_at addr none = ([], [])
components_at addr (some at) = (
  trim_space (take at addr),
  if ltb (at + 1) (length addr) then trim_space (drop (at + 1) addr) else [],
)

unfoldable pub get_mail_address_components : Bytes → Bytes × Bytes
unfolding index_byte
get_mail_address_components addr = components_at addr (index_byte addr b'@')

-- `strings.Contains(s, text)`
unfoldable pub contains_text : Bytes → Bytes → Bool
unfolding has_prefix
contains_text text [] = has_prefix [] text
contains_text text (c ∷ s) = has_prefix (c ∷ s) text || contains_text text s

-- `strings.Count(s, ".")`
unfoldable pub count_dots : Bytes → ℕ
count_dots [] = 0
count_dots (c ∷ s) = if c == b'.' then count_dots s + 1 else count_dots s

unfoldable pub from_first_dot : Bytes → Bytes
from_first_dot [] = []
from_first_dot (c ∷ s) = if c == b'.' then c ∷ s else from_first_dot s

-- The verdict of the records of a domain: that they enforce, that they do not, or none.
unfoldable pub policy : List Bytes → Option Bool
unfolding contains_text
policy [] = none
policy (record_ ∷ records) =
    let later = policy records in
    if not (contains_text (codes "v=dmarc") record_)
    then later
    else if contains_text (codes "p=quarantine") record_ || contains_text (codes "p=reject") record_
    then some true
    else elim later [ none ↦ some false | some b ↦ some b ]

-- What the records of a domain decide, or else its parent, which is asked while more than one dot
-- is left, and fewer than eight, and more than four bytes from the first dot on.
unfoldable pub or_parent : Option Bool → Bytes → Bool → Bool
unfolding count_dots from_first_dot
or_parent (some enforces) domain parent = enforces
or_parent none domain parent =
    ltb 1 (count_dots domain)
    && ltb (count_dots domain) 8
    && ltb 4 (length (from_first_dot domain))
    && parent

module _ (lookup_txt : Bytes → Option (List Bytes)) (to_lower : Bytes → Bytes) where
  unfoldable pub policy_of : Bytes → Option Bool
  unfolding policy
  policy_of domain = elim (lookup_txt (codes "_dmarc." ++ domain)) [
    | none ↦ none
    | some records ↦ policy (map to_lower records)
  ]

  -- `n` bounds the depth of the calls.
  unfoldable pub enforcing_within : ℕ → Bytes → Bool
  unfolding policy_of or_parent
  enforcing_within zero domain = false
  enforcing_within (suc n) domain =
      or_parent (policy_of domain) domain (enforcing_within n (drop 1 (from_first_dot domain)))

  unfoldable pub is_dmarc_policy_enforcing : Bytes → Bool
  unfolding enforcing_within
  is_dmarc_policy_enforcing domain = enforcing_within 8 domain

-- `strings.LastIndexByte(s, '.')`; `none` is -1.
unfoldable pub last_dot : Bytes → Option ℕ
last_dot [] = none
last_dot (c ∷ s) = elim (last_dot s) [
  | some i ↦ some (i + 1)
  | none ↦ if c == b'.' then some 0 else none
]

-- The address with a label and a random number in its domain. The guard behind the last dot holds
-- of no index below 0, so that a domain without a dot is sliced at -1.
unfoldable pub relabelled : Bytes → Bytes → Bytes → Option ℕ → Bytes → Option Bytes
relabelled addr name domain none digits = none
relabelled addr name domain (some i) digits =
    if ltb i 1 && leb (length domain) (i + 1)
    then some addr
    else some (
        name
        ++ codes "@"
        ++ take i domain
        ++ codes "-"
        ++ dmarc_workaround_domain_label
        ++ codes "-"
        ++ digits
        ++ codes "."
        ++ drop (i + 1) domain)

unfoldable pub get_from_address_with_dmarc_workaround :
    (Bytes → Option (List Bytes)) → (Bytes → Bytes) → Bytes → Bytes → Option Bytes
unfolding get_mail_address_components is_dmarc_policy_enforcing relabelled last_dot equal
get_from_address_with_dmarc_workaround lookup_txt to_lower addr digits =
    let (name, domain) = get_mail_address_components addr in
    if equal name [] || equal domain []
    then some addr
    else if not (is_dmarc_policy_enforcing lookup_txt to_lower domain)
    then some addr
    else relabelled addr name domain (last_dot domain) digits

-- `bytes.Index(s, text)`; `none` is -1.
unfoldable pub index_text : Bytes → Bytes → Option ℕ
unfolding has_prefix
index_text [] text = if has_prefix [] text then some 0 else none
index_text (c ∷ s) text =
    if has_prefix (c ∷ s) text then some 0 else Option.map suc (index_text s text)

-- Where the header begins, in one of the three spellings that are looked for.
unfoldable pub from_header_index : Bytes → Option ℕ
unfolding index_text
from_header_index head =
    or_else (index_text head (codes "From:"))
      (or_else (index_text head (codes "from:")) (index_text head (codes "FROM:")))

abbrev pub search_limit : Bytes → ℕ
search_limit mail = min (length mail) (16 * 1024)

unfoldable pub replace_header : Bytes → Bytes → Option ℕ → Bytes
unfolding index_byte
replace_header mail addr none = mail
replace_header mail addr (some i) = elim (index_byte (drop i (take (search_limit mail) mail)) 10) [
  | none ↦ mail
  | some lf ↦ take i mail ++ (codes "From: " ++ addr ++ (13 ∷ 10 ∷ [])) ++ drop (lf + i + 1) mail
]

unfoldable pub with_header_from_addr : Bytes → Bytes → Bytes
unfolding replace_header from_header_index
with_header_from_addr mail addr =
    replace_header mail addr (from_header_index (take (search_limit mail) mail))

dots_behind :
    (s : Bytes) → 0 < count_dots s → count_dots (drop 1 (from_first_dot s)) + 1 ≡ count_dots s
unfolding count_dots from_first_dot
dots_behind [] h = absurd (omega arith)
dots_behind (c ∷ s) h = elim (Bool-cases (c == b'.')) [
  | inl y ↦ rw y refl
  | inr n ↦ rw n (dots_behind s (rw n at h))
]

or_parent-last :
    (p : Option Bool) (domain : Bytes) (a b : Bool)
    → ltb 1 (count_dots domain) && ltb (count_dots domain) 8 ≡ false
    → or_parent p domain a ≡ or_parent p domain b
unfolding or_parent
or_parent-last (some enforces) domain a b k = refl
or_parent-last none domain a b k = ground arith

module _ (lookup_txt : Bytes → Option (List Bytes)) (to_lower : Bytes → Bytes) where
  depth_is_enough :
      (n m : ℕ) (domain : Bytes)
      → count_dots domain < n
      → count_dots domain < m
      → enforcing_within lookup_txt to_lower n domain
        ≡ enforcing_within lookup_txt to_lower m domain
  unfolding enforcing_within
  depth_is_enough zero m domain h k = absurd (omega arith)
  depth_is_enough (suc n) zero domain h k = absurd (omega arith)
  depth_is_enough (suc n) (suc m) domain h k =
      let parent = drop 1 (from_first_dot domain) in
      elim (Bool-cases (ltb 1 (count_dots domain))) [
        | inr l ↦
            or_parent-last (policy_of lookup_txt to_lower domain) domain
              (enforcing_within lookup_txt to_lower n parent)
              (enforcing_within lookup_txt to_lower m parent) (ground arith)
        | inl y ↦
            let several : 1 < count_dots domain = ground arith in
            let fewer = dots_behind domain (omega arith) in
            ap (or_parent (policy_of lookup_txt to_lower domain) domain)
              (depth_is_enough n m parent (omega arith) (omega arith))
      ]

  -- The bound of eight on the depth of the look-ups is enough: no greater depth decides otherwise.
  pub is_dmarc_policy_enforcing-depth :
      (m : ℕ) (domain : Bytes)
      → 8 ≤ m
      → enforcing_within lookup_txt to_lower m domain
        ≡ is_dmarc_policy_enforcing lookup_txt to_lower domain
  unfolding is_dmarc_policy_enforcing enforcing_within
  is_dmarc_policy_enforcing-depth zero domain h = absurd (omega arith)
  is_dmarc_policy_enforcing-depth (suc m) domain h =
      let parent = drop 1 (from_first_dot domain) in
      elim (Bool-cases (ltb (count_dots domain) 8)) [
        | inl y ↦
            let few : count_dots domain < 8 = ground arith in
            depth_is_enough (suc m) 8 domain (omega arith) few
        | inr k ↦
            or_parent-last (policy_of lookup_txt to_lower domain) domain
              (enforcing_within lookup_txt to_lower m parent)
              (enforcing_within lookup_txt to_lower 7 parent) (ground arith)
      ]

last_dot-dotless : (s : Bytes) → count_dots s ≡ 0 → last_dot s ≡ none
unfolding last_dot count_dots
last_dot-dotless [] h = refl
last_dot-dotless (c ∷ s) h = elim (Bool-cases (c == b'.')) [
  | inl y ↦ absurd (ground arith)
  | inr n ↦ rw (last_dot-dotless s (rw n at h)) (rw n refl)
]

-- The change of a sender's address panics where the address has a name, and a domain without a
-- dot that enforces DMARC.
pub get_from_address_with_dmarc_workaround-dotless :
    (lookup_txt : Bytes → Option (List Bytes)) (to_lower : Bytes → Bytes) (addr digits : Bytes)
    → (get_mail_address_components addr).0 ≢ []
    → (get_mail_address_components addr).1 ≢ []
    → is_dmarc_policy_enforcing lookup_txt to_lower (get_mail_address_components addr).1 ≡ true
    → count_dots (get_mail_address_components addr).1 ≡ 0
    → get_from_address_with_dmarc_workaround lookup_txt to_lower addr digits ≡ none
unfolding get_from_address_with_dmarc_workaround relabelled
get_from_address_with_dmarc_workaround-dotless lookup_txt to_lower addr digits n d e z =
    let (name, domain) = get_mail_address_components addr in
    rw (last_dot-dotless domain z) (ground (arith, e, equal_iff name [], equal_iff domain []))
