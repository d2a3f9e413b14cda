-- ===== src/Dns/Blacklist.antt =====
-- daemon/dnsd/blacklist.go, ExtractNamesFromHostsContent, and daemon/dnsd/dnsd.go, IsInBlacklist.
--
-- A set of names is a list of them. `strings.ToLower` is an argument.
pub mod Names
pub mod Ancestors
use laitos.Base.{
  ℕ, zero, suc, ◌+◌, ◌-◌, ◌*◌, Bool, true, false, not, ◌&&◌, ◌||◌, List, [], ◌∷◌, ◌++◌, reverse,
  Option, none, some, Bytes, codes, ltb, leb, ◌==◌, if◌then◌else◌, length, take, drop, equal,
  has_prefix, index_byte,
}
use laitos.Text.Trim.{trim_space}
use laitos.Text.Lines.{split}

abbrev pub max_name_entries_to_extract : ℕ
max_name_entries_to_extract = 50000

-- `strings.ContainsRune(s, c)` for an ASCII character.
unfoldable pub contains_byte : Bytes → ℕ → Bool
unfolding index_byte
contains_byte s c = elim (index_byte s c) [ none ↦ false | some i ↦ true ]

-- `strings.HasSuffix`
unfoldable pub has_suffix : Bytes → Bytes → Bool
unfolding has_prefix
has_suffix s suffix = has_prefix (reverse s) (reverse suffix)

abbrev pub index_or : ℕ → Option ℕ → ℕ
index_or n none = n
index_or n (some i) = i

-- The text up to a comment.
unfoldable pub uncommented : Bytes → Bytes
unfolding index_byte
uncommented s = take (index_or (length s) (index_byte s b'#')) s

-- A name that the black list has no use for.
unfoldable pub is_rejected : Bytes → Bool
unfolding has_suffix equal
is_rejected name =
    equal name []
    || has_suffix name (codes "localhost")
    || has_suffix name (codes "localdomain")
    || ltb (length name) 4
    || ltb 253 (length name)

abbrev pub is_blank_or_comment : Bytes → Bool
is_blank_or_comment [] = true
is_blank_or_comment (c ∷ _) = c == b'#'

abbrev pub accepted : Bytes → Option Bytes
accepted name = if is_rejected name then none else some name

-- The name in the second field of a line that is trimmed.
unfoldable pub second_field : (Bytes → Bytes) → Bytes → Option Bytes
unfolding index_byte trim_space uncommented is_rejected
second_field to_lower line = elim (index_byte line b' ') [
  | none ↦ none
  | some space ↦ accepted (to_lower (trim_space (uncommented (trim_space (drop space line)))))
]

-- The name that a line of a hosts file blocks.
unfoldable pub name_on_line : (Bytes → Bytes) → Bytes → Option Bytes
unfolding contains_byte trim_space second_field
name_on_line to_lower line =
    let trimmed = trim_space line in
    if contains_byte line 0
    then none
    else if is_blank_or_comment trimmed
    then none
    else second_field to_lower trimmed

-- The names of a line and of the lines behind it, none of them beyond the limit.
abbrev pub taken : ℕ → Option Bytes → List Bytes → List Bytes → List Bytes
taken count none skipped rest = skipped
taken count (some name) skipped rest =
    name ∷ (if ltb max_name_entries_to_extract (count + 1) then [] else rest)

-- The loop over the lines, where `count` names are taken so far.
unfoldable pub collect_names : (Bytes → Bytes) → ℕ → List Bytes → List Bytes
unfolding name_on_line
collect_names to_lower count [] = []
collect_names to_lower count (line ∷ lines) =
    let skipped = collect_names to_lower count lines in
    let rest = collect_names to_lower (count + 1) lines in
    taken count (name_on_line to_lower line) skipped rest

unfoldable pub extract_names_from_hosts_content : (Bytes → Bytes) → Bytes → List Bytes
unfolding split collect_names
extract_names_from_hosts_content to_lower content = collect_names to_lower 0 (split 10 content)

unfoldable pub in_set : Bytes → List Bytes → Bool
unfolding equal
in_set name [] = false
in_set name (n ∷ names) = equal n name || in_set name names

-- The name behind a full stop, where it is neither the first byte nor the last.
abbrev pub behind : Bytes → Option ℕ → Option Bytes
behind name none = none
behind name (some index) =
    if ltb index 1 || index == length name - 1 then none else some (drop (index + 1) name)

-- The name without its first label, where it has more than one.
unfoldable pub parent : Bytes → Option Bytes
unfolding index_byte
parent name = behind name (index_byte name b'.')

-- The parent, where there is one, and what the loop makes of it. A name of fewer than four bytes
-- is no candidate.
abbrev pub with_parent : Option Bytes → (Bytes → List Bytes) → List Bytes
with_parent none loop = []
with_parent (some shorter) loop =
    if ltb (length shorter) 4 then loop shorter else shorter ∷ loop shorter

-- The loop over the parents of a name; each is shorter than the one before.
unfoldable pub parent_candidates : ℕ → Bytes → List Bytes
unfolding parent
parent_candidates zero name = []
parent_candidates (suc rounds) name =
    with_parent (parent name) (λ shorter. parent_candidates rounds shorter)

abbrev pub any_in_set : List Bytes → List Bytes → Bool
any_in_set [] names = false
any_in_set (c ∷ candidates) names = in_set c names || any_in_set candidates names

unfoldable pub is_in_blacklist : (Bytes → Bytes) → List Bytes → Bytes → Bool
unfolding trim_space parent_candidates in_set
is_in_blacklist to_lower black_list name =
    let normal = to_lower (trim_space name) in
    if ltb 255 (length name)
    then true
    else any_in_set (normal ∷ parent_candidates (length normal) normal) black_list
