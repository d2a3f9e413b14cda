-- ===== src/Dns/Blacklist/Names.antt =====
-- How many names a hosts file gives, and of which size.
use laitos.Base.{
  ℕ, suc, ◌+◌, ◌-◌, ◌≤◌, ◌≡◌, refl, List, [], ◌∷◌, Option, none, some, Bytes, arith, ltb, length,
  min, drop, index_byte, All, Bool-cases, Option-cases, inl, inr,
}
use laitos.Text.Trim.{trim_space}
use laitos.Text.Lines.{split}
use laitos.Dns.Blacklist.{
  max_name_entries_to_extract, name_on_line, collect_names, extract_names_from_hosts_content,
  second_field, is_rejected, accepted, taken, contains_byte, is_blank_or_comment, uncommented,
}

abbrev pub counted : Option Bytes → ℕ → ℕ
counted none n = n
counted (some name) n = suc n

-- The number of lines that have a name.
unfoldable pub naming : (Bytes → Bytes) → List Bytes → ℕ
unfolding name_on_line
naming to_lower [] = 0
naming to_lower (line ∷ lines) = counted (name_on_line to_lower line) (naming to_lower lines)

abbrev pub IsBlockable : Bytes → Type 0
IsBlockable name = (4 ≤ length name) × (length name ≤ 253)

accepted-IsBlockable : (name result : Bytes) → accepted name ≡ some result → IsBlockable result
unfolding is_rejected
accepted-IsBlockable name result e = elim (Bool-cases (is_rejected name)) [
  | inl y ↦ absurd (ground (arith, y, e))
  | inr n ↦
      let same : name ≡ result = ground (arith, n, e) in rw (← same) (ground arith, ground arith)
]

second_field-IsBlockable :
    (to_lower : Bytes → Bytes) (line result : Bytes)
    → second_field to_lower line ≡ some result
    → IsBlockable result
unfolding second_field
second_field-IsBlockable to_lower line result e = elim (Option-cases (index_byte line b' ')) [
  | inl none_found ↦ absurd (ground (arith, none_found, e))
  | inr (space, found) ↦
      accepted-IsBlockable (to_lower (trim_space (uncommented (trim_space (drop space line)))))
        result (rw (found, second_field) at e)
]

name_on_line-IsBlockable :
    (to_lower : Bytes → Bytes) (line result : Bytes)
    → name_on_line to_lower line ≡ some result
    → IsBlockable result
unfolding name_on_line
name_on_line-IsBlockable to_lower line result e = elim (Bool-cases (contains_byte line 0)) [
  | inl y ↦ absurd (ground (arith, y, e))
  | inr n ↦ elim (Bool-cases (is_blank_or_comment (trim_space line))) [
    | inl y ↦ absurd (ground (arith, n, y, e))
    | inr m ↦ second_field-IsBlockable to_lower (trim_space line) result (ground (arith, n, m, e))
  ]
]

taken-length :
    (count : ℕ) (o : Option Bytes) (skipped rest : List Bytes) (n : ℕ)
    → count ≤ max_name_entries_to_extract
    → length skipped ≡ min (max_name_entries_to_extract + 1 - count) n
    → (count + 1 ≤ max_name_entries_to_extract
        → length rest ≡ min (max_name_entries_to_extract + 1 - (count + 1)) n)
    → length (taken count o skipped rest)
      ≡ min (max_name_entries_to_extract + 1 - count) (counted o n)
taken-length count none skipped rest n b s r = s
taken-length count (some name) skipped rest n b s r =
    elim (Bool-cases (ltb max_name_entries_to_extract (count + 1))) [
      | inl y ↦ rw y (ground (arith, y))
      | inr m ↦ rw m (omega (arith, r (ground (arith, m))))
    ]

collect_names-length :
    (to_lower : Bytes → Bytes) (count : ℕ) (lines : List Bytes)
    → count ≤ max_name_entries_to_extract
    → length (collect_names to_lower count lines)
      ≡ min (max_name_entries_to_extract + 1 - count) (naming to_lower lines)
unfolding collect_names naming
collect_names-length to_lower count [] b = omega arith
collect_names-length to_lower count (line ∷ lines) b =
    taken-length count (name_on_line to_lower line) (collect_names to_lower count lines)
      (collect_names to_lower (count + 1) lines) (naming to_lower lines) b
      (collect_names-length to_lower count lines b)
      (λ h. collect_names-length to_lower (count + 1) lines h)

taken-IsBlockable :
    (count : ℕ) (o : Option Bytes) (skipped rest : List Bytes)
    → ((name : Bytes) → o ≡ some name → IsBlockable name)
    → All IsBlockable skipped
    → All IsBlockable rest
    → All IsBlockable (taken count o skipped rest)
taken-IsBlockable count none skipped rest h s r = s
taken-IsBlockable count (some name) skipped rest h s r =
    elim (Bool-cases (ltb max_name_entries_to_extract (count + 1))) [
      | inl y ↦ rw y (h name refl, tt)
      | inr m ↦ rw m (h name refl, r)
    ]

collect_names-IsBlockable :
    (to_lower : Bytes → Bytes) (count : ℕ) (lines : List Bytes)
    → All IsBlockable (collect_names to_lower count lines)
unfolding collect_names
collect_names-IsBlockable to_lower count [] = tt
collect_names-IsBlockable to_lower count (line ∷ lines) =
    taken-IsBlockable count (name_on_line to_lower line) (collect_names to_lower count lines)
      (collect_names to_lower (count + 1) lines)
      (λ name e. name_on_line-IsBlockable to_lower line name e)
      (collect_names-IsBlockable to_lower count lines)
      (collect_names-IsBlockable to_lower (count + 1) lines)

-- Of a hosts file as many names are taken as its lines have, and no more than 50001, which is one
-- above the limit; each has 4 to 253 bytes.
pub extract_names_from_hosts_content-length :
    (to_lower : Bytes → Bytes) (content : Bytes)
    → (length (extract_names_from_hosts_content to_lower content)
        ≡ min (max_name_entries_to_extract + 1) (naming to_lower (split 10 content)))
      × All IsBlockable (extract_names_from_hosts_content to_lower content)
unfolding extract_names_from_hosts_content
extract_names_from_hosts_content-length to_lower content = (
  collect_names-length to_lower 0 (split 10 content) (omega arith),
  collect_names-IsBlockable to_lower 0 (split 10 content),
)
