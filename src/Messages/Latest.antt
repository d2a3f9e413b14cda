-- ===== src/Messages/Latest.antt =====
-- toolbox/message_processor.go, GetLatestReportsFromSubject: the latest reports of a subject.
--
-- A limit below 1 is the limit 0. `none` is an index out of range, which panics.
pub mod Order
use laitos.Base.{
  ℕ, zero, suc, ◌+◌, ◌-◌, ◌/◌, List, [], ◌∷◌, ◌++◌, Option, none, some, Bytes, ◌>>=◌, ltb,
  if◌then◌else◌, length, drop, get_elem?, set,
}
use laitos.Base.Dict.{lookup}
use laitos.Messages.Store.{SubjectReport, MessageProcessor}

-- `ret[i], ret[j] = ret[j], ret[i]`
unfoldable pub swap_at {ℓ} : {A : Type ℓ} → ℕ → ℕ → List A → Option (List A)
swap_at i j ret = do a ← get_elem? ret i; b ← get_elem? ret j; some (set (set ret i b) j a)

-- The loop that swaps the elements below an index with those at the other end, downwards.
unfoldable pub reverse_from {ℓ} : {A : Type ℓ} → ℕ → List A → Option (List A)
unfolding swap_at
reverse_from zero ret = some ret
reverse_from (suc i) ret = do swapped ← swap_at i (length ret - 1 - i) ret; reverse_from i swapped

-- The reports that are returned, in the order in which they are stored.
abbrev pub latest_of {ℓ} : {A : Type ℓ} → ℕ → List A → List A
latest_of max reports =
    if ltb max (length reports) then drop (length reports - max) reports else reports

abbrev pub reversed_in_place {ℓ} : {A : Type ℓ} → List A → Option (List A)
reversed_in_place ret = reverse_from (length ret / 2) ret

abbrev pub latest_reports : ℕ → Option (List SubjectReport) → Option (List SubjectReport)
latest_reports max none = some []
latest_reports max (some reports) = reversed_in_place (latest_of max reports)

unfoldable pub get_latest_reports_from_subject :
    (Bytes → Bytes) → Bytes → ℕ → MessageProcessor → Option (List SubjectReport)
unfolding lookup reverse_from
get_latest_reports_from_subject to_lower host_name max_limit proc =
    if ltb max_limit 1
    then some []
    else latest_reports max_limit (lookup (to_lower host_name) proc.subject_reports)
