-- ===== src/Toolbox/Processor/Sanity.antt =====
-- `IsEmpty`, `IsSaneForInternet` and `initialiseOnce` of toolbox/cmd_processor.go.
--
-- The fields of a processor may be nil, which is `none` here. An error is a constructor for its
-- text.
use mathlib.Core.Option
use laitos.Base.{
  ℕ, ◌≤◌, ◌≡◌, ◌≢◌, ◌⊎◌, inl, inr, ap, Bool-cases, Option-cases, refl, Bool, true, false, not, ◌&&◌,
  ◌||◌, List, [], ◌∷◌, ◌++◌, Option, none, some, Bytes, arith, ltb, if◌then◌else◌, length, equal,
  equal_iff,
}
use laitos.RateLimit.{RateLimit, initialise}
use laitos.Toolbox.InputFilter.{PinAndShortcuts}
use laitos.Toolbox.ResultFilter.{LintText, ResultFilter}
use laitos.Toolbox.Processor.{CommandFilter, pin_and_shortcuts, Feature, find_lint_text}

pub data ConfigError : Type 0 where
  no_feature_set no_features : ConfigError
  no_command_filters no_pin_or_shortcuts short_pin no_pin_filter : ConfigError
  no_result_filters bad_max_length no_linter : ConfigError

abbrev without_pin : CommandFilter → Bool
without_pin (pin_and_shortcuts p) = equal p.pin []
without_pin _ = false

unfoldable pub any_without_pin : List CommandFilter → Bool
unfolding equal
any_without_pin [] = false
any_without_pin (f ∷ fs) = without_pin f || any_without_pin fs

-- `IsEmpty`, where a nil slice and an empty one are the same.
unfoldable pub is_empty : List CommandFilter → Bool
unfolding any_without_pin
is_empty [] = true
is_empty (f ∷ fs) = any_without_pin (f ∷ fs)

abbrev error_if : Bool → ConfigError → List ConfigError
error_if b e = if b then e ∷ [] else []

abbrev pub no_entries : {A : Type 0} → List A → Bool
no_entries [] = true
no_entries (_ ∷ _) = false

unfoldable pub feature_errors : Option (List (Bytes × Feature)) → List ConfigError
feature_errors none = no_feature_set ∷ []
feature_errors (some features) = error_if (no_entries features) no_features

unfoldable pub find_pin_filter : List CommandFilter → Option PinAndShortcuts
find_pin_filter [] = none
find_pin_filter (pin_and_shortcuts p ∷ fs) = some p
find_pin_filter (_ ∷ fs) = find_pin_filter fs

unfoldable pub pin_errors : Option PinAndShortcuts → List ConfigError
unfolding equal
pin_errors none = no_pin_filter ∷ []
pin_errors (some p) =
    error_if (equal p.pin [] && no_entries p.shortcuts) no_pin_or_shortcuts
    ++ error_if (not (equal p.pin []) && ltb (length p.pin) 7) short_pin

unfoldable pub command_filter_errors : Option (List CommandFilter) → List ConfigError
unfolding pin_errors find_pin_filter
command_filter_errors none = no_command_filters ∷ []
command_filter_errors (some fs) = pin_errors (find_pin_filter fs)

unfoldable pub lint_errors : Option LintText → List ConfigError
lint_errors none = no_linter ∷ []
lint_errors (some l) = error_if (ltb l.max_length 35 || ltb 4096 l.max_length) bad_max_length

unfoldable pub result_filter_errors : Option (List ResultFilter) → List ConfigError
unfolding lint_errors find_lint_text
result_filter_errors none = no_result_filters ∷ []
result_filter_errors (some fs) = lint_errors (find_lint_text fs)

unfoldable pub is_sane_for_internet :
    Option (List (Bytes × Feature))
    → Option (List CommandFilter)
    → Option (List ResultFilter)
    → List ConfigError
unfolding feature_errors command_filter_errors result_filter_errors
is_sane_for_internet features filters results =
    feature_errors features ++ (command_filter_errors filters ++ result_filter_errors results)

abbrev pub max_cmd_per_sec_hard_limit : ℕ
max_cmd_per_sec_hard_limit = 1000

unfoldable pub bounded_rate : ℕ → ℕ
bounded_rate per_sec =
    if ltb per_sec 1 || ltb max_cmd_per_sec_hard_limit per_sec
    then max_cmd_per_sec_hard_limit
    else per_sec

abbrev per_second : ℕ → RateLimit
per_second n = record {
  unit_secs = 1;
  max_count = n;
  last_timestamp = 0;
  counter = [];
  logged = [];
}

-- `initialiseOnce` on `MaxCmdPerSec` and `rateLimit`; `none` is a panic of `Initialise`.
unfoldable pub initialise_once : ℕ → Option RateLimit → Option (ℕ × RateLimit)
unfolding initialise bounded_rate
initialise_once per_sec (some l) = some (bounded_rate per_sec, l)
initialise_once per_sec none =
    Option.map (λ l. (bounded_rate per_sec, l)) (initialise (per_second (bounded_rate per_sec)))

-- What a processor without errors has.
pub record IsSane (features : List (Bytes × Feature)) (fs : List CommandFilter)
    (rs : List ResultFilter) : Type 0 where
  pub any_feature : features ≢ []
  pub pin_filter : PinAndShortcuts
  pub first_pin : find_pin_filter fs ≡ some pin_filter
  pub secret : (pin_filter.shortcuts ≢ []) ⊎ (7 ≤ length pin_filter.pin)
  pub long_pin : pin_filter.pin ≢ [] → 7 ≤ length pin_filter.pin
  pub linter : LintText
  pub first_linter : find_lint_text rs ≡ some linter
  pub low : 35 ≤ linter.max_length
  pub high : linter.max_length ≤ 4096

no_features-ne :
    (features : List (Bytes × Feature)) → feature_errors (some features) ≡ [] → features ≢ []
unfolding feature_errors
no_features-ne [] e = absurd (cc)
no_features-ne (x ∷ xs) e = λ n. absurd (cc)

append-nil_both : {A : Type 0} (xs ys : List A) → xs ++ ys ≡ [] → (xs ≡ []) × (ys ≡ [])
append-nil_both [] ys e = (refl, e)
append-nil_both (x ∷ xs) ys e = absurd (cc)

pin_errors-none :
    (p : PinAndShortcuts)
    → pin_errors (some p) ≡ []
    → ((p.shortcuts ≢ []) ⊎ (7 ≤ length p.pin)) × (p.pin ≢ [] → 7 ≤ length p.pin)
unfolding pin_errors
pin_errors-none p e =
    let empty = equal_iff p.pin [] in
    let (unset, short) =
      append-nil_both (error_if (equal p.pin [] && no_entries p.shortcuts) no_pin_or_shortcuts)
        (error_if (not (equal p.pin []) && ltb (length p.pin) 7) short_pin) e in
    let long : p.pin ≢ [] → 7 ≤ length p.pin = λ n. ground arith in
    elim (Bool-cases (equal p.pin [])) [
      | inr n ↦ (inr (long (λ k. ground arith)), long)
      | inl y ↦ (inl (λ k. ground arith), long)
    ]

lint_errors-none :
    (l : LintText) → lint_errors (some l) ≡ [] → (35 ≤ l.max_length) × (l.max_length ≤ 4096)
unfolding lint_errors
lint_errors-none l e = (ground arith, ground arith)

-- A processor in which the check for the Internet finds no error has a feature; its first filter
-- for PIN and shortcuts has a shortcut or a PIN, and a PIN of at least seven bytes if it has one;
-- and its first linter cuts to between 35 and 4096 bytes.
pub is_sane_for_internet-IsSane :
    (features : List (Bytes × Feature)) (fs : List CommandFilter) (rs : List ResultFilter)
    → is_sane_for_internet (some features) (some fs) (some rs) ≡ []
    → IsSane features fs rs
unfolding is_sane_for_internet command_filter_errors result_filter_errors
is_sane_for_internet-IsSane features fs rs e =
    let (f, e') = append-nil_both (feature_errors (some features)) _ e in
    let (c, r) = append-nil_both (pin_errors (find_pin_filter fs)) _ e' in
    on_first (find_pin_filter fs) (find_lint_text rs) refl refl (no_features-ne features f) c r
  where
    on_first :
        (p : Option PinAndShortcuts) (l : Option LintText)
        → find_pin_filter fs ≡ p
        → find_lint_text rs ≡ l
        → features ≢ []
        → pin_errors p ≡ []
        → lint_errors l ≡ []
        → IsSane features fs rs
    on_first none l p' l' n c r = absurd (cc)
    on_first (some p) none p' l' n c r = absurd (cc)
    on_first (some p) (some l) p' l' n c r =
        let (secret, long) = pin_errors-none p c in
        let (low, high) = lint_errors-none l r in
        record {
          any_feature = n;
          pin_filter = p;
          first_pin = p';
          secret = secret;
          long_pin = long;
          linter = l;
          first_linter = l';
          low = low;
          high = high;
        }

initialise-runs :
    (l : RateLimit)
    → 1 ≤ l.unit_secs
    → 1 ≤ l.max_count
    → (l' : RateLimit) × (initialise l ≡ some l')
unfolding initialise
initialise-runs l u m = elim (Option-cases (initialise l)) [
  | inl n ↦ absurd (ground (arith, n))
  | inr (l', e) ↦ (l', e)
]

bounded_rate_within : (n : ℕ) → (1 ≤ bounded_rate n) × (bounded_rate n ≤ 1000)
unfolding bounded_rate
bounded_rate_within n = (ground arith, ground arith)

-- The preparation of a processor never panics, and leaves it with a limit of one to a thousand
-- commands a second.
pub initialise_once_runs :
    (per_sec : ℕ) (limit : Option RateLimit)
    → (s : ℕ × RateLimit) × (initialise_once per_sec limit ≡ some s) × (1 ≤ s.0) × (s.0 ≤ 1000)
unfolding initialise_once
initialise_once_runs per_sec (some l) =
    let (low, high) = bounded_rate_within per_sec in (_, refl, low, high)
initialise_once_runs per_sec none =
    let (low, high) = bounded_rate_within per_sec in
    let (l, e) = initialise-runs (per_second (bounded_rate per_sec)) (omega arith) low in
    ((bounded_rate per_sec, l), ap (Option.map (λ m. (bounded_rate per_sec, m))) e, low, high)
