-- ===== src/Toolbox/Processor/Bound.antt =====
-- The length of a result's text behind the filters.
use laitos.Base.{
  ℕ, ◌≤◌, ◌<◌, ◌≡◌, ◌⊎◌, inl, inr, refl, ◌∙◌, Bool, true, false, ◌&&◌, ◌||◌, List, [], ◌∷◌, map,
  Option, none, some, Bytes, arith, ltb, if◌then◌else◌, take, length, length-take, All, Bool-cases,
}
use laitos.Toolbox.Command.{Result, Error, Command, reset_combined_text}
use laitos.Toolbox.ResultFilter.{
  LintText, ResultFilter, lint_text, notify_via_email, say_empty, custom, transform_result, lint,
  say_empty_output,
}
use laitos.Toolbox.Patterns.{is_subject_report}
use laitos.Toolbox.InputFilter.{Codes, TotpMemory}
use laitos.Toolbox.Processor.{Processor, filter_result, replaced, execute, process, conclude}

length-cut :
    (max : ℕ) (s : Bytes)
    → 0 < max
    → length (if ltb 0 max && ltb max (length s) then take max s else s) ≤ max
length-cut max s h = ground (arith, length-take max s)

length-lint : (l : LintText) (s : Bytes) → 0 < l.max_length → length (lint l s) ≤ l.max_length
unfolding lint
length-lint l s h = length-cut l.max_length _ h

length-say_empty_output :
    (s : Bytes) (max : ℕ) → 12 ≤ max → length s ≤ max → length (say_empty_output s) ≤ max
unfolding say_empty_output
length-say_empty_output s max h k = ground arith

-- A filter of this package whose `LintText`, if it is one, cuts to at most `max` bytes.
abbrev pub Cuts : ℕ → ResultFilter → Type 0
Cuts max (lint_text l) = (0 < l.max_length) × (l.max_length ≤ max)
Cuts max (notify_via_email n) = Unit
Cuts max say_empty = Unit
Cuts max (custom f) = ⊥

abbrev pub is_lint : ResultFilter → Bool
is_lint (lint_text l) = true
is_lint _ = false

abbrev pub has_lint : List ResultFilter → Bool
has_lint [] = false
has_lint (f ∷ fs) = is_lint f || has_lint fs

replaced-is_lint : (o : Option LintText) (f : ResultFilter) → is_lint (replaced o f) ≡ is_lint f
unfolding replaced
replaced-is_lint none f = refl
replaced-is_lint (some o) (lint_text l) = refl
replaced-is_lint (some o) (notify_via_email n) = refl
replaced-is_lint (some o) say_empty = refl
replaced-is_lint (some o) (custom f) = refl

transform_result-no_error :
    (max : ℕ) (f : ResultFilter) (r : Result) → Cuts max f → (transform_result f r).1 ≡ none
unfolding transform_result
transform_result-no_error max (lint_text l) r c = refl
transform_result-no_error max (notify_via_email n) r c = refl
transform_result-no_error max say_empty r c = refl
transform_result-no_error max (custom f) r c = absurd c

-- Such a filter keeps the bound, and a `LintText` sets it.
transform_result-bound :
    (max : ℕ) (f : ResultFilter) (r : Result)
    → 12 ≤ max
    → Cuts max f
    → (is_lint f ≡ true) ⊎ (length r.combined_output ≤ max)
    → length (transform_result f r).0.combined_output ≤ max
unfolding transform_result
transform_result-bound max (lint_text l) r h c b =
    omega (arith, length-lint l r.combined_output c.0)
transform_result-bound max (notify_via_email n) r h c (inl e) = absurd (cc)
transform_result-bound max (notify_via_email n) r h c (inr b) = b
transform_result-bound max say_empty r h c (inl e) = absurd (cc)
transform_result-bound max say_empty r h c (inr b) =
    length-say_empty_output r.combined_output max h b
transform_result-bound max (custom f) r h c b = absurd c

-- What is known of the text, by the filters to come or by its length, carries over.
carry_bound :
    (max : ℕ) (o : Option LintText) (f : ResultFilter) (fs : List ResultFilter) (r : Result)
    → 12 ≤ max
    → Cuts max (replaced o f)
    → (has_lint (f ∷ fs) ≡ true) ⊎ (length r.combined_output ≤ max)
    → (has_lint fs ≡ true) ⊎ (length (transform_result (replaced o f) r).0.combined_output ≤ max)
carry_bound max o f fs r h c (inr b) = inr (transform_result-bound max (replaced o f) r h c (inr b))
carry_bound max o f fs r h c (inl e) = elim (Bool-cases (is_lint f)) [
  | inl y ↦ inr (transform_result-bound max (replaced o f) r h c (inl (replaced-is_lint o f ∙ y)))
  | inr n ↦ inl (ground (arith, n))
]

filter_result-bound :
    (max : ℕ) (o : Option LintText) (d : Option Error) (fs : List ResultFilter) (r : Result)
    → 12 ≤ max
    → All (Cuts max) (map (replaced o) fs)
    → (has_lint fs ≡ true) ⊎ (length r.combined_output ≤ max)
    → length (filter_result o d fs r).0.combined_output ≤ max
unfolding filter_result
filter_result-bound max o d [] r h c (inl e) = absurd (cc)
filter_result-bound max o d [] r h c (inr b) = b
filter_result-bound max o d (f ∷ fs) r h (c, cs) b =
    rw (transform_result-no_error max (replaced o f) r c, filter_result)
      (filter_result-bound max o d fs (transform_result (replaced o f) r).0 h cs
        (carry_bound max o f fs r h c b))

-- Where the filters of results run, all are of this package, one is a `LintText`, and each
-- `LintText`, or what a PLT prefix put in its place, cuts to at most `max` bytes, which is no less
-- than the 12 of the text for empty output, the combined text that `Process` returns is at most
-- `max` bytes long, whatever the features return and whether or not they run.
pub process-bound :
    (codes_of : Bytes → Option Codes) (locked under_limit : Bool) (proc : Processor)
    (mem : TotpMemory) (cmd : Command) (max : ℕ)
    → 12 ≤ max
    → is_subject_report cmd.content ≡ false
    → All (Cuts max) (map (replaced (execute codes_of proc mem cmd).2.override) proc.result_filters)
    → has_lint proc.result_filters ≡ true
    → length (process codes_of locked under_limit proc mem cmd true).result.combined_output ≤ max
unfolding process conclude
process-bound codes_of locked under_limit proc mem cmd max h report cuts lints =
    let x = (execute codes_of proc mem cmd).2 in
    let bound =
      filter_result-bound max x.override (execute codes_of proc mem cmd).0 proc.result_filters
        (reset_combined_text
          (record x.result { command = record x.command { content = x.log_content } }))
        h cuts (inl lints) in
    ground (arith, report, bound)
