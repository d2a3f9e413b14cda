-- ===== src/Messages/Store/Window.antt =====
-- Of each subject the processor keeps the latest reports, as many as the limit says.
use laitos.Base.{
  ==_iff, ℕ, ◌+◌, ◌-◌, ◌*◌, ◌%◌, ◌≤◌, ◌<◌, ◌≡◌, ◌≢◌, ◌⊎◌, inl, inr, refl, sym, ap, ◌∙◌, true, false,
  List, [], ◌∷◌, ◌++◌, Option, none, some, Bytes, arith, ◌==◌, if◌then◌else◌, length, length-append,
  drop, length-drop, equal, equal_iff, equal_self, Bool-cases,
}
use laitos.Base.Dict.{lookup, lookup-insert}
use laitos.Base.Dict.Entries.{AllValues, insert-Distinct, insert-AllValues, lookup-AllValues}
use laitos.Messages.Report.{SubjectReportRequest}
use laitos.Messages.Store.{
  SubjectReport, MessageProcessor, latest, subject_expiry_second, second, or_none, with_report,
  new_report, stored_report, keep_report,
}
use laitos.Messages.Store.Expiry.{
  IsKept, IsSome, Pruned, latest_expired, is_gone, expired_reports, unless,
  remove_expired_subjects-Pruned,
}

-- The last `n` of a list, or all of it while it is shorter.
abbrev pub window : ℕ → List SubjectReport → List SubjectReport
window n reports = drop (length reports - n) reports

drop_one-append : (xs ys : List SubjectReport) → 0 < length xs → drop 1 (xs ++ ys) ≡ drop 1 xs ++ ys
drop_one-append [] ys h = absurd (omega arith)
drop_one-append (x ∷ xs) ys h = refl

with_report-window :
    (max : ℕ) (reports : List SubjectReport) (new : SubjectReport)
    → 0 < max
    → length reports ≤ max
    → with_report max reports new ≡ window max (reports ++ (new ∷ []))
unfolding with_report
with_report-window max reports new p b = elim (Bool-cases (length reports == max)) [
  | inl y ↦
      let e : length (reports ++ (new ∷ [])) - max ≡ 1 =
        omega (arith, length-append reports (new ∷ []), (==_iff (length reports) max).0 y) in
      let some_report : 0 < length reports = omega (arith, (==_iff (length reports) max).0 y) in
      rw y (
        sym (drop_one-append reports (new ∷ []) some_report)
        ∙ ap (λ n. drop n (reports ++ (new ∷ []))) (sym e))
  | inr m ↦
      let fewer : length reports ≢ max = λ e. absurd (ground (arith, m, e)) in
      let e : length (reports ++ (new ∷ [])) - max ≡ 0 =
        omega (arith, length-append reports (new ∷ []), fewer) in
      rw m (ap (λ n. drop n (reports ++ (new ∷ []))) (sym e))
]

latest-append :
    (reports : List SubjectReport) (new : SubjectReport) → latest (reports ++ (new ∷ [])) ≡ some new
latest-append [] new = refl
latest-append (r ∷ []) new = refl
latest-append (r ∷ s ∷ rs) new = latest-append (s ∷ rs) new

length-with_report :
    (max : ℕ) (reports : List SubjectReport) (new : SubjectReport)
    → 0 < max
    → length reports ≤ max
    → (0 < length (with_report max reports new)) × (length (with_report max reports new) ≤ max)
unfolding with_report
length-with_report max reports new p b = (
  omega
      (arith, length-append (if length reports == max then drop 1 reports else reports) (new ∷ [])),
  ground (
    arith,
    length-append (if length reports == max then drop 1 reports else reports) (new ∷ []),
    length-drop 1 reports,
  ),
)

latest-with_report :
    (max : ℕ) (reports : List SubjectReport) (new : SubjectReport)
    → latest (with_report max reports new) ≡ some new
unfolding with_report
latest-with_report max reports new =
    latest-append (if length reports == max then drop 1 reports else reports) new

-- What becomes of the reports of the host that reports, and of any other.
pub record Kept (now : ℕ) (new : SubjectReport) (host : Bytes) (before after : MessageProcessor)
    : Type 0 where
  pub kept : IsKept after
  pub own :
      lookup host after.subject_reports
      ≡ some (
          window before.max_reports_per_host_name
            (or_none (lookup host before.subject_reports) ++ (new ∷ [])))
  pub own_outgoing :
      lookup host after.outgoing_app_commands ≡ lookup host before.outgoing_app_commands
  pub others :
      (other : Bytes)
      → other ≢ host
      → (lookup other after.subject_reports ≡ lookup other before.subject_reports)
        ⊎ ((is_gone now (lookup other before.subject_reports) ≡ true)
            × (lookup other after.subject_reports ≡ none))

or_none-length :
    (dict : List (Bytes × List SubjectReport)) (host : Bytes) (max : ℕ)
    → AllValues (λ reports. length reports ≤ max) dict
    → length (or_none (lookup host dict)) ≤ max
or_none-length dict host max a = on (lookup host dict) refl
  where
    on : (o : Option (List SubjectReport)) → lookup host dict ≡ o → length (or_none o) ≤ max
    on none e = omega arith
    on (some reports) e = lookup-AllValues (λ reports. length reports ≤ max) host dict a e

module _ (request : SubjectReportRequest) (client_id daemon_name : Bytes) (proc : MessageProcessor)
    (k : IsKept proc) where
  stored_report-IsKept : IsKept (stored_report request client_id daemon_name proc)
  unfolding stored_report
  stored_report-IsKept =
      let host = request.subject_host_name in
      let max = proc.max_reports_per_host_name in
      let old = or_none (lookup host proc.subject_reports) in
      let new = new_report request client_id daemon_name in
      let (some_report, few) =
        length-with_report max old new k.positive
          (or_none-length proc.subject_reports host max k.bounded) in
      record {
        distinct = insert-Distinct host (with_report max old new) proc.subject_reports k.distinct;
        filled =
            insert-AllValues IsSome host (with_report max old new) proc.subject_reports some_report
              k.filled;
        bounded =
            insert-AllValues (λ reports. length reports ≤ max) host (with_report max old new)
              proc.subject_reports few k.bounded;
        positive = k.positive;
      }

  stored_report-own :
      lookup request.subject_host_name
        (stored_report request client_id daemon_name proc).subject_reports
      ≡ some (
          window proc.max_reports_per_host_name (
            or_none (lookup request.subject_host_name proc.subject_reports)
            ++ (new_report request client_id daemon_name ∷ [])))
  unfolding stored_report
  stored_report-own =
      let host = request.subject_host_name in
      let max = proc.max_reports_per_host_name in
      let old = or_none (lookup host proc.subject_reports) in
      let new = new_report request client_id daemon_name in
      lookup-insert host host (with_report max old new) proc.subject_reports
      ∙ rw (equal_self host) (
          ap some (
            with_report-window max old new k.positive
              (or_none-length proc.subject_reports host max k.bounded)))

  stored_report-others :
      (other : Bytes)
      → other ≢ request.subject_host_name
      → lookup other (stored_report request client_id daemon_name proc).subject_reports
        ≡ lookup other proc.subject_reports
  unfolding stored_report
  stored_report-others other n =
      let host = request.subject_host_name in
      let max = proc.max_reports_per_host_name in
      let old = or_none (lookup host proc.subject_reports) in
      let new = new_report request client_id daemon_name in
      let different : equal host other ≡ false = ground (arith, equal_iff host other, n) in
      lookup-insert host other (with_report max old new) proc.subject_reports ∙ rw different refl

  own_window-is_fresh :
      (now : ℕ)
      → now ≤ request.server_time + subject_expiry_second * second
      → is_gone now (
          lookup request.subject_host_name
            (stored_report request client_id daemon_name proc).subject_reports)
        ≡ false
  own_window-is_fresh now f =
      let host = request.subject_host_name in
      let max = proc.max_reports_per_host_name in
      let old = or_none (lookup host proc.subject_reports) in
      let new = new_report request client_id daemon_name in
      ap (is_gone now) stored_report-own
      ∙ ap (expired_reports now) (
          sym (
            with_report-window max old new k.positive
              (or_none-length proc.subject_reports host max k.bounded)))
      ∙ latest_expired now (with_report max old new) new (latest-with_report max old new)
      ∙ ground (arith, f)

  expiry-Kept :
      (now : ℕ) (after : MessageProcessor)
      → now ≤ request.server_time + subject_expiry_second * second
      → Pruned now (stored_report request client_id daemon_name proc) after
      → IsKept after
      → Kept now (new_report request client_id daemon_name) request.subject_host_name proc after
  unfolding stored_report
  expiry-Kept now after f r kept =
      let fresh = own_window-is_fresh now f in
      let host = request.subject_host_name in
      record {
        kept = kept;
        own =
            r.reports host
            ∙ ap
                (λ b.
                  unless b (
                    lookup host (stored_report request client_id daemon_name proc).subject_reports))
                fresh
            ∙ stored_report-own;
        own_outgoing =
            r.outgoing host ∙ ap (λ b. unless b (lookup host proc.outgoing_app_commands)) fresh;
        others = λ other n.
            let same = stored_report-others other n in
            elim (Bool-cases (is_gone now (lookup other proc.subject_reports))) [
              | inl y ↦ inr (
                y,
                r.reports other
                    ∙ ap (λ o. unless (is_gone now o) o) same
                    ∙ ap (λ b. unless b (lookup other proc.subject_reports)) y,
              )
              | inr m ↦ inl (
                  r.reports other
                  ∙ ap (λ o. unless (is_gone now o) o) same
                  ∙ ap (λ b. unless b (lookup other proc.subject_reports)) m)
            ];
      }

  stored_report-Kept :
      (now : ℕ)
      → Kept now
          (new_report request client_id daemon_name)
          request.subject_host_name
          proc
          (stored_report request client_id daemon_name proc)
  stored_report-Kept now = record {
    kept = stored_report-IsKept;
    own = stored_report-own;
    own_outgoing = unfold stored_report in refl;
    others = λ other n. inl (stored_report-others other n);
  }

  -- A report of a host is kept without a panic, where the clock has not gone three days further
  -- within the call. The host's reports are then the last of those that it had and the new one, as
  -- many as the limit; its waiting command is left as it was; and the reports of any other host
  -- are left as they were, unless its latest is more than three days old and they are gone. Each
  -- subject still stands once, with at least one report and no more than the limit.
  pub keep_report-Kept :
      (now : ℕ)
      → now ≤ request.server_time + subject_expiry_second * second
      → (after : MessageProcessor) × (keep_report now request client_id daemon_name proc
          ≡ some after)
        × Kept now (new_report request client_id daemon_name) request.subject_host_name proc after
  unfolding keep_report
  keep_report-Kept now f =
      let stored = stored_report request client_id daemon_name proc in
      let (after, e, r, kept) = remove_expired_subjects-Pruned now stored stored_report-IsKept in
      let positive : (proc.max_reports_per_host_name == 0) ≡ false = ground (arith, k.positive) in
      elim (Bool-cases (stored.total_reports % proc.max_reports_per_host_name == 0)) [
        | inl y ↦ (after, rw positive (rw y e), expiry-Kept now after f r kept)
        | inr n ↦ (stored, rw positive (rw n refl), stored_report-Kept now)
      ]
