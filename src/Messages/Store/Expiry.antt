-- ===== src/Messages/Store/Expiry.antt =====
-- What the removal of expired subjects takes away, and what it leaves.
use laitos.Base.{
  ℕ, ◌≤◌, ◌<◌, ◌≡◌, refl, sym, ap, ◌∙◌, Bool, true, false, ◌||◌, List, [], ◌∷◌, Option, none, some,
  Bytes, arith, if◌then◌else◌, length, equal, equal_iff, Bool-cases, inl, inr,
}
use laitos.Base.Dict.{lookup, delete, lookup-delete}
use laitos.Base.Dict.Entries.{Distinct, AllValues, delete-Distinct, delete-AllValues}
use laitos.Messages.Store.{
  SubjectReport, MessageProcessor, latest, is_expired, subjects_to_remove, delete_all,
  remove_expired_subjects, initialise_store,
}

-- The latest of a subject's reports is expired.
abbrev pub expired_reports : ℕ → List SubjectReport → Bool
expired_reports now reports = elim (latest reports) [ none ↦ false | some r ↦ is_expired now r ]

pub latest_expired :
    (now : ℕ) (reports : List SubjectReport) (new : SubjectReport)
    → latest reports ≡ some new
    → expired_reports now reports ≡ is_expired now new
latest_expired now reports new e =
    ap
      (λ (o : Option SubjectReport). elim o as (λ _. Bool) [
        | none ↦ false
        | some r ↦ is_expired now r
      ])
      e

abbrev pub is_gone : ℕ → Option (List SubjectReport) → Bool
is_gone now none = false
is_gone now (some reports) = expired_reports now reports

abbrev pub among : Bytes → List Bytes → Bool
among host [] = false
among host (h ∷ hosts) = equal h host || among host hosts

if-or {ℓ} :
    {V : Type ℓ} (a b : Bool) (o : Option V)
    → (if b then none else (if a then none else o)) ≡ (if a || b then none else o)
if-or true true o = refl
if-or true false o = refl
if-or false true o = refl
if-or false false o = refl

pub lookup-delete_all {ℓ} :
    {V : Type ℓ} (host : Bytes) (hosts : List Bytes) (dict : List (Bytes × V))
    → lookup host (delete_all hosts dict) ≡ (if among host hosts then none else lookup host dict)
lookup-delete_all host [] dict = refl
lookup-delete_all host (h ∷ hosts) dict =
    lookup-delete_all host hosts (delete h dict)
    ∙ ap (λ o. if among host hosts then none else o) (lookup-delete h host dict)
    ∙ if-or (equal h host) (among host hosts) (lookup host dict)

abbrev pub IsSome : List SubjectReport → Type 0
IsSome reports = 0 < length reports

latest-some :
    (reports : List SubjectReport)
    → IsSome reports
    → (r : SubjectReport) × (latest reports ≡ some r)
latest-some [] h = absurd (omega arith)
latest-some (r ∷ []) h = (r, refl)
latest-some (r ∷ s ∷ rs) h = latest-some (s ∷ rs) (omega arith)

among-scan :
    (now : ℕ) (b : Bool) (subject host : Bytes) (hosts : List Bytes) (reports : List SubjectReport)
    (o : Option (List SubjectReport))
    → expired_reports now reports ≡ b
    → among host hosts ≡ is_gone now o
    → (equal subject host ≡ true → o ≡ none)
    → among host (if b then subject ∷ hosts else hosts)
      ≡ is_gone now (if equal subject host then some reports else o)
among-scan now true subject host hosts reports o e h n = elim (Bool-cases (equal subject host)) [
  | inl y ↦ rw y (sym e)
  | inr m ↦ rw m h
]
among-scan now false subject host hosts reports o e h n = elim (Bool-cases (equal subject host)) [
  | inl y ↦ rw y (h ∙ ap (is_gone now) (n y) ∙ sym e)
  | inr m ↦ rw m h
]

-- The hosts that the scan finds, where every subject has a report.
subjects_to_remove-among :
    (now : ℕ) (dict : List (Bytes × List SubjectReport))
    → Distinct dict
    → AllValues IsSome dict
    → (hosts : List Bytes) × (subjects_to_remove now dict ≡ some hosts)
      × ((host : Bytes) → among host hosts ≡ is_gone now (lookup host dict))
unfolding subjects_to_remove lookup
subjects_to_remove-among now [] d a = ([], refl, λ host. refl)
subjects_to_remove-among now ((subject, reports) ∷ rest) (n, d) (p, a) =
    let (r, l) = latest-some reports p in
    let (hosts, e, h) = subjects_to_remove-among now rest d a in
    (
      if is_expired now r then subject ∷ hosts else hosts,
      rw l (rw e refl),
      λ host.
          among-scan now (is_expired now r) subject host hosts reports (lookup host rest)
            (ap
              (λ (o : Option SubjectReport). elim o as (λ _. Bool) [
                | none ↦ false
                | some r ↦ is_expired now r
              ])
              l)
            (h host) (λ y. ap (λ k. lookup k rest) (sym ((equal_iff subject host).0 y)) ∙ n),
    )

delete_all-Distinct {ℓ} :
    {V : Type ℓ} (hosts : List Bytes) (dict : List (Bytes × V))
    → Distinct dict
    → Distinct (delete_all hosts dict)
delete_all-Distinct [] dict d = d
delete_all-Distinct (h ∷ hosts) dict d =
    delete_all-Distinct hosts (delete h dict) (delete-Distinct h dict d)

delete_all-AllValues {ℓ κ} :
    {V : Type ℓ} (P : V → Type κ) (hosts : List Bytes) (dict : List (Bytes × V))
    → AllValues P dict
    → AllValues P (delete_all hosts dict)
delete_all-AllValues P [] dict d = d
delete_all-AllValues P (h ∷ hosts) dict d =
    delete_all-AllValues P hosts (delete h dict) (delete-AllValues P h dict d)

-- What is left of an entry of a subject.
abbrev pub unless {ℓ} : {V : Type ℓ} → Bool → Option V → Option V
unless b o = if b then none else o

-- The processor behind the removal: of each subject everything is left, or nothing where its
-- latest report is expired.
pub record Pruned (now : ℕ) (before after : MessageProcessor) : Type 0 where
  pub reports :
      (host : Bytes)
      → lookup host after.subject_reports
        ≡ unless
            (is_gone now (lookup host before.subject_reports))
            (lookup host before.subject_reports)
  pub incoming :
      (host : Bytes)
      → lookup host after.incoming_app_commands
        ≡ unless
            (is_gone now (lookup host before.subject_reports))
            (lookup host before.incoming_app_commands)
  pub outgoing :
      (host : Bytes)
      → lookup host after.outgoing_app_commands
        ≡ unless
            (is_gone now (lookup host before.subject_reports))
            (lookup host before.outgoing_app_commands)
  pub same_max : after.max_reports_per_host_name ≡ before.max_reports_per_host_name
  pub same_total : after.total_reports ≡ before.total_reports

-- Each subject stands once, and has at least one report and no more than the limit.
pub record IsKept (proc : MessageProcessor) : Type 0 where
  pub distinct : Distinct proc.subject_reports
  pub filled : AllValues IsSome proc.subject_reports
  pub bounded :
      AllValues (λ reports. length reports ≤ proc.max_reports_per_host_name) proc.subject_reports
  pub positive : 0 < proc.max_reports_per_host_name

-- A processor that is new keeps nothing, within a limit that is positive.
initialise_store-IsKept : (max_reports : ℕ) → IsKept (initialise_store max_reports)
unfolding initialise_store
initialise_store-IsKept max_reports = record {
  distinct = tt;
  filled = tt;
  bounded = tt;
  positive = ground arith;
}

-- The removal of expired subjects does not panic, and goes by the test of `is_expired`.
pub remove_expired_subjects-Pruned :
    (now : ℕ) (proc : MessageProcessor)
    → IsKept proc
    → (after : MessageProcessor) × (remove_expired_subjects now proc ≡ some after)
      × Pruned now proc after
      × IsKept after
unfolding remove_expired_subjects
remove_expired_subjects-Pruned now proc k =
    let (hosts, e, among_hosts) =
      subjects_to_remove-among now proc.subject_reports k.distinct k.filled in
    let after : MessageProcessor = record proc {
      subject_reports = delete_all hosts proc.subject_reports;
      incoming_app_commands = delete_all hosts proc.incoming_app_commands;
      outgoing_app_commands = delete_all hosts proc.outgoing_app_commands;
    } in
    (
      after,
      rw e refl,
      record {
        reports = λ host.
            lookup-delete_all host hosts proc.subject_reports
            ∙ ap (λ b. unless b (lookup host proc.subject_reports)) (among_hosts host);
        incoming = λ host.
            lookup-delete_all host hosts proc.incoming_app_commands
            ∙ ap (λ b. unless b (lookup host proc.incoming_app_commands)) (among_hosts host);
        outgoing = λ host.
            lookup-delete_all host hosts proc.outgoing_app_commands
            ∙ ap (λ b. unless b (lookup host proc.outgoing_app_commands)) (among_hosts host);
        same_max = refl;
        same_total = refl;
      },
      record {
        distinct = delete_all-Distinct hosts proc.subject_reports k.distinct;
        filled = delete_all-AllValues IsSome hosts proc.subject_reports k.filled;
        bounded =
            delete_all-AllValues (λ reports. length reports ≤ proc.max_reports_per_host_name) hosts
              proc.subject_reports k.bounded;
        positive = k.positive;
      },
    )
