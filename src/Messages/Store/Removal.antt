-- ===== src/Messages/Store/Removal.antt =====
-- Which subjects the removal of expired subjects takes away, by the time of their last reports.
use laitos.Base.{
  ℕ, ◌+◌, ◌*◌, ◌^◌, ◌≤◌, ◌<◌, ◌≡◌, inl, inr, refl, ap, ◌∙◌, true, false, List, [], ◌∷◌, ◌++◌,
  Option, none, some, Bytes, arith, Bool-cases,
}
use laitos.Base.Dict.{lookup}
use laitos.Base.Dict.Entries.{lookup-AllValues}
use laitos.Messages.Store.{
  SubjectReport, MessageProcessor, latest, is_expired, remove_expired_subjects,
}
use laitos.Messages.Store.Expiry.{
  IsKept, IsSome, Pruned, is_gone, unless, latest_expired, remove_expired_subjects-Pruned,
}

-- Three days, in nanoseconds.
abbrev pub three_days : ℕ
three_days = 72 * 3600 * 10 ^ 9

-- The last report that stands under a host, and the reports in front of it.
pub record LastReport (host : Bytes) (proc : MessageProcessor) : Type 0 where
  pub earlier : List SubjectReport
  pub last : SubjectReport
  pub stands : lookup host proc.subject_reports ≡ some (earlier ++ (last ∷ []))

-- Nothing of the host is left.
pub record IsGone (host : Bytes) (after : MessageProcessor) : Type 0 where
  pub no_reports : lookup host after.subject_reports ≡ none
  pub no_incoming : lookup host after.incoming_app_commands ≡ none
  pub no_outgoing : lookup host after.outgoing_app_commands ≡ none

-- All of the host is left.
pub record IsUnchanged (host : Bytes) (before after : MessageProcessor) : Type 0 where
  pub reports : lookup host after.subject_reports ≡ lookup host before.subject_reports
  pub incoming : lookup host after.incoming_app_commands ≡ lookup host before.incoming_app_commands
  pub outgoing : lookup host after.outgoing_app_commands ≡ lookup host before.outgoing_app_commands

-- The host's last report is more than three days old, and nothing of it is left; or it is not, or
-- there is none, and all of it is left.
pub data Settled (now : ℕ) (host : Bytes) (before after : MessageProcessor) : Type 0 where
  silent :
      (r : LastReport host before)
      → r.last.original_request.server_time + three_days < now
      → IsGone host after
      → Settled now host before after
  heard :
      (r : LastReport host before)
      → now ≤ r.last.original_request.server_time + three_days
      → IsUnchanged host before after
      → Settled now host before after
  unknown :
      lookup host before.subject_reports ≡ none
      → IsUnchanged host before after
      → Settled now host before after

pub record Removed (now : ℕ) (before after : MessageProcessor) : Type 0 where
  pub settled : (host : Bytes) → Settled now host before after
  pub same_max : after.max_reports_per_host_name ≡ before.max_reports_per_host_name
  pub same_total : after.total_reports ≡ before.total_reports

last_of :
    (reports : List SubjectReport)
    → IsSome reports
    → (earlier : List SubjectReport) × (last : SubjectReport) × (reports ≡ earlier ++ (last ∷ []))
      × (latest reports ≡ some last)
last_of [] h = absurd (omega arith)
last_of (r ∷ []) h = ([], r, refl, refl)
last_of (r ∷ s ∷ rs) h =
    let (earlier, last, e, l) = last_of (s ∷ rs) (omega arith) in
    (r ∷ earlier, last, ap (◌∷◌ r) e, l)

module _ (now : ℕ) (host : Bytes) (before after : MessageProcessor)
    (p : Pruned now before after) where
  Pruned-IsGone : is_gone now (lookup host before.subject_reports) ≡ true → IsGone host after
  Pruned-IsGone e = record {
    no_reports = p.reports host ∙ ap (λ b. unless b (lookup host before.subject_reports)) e;
    no_incoming = p.incoming host ∙ ap (λ b. unless b (lookup host before.incoming_app_commands)) e;
    no_outgoing = p.outgoing host ∙ ap (λ b. unless b (lookup host before.outgoing_app_commands)) e;
  }

  Pruned-IsUnchanged :
      is_gone now (lookup host before.subject_reports) ≡ false → IsUnchanged host before after
  Pruned-IsUnchanged e = record {
    reports = p.reports host ∙ ap (λ b. unless b (lookup host before.subject_reports)) e;
    incoming = p.incoming host ∙ ap (λ b. unless b (lookup host before.incoming_app_commands)) e;
    outgoing = p.outgoing host ∙ ap (λ b. unless b (lookup host before.outgoing_app_commands)) e;
  }

  Pruned-Settled :
      (o : Option (List SubjectReport))
      → lookup host before.subject_reports ≡ o
      → IsKept before
      → Settled now host before after
  Pruned-Settled none e k = unknown e (Pruned-IsUnchanged (ap (is_gone now) e))
  Pruned-Settled (some reports) e k =
      let (earlier, last, s, l) =
        last_of reports (lookup-AllValues IsSome host before.subject_reports k.filled e) in
      let r : LastReport host before = record {
        earlier = earlier;
        last = last;
        stands = e ∙ ap some s;
      } in
      let gone : is_gone now (lookup host before.subject_reports) ≡ is_expired now last =
        ap (is_gone now) e ∙ latest_expired now reports last l in
      elim (Bool-cases (is_expired now last)) [
        | inl y ↦ silent r (ground (arith, y)) (Pruned-IsGone (gone ∙ y))
        | inr n ↦ heard r (ground (arith, n)) (Pruned-IsUnchanged (gone ∙ n))
      ]

-- In a processor whose subjects each have a report, the removal of expired subjects does not
-- panic. Of a host whose last report is more than three days old, it leaves neither reports nor
-- commands; of a host whose last report is at most three days old, and of a host without reports,
-- it leaves all as it was. The limit and the total stay, and so does what a processor keeps to.
pub remove_expired_subjects-Removed :
    (now : ℕ) (proc : MessageProcessor)
    → IsKept proc
    → (after : MessageProcessor) × (remove_expired_subjects now proc ≡ some after)
      × Removed now proc after
      × IsKept after
remove_expired_subjects-Removed now proc k =
    let (after, e, p, kept) = remove_expired_subjects-Pruned now proc k in
    (
      after,
      e,
      record {
        settled =
            λ host. Pruned-Settled now host proc after p (lookup host proc.subject_reports) refl k;
        same_max = p.same_max;
        same_total = p.same_total;
      },
      kept,
    )
