-- ===== src/Dns/Latest/Calm.antt =====
-- How long the result of a command is remembered: until the map of results is next purged, which
-- is from 30 seconds after its last purge, however lately the command ran.
use mathlib.Core.Path.{subst}
use laitos.Base.{
  ℕ, ◌+◌, ◌≤◌, ◌≡◌, ◌≢◌, refl, ap, ◌∙◌, false, List, Option, none, some, Bytes, arith, ltb, equal,
  equal_iff, equal_self, [], ◌<◌, ◌⊎◌, inl, inr, Bool-cases, true,
}
use laitos.Base.Dict.{lookup, insert, lookup-insert}
use laitos.Toolbox.Command.{Command, Result}
use laitos.Dns.Query.{text_command_reply_ttl}
use laitos.Dns.Latest.{
  LatestCommands, Answer, answered, decision_on, purge_after_ttl, decide, begin_execution,
  store_result, run_text_command, respond, execute, text_command,
}

-- The steps that callers take, in any order, until a time: they purge, begin and end commands
-- other than the one given.
pub data Calm (input : Bytes) (until : ℕ) : LatestCommands → LatestCommands → Type 0 where
  still : {rec : LatestCommands} → Calm input until rec rec
  purges :
      {rec after : LatestCommands} (now again : ℕ)
      → now ≤ until
      → Calm input until (purge_after_ttl now again rec) after
      → Calm input until rec after
  begins :
      {rec after : LatestCommands} (other : Bytes)
      → other ≢ input
      → Calm input until (begin_execution other rec) after
      → Calm input until rec after
  ends :
      {rec after : LatestCommands} (other : Bytes) (result : Result)
      → other ≢ input
      → Calm input until (store_result other result rec) after
      → Calm input until rec after

-- The state has the result, and was last purged at the time given.
record Remembers (input : Bytes) (purged : ℕ) (result : Result) (rec : LatestCommands)
    : Type 0 where
  known : lookup input rec.latest_result ≡ some (some result)
  dated : rec.last_purge ≡ purged

purge_after_ttl-early :
    (now again : ℕ) (rec : LatestCommands)
    → now ≤ rec.last_purge + text_command_reply_ttl
    → purge_after_ttl now again rec ≡ rec
unfolding purge_after_ttl
purge_after_ttl-early now again rec h =
    let n : ltb (rec.last_purge + text_command_reply_ttl) now ≡ false = ground (arith, h) in
    rw n refl

purge_after_ttl-late :
    (now again : ℕ) (rec : LatestCommands)
    → rec.last_purge + text_command_reply_ttl < now
    → purge_after_ttl now again rec ≡ record { last_purge = again; latest_result = [] }
unfolding purge_after_ttl
purge_after_ttl-late now again rec h =
    let y : ltb (rec.last_purge + text_command_reply_ttl) now ≡ true = ground (arith, h) in
    rw y refl

insert-other :
    (input other : Bytes) (r : Option Result) (dict : List (Bytes × Option Result))
    → other ≢ input
    → lookup input (insert other r dict) ≡ lookup input dict
insert-other input other r dict n =
    let different : equal other input ≡ false = ground (arith, equal_iff other input, n) in
    lookup-insert other input r dict ∙ rw different refl

Calm-Remembers :
    {input : Bytes} {until purged : ℕ} {result : Result} {rec after : LatestCommands}
    → Calm input until rec after
    → until ≤ purged + text_command_reply_ttl
    → Remembers input purged result rec
    → Remembers input purged result after
Calm-Remembers still f r = r
Calm-Remembers {rec = rec} (purges now again h c) f r =
    Calm-Remembers c f (rw (purge_after_ttl-early now again rec (omega (arith, h, f, r.dated))) r)
Calm-Remembers (begins other n c) f r = Calm-Remembers c f (record {
  known = unfold begin_execution in insert-other _ other none _ n ∙ r.known;
  dated = unfold begin_execution in r.dated;
})
Calm-Remembers (ends other result n c) f r = Calm-Remembers c f (record {
  known = unfold store_result in insert-other _ other (some result) _ n ∙ r.known;
  dated = unfold store_result in r.dated;
})

run_text_command-Remembers :
    (process : Command → Result) (meanwhile : LatestCommands → LatestCommands)
    (client_ip input : Bytes) (rec : LatestCommands) (result : Result)
    → (run_text_command process meanwhile client_ip input rec).result ≡ some result
    → Remembers input
        (run_text_command process meanwhile client_ip input rec).latest.last_purge
        result
        (run_text_command process meanwhile client_ip input rec).latest
unfolding run_text_command store_result
run_text_command-Remembers process meanwhile client_ip input rec result r = record {
  known =
      lookup-insert input input _ (meanwhile (begin_execution input rec)).latest_result
      ∙ rw (equal_self input) (ap some r);
  dated = refl;
}

-- What a caller is given at a time: within 30 seconds of the purge the known result, and nothing
-- runs; later on its command runs.
abbrev pub Timed : ℕ → ℕ → Bytes → Bytes → Result → Answer → Type 0
Timed purged now client_ip input result a =
    ((now ≤ purged + 30) × (a.result ≡ some result) × (a.ran ≡ none))
    ⊎ ((purged + 30 < now) × (a.ran ≡ some (text_command client_ip input)))

module _ (process : Command → Result) (meanwhile : LatestCommands → LatestCommands)
    (client_ip input : Bytes) (now again : ℕ) (found : List LatestCommands)
    (rec : LatestCommands) where
  execute-early :
      (result : Result)
      → lookup input rec.latest_result ≡ some (some result)
      → now ≤ rec.last_purge + text_command_reply_ttl
      → ((execute process meanwhile now again found client_ip input rec).result ≡ some result)
        × ((execute process meanwhile now again found client_ip input rec).ran ≡ none)
  unfolding execute decide
  execute-early result known h =
      let response = respond process meanwhile found client_ip input in
      let answer : execute process meanwhile now again found client_ip input rec
          ≡ response rec (answered result) =
        ap (λ (s : LatestCommands). response s (decide input s))
          (purge_after_ttl-early now again rec h)
        ∙ ap (λ o. response rec (decision_on o)) known in
      (
        ap (λ (b : Answer). b.result) answer ∙ unfold respond in refl,
        ap (λ (b : Answer). b.ran) answer ∙ unfold respond in refl,
      )

  execute-late :
      rec.last_purge + text_command_reply_ttl < now
      → (execute process meanwhile now again found client_ip input rec).ran
        ≡ some (text_command client_ip input)
  unfolding execute decide respond run_text_command lookup
  execute-late h =
      ap
        (λ (s : LatestCommands).
          (respond process meanwhile found client_ip input s (decide input s)).ran)
        (purge_after_ttl-late now again rec h)

-- How long the result of a command that has run is given in place of running the command: until
-- 30 seconds after the last purge before the run ended, and no longer. Whatever other commands are
-- begun and ended meanwhile, and whoever asks, the answer until then is the result of the run, and
-- nothing runs; the first caller to come later has the command run again. In between,
-- `purgeAfterTTL` is called within the same 30 seconds only.
pub execute-Calm :
    (process : Command → Result) (meanwhile : LatestCommands → LatestCommands)
    (client_ip again_ip input : Bytes) (rec after : LatestCommands) (until now again : ℕ)
    (found : List LatestCommands) (a : Answer) (result : Result)
    → run_text_command process meanwhile client_ip input rec ≡ a
    → a.result ≡ some result
    → Calm input until a.latest after
    → until ≤ a.latest.last_purge + 30
    → Timed a.latest.last_purge now again_ip input result
        (execute process meanwhile now again found again_ip input after)
execute-Calm process meanwhile client_ip again_ip input rec after until now again found a result e r
      c f =
    let start =
      subst
        (λ (b : Answer).
          b.result ≡ some result → Remembers input b.latest.last_purge result b.latest)
        e (run_text_command-Remembers process meanwhile client_ip input rec result) r in
    let remembered = Calm-Remembers c f start in
    elim (Bool-cases (ltb (a.latest.last_purge + 30) now)) [
      | inl y ↦
          let late : a.latest.last_purge + 30 < now = ground (arith, y) in
          inr (
            late,
            execute-late process meanwhile again_ip input now again found after
                (omega (arith, late, remembered.dated)),
          )
      | inr n ↦
          let early : now ≤ a.latest.last_purge + 30 = ground (arith, n) in
          let (known, still_none) =
            execute-early process meanwhile again_ip input now again found after result
              remembered.known (omega (arith, early, remembered.dated)) in
          inl (early, known, still_none)
    ]
