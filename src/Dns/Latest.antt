-- ===== src/Dns/Latest.antt =====
-- daemon/dnsd/latest_cmd.go: the results of commands that ran lately.
--
-- A result that is nil, of a command that still runs, is `none` within the map. The clock is an
-- argument, in seconds. `execute` is the code of one caller: its steps are functions of their own,
-- since other callers may take steps between them. The wait for a result goes by the states that
-- its readings find, one after another.
pub mod Calm
use laitos.Base.{
  ℕ, ◌+◌, ◌-◌, Bool, true, false, List, [], ◌∷◌, Option, none, some, Bytes, codes, ltb,
  if◌then◌else◌,
}
use laitos.Base.Dict.{lookup, insert}
use laitos.Toolbox.Command.{Command, Result}
use laitos.Dns.Query.{text_command_reply_ttl}

pub record LatestCommands : Type 0 where
  pub last_purge : ℕ
  pub latest_result : List (Bytes × Option Result)

-- `NewLatestCommands`
abbrev pub new_latest_commands : LatestCommands
new_latest_commands = record { last_purge = 0; latest_result = [] }

-- `purgeAfterTTL`; the clock is read for the test, and again behind it.
unfoldable pub purge_after_ttl : ℕ → ℕ → LatestCommands → LatestCommands
purge_after_ttl now again rec =
    if ltb (rec.last_purge + text_command_reply_ttl) now
    then record { last_purge = again; latest_result = [] }
    else rec

abbrev pub get : Bytes → LatestCommands → Option (Option Result)
get input rec = lookup input rec.latest_result

-- What the caller does about its command.
pub data Decision : Type 0 where
  run_now wait : Decision
  answered : Result → Decision

abbrev pub decision_on : Option (Option Result) → Decision
decision_on none = run_now
decision_on (some none) = wait
decision_on (some (some result)) = answered result

-- The look-up at the beginning of `Execute`.
unfoldable pub decide : Bytes → LatestCommands → Decision
unfolding lookup
decide input rec = decision_on (get input rec)

-- The wait, on the states that are found every 200 milliseconds.
unfoldable pub await : Bytes → List LatestCommands → Decision
unfolding decide
await input [] = wait
await input (rec ∷ later) =
    let rest = await input later in
    elim (decide input rec) [ run_now ↦ run_now | wait ↦ rest | answered result ↦ answered result ]

-- An indication that the command runs.
unfoldable pub begin_execution : Bytes → LatestCommands → LatestCommands
unfolding insert
begin_execution input rec = record rec { latest_result = insert input none rec.latest_result }

-- The result is stored.
unfoldable pub store_result : Bytes → Result → LatestCommands → LatestCommands
unfolding insert
store_result input result rec = record rec {
  latest_result = insert input (some result) rec.latest_result;
}

abbrev pub text_command : Bytes → Bytes → Command
text_command client_ip input = record {
  client_id = client_ip;
  daemon_name = codes "dnsd";
  timeout_sec = text_command_reply_ttl - 1;
  content = input;
}

pub record Answer : Type 0 where
  pub latest : LatestCommands
  pub result : Option Result
  pub ran : Option Command

-- The part of `Execute` behind its label: the command runs, and meanwhile the state may change.
unfoldable pub run_text_command :
    (Command → Result) → (LatestCommands → LatestCommands) → Bytes → Bytes → LatestCommands → Answer
unfolding begin_execution store_result
run_text_command process meanwhile client_ip input rec =
    let cmd = text_command client_ip input in
    let result = process cmd in
    record {
      latest = store_result input result (meanwhile (begin_execution input rec));
      result = some result;
      ran = some cmd;
    }

-- The last state that the wait found.
abbrev pub last_found : LatestCommands → List LatestCommands → LatestCommands
last_found rec [] = rec
last_found rec (next ∷ later) = last_found next later

abbrev settle :
    (Command → Result)
    → (LatestCommands → LatestCommands)
    → Bytes
    → Bytes
    → LatestCommands
    → Decision
    → Answer
settle process meanwhile client_ip input rec run_now =
    run_text_command process meanwhile client_ip input rec
settle process meanwhile client_ip input rec wait = record {
  latest = rec;
  result = none;
  ran = none;
}
settle process meanwhile client_ip input rec (answered result) = record {
  latest = rec;
  result = some result;
  ran = none;
}

-- What follows the look-up, on the states that a wait finds. Where the wait finds that the result
-- is gone, the command runs.
unfoldable pub respond :
    (Command → Result)
    → (LatestCommands → LatestCommands)
    → List LatestCommands
    → Bytes
    → Bytes
    → LatestCommands
    → Decision
    → Answer
unfolding run_text_command await
respond process meanwhile found client_ip input rec run_now =
    run_text_command process meanwhile client_ip input rec
respond process meanwhile found client_ip input rec wait =
    settle process meanwhile client_ip input (last_found rec found) (await input found)
respond process meanwhile found client_ip input rec (answered result) = record {
  latest = rec;
  result = some result;
  ran = none;
}

-- `Execute`; no result says that the wait goes on.
unfoldable pub execute :
    (Command → Result)
    → (LatestCommands → LatestCommands)
    → ℕ
    → ℕ
    → List LatestCommands
    → Bytes
    → Bytes
    → LatestCommands
    → Answer
unfolding purge_after_ttl decide respond
execute process meanwhile now again found client_ip input rec =
    let purged = purge_after_ttl now again rec in
    respond process meanwhile found client_ip input purged (decide input purged)
