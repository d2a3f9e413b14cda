-- ===== src/Smtp/Daemon.antt =====
-- `HandleTCPConnection` of daemon/smtpd/smtpd.go: the server's side of one SMTP conversation.
--
-- The conversation is that of Smtp.Conversation. `myDomainsHash` is the list of its keys, and the
-- lock-down flag, which anything may set at any time, is a function of the rounds that are left.
-- Of what is logged there are the status at the end and the count of commands. `TLSHelp` is left
-- out. `ProcessMail` is what becomes of a delivery.
pub mod History
pub mod Delivery
pub mod Abort
pub mod Setup
pub mod Dmarc
use laitos.Base.{
  ℕ, zero, suc, ◌+◌, ◌-◌, Bool, true, false, not, ◌&&◌, ◌||◌, List, [], ◌∷◌, ◌++◌, Option, none,
  some, Bytes, ltb, if◌then◌else◌, drop, length, equal, index_byte,
}
use laitos.Smtp.Protocol.{Verb, mail_from, rcpt_to}
use laitos.Smtp.Connection.{
  Config, Env, Read, Conn, Command, received_command, received_data, completed, undetermined,
  aborted, answer_negative, answer_rate_limited, new_connection,
}
use laitos.Smtp.Conversation.{carry_on}

abbrev pub max_conversation_length : ℕ
max_conversation_length = 256

abbrev pub max_num_recipients : ℕ
max_num_recipients = 100

-- `fromAddr`, `mailBody` and `toAddrs`.
pub record Received : Type 0 where
  pub from_addr : Bytes
  pub mail_body : Bytes
  pub to_addrs : List Bytes

abbrev pub nothing : Received
nothing = record { from_addr = []; mail_body = []; to_addrs = [] }

-- `completionStatus` at the label `done`: the conversation is taking too long, is done, is aborted
-- (with the event's parameter), or had a recipient at a domain that is not accepted.
pub data Status : Type 0 where
  too_long finished foreign_domain : Status
  gave_up : Bytes → Status

-- Where the `switch` on the conversation's state leads: on, or to `done`, with or without a
-- negative answer.
pub data Verdict : Type 0 where
  next rejected : Received → Verdict
  done : Status → Received → Verdict

unfoldable pub is_my_domain : List Bytes → Bytes → Bool
is_my_domain [] s = false
is_my_domain (t ∷ ts) s = equal t s || is_my_domain ts s

-- `case smtp.VerbRCPTTO` behind the search for the at sign.
unfoldable pub on_recipient : List Bytes → Option ℕ → Bytes → Received → Verdict
unfolding is_my_domain
on_recipient domains none to r = next r
on_recipient domains (some zero) to r = next r
on_recipient domains (some (suc n)) to r =
    if is_my_domain domains (drop (n + 2) to)
    then next (
        if ltb (length r.to_addrs) max_num_recipients
        then record r { to_addrs = r.to_addrs ++ (to ∷ []) }
        else r)
    else rejected r

-- `case smtp.ConvReceivedCommand`
unfoldable pub on_command : List Bytes → Verb → Bytes → Received → Verdict
unfolding on_recipient index_byte
on_command domains mail_from parameter r = next (record r { from_addr = parameter })
on_command domains rcpt_to parameter r =
    on_recipient domains (index_byte parameter b'@') parameter r
on_command domains _ parameter r = next r

unfoldable pub on_event : List Bytes → Command → Received → Verdict
unfolding on_command
on_event domains ev r = elim ev.state [
  | completed ↦ done finished r
  | aborted ↦ done (gave_up ev.parameter) r
  | received_command ↦ on_command domains ev.verb ev.parameter r
  | received_data ↦ next (record r { mail_body = ev.parameter })
  | undetermined ↦ next r
]

-- The last line that is logged: `completionStatus`, whether parameters were missing, and
-- `numCommands`.
pub record Summary : Type 0 where
  pub status : Status
  pub missing_parameters : Bool
  pub num_commands : ℕ

-- What is left of a conversation; `delivered` is what `ProcessMail` is given. In lock-down no
-- summary is logged.
pub record Served : Type 0 where
  pub conn : Conn
  pub rest : List Read
  pub delivered : Option Received
  pub logged : Option Summary

abbrev pub locked : Conn → List Read → Served
locked c rs = record { conn = c; rest = rs; delivered = none; logged = none }

abbrev pub is_complete : Received → Bool
is_complete r =
    not (equal r.from_addr []) && (ltb 0 (length r.to_addrs) && not (equal r.mail_body []))

module _ (cfg : Config) (env : Env) where
  -- From the label `done` on.
  unfoldable pub deliver_or_refuse : Status → ℕ → Conn → List Read → Received → Served
  unfolding equal
  deliver_or_refuse status num_commands c rs r =
      if is_complete r
      then record {
        conn = c;
        rest = rs;
        delivered = some r;
        logged =
            some
              (record { status = status; missing_parameters = false; num_commands = num_commands });
      }
      else record {
        conn = answer_negative cfg env c;
        rest = rs;
        delivered = none;
        logged =
            some
              (record { status = status; missing_parameters = true; num_commands = num_commands });
      }

  module _ (domains : List Bytes) (locked_down : ℕ → Bool) where
    -- The loop, with the number of its rounds that are left: `numCommands` is what they leave of
    -- the limit.
    unfoldable pub serve : ℕ → Conn → List Read → Received → Served
    unfolding deliver_or_refuse on_event
    serve zero c rs r =
        if locked_down 0
        then locked c rs
        else deliver_or_refuse too_long max_conversation_length (answer_rate_limited cfg env c) rs r
    serve (suc n) c rs r =
        let (ev, c', rs') = carry_on cfg env c rs in
        let count = max_conversation_length - n in
        let served : Served = elim (on_event domains ev r) [
          | next r' ↦ serve n c' rs' r'
          | done status r' ↦ deliver_or_refuse status count c' rs' r'
          | rejected r' ↦ deliver_or_refuse foreign_domain count (answer_negative cfg env c') rs' r'
        ] in
        if locked_down (suc n) then locked c rs else served

    unfoldable pub handle_tcp_connection : List Read → Served
    unfolding serve
    handle_tcp_connection rs = serve max_conversation_length new_connection rs nothing
