-- ===== src/Smtp/Tests.antt =====
-- The theorems about SMTP at concrete inputs, and a whole conversation run.
use laitos.Base.{
  ℕ, ◌≢◌, Option, ◌≤◌, ◌≡◌, refl, true, false, List, [], ◌∷◌, none, some, Bytes, codes, inl, arith,
  ltb, equal, has_prefix, slice,
}
use laitos.Smtp.Protocol.{
  helo, mail_from, rcpt_to, data_verb, mail_from_row, success, ProtocolCommand,
  parse_conversation_command, contains_7bit_ascii_only,
}
use laitos.Smtp.Protocol.Safety.{parse_conversation_command_total}
use laitos.Smtp.Protocol.RoundTrip.{parse_conversation_command-mail_line, mail_line}
use laitos.Smtp.Connection.{
  Config, Env, Read, Conn, Command, undetermined, message_data, aborted_stage, mail_stage,
  new_connection, answer_ok, answer_replies, reply, stage_expectations, side_command,
}
use laitos.Smtp.Conversation.{carry_on, carry_on_from, loop, receive, handle, finish, decoded}
use laitos.Smtp.Conversation.Order.{
  Event, command, body, Session, start, carry, is_ordered, Session-ordered,
}
use laitos.Smtp.Conversation.Limits.{Session-never_gives_up, IsPatient}
use laitos.Smtp.Conversation.Silence.{answer_ok-forgets_abort, carry_on-empty_mail}
use laitos.Smtp.Daemon.{Received, Served, too_long, nothing, handle_tcp_connection, serve}
use laitos.Smtp.Daemon.Abort.{serve-after_abort}
use laitos.Smtp.Daemon.Dmarc.{
  is_dmarc_policy_enforcing, is_dmarc_policy_enforcing-depth, enforcing_within,
}
use laitos.Smtp.Daemon.Setup.{
  Daemon, MailClient, World, IsSetUp, initialise_daemon, with_defaults, initialise_daemon-IsSetUp,
}

abbrev cfg : Config
cfg = record { has_tls = false; max_unrecognised = 2; server_name = codes "mx" }

abbrev env : Env
env = record { write_ok = λ _. true; handshake = none }

abbrev broken : Env
broken = record { write_ok = λ _. false; handshake = none }

abbrev line : Bytes → Read
line s = record { content = s; failed = false }

abbrev reads : List Read
reads =
    line (codes "HELO a")
    ∷ line (codes "MAIL FROM:<a@b>")
    ∷ line (codes "RCPT TO:<c@d>")
    ∷ line (codes "DATA")
    ∷ line (codes "hi")
    ∷ []

abbrev r1 : Command × Conn × List Read
r1 = carry_on cfg env new_connection reads

abbrev r2 : Command × Conn × List Read
r2 = carry_on cfg env r1.1 r1.2

abbrev r3 : Command × Conn × List Read
r3 = carry_on cfg env r2.1 r2.2

abbrev r4 : Command × Conn × List Read
r4 = carry_on cfg env r3.1 r3.2

abbrev r5 : Command × Conn × List Read
r5 = carry_on cfg env r4.1 r4.2

abbrev mail_log : List Event
mail_log = body ∷ command data_verb ∷ command rcpt_to ∷ command mail_from ∷ command helo ∷ []

mail_session : Session cfg env r5.1 r5.2 mail_log
unfolding carry_on carry_on_from loop receive handle finish decoded parse_conversation_command reply
    answer_ok stage_expectations side_command equal has_prefix slice
mail_session = carry (carry (carry (carry (carry (start reads)))))

Session-ordered_example : is_ordered mail_log ≡ true
Session-ordered_example = Session-ordered cfg env mail_session

Session-never_gives_up_example : (r5.1.unrecognised ≤ 2) × IsPatient r5.1
Session-never_gives_up_example = Session-never_gives_up cfg env mail_session

parse_conversation_command_total_example :
    (c : ProtocolCommand) × (parse_conversation_command (codes "RCPT TO: <> x") ≡ some c)
parse_conversation_command_total_example = parse_conversation_command_total (codes "RCPT TO: <> x")

parse_conversation_command-mail_line_example :
    parse_conversation_command (mail_line (codes "Mail From") (codes "a b>@c"))
    ≡ some (success mail_from (codes "a b>@c"))
unfolding contains_7bit_ascii_only
parse_conversation_command-mail_line_example =
    parse_conversation_command-mail_line (codes "Mail From") (codes "a b>@c") mail_from_row
      (inl refl) refl refl

-- After `MAIL FROM` was handed over, before its answer.
abbrev pending : Conn
pending = record new_connection { verb = mail_from; next_stage = mail_stage; answered = false }

answer_ok-forgets_abort_example :
    ((answer_replies cfg broken mail_from pending).stage ≡ aborted_stage)
    × ((answer_ok cfg broken pending).stage ≡ mail_stage)
    × ((answer_ok cfg broken pending).answered ≡ true)
answer_ok-forgets_abort_example = answer_ok-forgets_abort cfg broken pending (λ _. refl) refl

abbrev receiving : Conn
receiving = record new_connection { verb = data_verb; stage = message_data; answered = true }

abbrev after_empty : Command × Conn × List Read
after_empty = carry_on cfg env receiving (line [] ∷ [])

carry_on-empty_mail_example :
    (after_empty.0.state ≡ undetermined)
    × (after_empty.1.sent ≡ [])
    × ((carry_on cfg env after_empty.1 []).1.sent ≡ [])
carry_on-empty_mail_example = carry_on-empty_mail cfg env receiving refl refl (omega arith)

abbrev served : Served
served = handle_tcp_connection cfg env (codes "d" ∷ []) (λ k. ltb 999 k) reads

abbrev mail : Received
mail = record { from_addr = codes "a@b"; mail_body = codes "hi"; to_addrs = codes "c@d" ∷ [] }

abbrev lost : Conn
lost = record new_connection { stage = aborted_stage; answered = true }

abbrev served_lost : Served
served_lost = serve cfg env (codes "d" ∷ []) (λ _. false) 200 lost reads nothing

serve-after_abort_example :
    (served_lost.logged
      ≡ some (record { status = too_long; missing_parameters = true; num_commands = 256 }))
    × (served_lost.rest ≡ reads)
unfolding equal
serve-after_abort_example =
    serve-after_abort cfg env lost refl (omega arith) (codes "d" ∷ []) (λ _. false) 200 reads
      nothing refl (λ _. refl)

abbrev relay : MailClient
relay = record { mail_from = codes "me@d"; mta_host = codes "relay"; mta_port = 25 }

abbrev daemon : Daemon
daemon = record {
  address = [];
  port = 0;
  tls_cert_path = [];
  tls_key_path = [];
  per_ip_limit = 0;
  my_domains = codes "d" ∷ [];
  forward_to = codes "me@elsewhere" ∷ [];
  command_runner = none;
  forward_mail_client = relay;
}

abbrev world : World
world = record { public_ip = codes "1.2.3.4"; load_tls = λ cert key. some (codes "no file") }

initialise_daemon-IsSetUp_example : IsSetUp world (with_defaults daemon)
unfolding initialise_daemon
initialise_daemon-IsSetUp_example = initialise_daemon-IsSetUp world daemon refl

-- Every domain rejects mail that fails its DMARC checks.
abbrev rejecting : Bytes → Option (List Bytes)
rejecting domain = some (codes "v=dmarc1; p=reject" ∷ [])

abbrev unchanged : Bytes → Bytes
unchanged s = s

is_dmarc_policy_enforcing-depth_example :
    enforcing_within (λ _. none) unchanged 9 (codes "a.b.example.com")
    ≡ is_dmarc_policy_enforcing (λ _. none) unchanged (codes "a.b.example.com")
is_dmarc_policy_enforcing-depth_example =
    is_dmarc_policy_enforcing-depth (λ _. none) unchanged 9 (codes "a.b.example.com") (omega arith)

not_nil : {c : ℕ} {s : Bytes} → (c ∷ s) ≢ []
not_nil e = absurd (cc)
