-- ===== src/Smtp/Connection.antt =====
-- daemon/smtpd/smtp/connection.go: the server's side of an SMTP conversation.
--
-- The network is an argument: `Env` says which write succeeds and how the TLS handshake ends, and
-- the conversation's reads are a list, one entry for each line (or dot-encoded text) that the
-- reader returns. Once the list is over every read fails, as at the end of a TCP stream, so that
-- the loop of `CarryOn` recurs on the list. `sent` keeps the replies that were attempted, without
-- the CRLF. Deadlines and log messages are left out.
pub mod Replies
use laitos.Base.{
  ℕ, ◌+◌, Bool, true, false, not, ◌&&◌, ◌||◌, List, [], ◌∷◌, ◌++◌, Option, none, some, Bytes, codes,
  ltb, leb, ◌==◌, if◌then◌else◌, length, equal,
}
use Prim.Native.Nat.{bit_and, bit_or}
use laitos.Smtp.Protocol.{
  Verb, absent, unknown, helo, ehlo, starttls, vrfy, mail_from, rcpt_to, data_verb, quit, rset,
  noop, ProtocolCommand, parse_conversation_command, failure,
}

pub data Stage : Type 0 where
  greeting after_greeting hello mail_stage recipient message_data after_message_data : Stage
  quit_stage aborted_stage : Stage

-- The value of a stage: one bit each, but none for `StageGreeting`.
abbrev pub bits : Stage → ℕ
bits greeting = 0
bits after_greeting = 2
bits hello = 4
bits mail_stage = 8
bits recipient = 16
bits message_data = 32
bits after_message_data = 64
bits quit_stage = 128
bits aborted_stage = 256

pub record VerbExpectation : Type 0 where
  pub valid_in_stages : ℕ
  pub next_stage : Stage

-- `stageExpectations[verb]`, the zero value for a verb that is not in the map.
unfoldable pub stage_expectations : Verb → VerbExpectation
stage_expectations helo = record {
  valid_in_stages = bit_or (bits after_greeting) (bits hello);
  next_stage = hello;
}
stage_expectations ehlo = record {
  valid_in_stages = bit_or (bits after_greeting) (bits hello);
  next_stage = hello;
}
stage_expectations mail_from = record { valid_in_stages = bits hello; next_stage = mail_stage }
stage_expectations rcpt_to = record {
  valid_in_stages = bit_or (bits mail_stage) (bits recipient);
  next_stage = recipient;
}
stage_expectations data_verb = record {
  valid_in_stages = bits recipient;
  next_stage = message_data;
}
stage_expectations _ = record { valid_in_stages = 0; next_stage = greeting }

pub record Config : Type 0 where
  pub has_tls : Bool  -- TLSConfig is not nil
  pub max_unrecognised : ℕ
  pub server_name : Bytes

-- What one call of `ReadLine` or `ReadDotBytes` returned; `failed` also stands for `N == 0`.
pub record Read : Type 0 where
  pub content : Bytes
  pub failed : Bool

pub record Env : Type 0 where
  pub write_ok : ℕ → Bool  -- by the number of writes before
  pub handshake : Option Bytes  -- the error of the TLS handshake

pub record Conn : Type 0 where
  pub tls_attempted : Bool
  pub tls_help : Bytes
  pub unrecognised : ℕ
  pub verb : Verb
  pub stage : Stage
  pub next_stage : Stage
  pub answered : Bool
  pub sent : List Bytes

pub data ConversationState : Type 0 where
  undetermined received_command received_data completed aborted : ConversationState

pub record Command : Type 0 where
  pub state : ConversationState
  pub verb : Verb
  pub parameter : Bytes

-- `NewConnection`
abbrev pub new_connection : Conn
new_connection = record {
  tls_attempted = false;
  tls_help = codes "not used";
  unrecognised = 0;
  verb = absent;
  stage = greeting;
  next_stage = greeting;
  answered = false;
  sent = [];
}

abbrev pub is_aborted : Stage → Bool
is_aborted aborted_stage = true
is_aborted _ = false

abbrev pub is_quit : Stage → Bool
is_quit quit_stage = true
is_quit _ = false

unfoldable pub reply : Env → Bytes → Conn → Conn
reply env text c = if is_aborted c.stage then c else record c {
  sent = c.sent ++ (text ∷ []);
  stage = if env.write_ok (length c.sent) then c.stage else aborted_stage;
}

module _ (cfg : Config) (env : Env) where
  -- The `switch` of `answerOK`: the replies to the latest verb.
  unfoldable pub answer_replies : Verb → Conn → Conn
  answer_replies helo c = reply env (codes "250 " ++ cfg.server_name) c
  answer_replies ehlo c =
      let greeted = reply env (codes "250-" ++ cfg.server_name) c in
      let extended =
        reply env (codes "250-PIPELINING") (reply env (codes "250-8BITMIME") greeted) in
      let offered =
        if cfg.has_tls && not extended.tls_attempted
        then reply env (codes "250-STARTTLS") extended
        else extended in
      reply env (codes "250 OK") offered
  answer_replies mail_from c = reply env (codes "250 2.1.0 OK") c
  answer_replies rcpt_to c = reply env (codes "250 2.1.5 OK") c
  answer_replies data_verb c =
      reply env
        (if bits c.stage == bits recipient
          then codes "354 Start mail input; end with <CRLF>.<CRLF>"
          else codes "250 2.0.0 OK")
        c
  answer_replies _ c = reply env (codes "250 OK") c

  unfoldable pub answer_ok : Conn → Conn
  unfolding answer_replies
  answer_ok c = if c.answered then c else record (answer_replies c.verb c) {
    stage = (answer_replies c.verb c).next_stage;
    answered = true;
  }

  unfoldable pub negative_reply : Verb → Conn → Conn
  negative_reply helo c = reply env (codes "550 Not accepted") c
  negative_reply ehlo c = reply env (codes "550 Not accepted") c
  negative_reply mail_from c = reply env (codes "550 Bad address") c
  negative_reply rcpt_to c = reply env (codes "550 Bad address") c
  negative_reply data_verb c = reply env (codes "554 Not accepted") c
  negative_reply _ c = c

  unfoldable pub answer_negative : Conn → Conn
  unfolding negative_reply
  answer_negative c = record (negative_reply c.verb c) { answered = true }

  unfoldable pub answer_rate_limited : Conn → Conn
  answer_rate_limited c =
      let told =
        reply env (codes "451 Try again later rate limit exceeded or too many conversations") c in
      record told { answered = true; stage = aborted_stage }

  -- `case VerbSTARTTLS` behind the handshake, on its error.
  unfoldable pub after_handshake : Option Bytes → Conn → Conn
  after_handshake none c = record c {
    tls_help = codes "handshake was successful";
    tls_attempted = true;
    stage = after_greeting;
  }
  after_handshake (some err) c =
      let told =
        reply env (codes "454 TLS handshake failure")
          (record c { tls_help = codes "handshake failure - " ++ err }) in
      record told { stage = aborted_stage }

  unfoldable pub start_tls : Conn → Conn
  unfolding after_handshake
  start_tls c =
      let refused = reply env (codes "502 Command not implemented") c in
      let ready = reply env (codes "220 Ready to start TLS") c in
      if not cfg.has_tls || c.tls_attempted
      then record refused { tls_help = codes "client asked but this server does not support TLS" }
      else if is_aborted ready.stage
      then record ready { tls_help = codes "connection aborted before negotiation" }
      else after_handshake env.handshake ready

  -- The inner `switch`, on the verbs that any stage accepts.
  unfoldable pub side_command : Verb → Conn → Conn
  unfolding start_tls
  side_command rset c =
      reply env (codes "250 OK")
        (record c { stage = if bits c.stage == bits after_greeting then c.stage else hello })
  side_command noop c = reply env (codes "250 OK") c
  side_command vrfy c = reply env (codes "252 OK") c
  side_command quit c = reply env (codes "221 2.0.0 Bye") (record c { stage = quit_stage })
  side_command starttls c = start_tls c
  side_command _ c =
      reply env (codes "502 Command not implemented")
        (record c { unrecognised = c.unrecognised + 1 })
