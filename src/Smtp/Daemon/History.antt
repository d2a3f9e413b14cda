-- ===== src/Smtp/Daemon/History.antt =====
-- What a server is handed by the calls that it makes of a connection, from its first read on.
use laitos.Base.{List, [], ◌∷◌, Bytes, true, ◌≡◌}
use laitos.Smtp.Protocol.{Verb, mail_from, rcpt_to}
use laitos.Smtp.Connection.{
  Config, Env, Read, Conn, Command, ConversationState, received_command, received_data,
  answer_negative, answer_rate_limited, new_connection,
}
use laitos.Smtp.Conversation.{carry_on}
use laitos.Smtp.Conversation.Order.{
  Event, log_event, Session, start, carry, refuse, limit, is_ordered, Session-ordered,
}

-- The results of the calls of `CarryOn`, the latest first.
abbrev pub History : Type 0
History = List Command

abbrev body_or : ConversationState → Bytes → Bytes → Bytes
body_or received_data parameter older = parameter
body_or _ parameter older = older

-- The body that was received last.
abbrev pub latest_body : History → Bytes
latest_body [] = []
latest_body (m ∷ older) = body_or m.state m.parameter (latest_body older)

abbrev sender_or : ConversationState → Verb → Bytes → Bytes → Bytes
sender_or received_command mail_from parameter older = parameter
sender_or _ _ parameter older = older

-- The parameter of the last `MAIL FROM`.
abbrev pub latest_sender : History → Bytes
latest_sender [] = []
latest_sender (m ∷ older) = sender_or m.state m.verb m.parameter (latest_sender older)

abbrev with_recipient : ConversationState → Verb → Bytes → List Bytes → List Bytes
with_recipient received_command rcpt_to parameter older = parameter ∷ older
with_recipient _ _ parameter older = older

-- The parameters of `RCPT TO`.
abbrev pub recipients : History → List Bytes
recipients [] = []
recipients (m ∷ older) = with_recipient m.state m.verb m.parameter (recipients older)

-- The events among the results.
abbrev pub log_of : History → List Event
log_of [] = []
log_of (m ∷ older) = log_event m.state m.verb (log_of older)

-- The calls of a server on the reads of one connection.
pub data Trace (cfg : Config) (env : Env) (reads : List Read)
    : Conn → List Read → History → Type 0 where
  begin : Trace cfg env reads new_connection reads []
  call :
      {c : Conn} {rs : List Read} {history : History}
      → Trace cfg env reads c rs history
      → Trace cfg env reads
          (carry_on cfg env c rs).1
          (carry_on cfg env c rs).2
          ((carry_on cfg env c rs).0 ∷ history)
  answer :
      {c : Conn} {rs : List Read} {history : History}
      → Trace cfg env reads c rs history
      → Trace cfg env reads (answer_negative cfg env c) rs history
  give_up :
      {c : Conn} {rs : List Read} {history : History}
      → Trace cfg env reads c rs history
      → Trace cfg env reads (answer_rate_limited cfg env c) rs history

module _ (cfg : Config) (env : Env) (reads : List Read) where
  Trace-Session :
      {c : Conn} {rs : List Read} {history : History}
      → Trace cfg env reads c rs history
      → Session cfg env c rs (log_of history)
  Trace-Session begin = start reads
  Trace-Session (call t) = carry (Trace-Session t)
  Trace-Session (answer t) = refuse (Trace-Session t)
  Trace-Session (give_up t) = limit (Trace-Session t)

  pub Trace-ordered :
      {c : Conn} {rs : List Read} {history : History}
      → Trace cfg env reads c rs history
      → is_ordered (log_of history) ≡ true
  Trace-ordered t = Session-ordered cfg env (Trace-Session t)
