-- ===== src/Smtp/Conversation/Order.antt =====
-- The order of an SMTP conversation: what a caller is handed, over any session.
use laitos.Base.{
  Bool, true, false, ◌&&◌, List, [], ◌∷◌, Bytes, arith, ◌≡◌, refl, if◌then◌else◌, equal, not, codes,
  ◌++◌, ◌==◌, ◌+◌,
}
use Prim.Native.Nat.{bit_and}
use laitos.Smtp.Protocol.{Verb, mail_from, rcpt_to, data_verb, ProtocolCommand}
use laitos.Smtp.Connection.{
  Stage, greeting, after_greeting, mail_stage, recipient, message_data, bits, stage_expectations,
  Config, Env, Read, Conn, Command, ConversationState, received_command, received_data, reply,
  answer_ok, answer_negative, answer_rate_limited, side_command, start_tls, after_handshake,
  new_connection,
}
use laitos.Smtp.Connection.Replies.{
  Replied, reply-Replied, answer_replies-Replied, negative_reply-Replied,
}
use laitos.Smtp.Conversation.{
  Outcome, go_on, hand_over, handle, is_over, finish, loop, receive, settled, carry_on_from,
  carry_on, decoded, after_read,
}

-- What a call of `CarryOn` handed to the caller: a command, or the body of a mail.
pub data Event : Type 0 where
  command : Verb → Event
  body : Event

-- The log of the events, the latest first.
abbrev pub log_event : ConversationState → Verb → List Event → List Event
log_event received_command v log = command v ∷ log
log_event received_data v log = body ∷ log
log_event _ v log = log

-- The calls that a server may make of a connection, in any order and number.
pub data Session (cfg : Config) (env : Env) : Conn → List Read → List Event → Type 0 where
  start : (rs : List Read) → Session cfg env new_connection rs []
  carry :
      {c : Conn} {rs : List Read} {log : List Event}
      → Session cfg env c rs log
      → Session cfg env
          (carry_on cfg env c rs).1
          (carry_on cfg env c rs).2
          (log_event (carry_on cfg env c rs).0.state (carry_on cfg env c rs).0.verb log)
  refuse :
      {c : Conn} {rs : List Read} {log : List Event}
      → Session cfg env c rs log
      → Session cfg env (answer_negative cfg env c) rs log
  limit :
      {c : Conn} {rs : List Read} {log : List Event}
      → Session cfg env c rs log
      → Session cfg env (answer_rate_limited cfg env c) rs log

-- Since the latest `MAIL FROM`, only recipients and requests to send data.
abbrev pub has_sender : List Event → Bool
has_sender (command mail_from ∷ log) = true
has_sender (command rcpt_to ∷ log) = has_sender log
has_sender (command data_verb ∷ log) = has_sender log
has_sender _ = false

-- Among those, at least one recipient.
abbrev pub has_recipient : List Event → Bool
has_recipient (command rcpt_to ∷ log) = has_sender log
has_recipient (command data_verb ∷ log) = has_recipient log
has_recipient _ = false

abbrev pub awaits_body : List Event → Bool
awaits_body (command data_verb ∷ log) = has_recipient log
awaits_body _ = false

-- A recipient comes after a sender, a request to send data after a recipient, and a body at once
-- after such a request.
abbrev pub is_ordered : List Event → Bool
is_ordered [] = true
is_ordered (command rcpt_to ∷ log) = has_sender log && is_ordered log
is_ordered (command data_verb ∷ log) = has_recipient log && is_ordered log
is_ordered (command _ ∷ log) = is_ordered log
is_ordered (body ∷ log) = awaits_body log && is_ordered log

-- What a stage says of the log.
abbrev stage_fits : Stage → List Event → Bool
stage_fits mail_stage log = has_sender log
stage_fits recipient log = has_recipient log
stage_fits message_data log = awaits_body log
stage_fits _ log = true

record Inv (c : Conn) (log : List Event) : Type 0 where
  fits : stage_fits c.stage log ≡ true
  next_fits : c.answered ≡ false → stage_fits c.next_stage log ≡ true
  ordered : is_ordered log ≡ true

Replied-Inv : {c d : Conn} {log : List Event} → Replied c d → Inv c log → Inv d log
Replied-Inv r i = ground arith

reply-Inv :
    (env : Env) (text : Bytes) (c : Conn) {log : List Event}
    → Inv c log
    → Inv (reply env text c) log
reply-Inv env text c = Replied-Inv (reply-Replied env text c)

has_sender_of_recipient : (log : List Event) → has_recipient log ≡ true → has_sender log ≡ true
has_sender_of_recipient (command rcpt_to ∷ log) h = h
has_sender_of_recipient (command data_verb ∷ log) h = has_sender_of_recipient log h
has_sender_of_recipient _ h = absurd (cc)

-- A verb that a stage expects fits the log there.
abbrev is_expected : Verb → Stage → Bool
is_expected v s =
    not ((stage_expectations v).valid_in_stages == 0)
    && not (bit_and (stage_expectations v).valid_in_stages (bits s) == 0)

is_expected-fits :
    (v : Verb) (s : Stage) (log : List Event)
    → is_expected v s ≡ true
    → stage_fits s log ≡ true
    → is_ordered log ≡ true
    → (stage_fits s (command v ∷ log) ≡ true)
      × (stage_fits (stage_expectations v).next_stage (command v ∷ log) ≡ true)
      × (is_ordered (command v ∷ log) ≡ true)
unfolding stage_expectations
is_expected-fits rcpt_to recipient log h f o = ground (arith, has_sender_of_recipient log f)
is_expected-fits _ _ log h f o = ground arith

abbrev OutcomeInv : Outcome → List Event → Type 0
OutcomeInv (go_on d) log = Inv d log
OutcomeInv (hand_over m d) log = (m.state ≡ received_command) × Inv d (command m.verb ∷ log)

if-Inv :
    (b : Bool) (c d : Conn) {log : List Event}
    → Inv c log
    → Inv d log
    → Inv (if b then c else d) log
if-Inv true c d i j = i
if-Inv false c d i j = j

after_read-Inv :
    (failed : Bool) (c : Conn) {log : List Event} → Inv c log → Inv (after_read failed c) log
after_read-Inv failed c {log} i = ground arith

module _ (cfg : Config) (env : Env) where
  answer_ok-Inv : (c : Conn) {log : List Event} → Inv c log → Inv (answer_ok cfg env c) log
  unfolding answer_ok
  answer_ok-Inv c {log} i = ground (arith, answer_replies-Replied cfg env c.verb c)

  settled-Inv : (c : Conn) {log : List Event} → Inv c log → Inv (settled cfg env c) log
  settled-Inv c {log} i = ground (arith, answer_ok-Inv c i)

  answer_negative-Inv :
      (c : Conn) {log : List Event} → Inv c log → Inv (answer_negative cfg env c) log
  unfolding answer_negative
  answer_negative-Inv c {log} i = ground (arith, negative_reply-Replied cfg env c.verb c)

  answer_rate_limited-Inv :
      (c : Conn) {log : List Event} → Inv c log → Inv (answer_rate_limited cfg env c) log
  unfolding answer_rate_limited
  answer_rate_limited-Inv c {log} i = ground (arith, reply-Replied env _ c)

  start_tls-Inv : (c : Conn) {log : List Event} → Inv c log → Inv (start_tls cfg env c) log
  unfolding start_tls after_handshake reply
  start_tls-Inv c {log} i = ground arith

  side_command-Inv :
      (v : Verb) (c : Conn) {log : List Event} → Inv c log → Inv (side_command cfg env v c) log
  unfolding side_command reply
  side_command-Inv v c {log} i = ground (arith, start_tls-Inv c i)

  handle-Inv :
      (p : ProtocolCommand) (c : Conn) {log : List Event}
      → Inv c log
      → OutcomeInv (handle cfg env p c) log
  unfolding handle
  handle-Inv p c {log} i = ground (
    arith,
    side_command-Inv p.verb c i,
    is_expected-fits p.verb c.stage log,
    reply-Inv env (codes "502 Command not implemented")
        (record c { unrecognised = c.unrecognised + 1 }) {log = log},
    reply-Inv env (codes "553 " ++ p.error_info) c i,
    reply-Inv env (codes "503 Bad sequence of commands") c i,
  )

  finish-fits :
      (c : Conn) {log : List Event}
      → Inv c log
      → Inv
          (finish cfg env c).1
          (log_event (finish cfg env c).0.state (finish cfg env c).0.verb log)
  unfolding finish reply
  finish-fits c {log} i = ground arith

  -- The result of a call of `CarryOn` and the log that it makes.
  abbrev ResultInv : Command × Conn × List Read → List Event → Type 0
  ResultInv r log = Inv r.1 (log_event r.0.state r.0.verb log)

  if-ResultInv :
      (b : Bool) (r s : Command × Conn × List Read) (log : List Event)
      → ResultInv r log
      → ResultInv s log
      → ResultInv (if b then r else s) log
  if-ResultInv true r s log i j = i
  if-ResultInv false r s log i j = j

  outcome-Inv :
      (o : Outcome) (rs : List Read) {log : List Event}
      → OutcomeInv o log
      → ((d : Conn) → Inv d log → ResultInv (loop cfg env d rs) log)
      → ResultInv
          (elim o as (λ _. Command × Conn × List Read) [
            | go_on d ↦ loop cfg env d rs
            | hand_over m d ↦ (m, d, rs)
          ])
          log
  outcome-Inv (go_on d) rs i continues = continues d i
  outcome-Inv (hand_over m d) rs (e, i) continues = rw e i

  loop-Inv :
      (rs : List Read) (c : Conn) {log : List Event} → Inv c log → ResultInv (loop cfg env c rs) log
  unfolding loop
  loop-Inv [] c {log} i =
      finish-fits (if is_over cfg env c then c else after_read true c)
        (if-Inv (is_over cfg env c) c (after_read true c) i (after_read-Inv true c i))
  loop-Inv (r ∷ rs) c {log} i =
      let j = after_read-Inv r.failed c i in
      if-ResultInv (is_over cfg env c) _ _ _ (finish-fits c i) (
        if-ResultInv (equal r.content []) _ _ _ (finish-fits (after_read r.failed c) j) (
          outcome-Inv (handle cfg env (decoded r.content) (after_read r.failed c)) rs
            (handle-Inv (decoded r.content) (after_read r.failed c) j) (λ d k. loop-Inv rs d k)))

  receive-Inv :
      (rs : List Read) (c : Conn) {log : List Event}
      → awaits_body log ≡ true
      → Inv c log
      → ResultInv (receive cfg env c rs) log
  unfolding receive
  receive-Inv [] c a i = loop-Inv [] _ (after_read-Inv true c i)
  receive-Inv (r ∷ rs) c {log} a i =
      if-ResultInv r.failed _ _ _ (loop-Inv rs _ (after_read-Inv true c i))
        (if-ResultInv (equal r.content []) _ _ _ (loop-Inv rs c i) (ground arith))

  greet-Inv :
      (text : Bytes) (c : Conn) {log : List Event}
      → Inv c log
      → Inv (record (reply env text c) { stage = after_greeting }) log
  greet-Inv text c {log} i = ground (arith, reply-Inv env text c i)

  carry_on_from-Inv :
      (s : Stage) (c : Conn) (rs : List Read) {log : List Event}
      → c.stage ≡ s
      → Inv c log
      → ResultInv (carry_on_from cfg env s c rs) log
  unfolding carry_on_from
  carry_on_from-Inv greeting c rs e i = loop-Inv rs _ (greet-Inv _ c i)
  carry_on_from-Inv message_data c rs {log} e i = receive-Inv rs c (ground (arith, i.fits)) i
  carry_on_from-Inv _ c rs e i = loop-Inv rs c i

  carry_on-Inv :
      (c : Conn) (rs : List Read) {log : List Event}
      → Inv c log
      → ResultInv (carry_on cfg env c rs) log
  unfolding carry_on
  carry_on-Inv c rs i =
      carry_on_from-Inv (settled cfg env c).stage (settled cfg env c) rs refl (settled-Inv c i)

  Session-Inv :
      {c : Conn} {rs : List Read} {log : List Event} → Session cfg env c rs log → Inv c log
  Session-Inv (start rs) = ground arith
  Session-Inv (carry {c} {rs} s) = carry_on-Inv c rs (Session-Inv s)
  Session-Inv (refuse {c} s) = answer_negative-Inv c (Session-Inv s)
  Session-Inv (limit {c} s) = answer_rate_limited-Inv c (Session-Inv s)

  -- Over any session, whatever the client sends, whatever writes fail, and however calls of
  -- `CarryOn`, `AnswerNegative` and `AnswerRateLimited` follow one another: the caller is handed
  -- a mail's body only directly after a DATA command, a DATA command only after a recipient of
  -- the same mail, and a recipient only after a sender, with no other command in between.
  pub Session-ordered :
      {c : Conn} {rs : List Read} {log : List Event}
      → Session cfg env c rs log
      → is_ordered log ≡ true
  Session-ordered s = (Session-Inv s).ordered
