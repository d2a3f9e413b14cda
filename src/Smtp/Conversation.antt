-- ===== src/Smtp/Conversation.antt =====
-- `CarryOn` of daemon/smtpd/smtp/connection.go, and the sessions that a caller makes of it.
pub mod Order
pub mod Limits
pub mod Silence
use laitos.Base.{
  ℕ, ◌+◌, Bool, true, false, not, ◌&&◌, ◌||◌, List, [], ◌∷◌, ◌++◌, Option, none, some, Bytes, codes,
  ltb, leb, ◌==◌, if◌then◌else◌, length, equal,
}
use Prim.Native.Nat.{bit_and}
use laitos.Smtp.Protocol.{
  Verb, absent, unknown, ProtocolCommand, parse_conversation_command, failure,
}
use laitos.Smtp.Connection.{
  Stage, greeting, after_greeting, hello, message_data, after_message_data, quit_stage,
  aborted_stage, bits, stage_expectations, Config, Env, Read, Conn, Command, ConversationState,
  undetermined, received_command, received_data, completed, reply, is_aborted, is_quit, answer_ok,
  answer_negative, answer_rate_limited, side_command, new_connection,
}

abbrev is_unknown : Verb → Bool
is_unknown unknown = true
is_unknown _ = false

abbrev is_absent : Verb → Bool
is_absent absent = true
is_absent _ = false

-- The command on a line. The decoder has a result on every line (Smtp.Protocol.Safety), so that
-- the second case is never met.
unfoldable pub decoded : Bytes → ProtocolCommand
decoded line = elim (parse_conversation_command line) [ some c ↦ c | none ↦ failure unknown [] ]

-- What a round of the loop does: it goes on, or returns the command to the caller.
pub data Outcome : Type 0 where
  go_on : Conn → Outcome
  hand_over : Command → Conn → Outcome

abbrev pub with_rest : Command × Conn → List Read → Command × Conn × List Read
with_rest (m, c) rest = (m, c, rest)

-- `readCommand` aborts the conversation where the read failed or met its limit.
abbrev pub after_read : Bool → Conn → Conn
after_read failed c = if failed then record c { stage = aborted_stage } else c

module _ (cfg : Config) (env : Env) where
  unfoldable pub handle : ProtocolCommand → Conn → Outcome
  handle p c =
      if is_unknown p.verb
      then go_on (
          reply env (codes "502 Command not implemented")
            (record c { unrecognised = c.unrecognised + 1 }))
      else if not (equal p.error_info [])
      then go_on (reply env (codes "553 " ++ p.error_info) c)
      else let expected = stage_expectations p.verb in
        if not (expected.valid_in_stages == 0)
          && bit_and expected.valid_in_stages (bits c.stage) == 0
        then go_on (reply env (codes "503 Bad sequence of commands") c)
        else if expected.valid_in_stages == 0
        then go_on (side_command cfg env p.verb c)
        else hand_over (record { state = received_command; verb = p.verb; parameter = p.parameter })
            (record c { next_stage = expected.next_stage; answered = false; verb = p.verb })

  -- The loop's first test.
  abbrev pub is_over : Conn → Bool
  is_over c = is_aborted c.stage || is_quit c.stage || leb cfg.max_unrecognised c.unrecognised

  -- What follows the loop.
  unfoldable pub finish : Conn → Command × Conn
  finish c =
      let too_many = ltb cfg.max_unrecognised c.unrecognised in
      let c' : Conn =
        if too_many
        then record (reply env (codes "554 Too many unknown commands") c) { stage = aborted_stage }
        else c in
      (
        record {
          state = if is_quit c'.stage then completed else undetermined;
          verb = absent;
          parameter = if too_many then codes "too many unknown commands" else [];
        },
        c',
      )

  unfoldable pub loop : Conn → List Read → Command × Conn × List Read
  loop c [] = with_rest (finish (if is_over c then c else after_read true c)) []
  loop c (r ∷ rs) =
      let c' = after_read r.failed c in
      let next : Command × Conn × List Read = elim (handle (decoded r.content) c') [
        | go_on d ↦ loop d rs
        | hand_over m d ↦ (m, d, rs)
      ] in
      if is_over c
      then with_rest (finish c) (r ∷ rs)
      else if equal r.content []
      then with_rest (finish c') rs
      else next

  -- `readMailData`, and the branch of `CarryOn` that calls it.
  unfoldable pub receive : Conn → List Read → Command × Conn × List Read
  receive c [] = loop (record c { stage = aborted_stage }) []
  receive c (r ∷ rs) =
      if r.failed
      then loop (record c { stage = aborted_stage }) rs
      else if equal r.content []
      then loop c rs
      else (
        record { state = received_data; verb = absent; parameter = r.content },
        record c { answered = false; stage = after_message_data; next_stage = hello },
        rs,
      )

  abbrev pub settled : Conn → Conn
  settled c = if not c.answered && not (is_absent c.verb) then answer_ok cfg env c else c

  unfoldable pub carry_on_from : Stage → Conn → List Read → Command × Conn × List Read
  carry_on_from greeting c rs =
      loop
        (record (reply env (codes "220 " ++ (cfg.server_name ++ codes " ESMTP")) c) {
          stage = after_greeting;
        })
        rs
  carry_on_from message_data c rs = receive c rs
  carry_on_from _ c rs = loop c rs

  unfoldable pub carry_on : Conn → List Read → Command × Conn × List Read
  carry_on c rs = carry_on_from (settled c).stage (settled c) rs
