-- ===== src/Smtp/Conversation/Silence.antt =====
-- Failures that `CarryOn` does not act on.
use laitos.Base.{ℕ, ◌≡◌, true, false, [], ◌∷◌, ◌≤◌, arith, equal, ◌⊎◌, ◌∙◌}
use laitos.Smtp.Protocol.{Verb}
use laitos.Smtp.Connection.{
  message_data, aborted_stage, undetermined, Read, Config, Env, Conn, reply, answer_ok,
  answer_replies,
}
use laitos.Smtp.Connection.Replies.{answer_replies-Replied}
use laitos.Smtp.Conversation.{finish, loop, receive, carry_on_from, carry_on}

module _ (cfg : Config) (env : Env) where
  answer_replies-aborted :
      (v : Verb) (c : Conn)
      → ((n : ℕ) → env.write_ok n ≡ false)
      → (answer_replies cfg env v c).stage ≡ aborted_stage
  unfolding answer_replies reply
  answer_replies-aborted v c w = grind arith

  -- Where every write fails, the replies to the latest command abort the conversation, and
  -- `answerOK` sets the stage that the command leads to all the same.
  pub answer_ok-forgets_abort :
      (c : Conn)
      → ((n : ℕ) → env.write_ok n ≡ false)
      → c.answered ≡ false
      → ((answer_replies cfg env c.verb c).stage ≡ aborted_stage)
        × ((answer_ok cfg env c).stage ≡ c.next_stage)
        × ((answer_ok cfg env c).answered ≡ true)
  unfolding answer_ok
  answer_ok-forgets_abort c w a = (
    answer_replies-aborted c.verb c w,
    ground (arith, answer_replies-Replied cfg env c.verb c),
    ground arith,
  )

  -- A connection at the data of a mail, or aborted, that owes no answer.
  record IsSilent (c : Conn) : Type 0 where
    settled_answer : c.answered ≡ true
    stage_of : (c.stage ≡ message_data) ⊎ (c.stage ≡ aborted_stage)
    within : c.unrecognised ≤ cfg.max_unrecognised

  -- At the end of the input, such a connection sends nothing, and stays one.
  carry_on-IsSilent :
      (c : Conn)
      → IsSilent c
      → ((carry_on cfg env c []).1.sent ≡ c.sent) × IsSilent (carry_on cfg env c []).1
  unfolding carry_on carry_on_from receive loop finish
  carry_on-IsSilent c i = (
    ground (arith, i.settled_answer, i.stage_of, i.within),
    record {
      settled_answer = ground (arith, i.settled_answer, i.stage_of, i.within);
      stage_of = ground (arith, i.settled_answer, i.stage_of, i.within);
      within = ground (arith, i.settled_answer, i.stage_of, i.within);
    },
  )

  abbrev empty_mail : Read
  empty_mail = record { content = []; failed = false }

  empty_mail-IsSilent :
      (c : Conn)
      → c.answered ≡ true
      → c.stage ≡ message_data
      → c.unrecognised ≤ cfg.max_unrecognised
      → ((carry_on cfg env c (empty_mail ∷ [])).1.sent ≡ c.sent)
        × ((carry_on cfg env c (empty_mail ∷ [])).0.state ≡ undetermined)
        × IsSilent (carry_on cfg env c (empty_mail ∷ [])).1
  unfolding carry_on carry_on_from receive loop finish equal
  empty_mail-IsSilent c a s u = (
    ground arith,
    ground arith,
    record { settled_answer = ground arith; stage_of = ground arith; within = ground arith },
  )

  -- What a client is sent for a mail that ends with no line before the dot: at the stage of the
  -- mail's data, within the limit on unrecognised commands, a call of `CarryOn` that reads an
  -- empty mail and then nothing returns an undetermined state, so that no mail is handed over. It
  -- leaves the replies as they were, and so does the next call, in which the reply to a mail that
  -- was handed over would be sent.
  pub carry_on-empty_mail :
      (c : Conn)
      → c.answered ≡ true
      → c.stage ≡ message_data
      → c.unrecognised ≤ cfg.max_unrecognised
      → ((carry_on cfg env c (record { content = []; failed = false } ∷ [])).0.state ≡ undetermined)
        × ((carry_on cfg env c (record { content = []; failed = false } ∷ [])).1.sent ≡ c.sent)
        × ((carry_on cfg env
              (carry_on cfg env c (record { content = []; failed = false } ∷ [])).1
              []).1.sent
            ≡ c.sent)
  carry_on-empty_mail c a s u =
      let (sent, state, silent) = empty_mail-IsSilent c a s u in
      (state, sent, (carry_on-IsSilent _ silent).0 ∙ sent)
