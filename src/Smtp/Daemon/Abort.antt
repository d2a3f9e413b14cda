-- ===== src/Smtp/Daemon/Abort.antt =====
-- What the server does once the conversation is aborted.
use laitos.Base.{
  ℕ, zero, suc, ◌≤◌, ◌≡◌, refl, ap, ◌∙◌, Bool, true, false, List, [], ◌∷◌, Bytes, arith, not, some,
  ◌-◌, Bool-cases, inl, inr,
}
use laitos.Smtp.Protocol.{absent}
use laitos.Smtp.Connection.{
  Config, Env, Read, Conn, Command, Stage, aborted_stage, undetermined, answer_rate_limited,
  answer_negative,
}
use laitos.Smtp.Conversation.{carry_on, carry_on_from, loop, finish, settled, is_over, with_rest}
use laitos.Smtp.Daemon.{
  Received, Served, too_long, foreign_domain, next, done, rejected, is_complete, deliver_or_refuse,
  serve, on_event, max_conversation_length,
}

abbrev nothing_new : Command
nothing_new = record { state = undetermined; verb = absent; parameter = [] }

module _ (cfg : Config) (env : Env) (c : Conn) (stop : c.stage ≡ aborted_stage)
    (within : c.unrecognised ≤ cfg.max_unrecognised) where
  finish-aborted : finish cfg env c ≡ (nothing_new, c)
  unfolding finish
  finish-aborted = ground arith

  over : is_over cfg env c ≡ true
  over = ground arith

  loop-aborted : (rs : List Read) → loop cfg env c rs ≡ (nothing_new, c, rs)
  unfolding loop
  loop-aborted [] = rw over (ap (λ r. with_rest r []) finish-aborted)
  loop-aborted (r ∷ rs) = rw over (ap (λ s. with_rest s (r ∷ rs)) finish-aborted)

  carry_on_from-aborted :
      (s : Stage) (rs : List Read)
      → s ≡ aborted_stage
      → carry_on_from cfg env s c rs ≡ (nothing_new, c, rs)
  unfolding carry_on_from
  carry_on_from-aborted aborted_stage rs e = loop-aborted rs
  carry_on_from-aborted _ rs e = absurd (cc)

  settled-answered : c.answered ≡ true → settled cfg env c ≡ c
  settled-answered e = ground arith

  carry_on-aborted :
      (rs : List Read) → c.answered ≡ true → carry_on cfg env c rs ≡ (nothing_new, c, rs)
  unfolding carry_on
  carry_on-aborted rs e =
      ap (λ d. carry_on_from cfg env d.stage d rs) (settled-answered e)
      ∙ carry_on_from-aborted c.stage rs stop

  serve-aborted :
      (domains : List Bytes) (locked_down : ℕ → Bool) (n : ℕ) (rs : List Read) (r : Received)
      → c.answered ≡ true
      → ((k : ℕ) → locked_down k ≡ false)
      → serve cfg env domains locked_down n c rs r
        ≡ deliver_or_refuse cfg env too_long max_conversation_length
            (answer_rate_limited cfg env c)
            rs
            r
  unfolding serve on_event
  serve-aborted domains locked_down zero rs r e open_ = rw (open_ zero) refl
  serve-aborted domains locked_down (suc n) rs r e open_ = rw (open_ (suc n)) (
      ap
        (λ (t : Command × Conn × List Read). elim (on_event domains t.0 r) as (λ _. Served) [
          | next r' ↦ serve cfg env domains locked_down n t.1 t.2 r'
          | done status r' ↦
              deliver_or_refuse cfg env status (max_conversation_length - n) t.1 t.2 r'
          | rejected r' ↦
              deliver_or_refuse cfg env foreign_domain (max_conversation_length - n)
                (answer_negative cfg env t.1) t.2 r'
        ])
        (carry_on-aborted rs e)
      ∙ serve-aborted domains locked_down n rs r e open_)

  -- Where the conversation is aborted, its latest command is answered, the unrecognised commands
  -- are within their limit and the emergency lock-down never sets in, then, however many rounds are
  -- left, the server goes through all of them and reads nothing in them: it logs that the
  -- conversation is taking too long after 256 commands, and not that it is aborted.
  pub serve-after_abort :
      (domains : List Bytes) (locked_down : ℕ → Bool) (n : ℕ) (rs : List Read) (r : Received)
      → c.answered ≡ true
      → ((k : ℕ) → locked_down k ≡ false)
      → ((serve cfg env domains locked_down n c rs r).logged
          ≡ some (record {
            status = too_long;
            missing_parameters = not (is_complete r);
            num_commands = 256;
          }))
        × ((serve cfg env domains locked_down n c rs r).rest ≡ rs)
  unfolding deliver_or_refuse
  serve-after_abort domains locked_down n rs r e open_ =
      let s = serve-aborted domains locked_down n rs r e open_ in
      elim (Bool-cases (is_complete r)) [
        | inl y ↦ (
          ap (λ (served : Served). served.logged) s ∙ rw y refl,
          ap (λ (served : Served). served.rest) s ∙ rw y refl,
        )
        | inr k ↦ (
          ap (λ (served : Served). served.logged) s ∙ rw k refl,
          ap (λ (served : Served). served.rest) s ∙ rw k refl,
        )
      ]
