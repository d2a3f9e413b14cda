-- ===== src/Smtp/Conversation/Limits.antt =====
-- The limit on unrecognised commands, and what `CarryOn` leaves unsaid.
use laitos.Base.{
  ◌+◌, ◌≤◌, ◌<◌, ◌≡◌, refl, Bool, true, false, not, ◌||◌, List, [], ◌∷◌, ◌++◌, All, Bytes, codes,
  arith, if◌then◌else◌, equal, Option, none, some, Bool-cases, inl, inr,
}
use laitos.Smtp.Protocol.{
  Verb, helo, ehlo, mail_from, rcpt_to, data_verb, rset, noop, vrfy, quit, starttls,
  ProtocolCommand,
}
use laitos.Smtp.Connection.{
  is_aborted, Stage, greeting, message_data, Config, Env, Read, Conn, Command, reply, answer_ok,
  answer_replies, answer_negative, negative_reply, answer_rate_limited, side_command, start_tls,
  after_handshake,
}
use laitos.Smtp.Connection.Replies.{answer_replies-Replied, negative_reply-Replied, reply-Replied}
use laitos.Smtp.Conversation.{
  Outcome, go_on, hand_over, handle, is_over, finish, loop, receive, settled, carry_on_from,
  carry_on, decoded, after_read, with_rest,
}
use laitos.Smtp.Conversation.Order.{Event, Session, start, carry, refuse, limit}

abbrev pub giving_up : Bytes
giving_up = codes "554 Too many unknown commands"

All-append_one :
    (P : Bytes → Type 0) (ts : List Bytes) (t : Bytes) → All P ts → P t → All P (ts ++ (t ∷ []))
All-append_one P [] t h p = (p, tt)
All-append_one P (u ∷ ts) t (q, h) p = (q, All-append_one P ts t h p)

abbrev IsOther : Bytes → Type 0
IsOther text = equal text giving_up ≡ false

-- The reply that gives up was not made.
abbrev pub IsPatient : Conn → Type 0
IsPatient c = All (λ text. equal text giving_up ≡ false) c.sent

reply-IsPatient :
    (env : Env) (text : Bytes) (c : Conn)
    → IsOther text
    → IsPatient c
    → IsPatient (reply env text c)
unfolding reply
reply-IsPatient env text c h p = elim (Bool-cases (is_aborted c.stage)) [
  | inl y ↦ rw y p
  | inr n ↦ rw n (All-append_one (λ t. equal t giving_up ≡ false) c.sent text p h)
]

if-IsPatient : (b : Bool) (c d : Conn) → IsPatient c → IsPatient d → IsPatient (if b then c else d)
if-IsPatient true c d i j = i
if-IsPatient false c d i j = j

module _ (cfg : Config) (env : Env) where
  answer_replies-IsPatient :
      (v : Verb) (c : Conn) → IsPatient c → IsPatient (answer_replies cfg env v c)
  unfolding answer_replies equal
  answer_replies-IsPatient helo c p = reply-IsPatient env _ c refl p
  answer_replies-IsPatient ehlo c p =
      let greeted = reply-IsPatient env (codes "250-" ++ cfg.server_name) c refl p in
      let mime = reply-IsPatient env (codes "250-8BITMIME") _ refl greeted in
      let extended = reply-IsPatient env (codes "250-PIPELINING") _ refl mime in
      let offered = reply-IsPatient env (codes "250-STARTTLS") _ refl extended in
      reply-IsPatient env (codes "250 OK") _ refl (if-IsPatient _ _ _ offered extended)
  answer_replies-IsPatient data_verb c p = reply-IsPatient env _ c (ground arith) p
  answer_replies-IsPatient mail_from c p = reply-IsPatient env _ c refl p
  answer_replies-IsPatient rcpt_to c p = reply-IsPatient env _ c refl p
  answer_replies-IsPatient _ c p = reply-IsPatient env _ c refl p

  negative_reply-IsPatient :
      (v : Verb) (c : Conn) → IsPatient c → IsPatient (negative_reply cfg env v c)
  unfolding negative_reply equal
  negative_reply-IsPatient helo c p = reply-IsPatient env _ c refl p
  negative_reply-IsPatient ehlo c p = reply-IsPatient env _ c refl p
  negative_reply-IsPatient mail_from c p = reply-IsPatient env _ c refl p
  negative_reply-IsPatient rcpt_to c p = reply-IsPatient env _ c refl p
  negative_reply-IsPatient data_verb c p = reply-IsPatient env _ c refl p
  negative_reply-IsPatient _ c p = p

  after_handshake-IsPatient :
      (h : Option Bytes) (c : Conn) → IsPatient c → IsPatient (after_handshake cfg env h c)
  unfolding after_handshake equal
  after_handshake-IsPatient none c p = p
  after_handshake-IsPatient (some err) c p =
      reply-IsPatient env (codes "454 TLS handshake failure") _ refl p

  start_tls-IsPatient : (c : Conn) → IsPatient c → IsPatient (start_tls cfg env c)
  unfolding start_tls equal
  start_tls-IsPatient c p =
      let c' = reply env (codes "220 Ready to start TLS") c in
      let ready : IsPatient c' = reply-IsPatient env (codes "220 Ready to start TLS") c refl p in
      elim (Bool-cases (not cfg.has_tls || c.tls_attempted)) [
        | inl y ↦ rw y (reply-IsPatient env (codes "502 Command not implemented") c refl p)
        | inr n ↦ rw n (elim (Bool-cases (is_aborted c'.stage)) [
          | inl y ↦ rw y ready
          | inr m ↦ rw m (after_handshake-IsPatient env.handshake c' ready)
        ])
      ]

  side_command-IsPatient :
      (v : Verb) (c : Conn) → IsPatient c → IsPatient (side_command cfg env v c)
  unfolding side_command equal
  side_command-IsPatient starttls c p = start_tls-IsPatient c p
  side_command-IsPatient rset c p = reply-IsPatient env _ _ refl p
  side_command-IsPatient noop c p = reply-IsPatient env _ _ refl p
  side_command-IsPatient vrfy c p = reply-IsPatient env _ _ refl p
  side_command-IsPatient quit c p = reply-IsPatient env _ _ refl p
  side_command-IsPatient _ c p = reply-IsPatient env _ _ refl p

  side_command-unrecognised :
      (v : Verb) (c : Conn) → (side_command cfg env v c).unrecognised ≤ c.unrecognised + 1
  unfolding side_command start_tls reply
  side_command-unrecognised v c = ground arith

-- Within the limit, and never given up.
record Bounded (cfg : Config) (c : Conn) : Type 0 where
  within : c.unrecognised ≤ cfg.max_unrecognised
  patient : IsPatient c

module _ (cfg : Config) (env : Env) where
  abbrev OutcomeBounded : Outcome → Type 0
  OutcomeBounded (go_on d) = Bounded cfg d
  OutcomeBounded (hand_over m d) = Bounded cfg d

  reply-Bounded :
      (text : Bytes) (c : Conn) → IsOther text → Bounded cfg c → Bounded cfg (reply env text c)
  reply-Bounded text c o b = record {
    within = omega (arith, reply-Replied env text c, b);
    patient = reply-IsPatient env text c o b.patient;
  }

  unknown-Bounded :
      (c : Conn)
      → c.unrecognised < cfg.max_unrecognised
      → Bounded cfg c
      → Bounded cfg (
          reply env
            (codes "502 Command not implemented")
            (record c { unrecognised = c.unrecognised + 1 }))
  unfolding equal
  unknown-Bounded c h b =
      let d = record c { unrecognised = c.unrecognised + 1 } in
      let counted : Bounded cfg d = record { within = omega arith; patient = b.patient } in
      reply-Bounded (codes "502 Command not implemented") d refl counted

  error-Bounded :
      (info : Bytes) (c : Conn) → Bounded cfg c → Bounded cfg (reply env (codes "553 " ++ info) c)
  unfolding equal
  error-Bounded info c b = reply-Bounded (codes "553 " ++ info) c refl b

  sequence-Bounded :
      (c : Conn) → Bounded cfg c → Bounded cfg (reply env (codes "503 Bad sequence of commands") c)
  unfolding equal
  sequence-Bounded c b = reply-Bounded (codes "503 Bad sequence of commands") c refl b

  side_command-Bounded :
      (v : Verb) (c : Conn)
      → c.unrecognised < cfg.max_unrecognised
      → Bounded cfg c
      → Bounded cfg (side_command cfg env v c)
  side_command-Bounded v c h b = record {
    within = omega (arith, side_command-unrecognised cfg env v c);
    patient = side_command-IsPatient cfg env v c b.patient;
  }

  handle-Bounded :
      (p : ProtocolCommand) (c : Conn)
      → c.unrecognised < cfg.max_unrecognised
      → Bounded cfg c
      → OutcomeBounded (handle cfg env p c)
  unfolding handle
  handle-Bounded p c h b = ground (
    arith,
    unknown-Bounded c h b,
    error-Bounded p.error_info c b,
    sequence-Bounded c b,
    side_command-Bounded p.verb c h b,
  )

  finish-Bounded : (c : Conn) → Bounded cfg c → (finish cfg env c).1 ≡ c
  unfolding finish
  finish-Bounded c b = ground arith

  abbrev ResultBounded : Command × Conn × List Read → Type 0
  ResultBounded r = Bounded cfg r.1

  finish_rest-Bounded :
      (c : Conn) (rs : List Read) → Bounded cfg c → ResultBounded (with_rest (finish cfg env c) rs)
  finish_rest-Bounded c rs b = rw (finish-Bounded c b) b

  if-ResultBounded :
      (t : Bool) (r s : Command × Conn × List Read)
      → ResultBounded r
      → (t ≡ false → ResultBounded s)
      → ResultBounded (if t then r else s)
  if-ResultBounded true r s i j = i
  if-ResultBounded false r s i j = j refl

  outcome-Bounded :
      (o : Outcome) (rs : List Read)
      → OutcomeBounded o
      → ((d : Conn) → Bounded cfg d → ResultBounded (loop cfg env d rs))
      → ResultBounded (elim o as (λ _. Command × Conn × List Read) [
        | go_on d ↦ loop cfg env d rs
        | hand_over m d ↦ (m, d, rs)
      ])
  outcome-Bounded (go_on d) rs b continues = continues d b
  outcome-Bounded (hand_over m d) rs b continues = b

  after_read-Bounded :
      (failed : Bool) (c : Conn) → Bounded cfg c → Bounded cfg (after_read failed c)
  after_read-Bounded failed c b = ground arith

  below_limit :
      (failed : Bool) (c : Conn)
      → is_over cfg env c ≡ false
      → (after_read failed c).unrecognised < cfg.max_unrecognised
  below_limit failed c h = ground arith

  loop-Bounded : (rs : List Read) (c : Conn) → Bounded cfg c → ResultBounded (loop cfg env c rs)
  unfolding loop
  loop-Bounded [] c b = elim (Bool-cases (is_over cfg env c)) [
    | inl y ↦ rw y (finish_rest-Bounded c [] b)
    | inr n ↦ rw n (finish_rest-Bounded (after_read true c) [] (after_read-Bounded true c b))
  ]
  loop-Bounded (r ∷ rs) c b =
      let c' = after_read r.failed c in
      let b' : Bounded cfg c' = after_read-Bounded r.failed c b in
      if-ResultBounded (is_over cfg env c) _ _ (finish_rest-Bounded c (r ∷ rs) b) (λ n.
        if-ResultBounded (equal r.content []) _ _ (finish_rest-Bounded c' rs b') (λ _.
          outcome-Bounded (handle cfg env (decoded r.content) c') rs
            (handle-Bounded (decoded r.content) c' (below_limit r.failed c n) b')
            (λ d k. loop-Bounded rs d k)))

  receive-Bounded :
      (rs : List Read) (c : Conn) → Bounded cfg c → ResultBounded (receive cfg env c rs)
  unfolding receive
  receive-Bounded [] c b = loop-Bounded [] (after_read true c) (after_read-Bounded true c b)
  receive-Bounded (r ∷ rs) c b =
      if-ResultBounded r.failed _ _
        (loop-Bounded rs (after_read true c) (after_read-Bounded true c b))
        (λ _.
          if-ResultBounded (equal r.content []) _ _ (loop-Bounded rs c b)
            (λ _. record { within = b.within; patient = b.patient }))

  settled-Bounded : (c : Conn) → Bounded cfg c → Bounded cfg (settled cfg env c)
  unfolding answer_ok
  settled-Bounded c b = ground (
    arith,
    answer_replies-Replied cfg env c.verb c,
    answer_replies-IsPatient cfg env c.verb c b.patient,
  )

  greet-Bounded :
      (c : Conn)
      → Bounded cfg c
      → Bounded cfg (reply env (codes "220 " ++ (cfg.server_name ++ codes " ESMTP")) c)
  unfolding equal
  greet-Bounded c b = reply-Bounded (codes "220 " ++ (cfg.server_name ++ codes " ESMTP")) c refl b

  carry_on_from-Bounded :
      (s : Stage) (c : Conn) (rs : List Read)
      → Bounded cfg c
      → ResultBounded (carry_on_from cfg env s c rs)
  unfolding carry_on_from
  carry_on_from-Bounded greeting c rs b =
      let g = greet-Bounded c b in
      loop-Bounded rs _ (record { within = g.within; patient = g.patient })
  carry_on_from-Bounded message_data c rs b = receive-Bounded rs c b
  carry_on_from-Bounded _ c rs b = loop-Bounded rs c b

  Session-Bounded :
      {c : Conn} {rs : List Read} {log : List Event} → Session cfg env c rs log → Bounded cfg c
  unfolding carry_on answer_negative answer_rate_limited equal
  Session-Bounded (start rs) = record { within = omega arith; patient = tt }
  Session-Bounded (carry {c} {rs} s) =
      carry_on_from-Bounded (settled cfg env c).stage (settled cfg env c) rs
        (settled-Bounded c (Session-Bounded s))
  Session-Bounded (refuse {c} s) =
      let b = Session-Bounded s in
      record {
        within = omega (arith, negative_reply-Replied cfg env c.verb c, b);
        patient = negative_reply-IsPatient cfg env c.verb c b.patient;
      }
  Session-Bounded (limit {c} s) =
      let b =
        reply-Bounded (codes "451 Try again later rate limit exceeded or too many conversations") c
          refl (Session-Bounded s) in
      record { within = b.within; patient = b.patient }

  -- Over any session the count of unrecognised commands stays within its limit, and no reply says
  -- `554 Too many unknown commands`: the test behind the loop of `CarryOn` asks for a count above
  -- the limit, and the loop ends at the limit.
  pub Session-never_gives_up :
      {c : Conn} {rs : List Read} {log : List Event}
      → Session cfg env c rs log
      → (c.unrecognised ≤ cfg.max_unrecognised) × IsPatient c
  Session-never_gives_up s = let b = Session-Bounded s in (b.within, b.patient)
