-- ===== src/Smtp/Connection/Replies.antt =====
-- What replies leave alone: a reply adds to `sent` and may abort the conversation.
use laitos.Base.{Bool, true, false, ◌≡◌, ◌⊎◌, Bytes, arith, codes, ◌++◌, if◌then◌else◌}
use laitos.Smtp.Protocol.{Verb, helo, ehlo, mail_from, rcpt_to, data_verb}
use laitos.Smtp.Connection.{Conn, Config, Env, aborted_stage, reply, answer_replies, negative_reply}

pub record Replied (c d : Conn) : Type 0 where
  pub same_next : d.next_stage ≡ c.next_stage
  pub same_answered : d.answered ≡ c.answered
  pub same_unrecognised : d.unrecognised ≡ c.unrecognised
  pub same_verb : d.verb ≡ c.verb
  pub same_tls : d.tls_attempted ≡ c.tls_attempted
  pub stage_or_aborted : (d.stage ≡ c.stage) ⊎ (d.stage ≡ aborted_stage)

pub Replied-refl : (c : Conn) → Replied c c
Replied-refl c = ground arith

pub Replied-trans : (c d e : Conn) → Replied c d → Replied d e → Replied c e
Replied-trans c d e r s = ground arith

pub reply-Replied : (env : Env) (text : Bytes) (c : Conn) → Replied c (reply env text c)
unfolding reply
reply-Replied env text c = ground arith

reply_after-Replied :
    (env : Env) (text : Bytes) (c d : Conn) → Replied c d → Replied c (reply env text d)
reply_after-Replied env text c d r = Replied-trans c d _ r (reply-Replied env text d)

if-Replied : (b : Bool) (c d e : Conn) → Replied c d → Replied c e → Replied c (if b then d else e)
if-Replied true c d e r s = r
if-Replied false c d e r s = s

pub answer_replies-Replied :
    (cfg : Config) (env : Env) (v : Verb) (c : Conn) → Replied c (answer_replies cfg env v c)
unfolding answer_replies
answer_replies-Replied cfg env ehlo c =
    let greeted = reply-Replied env (codes "250-" ++ cfg.server_name) c in
    let mime = reply_after-Replied env (codes "250-8BITMIME") c _ greeted in
    let extended = reply_after-Replied env (codes "250-PIPELINING") c _ mime in
    let offered = reply_after-Replied env (codes "250-STARTTLS") c _ extended in
    reply_after-Replied env (codes "250 OK") c _ (if-Replied _ c _ _ offered extended)
answer_replies-Replied cfg env _ c = reply-Replied env _ c

pub negative_reply-Replied :
    (cfg : Config) (env : Env) (v : Verb) (c : Conn) → Replied c (negative_reply cfg env v c)
unfolding negative_reply
negative_reply-Replied cfg env helo c = reply-Replied env _ c
negative_reply-Replied cfg env ehlo c = reply-Replied env _ c
negative_reply-Replied cfg env mail_from c = reply-Replied env _ c
negative_reply-Replied cfg env rcpt_to c = reply-Replied env _ c
negative_reply-Replied cfg env data_verb c = reply-Replied env _ c
negative_reply-Replied cfg env _ c = Replied-refl c
