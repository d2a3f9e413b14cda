-- ===== src/Smtp/Daemon/Delivery.antt =====
-- What a mail that the server delivers has been through.
use mathlib.Core.List.{Memᴰ}
use laitos.Base.{
  ℕ, suc, ◌+◌, ◌≤◌, ◌<◌, ◌≡◌, ◌≢◌, true, List, [], All, Option, none, some, Bytes, drop, length,
  index_byte,
}
use laitos.Smtp.Connection.{Config, Env, Read, Conn}
use laitos.Smtp.Conversation.Order.{is_ordered}
use laitos.Smtp.Daemon.{Received, Verdict, next, done, rejected, is_my_domain, max_num_recipients}
use laitos.Smtp.Daemon.History.{History, Trace, log_of, latest_body, latest_sender, recipients}

-- A recipient is `name@domain` with a name, and a domain of this server.
pub record IsMine (domains : List Bytes) (to : Bytes) : Type 0 where
  pub at : ℕ
  pub is_at : index_byte to b'@' ≡ some (suc at)
  pub mine : is_my_domain domains (drop (at + 2) to) ≡ true

-- What the server holds, and what it was handed.
record Fair (domains : List Bytes) (history : History) (r : Received) : Type 0 where
  mine : All (IsMine domains) r.to_addrs
  few : length r.to_addrs ≤ max_num_recipients
  asked : All (λ to. Memᴰ to (recipients history)) r.to_addrs
  from : r.from_addr ≡ latest_sender history
  sent : r.mail_body ≡ latest_body history

-- What a delivery has been through, from the first read on: the calls of a conversation, of which
-- the last body, the last sender and recipients make the mail.
pub record Delivered (cfg : Config) (env : Env) (domains : List Bytes) (reads : List Read)
    (r : Received) : Type 0 where
  pub conn : Conn
  pub rest : List Read
  pub history : History
  pub trace : Trace cfg env reads conn rest history
  pub ordered : is_ordered (log_of history) ≡ true
  pub mail_body : r.mail_body ≡ latest_body history
  pub some_body : r.mail_body ≢ []
  pub from_addr : r.from_addr ≡ latest_sender history
  pub some_sender : r.from_addr ≢ []
  pub to_addrs : All (λ to. Memᴰ to (recipients history)) r.to_addrs
  pub some_recipient : 0 < length r.to_addrs
  pub few : length r.to_addrs ≤ 100
  pub mine : All (IsMine domains) r.to_addrs

abbrev VerdictFair : List Bytes → History → Verdict → Type 0
VerdictFair domains history (next r) = Fair domains history r
VerdictFair domains history (done status r) = Fair domains history r
VerdictFair domains history (rejected r) = Fair domains history r

abbrev IsDelivered : Config → Env → List Bytes → List Read → Option Received → Type 0
IsDelivered cfg env domains reads none = Unit
IsDelivered cfg env domains reads (some r) = Delivered cfg env domains reads r
