-- ===== src/Dns/Daemon.antt =====
-- daemon/dnsd/dnsd.go, udp.go and tcp.go: the handling of a client's query.
--
-- The daemon's state is passed on: its set of blocked names, the latest commands, and who may
-- query. The network and the clock are arguments: what a forwarder is asked and answers is an
-- `Exchange`, of which a successful read has at most as many bytes as its buffer. Logging and
-- deadlines are left out. A TCP query is read whole, as if `Read` filled its buffer.
pub mod Handlers
pub mod Access
use laitos.Base.{
  ℕ, ◌+◌, ◌-◌, ◌*◌, ◌/◌, ◌%◌, ◌^◌, Bool, true, false, not, ◌&&◌, ◌||◌, List, [], ◌∷◌, ◌++◌, Option,
  none, some, Bytes, codes, ltb, leb, ◌==◌, if◌then◌else◌, length, take, drop, replicate, equal,
  has_prefix,
}
use laitos.Toolbox.Command.{Command, Result, Error, pin_and_shortcut_not_found}
use laitos.Dns.Query.{
  min_name_query_size, get_black_hole_response, make_text_response, extract_domain_name,
  extract_text_query_input, is_text_query, copy_at,
}
use laitos.Dns.Command.{decode_dtmf_command_input}
use laitos.Dns.Latest.{LatestCommands, Answer, execute}
use laitos.Dns.Blacklist.{is_in_blacklist}

abbrev pub public_ip_refresh_interval_sec : ℕ
public_ip_refresh_interval_sec = 900

abbrev pub max_packet_size : ℕ
max_packet_size = 9038

pub record Daemon : Type 0 where
  pub allow_query_ip_prefixes : List Bytes
  pub my_public_ip : Bytes
  pub allow_query_last_update : ℕ
  pub black_list : List Bytes
  pub latest_commands : LatestCommands

-- What `allowMyPublicIP` reads: the clock, twice, and the public IP address, which may be empty.
pub record Refresh : Type 0 where
  pub now : ℕ
  pub again : ℕ
  pub latest_ip : Bytes

unfoldable pub allow_my_public_ip : Refresh → Daemon → Daemon
unfolding equal
allow_my_public_ip r daemon =
    if leb r.now (daemon.allow_query_last_update + public_ip_refresh_interval_sec)
    then daemon
    else if equal r.latest_ip []
    then record daemon { allow_query_last_update = r.again }
    else record daemon { my_public_ip = r.latest_ip; allow_query_last_update = r.again }

unfoldable pub any_prefix : Bytes → List Bytes → Bool
unfolding has_prefix
any_prefix client_ip [] = false
any_prefix client_ip (prefix ∷ prefixes) =
    has_prefix client_ip prefix || any_prefix client_ip prefixes

unfoldable pub check_allow_client_ip : Refresh → Bytes → Daemon → Daemon × Bool
unfolding equal has_prefix allow_my_public_ip any_prefix
check_allow_client_ip r client_ip daemon =
    if equal client_ip [] || ltb 64 (length client_ip)
    then (daemon, false)
    else if has_prefix client_ip (codes "127.")
        || equal client_ip (codes "::1")
        || equal client_ip daemon.my_public_ip
    then (daemon, true)
    else (let refreshed = allow_my_public_ip r daemon in
        (refreshed, any_prefix client_ip refreshed.allow_query_ip_prefixes))

-- What comes of a query to a forwarder over UDP: it may not be sent, or no reply be read.
pub data UdpExchange : Type 0 where
  not_sent unread : UdpExchange
  received : Bytes → UdpExchange

-- The same over TCP, where the two bytes of the reply's length come first. A reply that is
-- received fills the buffer of its length.
pub data TcpExchange : Type 0 where
  not_sent no_length : TcpExchange
  bad_length no_body : Bytes → TcpExchange
  received : Bytes → Bytes → TcpExchange

-- What a handler's calls depend on.
pub record World : Type 0 where
  pub to_lower : Bytes → Bytes
  pub process : Command → Result
  pub meanwhile : LatestCommands → LatestCommands
  pub purge_now : ℕ
  pub purge_again : ℕ
  pub found : List LatestCommands
  pub first : Refresh
  pub second : Refresh
  pub udp_exchange : Bytes → UdpExchange
  pub tcp_exchange : Bytes → TcpExchange

-- A reply: how it is cut over UDP, or the prefix that it has over TCP, and its body.
pub record Handled {ℓ} (A : Type ℓ) : Type ℓ where
  pub daemon : Daemon
  pub size : A
  pub body : Bytes
  pub forwarded : Bool

-- The two bytes of a length.
abbrev pub length_prefix : ℕ → Bytes
length_prefix n = n / 256 % 2 ^ 8 ∷ n % 256 ∷ []

-- The length to send and the body, which is the buffer as it is where nothing is read.
abbrev pub udp_exchanged : UdpExchange → ℕ × Bytes
udp_exchanged UdpExchange.not_sent = (0, [])
udp_exchanged unread = (0, replicate max_packet_size 0)
udp_exchanged (UdpExchange.received s) = (length s, s ++ replicate (max_packet_size - length s) 0)

abbrev pub value_of : Bytes → ℕ
value_of (a ∷ b ∷ s) = a * 256 + b
value_of _ = 0

abbrev pub tcp_exchanged : TcpExchange → Bytes × Bytes
tcp_exchanged TcpExchange.not_sent = ([], [])
tcp_exchanged no_length = (0 ∷ 0 ∷ [], [])
tcp_exchanged (bad_length announced) = (announced, [])
tcp_exchanged (no_body announced) = (announced, replicate (value_of announced) 0)
tcp_exchanged (TcpExchange.received announced s) = (announced, s)

-- A reply of a forwarder, or none where the client may not query.
abbrev pub if_allowed {ℓ} : {A : Type ℓ} → A → A × Bytes → Daemon × Bool → Handled A
if_allowed nothing (size, body) (daemon, true) = record {
  daemon = daemon;
  size = size;
  body = body;
  forwarded = true;
}
if_allowed nothing (size, body) (daemon, false) = record {
  daemon = daemon;
  size = nothing;
  body = [];
  forwarded = false;
}

unfoldable pub handle_udp_recursive_query : World → Refresh → Bytes → Bytes → Daemon → Handled ℕ
unfolding check_allow_client_ip
handle_udp_recursive_query w r client_ip query daemon =
    if_allowed 0 (udp_exchanged (w.udp_exchange query)) (check_allow_client_ip r client_ip daemon)

unfoldable pub handle_tcp_recursive_query : World → Refresh → Bytes → Bytes → Daemon → Handled Bytes
unfolding check_allow_client_ip
handle_tcp_recursive_query w r client_ip query daemon =
    if_allowed [] (tcp_exchanged (w.tcp_exchange query)) (check_allow_client_ip r client_ip daemon)
