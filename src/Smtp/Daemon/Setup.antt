-- ===== src/Smtp/Daemon/Setup.antt =====
-- `Daemon.Initialise` of daemon/smtpd/smtpd.go: the check of the configuration.
--
-- Loading the TLS certificate (misc.DecryptIfNecessary and Go's tls package) and the public IP
-- address are arguments. A nil slice is an empty
-- one, and a nil command runner or processor is `none`. A port below 1 is 0.
use mathlib.Core.Option
use laitos.Base.{
  or_else, ℕ, ◌+◌, ◌<◌, ◌≡◌, ◌≢◌, refl, Bool, true, false, not, ◌&&◌, ◌||◌, List, [], ◌∷◌, All,
  Option, none, some, Bytes, codes, arith, ltb, ◌==◌, if◌then◌else◌, drop, equal, has_prefix,
  index_byte, ◌⊎◌, inl, inr, ◌++◌, take, equal_iff, length, Bool-cases,
}
use laitos.Text.Index.{index_byte-split}
use laitos.Text.Separators.{lacks}
use laitos.Smtp.Daemon.{is_my_domain}
use laitos.Toolbox.ResultFilter.{ResultFilter}
use laitos.Toolbox.Processor.{CommandFilter, Feature}
use laitos.Toolbox.Processor.Sanity.{ConfigError, is_empty, no_entries, is_sane_for_internet}

-- `inet.MailClient`
pub record MailClient : Type 0 where
  pub mail_from : Bytes
  pub mta_host : Bytes
  pub mta_port : ℕ

-- `MailClient.IsConfigured`
unfoldable pub is_configured : MailClient → Bool
unfolding equal
is_configured m = not (equal m.mail_from []) && (not (equal m.mta_host []) && not (m.mta_port == 0))

-- The fields of a `CommandProcessor` that are checked; `none` is nil.
pub record ProcessorConfig : Type 0 where
  pub features : Option (List (Bytes × Feature))
  pub command_filters : Option (List CommandFilter)
  pub result_filters : Option (List ResultFilter)

pub record CommandRunner : Type 0 where
  pub processor : Option ProcessorConfig
  pub reply_mail_client : MailClient

pub record Daemon : Type 0 where
  pub address : Bytes
  pub port : ℕ
  pub tls_cert_path : Bytes
  pub tls_key_path : Bytes
  pub per_ip_limit : ℕ
  pub my_domains : List Bytes
  pub forward_to : List Bytes
  pub command_runner : Option CommandRunner
  pub forward_mail_client : MailClient

pub data SetupError : Type 0 where
  no_forward no_domains half_tls own_mta no_reply_client own_reply_mta : SetupError
  bad_tls : Bytes → SetupError
  bad_runner : List ConfigError → SetupError
  no_at_sign loops_back : Bytes → SetupError

pub record World : Type 0 where
  pub public_ip : Bytes
  pub load_tls : Bytes → Bytes → Option Bytes  -- the error of loading a certificate and its key

-- The defaults for what is not set.
unfoldable pub with_defaults : Daemon → Daemon
unfolding equal
with_defaults d = record d {
  address = if equal d.address [] then codes "0.0.0.0" else d.address;
  port = if ltb d.port 1 then 25 else d.port;
  per_ip_limit = if ltb d.per_ip_limit 1 then 4 else d.per_ip_limit;
}

-- The certificate is loaded where a path is set.
unfoldable pub check_tls : World → Daemon → Option SetupError
unfolding equal
check_tls w d =
    if equal d.tls_cert_path [] && equal d.tls_key_path []
    then none
    else if equal d.tls_cert_path [] || equal d.tls_key_path []
    then some half_tls
    else Option.map bad_tls (w.load_tls d.tls_cert_path d.tls_key_path)

-- The forward MTA is this daemon, or on this host.
unfoldable pub is_own_mta : World → Daemon → MailClient → Bool
unfolding equal has_prefix
is_own_mta w d m =
    (has_prefix m.mta_host (codes "127.")
      || equal m.mta_host (codes "::1")
      || equal m.mta_host (codes "0.0.0.0")
      || equal m.mta_host w.public_ip)
    && m.mta_port == d.port

-- The same for the command runner's MTA, which may be `0.0.0.0`.
unfoldable pub is_own_reply_mta : World → Daemon → MailClient → Bool
unfolding equal has_prefix
is_own_reply_mta w d m =
    (has_prefix m.mta_host (codes "127.")
      || equal m.mta_host (codes "::1")
      || equal m.mta_host w.public_ip)
    && m.mta_port == d.port

unfoldable pub check_forward_at : List Bytes → Bytes → Option ℕ → Option SetupError
unfolding is_my_domain
check_forward_at domains fwd none = some (no_at_sign fwd)
check_forward_at domains fwd (some at) =
    if is_my_domain domains (drop (at + 1) fwd) then some (loops_back fwd) else none

-- The loop over the forward addresses.
unfoldable pub check_forwards : List Bytes → List Bytes → Option SetupError
unfolding check_forward_at index_byte
check_forwards domains [] = none
check_forwards domains (fwd ∷ fwds) =
    or_else (check_forward_at domains fwd (index_byte fwd b'@')) (check_forwards domains fwds)

abbrev filters_of : ProcessorConfig → List CommandFilter
filters_of p = elim p.command_filters [ none ↦ [] | some fs ↦ fs ]

-- `CommandRunner.Initialise` on a processor that is not empty, and the checks behind it.
unfoldable pub check_processor : World → Daemon → ProcessorConfig → MailClient → Option SetupError
unfolding is_configured is_own_reply_mta is_sane_for_internet
check_processor w d p m =
    elim (is_sane_for_internet p.features p.command_filters p.result_filters) [
      | e ∷ es ↦ some (bad_runner (e ∷ es))
      | [] ↦
          if not (is_configured m)
          then some no_reply_client
          else if is_own_reply_mta w d m
          then some own_reply_mta
          else none
    ]

unfoldable pub check_runner : World → Daemon → Option CommandRunner → Option SetupError
unfolding is_empty check_processor
check_runner w d none = none
check_runner w d (some r) = elim r.processor [
  | none ↦ none
  | some p ↦ if is_empty (filters_of p) then none else check_processor w d p r.reply_mail_client
]

abbrev error_when : Bool → SetupError → Option SetupError
error_when b e = if b then some e else none

-- The error of the first check that fails, on a daemon that has its defaults.
unfoldable pub check : World → Daemon → Option SetupError
unfolding is_configured check_tls is_own_mta check_forwards check_runner
check w d =
    or_else
      (error_when (no_entries d.forward_to || not (is_configured d.forward_mail_client)) no_forward)
      (or_else (error_when (no_entries d.my_domains) no_domains) (
        or_else (check_tls w d) (
          or_else (error_when (is_own_mta w d d.forward_mail_client) own_mta) (
            or_else (check_forwards d.my_domains d.forward_to)
              (check_runner w d d.command_runner)))))

-- The daemon that is left, with the error.
unfoldable pub initialise_daemon : World → Daemon → Daemon × Option SetupError
unfolding check with_defaults
initialise_daemon w d = (with_defaults d, check w (with_defaults d))

-- A forward address is a name without an at sign, an at sign, and a domain that differs from all
-- of the daemon's domains.
pub record LeavesDomains (domains : List Bytes) (fwd : Bytes) : Type 0 where
  pub user : Bytes
  pub domain : Bytes
  pub address : fwd ≡ user ++ (b'@' ∷ domain)
  pub first_at : lacks b'@' user ≡ true
  pub foreign : All (λ own. own ≢ domain) domains

-- An MTA that is not the daemon itself: its port is another one, or its host is none of the names
-- that stand for this computer.
abbrev pub IsElsewhere : World → Daemon → MailClient → Type 0
IsElsewhere w d m =
    (m.mta_port ≢ d.port)
    ⊎ ((take 4 m.mta_host ≢ codes "127.")
        × (m.mta_host ≢ codes "::1")
        × (m.mta_host ≢ codes "0.0.0.0")
        × (m.mta_host ≢ w.public_ip))

-- What `Initialise` makes sure of.
pub record IsSetUp (w : World) (d : Daemon) : Type 0 where
  pub some_forward : d.forward_to ≢ []
  pub some_domain : d.my_domains ≢ []
  pub listening : 0 < d.port
  pub serving : 0 < d.per_ip_limit
  pub sends_from : d.forward_mail_client.mail_from ≢ []
  pub sends_to_host : d.forward_mail_client.mta_host ≢ []
  pub sends_to_port : 0 < d.forward_mail_client.mta_port
  pub no_mail_loop : All (LeavesDomains d.my_domains) d.forward_to
  pub not_own_mta : IsElsewhere w d d.forward_mail_client

or_else-none : {A : Type 0} (o p : Option A) → or_else o p ≡ none → (o ≡ none) × (p ≡ none)
or_else-none none p e = (refl, e)
or_else-none (some a) p e = absurd (cc)

is_my_domain-foreign :
    (domains : List Bytes) (domain : Bytes)
    → is_my_domain domains domain ≡ false
    → All (λ own. own ≢ domain) domains
unfolding is_my_domain
is_my_domain-foreign [] domain e = tt
is_my_domain-foreign (own ∷ domains) domain e = (
  λ same. absurd (ground (arith, e, equal_iff own domain, same)),
  is_my_domain-foreign domains domain (ground (arith, e)),
)

equal-ne : (s t : Bytes) → equal s t ≡ false → s ≢ t
equal-ne s t e = λ same. absurd (ground (arith, e, equal_iff s t, same))

has_prefix-take : (p s : Bytes) → take (length p) s ≡ p → has_prefix s p ≡ true
unfolding has_prefix
has_prefix-take [] s e = ground arith
has_prefix-take (b ∷ p) [] e = absurd (cc)
has_prefix-take (b ∷ p) (c ∷ s) e = ground (arith, e, has_prefix-take p s)

is_own_mta-IsElsewhere :
    (w : World) (d : Daemon) (m : MailClient) → is_own_mta w d m ≡ false → IsElsewhere w d m
unfolding is_own_mta
is_own_mta-IsElsewhere w d m e = elim (Bool-cases (m.mta_port == d.port)) [
  | inr n ↦ inl (λ same. absurd (ground (arith, n, same)))
  | inl y ↦ inr (
    (λ same. absurd (ground (arith, e, y, has_prefix-take (codes "127.") m.mta_host same))),
    equal-ne m.mta_host (codes "::1") (ground (arith, e, y)),
    equal-ne m.mta_host (codes "0.0.0.0") (ground (arith, e, y)),
    equal-ne m.mta_host w.public_ip (ground (arith, e, y)),
  )
]

check_forward_at-leaves :
    (domains : List Bytes) (fwd : Bytes) (o : Option ℕ)
    → index_byte fwd b'@' ≡ o
    → check_forward_at domains fwd o ≡ none
    → LeavesDomains domains fwd
unfolding check_forward_at
check_forward_at-leaves domains fwd none i h = absurd (cc)
check_forward_at-leaves domains fwd (some at) i h = record {
  user = take at fwd;
  domain = drop (at + 1) fwd;
  address = (index_byte-split fwd b'@' at i).0;
  first_at = (index_byte-split fwd b'@' at i).2;
  foreign = is_my_domain-foreign domains (drop (at + 1) fwd) (ground arith);
}

check_forwards-leave :
    (domains fwds : List Bytes)
    → check_forwards domains fwds ≡ none
    → All (LeavesDomains domains) fwds
unfolding check_forwards
check_forwards-leave domains [] e = tt
check_forwards-leave domains (fwd ∷ fwds) e =
    let (one, later) = or_else-none _ _ e in
    (
      check_forward_at-leaves domains fwd (index_byte fwd b'@') refl one,
      check_forwards-leave domains fwds later,
    )

no_entries-ne : {A : Type 0} (xs : List A) → no_entries xs ≡ false → xs ≢ []
no_entries-ne [] e = absurd (cc)
no_entries-ne (x ∷ xs) e = λ n. absurd (cc)

error_when-none : (b : Bool) (e : SetupError) → error_when b e ≡ none → b ≡ false
error_when-none true e h = absurd (cc)
error_when-none false e h = refl

configured :
    (m : MailClient)
    → is_configured m ≡ true
    → (m.mail_from ≢ []) × (m.mta_host ≢ []) × (0 < m.mta_port)
unfolding is_configured
configured m e = (
  equal-ne m.mail_from [] (ground (arith, e)),
  equal-ne m.mta_host [] (ground (arith, e)),
  ground (arith, e),
)

or-false : (a b : Bool) → (a || not b) ≡ false → (a ≡ false) × (b ≡ true)
or-false a b e = ground (arith, e)

port_or-positive : (n : ℕ) → 0 < (if ltb n 1 then 25 else n)
port_or-positive n = ground arith

limit_or-positive : (n : ℕ) → 0 < (if ltb n 1 then 4 else n)
limit_or-positive n = ground arith

-- A daemon that is initialised without error has forward addresses and domains of its own, a port
-- and a limit of users above 0, and a mail client with a sender, a host and a port; the port is
-- not the daemon's, or the host does not begin with `127.` and is not `::1`, `0.0.0.0` or the
-- public IP address. Every forward address is a name, an at sign and a domain, split at the first
-- at sign, and the domain is not one of the daemon's own.
pub initialise_daemon-IsSetUp :
    (w : World) (d : Daemon)
    → (initialise_daemon w d).1 ≡ none
    → IsSetUp w (initialise_daemon w d).0
unfolding initialise_daemon check with_defaults
initialise_daemon-IsSetUp w d e =
    let (forwards, e1) = or_else-none _ _ e in
    let (domains, e2) = or_else-none _ _ e1 in
    let (tls, e3) = or_else-none _ _ e2 in
    let (own, e4) = or_else-none _ _ e3 in
    let (leaving, runs) = or_else-none _ _ e4 in
    let (some_one, client) = or-false _ _ (error_when-none _ no_forward forwards) in
    let (from, host, port) = configured d.forward_mail_client client in
    record {
      some_forward = no_entries-ne d.forward_to some_one;
      some_domain = no_entries-ne d.my_domains (error_when-none _ no_domains domains);
      listening = port_or-positive d.port;
      serving = limit_or-positive d.per_ip_limit;
      sends_from = from;
      sends_to_host = host;
      sends_to_port = port;
      no_mail_loop = check_forwards-leave d.my_domains d.forward_to leaving;
      not_own_mta =
          is_own_mta-IsElsewhere w (with_defaults d) d.forward_mail_client
            (error_when-none _ own_mta own);
    }
