-- ===== src/Dns/Daemon/Access.antt =====
-- Whose queries go to a forwarder.
use mathlib.Core.Path.{subst}
use mathlib.Core.List.{Memᴰ}
use laitos.Base.{
  ◌≡◌, ◌⊎◌, refl, sym, ap, ◌∙◌, Bool, true, false, ◌||◌, List, [], ◌∷◌, Option, none, some, Bytes,
  codes, arith, ltb, if◌then◌else◌, length, equal, equal_iff, has_prefix, Bool-cases, inl, inr,
}
use laitos.Toolbox.Command.{Result}
use laitos.Dns.Latest.{execute}
use laitos.Dns.Query.{
  min_name_query_size, is_text_query, extract_domain_name, extract_text_query_input,
}
use laitos.Dns.Command.{decode_dtmf_command_input}
use laitos.Dns.Blacklist.{is_in_blacklist}
use laitos.Dns.Daemon.{
  Daemon, Refresh, World, Handled, allow_my_public_ip, any_prefix, check_allow_client_ip,
  if_allowed, handle_udp_recursive_query, handle_tcp_recursive_query, max_packet_size, value_of,
  length_prefix,
}
use laitos.Dns.Daemon.Handlers.{
  is_pin_error, command_reply, handle_text_query, handle_name_query, handle_udp_query,
  handle_udp_client, handle_tcp_name_query, handle_tcp_query, handle_tcp_connection,
}

-- The address is of the computer itself, or starts with a prefix that the configuration has.
abbrev pub IsAllowed : Bytes → Daemon → Type 0
IsAllowed client_ip daemon =
    (has_prefix client_ip (codes "127.") ≡ true)
    ⊎ ((client_ip ≡ codes "::1")
        ⊎ ((client_ip ≡ daemon.my_public_ip)
            ⊎ ((prefix : Bytes) × Memᴰ prefix daemon.allow_query_ip_prefixes
                × (has_prefix client_ip prefix ≡ true))))

or-cases : (a b : Bool) → (a || b) ≡ true → (a ≡ true) ⊎ (b ≡ true)
or-cases true b h = inl refl
or-cases false b h = inr h

any_prefix-member :
    (client_ip : Bytes) (prefixes : List Bytes)
    → any_prefix client_ip prefixes ≡ true
    → (prefix : Bytes) × Memᴰ prefix prefixes × (has_prefix client_ip prefix ≡ true)
unfolding any_prefix
any_prefix-member client_ip [] h = absurd (cc)
any_prefix-member client_ip (prefix ∷ prefixes) h =
    elim (or-cases (has_prefix client_ip prefix) (any_prefix client_ip prefixes) h) [
      | inl here ↦ (prefix, Memᴰ.head refl, here)
      | inr later ↦
          let (found, member, starts) = any_prefix-member client_ip prefixes later in
          (found, Memᴰ.tail member, starts)
    ]

-- The refresh leaves the configuration alone.
allow_my_public_ip-prefixes :
    (r : Refresh) (daemon : Daemon)
    → (allow_my_public_ip r daemon).allow_query_ip_prefixes ≡ daemon.allow_query_ip_prefixes
unfolding allow_my_public_ip
allow_my_public_ip-prefixes r daemon = ground arith

own-IsAllowed :
    (client_ip : Bytes) (daemon : Daemon)
    → (has_prefix client_ip (codes "127.")
        || equal client_ip (codes "::1")
        || equal client_ip daemon.my_public_ip)
      ≡ true
    → IsAllowed client_ip daemon
own-IsAllowed client_ip daemon h =
    let loopback = has_prefix client_ip (codes "127.") in
    let same = equal client_ip (codes "::1") in
    elim (or-cases (loopback || same) (equal client_ip daemon.my_public_ip) h) [
      | inl first ↦ elim (or-cases loopback same first) [
        | inl l ↦ inl l
        | inr e ↦ inr (inl ((equal_iff client_ip (codes "::1")).0 e))
      ]
      | inr own ↦ inr (inr (inl ((equal_iff client_ip daemon.my_public_ip).0 own)))
    ]

check_allow_client_ip-IsAllowed :
    (r : Refresh) (client_ip : Bytes) (daemon : Daemon)
    → (check_allow_client_ip r client_ip daemon).1 ≡ true
    → IsAllowed client_ip daemon
unfolding check_allow_client_ip
check_allow_client_ip-IsAllowed r client_ip daemon h =
    let own =
      has_prefix client_ip (codes "127.")
      || equal client_ip (codes "::1")
      || equal client_ip daemon.my_public_ip in
    elim (Bool-cases (equal client_ip [] || ltb 64 (length client_ip))) [
      | inl y ↦ absurd (ground (arith, y, h))
      | inr n ↦ elim (Bool-cases own) [
        | inl y ↦ own-IsAllowed client_ip daemon y
        | inr m ↦
            let refreshed = allow_my_public_ip r daemon in
            let any : any_prefix client_ip refreshed.allow_query_ip_prefixes ≡ true =
              ground (arith, n, m, h) in
            inr (
              inr (
                inr (
                  any_prefix-member client_ip daemon.allow_query_ip_prefixes (
                    ap (any_prefix client_ip) (sym (allow_my_public_ip-prefixes r daemon)) ∙ any))))
      ]
    ]

if_allowed-forwarded {ℓ} :
    {A : Type ℓ} (nothing : A) (reply : A × Bytes) (checked : Daemon × Bool)
    → (if_allowed nothing reply checked).forwarded ≡ true
    → checked.1 ≡ true
if_allowed-forwarded nothing (size, body) (daemon, true) h = refl
if_allowed-forwarded nothing (size, body) (daemon, false) h = absurd (cc)

handle_udp_recursive_query-IsAllowed :
    (w : World) (r : Refresh) (client_ip query : Bytes) (daemon : Daemon)
    → (handle_udp_recursive_query w r client_ip query daemon).forwarded ≡ true
    → IsAllowed client_ip daemon
unfolding handle_udp_recursive_query
handle_udp_recursive_query-IsAllowed w r client_ip query daemon h =
    check_allow_client_ip-IsAllowed r client_ip daemon (if_allowed-forwarded _ _ _ h)

handle_tcp_recursive_query-IsAllowed :
    (w : World) (r : Refresh) (client_ip query : Bytes) (daemon : Daemon)
    → (handle_tcp_recursive_query w r client_ip query daemon).forwarded ≡ true
    → IsAllowed client_ip daemon
unfolding handle_tcp_recursive_query
handle_tcp_recursive_query-IsAllowed w r client_ip query daemon h =
    check_allow_client_ip-IsAllowed r client_ip daemon (if_allowed-forwarded _ _ _ h)

module _ {ℓ κ} {A : Type ℓ} (P : Type κ) (w : World) (size : Bytes → A) where
  command_reply-forwarded :
      (query : Bytes) (o : Option Result) (daemon : Daemon) (resolved : Handled A)
      → (resolved.forwarded ≡ true → P)
      → (command_reply size query o daemon resolved).forwarded ≡ true
      → P
  command_reply-forwarded query none daemon resolved k h = absurd (cc)
  command_reply-forwarded query (some result) daemon resolved k h =
      elim (Bool-cases (is_pin_error result.error)) [
        | inl y ↦ k (rw y at h)
        | inr n ↦ absurd (ground (arith, n, h))
      ]

  handle_text_query-forwarded :
      (resolve : Daemon → Handled A) (client_ip query : Bytes) (daemon : Daemon)
      → ((d : Daemon)
          → (d ≡ record daemon { latest_commands = d.latest_commands })
          → (resolve d).forwarded ≡ true
          → P)
      → (handle_text_query w size resolve client_ip query daemon).forwarded ≡ true
      → P
  unfolding handle_text_query
  handle_text_query-forwarded resolve client_ip query daemon k h =
      let input = decode_dtmf_command_input (extract_text_query_input query) in
      let answer =
        execute w.process w.meanwhile w.purge_now w.purge_again w.found client_ip input
          daemon.latest_commands in
      let after : Daemon = record daemon { latest_commands = answer.latest } in
      elim (Bool-cases (ltb 1 (length input))) [
        | inl y ↦
            command_reply-forwarded query answer.result after (resolve after) (k after refl)
              (rw y at h)
        | inr n ↦ k daemon refl (rw n at h)
      ]

  handle_name_query-forwarded :
      (resolve : Daemon → Handled A) (query : Bytes) (daemon : Daemon)
      → ((resolve daemon).forwarded ≡ true → P)
      → (handle_name_query w size resolve query daemon).forwarded ≡ true
      → P
  unfolding handle_name_query
  handle_name_query-forwarded resolve query daemon k h =
      elim (Bool-cases (is_in_blacklist w.to_lower daemon.black_list (extract_domain_name query))) [
        | inl y ↦ absurd (ground (arith, y, h))
        | inr n ↦ k (rw n at h)
      ]

handle_udp_query-IsAllowed :
    (w : World) (client_ip query : Bytes) (daemon : Daemon)
    → (handle_udp_query w client_ip query daemon).forwarded ≡ true
    → IsAllowed client_ip daemon
unfolding handle_udp_query
handle_udp_query-IsAllowed w client_ip query daemon h =
    let P = IsAllowed client_ip daemon in
    let resolve = handle_udp_recursive_query w w.first client_ip query in
    elim (Bool-cases (is_text_query query)) [
      | inl y ↦
          handle_text_query-forwarded P w (λ s. length s) resolve client_ip query daemon
            (λ d e f.
              subst (IsAllowed client_ip) e
                (handle_udp_recursive_query-IsAllowed w w.first client_ip query d f))
            (rw y at h)
      | inr n ↦
          handle_name_query-forwarded P w (λ s. length s) resolve query daemon
            (handle_udp_recursive_query-IsAllowed w w.first client_ip query daemon) (rw n at h)
    ]

handle_tcp_name_query-IsAllowed :
    (w : World) (client_ip query : Bytes) (daemon : Daemon)
    → (handle_tcp_name_query w client_ip query daemon).forwarded ≡ true
    → IsAllowed client_ip daemon
unfolding handle_tcp_name_query
handle_tcp_name_query-IsAllowed w client_ip query daemon h =
    elim (Bool-cases (check_allow_client_ip w.first client_ip daemon).1) [
      | inl y ↦ check_allow_client_ip-IsAllowed w.first client_ip daemon y
      | inr n ↦ absurd (ground (arith, n, h))
    ]

handle_tcp_query-IsAllowed :
    (w : World) (client_ip query : Bytes) (daemon : Daemon)
    → (handle_tcp_query w client_ip query daemon).forwarded ≡ true
    → IsAllowed client_ip daemon
unfolding handle_tcp_query
handle_tcp_query-IsAllowed w client_ip query daemon h =
    let P = IsAllowed client_ip daemon in
    elim (Bool-cases (is_text_query query)) [
      | inl y ↦
          handle_text_query-forwarded P w (λ s. length_prefix (length s))
            (handle_tcp_recursive_query w w.first client_ip query) client_ip query daemon
            (λ d e f.
              subst (IsAllowed client_ip) e
                (handle_tcp_recursive_query-IsAllowed w w.first client_ip query d f))
            (rw y at h)
      | inr n ↦ handle_tcp_name_query-IsAllowed w client_ip query daemon (rw n at h)
    ]

if-forwarded {ℓ} :
    {A : Type ℓ} (b : Bool) (refused handled : Handled A)
    → refused.forwarded ≡ false
    → (if b then refused else handled).forwarded ≡ true
    → handled.forwarded ≡ true
if-forwarded true refused handled n h = absurd (cc)
if-forwarded false refused handled n h = h

-- The daemon is no open resolver: whatever a client sends, over UDP or TCP, a query goes to a
-- forwarder only where the client's address is a loopback address or the computer's own, or
-- starts with one of the prefixes of the configuration, also where the query is a command with a
-- wrong PIN.
pub handle_client-IsAllowed :
    (w : World) (client_ip query_len packet : Bytes) (daemon : Daemon)
    → ((handle_udp_client w client_ip packet daemon).forwarded ≡ true)
      ⊎ ((handle_tcp_connection w client_ip query_len packet daemon).forwarded ≡ true)
    → IsAllowed client_ip daemon
unfolding handle_udp_client handle_tcp_connection
handle_client-IsAllowed w client_ip query_len packet daemon (inl h) =
    handle_udp_query-IsAllowed w client_ip packet daemon
      (if-forwarded (ltb (length packet) min_name_query_size) _ _ refl h)
handle_client-IsAllowed w client_ip query_len packet daemon (inr h) =
    handle_tcp_query-IsAllowed w client_ip packet daemon (
      if-forwarded
        (ltb max_packet_size (value_of query_len) || ltb (value_of query_len) min_name_query_size) _
        _ refl h)
