-- ===== src/Dns/Daemon/Handlers.antt =====
-- daemon/dnsd/udp.go and tcp.go: the handlers of text queries, name queries and others, from a
-- packet to the reply.
use laitos.Base.{
  ℕ, Bool, true, false, ◌||◌, [], Option, none, some, Bytes, ltb, if◌then◌else◌, length, take,
}
use laitos.Toolbox.Command.{Error, Result, pin_and_shortcut_not_found}
use laitos.Dns.Query.{
  min_name_query_size, get_black_hole_response, make_text_response, extract_domain_name,
  extract_text_query_input, is_text_query, copy_at,
}
use laitos.Dns.Command.{decode_dtmf_command_input}
use laitos.Dns.Latest.{execute}
use laitos.Dns.Blacklist.{is_in_blacklist}
use laitos.Dns.Daemon.{
  Daemon, World, Handled, check_allow_client_ip, handle_udp_recursive_query,
  handle_tcp_recursive_query, length_prefix, max_packet_size, value_of,
}

abbrev pub is_pin_error : Option Error → Bool
is_pin_error (some pin_and_shortcut_not_found) = true
is_pin_error _ = false

-- The reply to a command that has run, or what the resolver says where the PIN did not match; a
-- command that is waited for has no reply.
abbrev pub command_reply {ℓ} :
    {A : Type ℓ} → (Bytes → A) → Bytes → Option Result → Daemon → Handled A → Handled A
command_reply size query none daemon resolved = record {
  daemon = daemon;
  size = size [];
  body = [];
  forwarded = false;
}
command_reply size query (some result) daemon resolved =
    let text = make_text_response query result.combined_output in
    if is_pin_error result.error
    then resolved
    else record { daemon = daemon; size = size text; body = text; forwarded = false }

-- A text query, with the handler that asks a resolver: it carries a command of two bytes or more,
-- or is any other query.
unfoldable pub handle_text_query {ℓ} :
    {A : Type ℓ} → World → (Bytes → A) → (Daemon → Handled A) → Bytes → Bytes → Daemon → Handled A
unfolding extract_text_query_input decode_dtmf_command_input execute make_text_response
handle_text_query w size resolve client_ip query daemon =
    let input = decode_dtmf_command_input (extract_text_query_input query) in
    let answer =
      execute w.process w.meanwhile w.purge_now w.purge_again w.found client_ip input
        daemon.latest_commands in
    let after = record daemon { latest_commands = answer.latest } in
    if ltb 1 (length input)
    then command_reply size query answer.result after (resolve after)
    else resolve daemon

-- A name query, or another.
unfoldable pub handle_name_query {ℓ} :
    {A : Type ℓ} → World → (Bytes → A) → (Daemon → Handled A) → Bytes → Daemon → Handled A
unfolding extract_domain_name is_in_blacklist get_black_hole_response
handle_name_query w size resolve query daemon =
    let hole = get_black_hole_response query in
    if is_in_blacklist w.to_lower daemon.black_list (extract_domain_name query)
    then record { daemon = daemon; size = size hole; body = hole; forwarded = false }
    else resolve daemon

-- The handlers over UDP, up to the datagram that is sent, where one is.
unfoldable pub handle_udp_query : World → Bytes → Bytes → Daemon → Handled ℕ
unfolding is_text_query handle_text_query handle_name_query handle_udp_recursive_query
handle_udp_query w client_ip query daemon =
    let resolve = handle_udp_recursive_query w w.first client_ip query in
    if is_text_query query
    then handle_text_query w (λ s. length s) resolve client_ip query daemon
    else handle_name_query w (λ s. length s) resolve query daemon

-- `HandleUDPClient`; `none` is no datagram.
unfoldable pub handle_udp_client : World → Bytes → Bytes → Daemon → Handled (Option Bytes)
unfolding handle_udp_query
handle_udp_client w client_ip packet daemon =
    let h = handle_udp_query w client_ip packet daemon in
    if ltb (length packet) min_name_query_size
    then record { daemon = daemon; size = none; body = []; forwarded = false }
    else record {
      daemon = h.daemon;
      size =
          if ltb (length h.body) 3
          then none
          else some (take h.size (copy_at 0 (take 2 packet) h.body));
      body = h.body;
      forwarded = h.forwarded;
    }

-- A name query over TCP is for those who may query, black-listed or not.
unfoldable pub handle_tcp_name_query : World → Bytes → Bytes → Daemon → Handled Bytes
unfolding check_allow_client_ip handle_name_query handle_tcp_recursive_query
handle_tcp_name_query w client_ip query daemon =
    let (checked, allowed) = check_allow_client_ip w.first client_ip daemon in
    if allowed
    then handle_name_query w (λ s. length_prefix (length s))
        (handle_tcp_recursive_query w w.second client_ip query) query checked
    else record { daemon = checked; size = []; body = []; forwarded = false }

unfoldable pub handle_tcp_query : World → Bytes → Bytes → Daemon → Handled Bytes
unfolding is_text_query handle_text_query handle_tcp_name_query handle_tcp_recursive_query
handle_tcp_query w client_ip query daemon =
    if is_text_query query
    then handle_text_query w (λ s. length_prefix (length s))
        (handle_tcp_recursive_query w w.first client_ip query) client_ip query daemon
    else handle_tcp_name_query w client_ip query daemon

-- `HandleTCPConnection`, on the two bytes of a length and the query behind them; what is written
-- is the prefix and the body.
unfoldable pub handle_tcp_connection :
    World → Bytes → Bytes → Bytes → Daemon → Handled (Option (Bytes × Bytes))
unfolding handle_tcp_query
handle_tcp_connection w client_ip query_len query daemon =
    let h = handle_tcp_query w client_ip query daemon in
    if ltb max_packet_size (value_of query_len) || ltb (value_of query_len) min_name_query_size
    then record { daemon = daemon; size = none; body = []; forwarded = false }
    else record {
      daemon = h.daemon;
      size = if ltb (length h.body) 2 then none else some (h.size, copy_at 0 (take 2 query) h.body);
      body = h.body;
      forwarded = h.forwarded;
    }
