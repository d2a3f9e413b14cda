-- ===== src/Dns/Tests.antt =====
-- The theorems about the DNS daemon at concrete inputs.
use laitos.Base.{
  ◌⊎◌, ◌↔◌, ◌+◌, ◌-◌, ◌%◌, ◌≡◌, refl, true, List, [], ◌∷◌, ◌++◌, none, Bytes, codes, arith, All,
  length, take, replicate, inl, inr, min,
}
use laitos.Text.Trim.{trim_space}
use laitos.Text.Lines.{split}
use laitos.Text.Separators.{lacks}
use laitos.Toolbox.Command.{Command, Result}
use laitos.Dns.Query.{extract_text_query_input, make_text_response, limited, text_query_magic}
use laitos.Dns.Query.Names.{spelled, text_query, extract_text_query_input-spelled}
use laitos.Dns.Query.Replies.{
  Header, header_bytes, answered, question, text_record, make_text_response-record,
}
use laitos.Dns.Command.{
  is_letter, sequence_of, encode_byte, decode_dtmf_command_input, get_dns_query,
}
use laitos.Dns.Command.Letters.{IsEncodable}
use laitos.Dns.Command.RoundTrip.{IsDomain}
use laitos.Dns.Command.Delivery.{get_dns_query-reaches}
use laitos.Dns.Latest.{
  LatestCommands, Answer, new_latest_commands, run_text_command, begin_execution, execute,
  text_command,
}
use laitos.Dns.Latest.Calm.{still, begins, Timed, execute-Calm}
use laitos.Dns.Blacklist.{
  in_set, is_in_blacklist, extract_names_from_hosts_content, max_name_entries_to_extract,
}
use laitos.Dns.Blacklist.Names.{naming, IsBlockable, extract_names_from_hosts_content-length}
use laitos.Dns.Blacklist.Ancestors.{HasListedAncestor, is_in_blacklist_iff}
use laitos.Dns.Update.{black_list_entries, num_routines, update_black_list}
use laitos.Dns.Update.Shares.{cut, update_black_list-shares}
use laitos.Dns.Daemon.{Daemon, World, Refresh, UdpExchange, TcpExchange}
use laitos.Dns.Daemon.Handlers.{handle_udp_client}
use laitos.Dns.Daemon.Access.{IsAllowed, handle_client-IsAllowed}

abbrev domain : Bytes
domain = codes "example.com"

domain-IsDomain : IsDomain domain
unfolding lacks
domain-IsDomain = record {
  name = codes "example";
  top = codes "com";
  spelling = refl;
  named = omega arith;
  topped = omega arith;
  name_visible = refl;
  top_visible = refl;
  name_whole = refl;
  top_whole = refl;
}

abbrev command : Bytes
command = codes "a.s b"

command-IsEncodable : All (λ c. (is_letter c ≡ true) ⊎ IsEncodable c) command
unfolding sequence_of
command-IsEncodable =
    (inl refl, (inr (λ e. absurd (cc)), (inl refl, (inr (λ e. absurd (cc)), (inl refl, tt)))))

abbrev header : Bytes
header = replicate 12 1

abbrev labels : List Bytes
labels = codes "a1420s0b" ∷ codes "example" ∷ codes "com" ∷ []

get_dns_query-reaches_example :
    decode_dtmf_command_input (extract_text_query_input (text_query header (codes "_") labels []))
    ≡ command
unfolding get_dns_query encode_byte split
get_dns_query-reaches_example =
    get_dns_query-reaches command domain header (codes "_") labels [] command-IsEncodable
      domain-IsDomain (omega arith) (omega arith) refl refl
      (
        (λ e. absurd (cc), refl),
        ((λ e. absurd (cc), refl), ((λ e. absurd (cc), refl), ((λ e. absurd (cc), refl), tt))),
      )
      (refl, (refl, (refl, tt)))

-- A label of fifty bytes, in front of which stands a `2` in place of a full stop.
extract_text_query_input-spelled_example :
    extract_text_query_input (text_query header (codes "_") (replicate 50 b'a' ∷ []) [])
    ≡ spelled (codes "_") (replicate 50 b'a' ∷ [])
extract_text_query_input-spelled_example =
    extract_text_query_input-spelled header (codes "_") (replicate 50 b'a' ∷ []) [] refl
      ((λ e. absurd (cc), refl), ((λ e. absurd (cc), refl), tt)) (omega arith, tt) (omega arith)

abbrev query_header : Header
query_header = record {
  id = (7, 8);
  flags = (1, 32);
  questions = (0, 1);
  answers = (0, 0);
  authorities = (0, 0);
  additional = (0, 1);
}

make_text_response-record_example :
    make_text_response
      (text_query (header_bytes query_header) (codes "_") labels (0 ∷ 0 ∷ 41 ∷ []))
      (codes "done")
    ≡ header_bytes (answered query_header)
      ++ (question (codes "_") labels
          ++ (text_record (limited (codes "done")) ++ (text_query_magic ++ (0 ∷ 0 ∷ 41 ∷ []))))
make_text_response-record_example =
    make_text_response-record query_header (codes "_") labels (0 ∷ 0 ∷ 41 ∷ []) (codes "done") (
      (λ e. absurd (cc), refl),
      ((λ e. absurd (cc), refl), ((λ e. absurd (cc), refl), ((λ e. absurd (cc), refl), tt))),
    )

abbrev runs : Command → Result
runs cmd = record { command = cmd; error = none; output = []; combined_output = codes "files" }

abbrev recent : LatestCommands
recent = record { last_purge = 100; latest_result = [] }

abbrev first_answer : Answer
first_answer = run_text_command runs (λ rec. rec) (codes "ip") command recent

-- At 131 the result is gone, however lately the command ran.
execute-Calm_example :
    Timed 100 131 (codes "other") command (runs (text_command (codes "ip") command)) (
      execute runs
        (λ rec. rec)
        131
        131
        []
        (codes "other")
        command
        (begin_execution (codes "x") first_answer.latest))
unfolding run_text_command begin_execution
execute-Calm_example =
    execute-Calm runs (λ rec. rec) (codes "ip") (codes "other") command recent
      (begin_execution (codes "x") first_answer.latest) 125 131 131 [] first_answer _ refl refl
      (begins (codes "x") (λ e. absurd (cc)) still) (omega arith)

abbrev names : List Bytes
names = codes "evil.com" ∷ []

is_in_blacklist_iff_example : (is_in_blacklist (λ s. s) names (codes "a.b.evil.com") ≡ true) ↔ (
    (in_set (trim_space (codes "a.b.evil.com")) names ≡ true)
    ⊎ HasListedAncestor (trim_space (codes "a.b.evil.com")) names)
is_in_blacklist_iff_example =
    is_in_blacklist_iff (λ s. s) names (codes "a.b.evil.com") (omega arith)

update_black_list-shares_example :
    update_black_list (λ s. s) (λ s. []) true 5 (replicate 7 (codes "evil.com")) names
    ≡ black_list_entries
        (λ s. s)
        (λ s. [])
        (take
          (length (cut 5 (replicate 7 (codes "evil.com")))
            - length (cut 5 (replicate 7 (codes "evil.com"))) % num_routines true names)
          (cut 5 (replicate 7 (codes "evil.com"))))
update_black_list-shares_example =
    update_black_list-shares (λ s. s) (λ s. []) true 5 (replicate 7 (codes "evil.com")) names

abbrev hosts : Bytes
hosts = codes "127.0.0.1 evil.com # bad"

extract_names_from_hosts_content-length_example :
    (length (extract_names_from_hosts_content (λ s. s) hosts)
      ≡ min (max_name_entries_to_extract + 1) (naming (λ s. s) (split 10 hosts)))
    × All IsBlockable (extract_names_from_hosts_content (λ s. s) hosts)
extract_names_from_hosts_content-length_example =
    extract_names_from_hosts_content-length (λ s. s) hosts

abbrev refresh : Refresh
refresh = record { now = 10; again = 10; latest_ip = [] }

abbrev world : World
world = record {
  to_lower = λ s. s;
  process = runs;
  meanwhile = λ rec. rec;
  purge_now = 10;
  purge_again = 10;
  found = [];
  first = refresh;
  second = refresh;
  udp_exchange = λ s. UdpExchange.received s;
  tcp_exchange = λ s. TcpExchange.no_length;
}

abbrev daemon : Daemon
daemon = record {
  allow_query_ip_prefixes = codes "192.168." ∷ [];
  my_public_ip = codes "1.2.3.4";
  allow_query_last_update = 5;
  black_list = names;
  latest_commands = new_latest_commands;
}

handle_client-IsAllowed_example : IsAllowed (codes "192.168.0.7") daemon
unfolding handle_udp_client
handle_client-IsAllowed_example =
    handle_client-IsAllowed world (codes "192.168.0.7") [] (replicate 20 1) daemon (inl refl)
