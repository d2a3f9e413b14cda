-- ===== src/Lib.antt =====
-- A model of laitos, the personal Internet software suite, and theorems about it.
--
-- laitos runs daemons (mail, DNS, web, chat bots, sockets) that collect app commands from their
-- clients and hand them to a toolbox of apps. The development models the parts with logic of
-- their own:
--   Smtp       the SMTP server under daemon/smtpd/smtp: Protocol decodes command lines
--              (protocol.go, parseConversationCommand); Connection and Conversation are the
--              conversation's state, replies and loop (connection.go, Connection and CarryOn).
--              Daemon is the server that carries it on (smtpd.go, HandleTCPConnection), and
--              Daemon/Setup the check of its configuration (Initialise), and Daemon/Dmarc the
--              change of senders (dmarc_workaround.go).
--   RateLimit  misc/ratelimit.go: Initialise and Add. The daemons and the command processor ask
--              it before they serve a client.
--   Lalog      lalog/ring_buffer.go: Push, Clear, IterateReverse and GetAll.
--   Toolbox    toolbox/: Command (cmd.go), InputFilter (cmd_input_filter.go), ResultFilter
--              (cmd_result_filter.go), Patterns and Processor (cmd_processor.go, Process),
--              Processor/Sanity (IsEmpty, IsSaneForInternet, initialiseOnce), Dtmf (dtmf.go,
--              DTMFDecode), Http (cmd.go, HTTPErrorToResult, and inet/http_client.go,
--              Non2xxToError).
--   Messages   toolbox/message_processor.go and message_processor_struct.go: Report is a subject's
--              report and its compact string, Store the reports and waiting commands (StoreReport
--              under its mutex, removeExpiredSubjects), Latest the query of a subject's reports
--              (GetLatestReportsFromSubject), Commands the commands of subjects
--              (processCommandRequest, StoreReport, Execute). It runs commands with a processor of
--              Toolbox.
--   Dns        daemon/dnsd and daemon/phonehome/dns_query_builder.go: Query reads names of packets
--              and makes replies (query.go), Command the commands in names (DecodeDTMFCommandInput,
--              GetDNSQuery), Latest the commands run lately (latest_cmd.go), Blacklist and Update
--              the black list (blacklist.go, IsInBlacklist, UpdateBlackList), Daemon the handlers
--              of queries (udp.go, tcp.go, checkAllowClientIP). It decodes digits with Toolbox/Dtmf
--              and runs commands with a processor of Toolbox.
--   Snmp       daemon/snmpd/snmp/nodes.go and the answers of daemon/snmpd/snmpd.go: GetNode,
--              GetNextNode and the switch of HandleUDPClient.
--   Text       what these use of Go's strings and unicode packages; Base has the shared names.
--
-- Strings are lists of bytes. `int` values are natural numbers: the code's checks keep the ones
-- modelled non-negative. An access out of range, which panics in Go, is `none`. State is passed
-- explicitly. The network, the clock, the features and the two-factor codes are arguments: the
-- reads of an SMTP connection are a list, on which the loop of CarryOn recurs, so that no fuel is
-- needed, and a list that is over stands for the end of the stream. The mail daemon's loop recurs
-- on the rounds that its limit of 256 leaves, and the look-ups of a domain's parents on a depth of
-- eight, since domains with eight dots or more are not looked into. The loop over the labels of a
-- DNS query recurs on as many rounds as the command has bytes, and the one over the parents of a
-- name on as many as the name has: each round takes at least a byte. Mutexes make the calls that
-- they guard atomic; where other calls may come between two of them, the steps are functions of
-- their own. Deadlines are left out, and log messages, but for the mail daemon's summary of a
-- conversation.
--
-- Not modelled: the daemons' listeners, the web handlers, the browser and mail clients, the apps
-- that call other services, the launcher, system maintenance and the platform code, which consist
-- of input and output; and, of the code with logic of its own, the message processor's query of all
-- subjects (GetLatestReports), the calculation of two-factor codes, phonetic spelling, the byte log
-- writer, the packets of SNMP, the configuration of the DNS daemon (Initialise), and the files and
-- statistics of misc.
pub mod Base
pub mod Text
pub mod Dns
pub mod Smtp
pub mod Lalog
pub mod Messages
pub mod RateLimit
pub mod Snmp
pub mod Toolbox
