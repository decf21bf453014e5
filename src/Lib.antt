-- ===== src/Lib.antt =====
-- Verification library of the email server (the C++ program under src/).
--
-- The program accepts mail over SMTP, keeps it in mailbox directories and in a queue of files, and
-- delivers the queue from a worker. A session asks the authentication manager, the rate limiter and
-- the mail store; the worker asks the delivery client and the virus scanners; SPF, DKIM and DMARC
-- evaluate a sender; the lifecycle classes start and stop the subsystems.
--
-- What models what, with the names of the code in snake_case:
--   Base         shared names; Base.Text is std::string as a list of byte values, Base.Maps the hash
--                maps with string keys, Base.Tests the Boolean tests on numbers, Base.Lists lists
--                with native lengths, Base.Decimal std::to_string.
--   Smtp         src/smtp/smtp_session.cpp and .h. Session is the record of the class's members,
--                Link its socket: the input is a list with one entry for each call of secureRecv,
--                and what the session does is a trace of events. Handlers has a function for each
--                handle* method, Message has handleData, Dispatch splitCommand and handleCommand,
--                Run the constructors and run. Server is the admission of clients in
--                src/smtp/smtp_server.cpp. Env stands for what the class calls: the handshake, the
--                authentication manager, the clock, the configuration and the mail store.
--   Queue        src/queue/mail_queue.cpp, .h and src/queue/retry_worker.cpp. Disk is the directory
--                tree under queue/ as files with paths, Envelope the text of a queued message, Ops
--                the operations of MailQueue, Worker RetryWorker::runOnce. A Machine says which
--                system calls succeed and what the time is.
--   Antispam     src/antispam/spf_parser.cpp, spf_evaluator.cpp, spf_checker.cpp, spf_record.h,
--                auth_results.h and dmarc_evaluator.cpp.
--   Delivery     src/delivery/smtp_client.cpp and .h, and the queue's worker with this client. A
--                Peer has the outcomes of the calls and the answers of a host.
--   Integers     int where it can be negative, and std::stoi.
--   Policy       src/policy/attachment_policy.cpp.
--   Streams      the reads of words and fields from string streams that several parts use.
--   Imap         src/imap/imap_session.cpp and flags_index.cpp with their headers, and the thread of
--                a client in src/imap/imap_server.cpp. Session is the record of the class's members
--                with its socket, Server the loop.
--   Mime         src/mime/mime_decoder.cpp and mime_parser.cpp.
--   Validation   src/core/input_validator.cpp.
--   Auth         src/core/auth_manager.cpp and src/core/password_hash.cpp with their headers. Crypto
--                stands for the functions of OpenSSL.
--   Core         src/core/rate_limiter.cpp, connection_manager.cpp and tls_enforcement.cpp with their
--                headers.
--   Cluster      src/core/distributed_auth_manager.cpp and .h. Manager is the record of the class's
--                members, whose maps stand in for a Redis server in the source itself; Refinement
--                has the table of hashes that a run of calls stands for.
--   Dkim         src/antispam/dkim_canon.cpp, dkim_signer.cpp and dkim_verifier.cpp.
--   Dns          src/dns/dns_packet.cpp and dns_resolver.cpp. A response is the 512 bytes of the
--                buffer and the number of bytes that were received.
--   Ha           src/ha/leader_election.cpp and ha_controller.cpp. Nodes has the steps of any number
--                of nodes that share one lock file, in any order.
--   Spam         src/spam/spam_rules.cpp and spam_engine.cpp, and the stores of src/threat_intel/ in
--                memory with intel_feedback.cpp. Scores are integers in tenths, since each score of
--                the rules is one.
--   Storage      src/storage/mail_store.cpp and src/retro/retro_manager.cpp. FileSystem maps paths
--                to contents, System says which calls of the system succeed; Mailboxes has the
--                abstract mailboxes, as functions from users and identifiers to texts.
--   Lifecycle    src/core/app_lifecycle.cpp and src/core/shutdown_coordinator.cpp with their
--                headers. Order has ordered lists and a sort.
--
-- Conventions. State is passed from call to call. An exception is a value of the result: an Option,
-- or a data type of the model that names it. Counters, sizes and times are natural numbers; where
-- the code subtracts, it does so above zero, or only compares the difference with a positive bound.
-- Strings are sequences of bytes in the "C" locale.
--
-- Fuel. The loops that read from a socket (Smtp.Message.collect, Smtp.Run.serve and
-- Imap.Server.serve) take one more than the number of entries left in the input, since a round
-- reads at least one of them. The evaluation of SPF takes one more than its limit of ten lookups,
-- and the search for a DMARC record one more than the length of the domain, since each step makes
-- the domain shorter. A function that runs out of its fuel returns a value of its own, so nothing
-- depends on it silently. The search for the parts of a MIME message and the removal of ".." from a
-- path take the number of bytes, since a round takes at least two of them. The loop that cuts the
-- line ends of a body for DKIM takes the number of bytes too, since a round cuts two. The fuel of
-- Dns.Packet.read_name is an argument: a response can make the code call itself for ever, and a
-- well-formed name takes one round more than it has labels.
--
-- Parameters. DNS answers are a function from a domain to its TXT records. The answers of the
-- delivery client are a function for the queue's worker. The random part of a message id, the
-- identifier that the mail store makes of the time, and the number that DMARC's sampling draws, are
-- arguments. PBKDF2, the BASE64 filters of OpenSSL and fs::canonical are functions. std::sort
-- leaves the order of equal elements open, and is a parameter with its two guarantees: the result
-- has the same elements, and is ordered. SHA-256, the signatures and keys of DKIM, the TXT records
-- that its verifier looks up, the socket of the resolver and the numbers that the random generators
-- draw are arguments or fields of a record. The lock of the leader's file is part of the state of
-- the nodes: one node holds it or none, and the death of a process frees it.
--
-- Not modelled: log lines and metrics, which nothing reads back; the allocation of memory; threads
-- inside one component, since a modelled class works under one mutex or in one thread, but for the
-- steps of the connection manager and those of the nodes that elect a leader; sockets, OpenSSL and
-- HTTP services; the JSON files of the threat intelligence; the texts that print the doubles of a
-- spam score. Of the program's other parts, the virus scanners and the sandbox, the SPF macros and
-- the retry table, which nothing calls, the readiness flag, the administration and the monitoring
-- over HTTP, the log files, the configuration and main are not modelled.
pub mod Base
pub mod Antispam
pub mod Auth
pub mod Cluster
pub mod Core
pub mod Delivery
pub mod Dkim
pub mod Dns
pub mod Ha
pub mod Imap
pub mod Integers
pub mod Lifecycle
pub mod Mime
pub mod Policy
pub mod Queue
pub mod Smtp
pub mod Spam
pub mod Storage
pub mod Streams
pub mod Validation
