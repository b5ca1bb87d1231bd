-- ===== src/Lib.antt =====
-- Verification library of nft-auth-whitelist.
--
-- The program lets an authenticated client open its own address in a firewall. cmd/auth-server
-- authenticates a request, records the client's CIDR with a time to live, and serves or pushes a
-- signed list (allow.json). cmd/receive takes a pushed list from standard input, cmd/puller fetches
-- one; both verify it, filter it and write allow.txt, and the puller can load a guard into nftables.
--
-- The parts, and the files that model them:
--   Server     cmd/auth-server/server.go, push.go, export.go and main.go: Defs, Root, Push, Redact,
--              Exports and Pages are the handlers and the pages, Program the mux, the tickers and
--              the steps of the store, Startup the process
--   Notifier   cmd/auth-server/notify.go
--   RateLimit  cmd/auth-server/ratelimit.go
--   Store      internal/store/store.go
--   Signer     internal/signer/signer.go
--   Ipx        internal/ipx/ipx.go, on Net, which models what the program uses of package net
--   ClientIp   internal/clientip/clientip.go
--   Auth       internal/auth/auth.go
--   Pipeline   internal/pipeline/pipeline.go
--   AtomicFile internal/atomicfile/atomicfile.go
--   Audit      internal/audit/audit.go: the log as its records, and Writer, the file and its lines
--   SshPush    internal/sshpush/sshpush.go
--   Receive    cmd/receive/receive.go, and main.go (Receive.Program)
--   Puller     cmd/puller/puller.go, and main.go (Puller.Program)
--   Nft        internal/nftguard/nftguard.go
--   Config     internal/config/config.go: Checks is shared, Server and Settings are the server's
--              configuration and its check, Files those of the receiver and the puller, Loading the
--              defaults and the load functions
--   Version    internal/version/version.go
--   Delivery   the way of an entry from the store to the list of a receiver, to its allow.txt
--              (Applied), and over the export to that of a puller (Pulled)
--   Prelude, Text, Dict and Clock are shared: lists, sorting, 64-bit integers, package strings, maps
--   with string keys, and package time. Tests applies the theorems to concrete inputs.
--
-- A Go function f stands for the function of the same name in snake case. A method takes its
-- receiver as an argument and returns it: the store (Store.Defs.Store), the limiter, the server. A
-- lock makes each method one step. Go strings and byte slices are lists of bytes; an error that the
-- caller tells apart is a constructor, and its text is left out, in the audit log too, but for the
-- reasons of a failed fetch (Puller.Defs.reason).
-- An int, an int64 or a time.Duration is a 64-bit integer whose sums and products wrap
-- (Prelude.Int); a time is a number of nanoseconds. A net.IP is a number below 2^128.
--
-- What is not under the repository enters as an argument: the JSON encoders (StoreJson, StateJson,
-- EnvelopeJson, Encoder), HMAC and SHA-256 (Crypto, Sha256), the text form of an address
-- (AddressSyntax), the order in which a range loop visits a map (MapOrder), the answers of the
-- operating system (Outcomes, Answers), the decoder of a configuration file (Decoder), url.Parse,
-- filepath.Clean and filepath.Join, the text of times and durations (Formats), the clock, ssh and
-- the HTTP server and client. A record states the documented behaviour that is relied on in the
-- fields whose types are propositions.
--
-- The life of the server is a list of events, requests and ticks (Server.Program.serve), with the
-- way it ended, if it did (Server.Startup.Ending). What may interleave is finer, a relation between
-- the states that the lock of the store guards (Server.Program.Step and Reach), and each event is a
-- sequence of such steps. The life of the puller is a list of rounds (Puller.Program.cycles).
--
-- A write to a file is a sequence of states of the disk (AtomicFile.Defs), so that what another
-- process sees in between is part of the model; the disk has no directories, and a crash in a write
-- is not told apart from a stop at one of these states.
--
-- Fuel: printing a number n takes fuel n + 1, more than it has digits (Text.Decimal); strings.TrimSpace
-- takes the length of the text, since each round drops a byte (Text.Trim). All else is structural.
--
-- Not modelled: response headers, the timeouts of the HTTP server, the parsing of flags, requests
-- that the shutdown or a timeout cuts off half way, and what is printed to the log of the process.
pub mod Prelude
pub mod Text
pub mod Dict
pub mod Clock
pub mod Signer
pub mod AtomicFile
pub mod Store
pub mod Net
pub mod Ipx
pub mod Audit
pub mod Version
pub mod Pipeline
pub mod ClientIp
pub mod RateLimit
pub mod Receive
pub mod Nft
pub mod Puller
pub mod Auth
pub mod SshPush
pub mod Config
pub mod Notifier
pub mod Server
pub mod Delivery
pub mod Tests
