-- ===== src/Lib.antt =====
-- MeshCDN: the core of the agent of a CDN whose nodes are all equal.
--
-- A node takes commands of four segments (/w type scope params). internal/command parses them, runs
-- a batch of lines in one transaction of the node's database, and applies the effects once the batch
-- has committed: nginx is reloaded, the snapshot is saved, and the peers are told of the new
-- version. internal/mesh pings the peers, and pulls a snapshot from one that is ahead;
-- internal/command and internal/snapshot replay it, and reconcile the membership list of
-- internal/peers with it. internal/nginx merges the rules that are bound to an endpoint, renders the
-- files of nginx and swaps them in; internal/cert keeps the certificates and chooses the one for a
-- name, and internal/cert/renew renews them.
--
-- Which file models what:
--   Command.Types      internal/command/types.go: verbs, commands, error codes, Effects and Merge,
--                      outcomes, ParseKeyValueParams
--   Command.Parse      internal/command/types.go: Parse
--   Command.Ports      internal/command/portproto.go: EnforcePortBindings
--   Command.Aftermath  internal/command/executor.go: applyEffects, applyCachePurge, purgeCacheDir
--   Command.Executor   internal/command/executor.go: ExecuteBatch; internal/db/schema.go:
--                      CurrentVersion and BumpVersion
--   Command.Handlers   internal/command/handlers: registry.go, domain.go, bind.go, cache.go,
--                      objects.go, internal.go, and the types lang and target of system.go;
--                      internal/command/lang.go
--   Command.Sync       internal/command/executor.go: replayOneInTxForce, reconcilePeers and what it
--                      calls, ApplySnapshot; internal/snapshot/import.go: Import
--   Snapshot           internal/snapshot/snapshot.go: ParseText, String, DeclaredPeers, Export
--   Peers              internal/peers/peers.go: Manager
--   Mesh               internal/mesh/coordinator.go: Coordinator
--   Nginx              internal/nginx/precedence.go
--   Nginx.Generator    internal/nginx/generator.go
--   I18n               internal/i18n/width.go, and the languages of internal/i18n/i18n.go
--   Cert               internal/cert/selector.go, and the types of internal/cert/store.go
--   Cert.Store         internal/cert/store.go: Store
--   Cert.Renew         internal/cert/renew: Scanner, Worker, and the goroutines of Run
--   Logs               internal/logs: CollectOnce, and the statements of the store that it uses
--   Base               what the Go language and its standard library give
--   Examples           the theorems at concrete inputs
-- A function has the name that it has in the code, in snake case; a child module holds the proofs on
-- its parent's definitions.
--
-- State and effects. A function that changes state takes the state and returns it: Db is the
-- database or the transaction (the port table, config_version, the mirror table of the peers, and
-- the tables of the handlers, whose type is a parameter of the executor), Disk is the file
-- peers.json, States is the table of the coordinator. A transaction is a value of its own, which
-- replaces the database when it commits; the file of the peers is written at once, beside it, also
-- by the lines that an import replays. What applyEffects and ApplySnapshot do is a list of actions.
-- Errors are values. Calls of the database driver fail as the records Faults, PortFaults,
-- ImportFaults and Outside say, which also has the rows that an iteration reads, the statements on
-- the settings as SettingFaults says, the calls on the generator's files as FileFaults says, and
-- those on the access log and its tables as LogFaults and StoreFaults say; how the calls of nginx,
-- of the file system and of the exporter end is in the record Services. The handlers of the rules
-- work on the record Tables, those of the settings on the record Settings, which stands for the row
-- of cluster_meta.
--
-- Conventions. A string is the list of its code points, and the strings of the program are valid
-- UTF-8; the access log is the list of its bytes. int64 and int are integers without a bound, but
-- for the product of parseSizeToBytes and the next join order, which wrap around, and for the
-- ranges of strconv. A port is a natural number. A time is the number of nanoseconds since the zero
-- time of Go; a duration saturates. A map is a list of pairs with one entry for each key; where the
-- code ranges over a map, the theorems hold for any order of the list. sort.Slice is read as a
-- stable sort. A mutex makes an operation one step. The verb is one of the three that Parse lets
-- through. All loops are recursion on a list; the only fuel is that of the decimal printer, which
-- is the number itself plus one.
--
-- Parameters, as their code is not in the repository or belongs to a component that is left out: the
-- handlers of the types that Command.Handlers leaves out, the texts of View, net.ParseIP,
-- regexp.Compile, json.Marshal, how a text is quoted, Format and Parse of the layout RFC3339, the
-- replies of the peers, time.Parse, and the decoding of JSON, whose results stand in the records of
-- Nginx.Types and in LogLine.
--
-- Not modelled: the handlers of certificates, of upgrades, of listings and of the AI, the SQL
-- schema, HTTP and TLS, the templates of nginx (what they write is a parameter of Nginx.Generator),
-- ACME and self-signed certificates, the Telegram bot, the AI assistants, identity, the catalogue
-- of messages, and the command line. Logging is left out everywhere.
pub mod Base
pub mod Peers
pub mod Command
pub mod Cert
pub mod Mesh
pub mod Nginx
pub mod Snapshot
pub mod I18n
pub mod Logs
pub mod Examples
