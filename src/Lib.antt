-- ===== src/Lib.antt =====
-- HERMES, the dynamic DNS service of OLIMPO: products/hermes/internal.
--
-- Devices (UDM routers) report their addresses with DDNS credentials, and run agents with identity
-- credentials. Each service is a set of methods over one SQL database, reached through gorm, and
-- most methods run one transaction. The services share the tables and call one another only where
-- named below.
--
-- Which file is about what:
--   Common            tests on numbers and texts, integers, and lists as tables (Common/Rows;
--                     Common/Owned is about the rows of other owners)
--   Errors            the Err... values of the services
--   Gorm              gorm over SQLite: a parameter with its documented laws. `Exec S A` is a call
--                     that takes a database to a result and a database; Gorm/Rules and
--                     Gorm/Statements have the rules by which a call is proved, Gorm/Memory an
--                     instance that never fails.
--   Model             internal/model and the tables of internal/database: one record per struct, an
--                     enumeration per family of status constants, and `Database`
--   Text              the functions of strings and encoding/hex that are called
--   Credential        internal/credential/service.go. Base: its constants, conditions and updates;
--                     Advance: RequestRotation, CurrentRotation, StageCandidate, StartValidation
--                     and ConfirmCredentialUse; Finish: ReconcileExpiredGrace and Rollback; Runner:
--                     RunReconciler. The
--                     other files prove: Invariant says what a sound database is, and each method
--                     has a file; History is about any sequence of calls.
--   Keys              internal/security/apikey.go; Keys/Base64 is the encoding of its secrets
--   AgentAuth         internal/agentauth/service.go; Identity is the invariant of its table
--   Enrollment        internal/enrollment/service.go; Enrollment/Grant has Create and Exchange, which
--                     issues identities by AgentAuth inside its own transaction
--   Telemetry         internal/telemetry/service.go; a `float64` is a Float64 of Model/Reports;
--                     Input: its validation; Statuses: ListStatuses; Merge: what a heartbeat makes of
--                     a snapshot, told without the code
--   Grouping          the maps by device that ListStatuses and ListContexts build
--   Ddns              internal/ddns/service.go: Authenticate, the names and the log; Ddns/Update is
--                     Update, which Kept, Steps, Owners, Stored, Hosts and Names of Ddns prove
--   Nsupdate          internal/dns/updater.go: the scripts for nsupdate; Reading is how they are
--                     read, Digits how their numbers are, Run the running of nsupdate over a temporary
--                     file
--   Config            internal/config/config.go; Config/Checked proves it
--   Start             cmd/hermesddns/main.go, before the server listens
--   Api               internal/api. Requests: callerIP, bearerToken and the status codes; Replies:
--                     what the handlers share; Update: ddnsUpdate; Devices: createDevice and
--                     createDomain; AgentRequests and Agents: authenticateAgent and the handlers
--                     behind it; Admin and Admin/Rotations: the handlers of the administration;
--                     Routes and Server: the routes with their middleware. Answers, Created, Access,
--                     Statuses, Permitted and the files of Isolated prove them.
--   Network           internal/networkcontext/service.go. Address: IPv4 addresses and their scopes;
--                     Wan: buildWAN; Input: validateInput; Report: Report and sortContext; Contexts:
--                     Context and ListContexts. The other files prove: Scopes and Ranges about
--                     Address, Flags about Wan, ReportRules, Checks and Valid about Input, Stored,
--                     Replaced and Recorded about Report, Views about Contexts.
--   Domains           internal/database/database.go: EnsureDomains
--   Tests             runs at concrete databases, and the theorems at them
--
-- How the code is read. A method `(s *Service) F(args)` is a definition `f db args now`, with the
-- gorm instance first and the times that it reads from `s.now()` last, in the order of the reads. A
-- time is a natural number of nanoseconds. `tx.Where(..).First`, `Find`, `Count`, `Updates` and
-- `Create` are the fields of `Gorm`; each may fail at any call, and a transaction whose body fails
-- leaves the database as it was. A wrapped error is the error that it wraps. Where a transaction
-- fails, the other results of a method are not modelled, since no caller reads them. Texts are lists
-- of bytes, read as ASCII by ToLower, ToUpper and TrimSpace. Loops over rows are structural, so no
-- fuel is needed; the only fuel is that of the printed numbers, twenty digits, which is enough for
-- every number of 64 bits.
--
-- SHA-256 is a parameter of Keys and of what uses it, and the bytes that rand.Read fills are
-- arguments, `none` where it fails. Ddns/Update takes net.ParseIP, with String, and the Upsert of the
-- DNS updater as functions, and Network/Input what netip.ParseAddr reads as IPv6; netip's IPv4 is
-- written out. Update is no transaction: its statements run one by one, and the failures that the
-- code passes over are passed over.
--
-- A handler is a function from the database to the answer and the database. A request is given with
-- the route that echo chose, what `c.Bind` made of its body and what the clock and the random source
-- give while it is served; what the validator says, echo's BasicAuth, htpasswd and
-- net.SplitHostPort are fields of `Server`. New sets every service, so the tests for nil services
-- are left out. Of the answers the fixed warnings are left out. The columns created_at that some
-- lists are ordered by are not kept, so their orders are given. The ticks of RunReconciler that
-- arrive before its context is done are a list.
--
-- Not modelled: the choice of a route by echo, its Recover, RequestID and Logger; opening and
-- migrating the database; hermesctl, which generates a key and prints it; and
-- legacy/original-source, the program that HERMES came from.
pub mod Common
pub mod Errors
pub mod Gorm
pub mod Model
pub mod Text
pub mod AgentAuth
pub mod Api
pub mod Config
pub mod Credential
pub mod Ddns
pub mod Domains
pub mod Enrollment
pub mod Grouping
pub mod Keys
pub mod Network
pub mod Nsupdate
pub mod Start
pub mod Telemetry
mod Tests
