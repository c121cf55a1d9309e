-- ===== src/Lib.antt =====
-- A model of the parts of megaraid_dashboard that decide: what counts as an event, who is told about
-- it, how often, and who may try a password. The program collects a snapshot of a RAID controller
-- with storcli, compares it with the last stored one, stores the events, and mails the ones that are
-- grave enough; a web application shows the state behind HTTP basic authentication.
--
-- The parts and the files that model them (paths from the repository's root):
--   Storcli.Models   src/megaraid_dashboard/storcli/models.py and db/models.py: the records of a
--                    snapshot, with the fields that the rules read; `insert_snapshot` of db/dao.py
--                    as the row that it stores.
--   Storcli.States   storcli/states.py: the canonical spelling of firmware states.
--   Storcli.Commands the allow-list and the JSON flag of storcli/runner.py, on the words of a command.
--   Storcli.Policy   `CommandPolicy` of storcli/policy.py: the check of an operator's policy, and what a
--                    checked policy permits.
--                    Actions: the commands that it approves for an action of the pages, and the refusal
--                    of a replacement unless all of its steps are approved.
--                    Concrete: what the tests on a command's words mean.
--   Storcli.Json     the values of `json.loads`. Parser: the status of a response and the drive that it
--                    shows, of storcli/parser.py, with the exceptions as values; Controller: the identity
--                    of the controller; Foreign: a foreign configuration and its digest. Responses: the
--                    schemas of storcli/runner.py as tests.
--   Storcli.Prewrite storcli/prewrite.py: the topology of the live controller, the drives, and the
--                    proof that no rebuild runs (Idle).
--   Storcli.Runner   `check_storcli_prewrite` and `run_storcli` of storcli/runner.py. Foreign:
--                    `check_foreign_safety` of storcli/prewrite.py. Dispatch: the run of one command, which
--                    passes on the commands that were dispatched. What the runner meets is the record
--                    `Machine`: the answers of the processes, the policies that are loaded at each time,
--                    the checks of the binary, the caller's last check, and the SHA-256 of a response as
--                    JSON.
--   Services.Events  `DetectedEvent` and the severities of states, from services/event_detector.py.
--   Services.EventDetector
--                    `EventDetector` of services/event_detector.py, a child module for each kind of
--                    event: Temperature, Roc, VirtualDrives, PhysicalDrives, CacheVault,
--                    ForeignConfig; Detect composes them as `detect` does. The instance's fields are
--                    the record `EventDetector`, and `detect` returns its next value with the events.
--   Services.Health  services/drive_health.py and services/controller_health.py.
--   Services.DiskMonitor
--                    services/disk_monitor.py, from the measured free space on.
--   Services.Notifier
--                    services/notifier.py with its queries of db/dao.py: one cycle over the table of
--                    events, a list of rows. The transport is a parameter, a function from an event
--                    to whether its message was accepted; the cycle's
--                    outbox holds the accepted ones only.
--   Services.Telegram
--                    the second channel. Messages: the identity of an incident, of
--                    services/telegram_messages.py. Relevance, Recovery, Superseded and Decision:
--                    whether a queued alert still stands, of services/telegram_relevance.py, over the
--                    tables as lists. Cycle and Run: the delivery rows, one candidate and a whole
--                    cycle of services/telegram_notifier.py. The clock and the transport's answers are
--                    a function from the event that is handled; the delay that a refusal carries goes
--                    through `TelegramSendError` of alerts/telegram.py.
--   Services.EventPages
--                    services/events.py: the query of a page of the list of events, its checks, filters
--                    and cursor.
--   Services.Collector
--                    `run_once` of services/scheduler.py from a collected snapshot on: the latest row,
--                    the table of temperature states of db/dao.py and the detector.
--   Services.ObservationHealth
--                    services/observation_health.py: the warning on stale data.
--   Db.Retention     db/retention.py: the hourly and daily metrics as association lists by their unique
--                    key, and what the pruning keeps. Grouping is the dictionary of accumulators.
--   Services.DriveActions
--                    services/drive_actions.py: the command builders, over signed integers, and the
--                    guards (Guards). A builder's `ValueError` is `none`. Rebuild: the report on a rebuild.
--   Web.Replace      the replacement of a drive in web/routes.py. Steps: `offline` and `missing`. Insert:
--                    the third step. Topology: `_compute_slot_topology`. A request meets a record of
--                    what the database and the controller answer, and its response holds the status,
--                    the commands handed to `run_storcli` and the audit log after it, newest first.
--                    The database lists events by time; the log takes the clock as never going back.
--                    The error texts of the responses are abbreviated.
--   Web.Auth         web/auth.py and web/_whitelist.py on lists of bytes, with the base64 and the UTF-8 that
--                    it uses (Base64); Client is what a client sends, Admin what an accepted header stands for.
--                    bcrypt is a parameter.
--   Web.Prefix       web/middleware.py.
--   Web.Stack        the layers of app.py around the router, one request at a time: the prefix, the limiter,
--                    the authentication, web/csrf.py and web/security_headers.py. The router, bcrypt, the
--                    parsing of cookies and the token are the parameters `Outside`; the client's address
--                    is a field of the request.
--   Web.RateLimit    web/rate_limit.py: the limiter's deques for each client, and the calls of the
--                    middleware as sequences of steps, since each takes the lock for one operation.
-- Prelude holds what the parts share: Boolean tests, texts and their scanning, signed integers, lists
-- and dictionaries. Tests holds concrete runs.
--
-- How the parts interact: the detector reads the row of `insert_snapshot` as the previous snapshot,
-- and the severities of Services.Events are the ones the notifier ranks; the health of a drive uses
-- the same normalised states as its events. The collector loads the detector's temperature states
-- before a cycle and stores the updates after it. The Telegram channel reads the temperature states and
-- the snapshots that the detector's cycle stored, and keeps rows of its own.
--
-- Bounds and fuel. The temperature loop of `_temperature_transitions` (`while True`) runs on three
-- passes: with the thresholds that config.py admits it makes at most two moves and one final pass,
-- and running out of fuel is the value `none`, so that a result shows that the fuel was enough.
-- `decimal` runs on more fuel than the number has digits. All other recursion is structural.
--
-- Numbers and texts. Identifiers, slots and counters are ℕ; temperatures are signed. Times are whole
-- microseconds in Web.RateLimit, Services.Notifier, Services.Telegram and Services.EventPages, and
-- seconds in Services.DiskMonitor and Db.Retention, where the source has floats of a monotonic clock
-- or `datetime`. The subtraction of a window from the present is written as an addition on the other
-- side, so that it does not stop at 0; Db.Retention subtracts a retention that is shorter than the
-- time since 1970. `casefold` is that of ASCII, digits are ASCII, and a dictionary keeps the order of
-- its first insertions.
--
-- Not modelled: most HTTP routing and templates, the client's address behind a proxy, the parsing of
-- storcli's inventories, the SQL of the database beyond the queries named above, logging, the locks on
-- files, the texts of mails and messages, the outage events of the collector, the records of failed
-- collections, and the fields of the snapshot that no rule reads. The exceptions of the transport are
-- its refusal.
mod Prelude
pub mod Db
pub mod Storcli
pub mod Services
pub mod Web
pub mod Tests
