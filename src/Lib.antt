-- ===== src/Lib.antt =====
-- The back end of the Cloud Ops Tool: ticketing, monitoring, cost, signing in, events and notifications
-- (apps/api/src).
--
-- The program is a NestJS service over PostgreSQL. Every operation runs in one transaction of one
-- tenant (`withTenantContext`), whose row-level security shows it the rows of that tenant only. The
-- development models an operation as a function on the tables (`Base.Results.Tx`): it reads them,
-- changes them and returns a result, or throws, which rolls back. Tables are lists of records in the
-- order in which rows were inserted; an instant is a number of milliseconds; identifiers that the
-- database generates, the current time and the tenant are arguments.
--
-- Parts and files (paths from the repository's root):
--
--   * Base: equality tests, lists, sorting, transactions, tables (SELECT, INSERT and UPDATE), and
--     UPDATEs in a loop over the rows that a SELECT has returned.
--   * Ticketing.Db: the tables of apps/api/src/database/migrations that ticketing reads and writes.
--   * Ticketing.Automation: rules, their conditions and actions, run when a ticket is created or
--     updated (`runRules`) and by the timer (`sweepTenant`), of apps/api/src/modules/ticketing/
--     automation/{apply-action,automation-rules.service,time-automation-sweep.service}.ts. Engine has
--     the operations, Effects what one action changes, Audit and Runs the timeline, Resolved the
--     resolution time. Rules has the creation, change and removal of rules, Timed is about the rules
--     that the timer runs.
--   * Ticketing.Assignment: `pickAssignee` with its strategies, of apps/api/src/modules/ticketing/
--     assignment/assignment.service.ts. Fairness is about turns, Load about the number of open
--     tickets, Eligible about all strategies.
--   * Ticketing.Overdue: the sweep for breached SLA targets, of apps/api/src/modules/ticketing/sla/
--     overdue-sweep.service.ts, in which two instants of one pass (`now()` of the transaction and
--     `new Date()` of the loop) are taken as one. Marks and Once are about what it reports and marks.
--   * Ticketing.Sla: apps/api/src/modules/ticketing/sla/{business-hours,calculate-due-dates}.ts. Days is
--     about the search for the next working day, Loop and Due about the minutes.
--   * Ticketing.Values and Ticketing.Fields: the values of custom fields and `validateCustomFields` of
--     apps/api/src/modules/ticketing/custom-fields/custom-field-validate.ts. Stored and Typed are about
--     its result, Fault and Faults about its errors. Service has the definitions of custom-fields.service.ts, Keys is about their keys.
--   * Ticketing.Tickets: `create`, `update`, `addMessage` and `list` of
--     apps/api/src/modules/ticketing/tickets.service.ts, with the tables of
--     Ticketing.Directory. Checks and Create have the creation, Patch and Update the change of a
--     ticket, Messages the conversation, Responses the first response, Listing and Pages
--     the list. Steps, Created and Written say what a committed transaction has done;
--     Numbers, Ownership, Timeline, Changed, Audited and Settled are about ticket numbers, the tenant
--     of what a ticket refers to, the timeline and the resolution time. They use the automation and
--     the assignment of above.
--   * Ticketing.Merge: `TicketsService.merge` of apps/api/src/modules/ticketing/tickets.service.ts.
--   * Ticketing.Links: apps/api/src/modules/ticketing/ticket-links/ticket-links.service.ts; Duality is
--     about both ends of a link.
--   * Ticketing.Timers: one tick of a sweep's timer over all tenants (`runSweepOnce`).
--   * Ticketing.Intake: `processInboundEmail` of apps/api/src/modules/ticketing/email-intake/
--     process-inbound-email.ts. Reference reads back the number that a subject carries, Threads is
--     about the ticket that an answer comes back to.
--   * Monitoring.Metrics: apps/api/src/modules/monitoring/metric-alert-rule.ts.
--   * Monitoring.Alerting: `evaluate` and `applyToDatabase` of apps/api/src/modules/monitoring/
--     alert-evaluation.service.ts. Evaluate judges the recorded checks, Service has the transaction;
--     Debounce, Repeats, OneActive and Races are about them.
--   * Monitoring.Lifecycle: apps/api/src/modules/monitoring/alerts.service.ts.
--   * Monitoring.Escalation: the sweep of apps/api/src/modules/monitoring/
--     escalation-sweep.service.ts; Steps is about which steps fire.
--   * Monitoring.Agents: apps/api/src/modules/monitoring/agent-tokens.service.ts and
--     agent-token.guard.ts. Queries and Switch follow one row through the calls of the service,
--     Revocation says when the guard lets a token in.
--   * Cost.Pace: `calculateBudgetPace` of apps/api/src/modules/cost/cost-pace.ts. Monotone compares the
--     judgements of two amounts.
--   * Platform.Totp: apps/api/src/modules/platform/auth/totp.ts. Secret is about base32, Window about the
--     codes that are accepted.
--   * Platform.Redis: the commands on keys that the program sends to Redis. Platform.Security: the
--     functions of apps/api/src/modules/platform/auth/auth-security.ts and of
--     monitoring/ingest-rate-limit.ts over them. Hits is about one count, Windows about the throttle of
--     logins, Revoked about the marker of a revocation.
--   * Platform.Jwt and Platform.Guards: apps/api/src/modules/platform/auth/jwt.ts and the guards
--     platform/http/{tenant-header,roles}.guard.ts and ticketing/portal/portal-auth.guard.ts; Sessions
--     is about revoked sessions.
--   * Platform.Accounts and Platform.Mfa: apps/api/src/modules/platform/auth/{auth,mfa}.service.ts.
--     SignedIn is about `login`, which uses the throttle, the one-time passwords and the tokens; Reset
--     is about `resetPassword`, which revokes sessions.
--   * Events.Bus: `publish` and the loop of apps/api/src/event-bus/event-bus.service.ts; Delivery is
--     about what comes to the handler. Events.Notifications: `enqueue` of apps/api/src/notifications/
--     notifications.service.ts and the handler of notification-dispatcher.service.ts, which the bus
--     connects; Settled is about both.
--   * Ticketing.Tests, Ticketing.Sla.Tests, Monitoring.Tests, Cost.Tests, Platform.Tests,
--     Events.Tests: the operations on small tables.
--
-- Two transactions may interleave between their statements. Where that matters, an operation takes
-- two states: the snapshot that its SELECTs have seen and the tables that its UPDATE or INSERT meets.
--
-- Loops are structural recursion over the rows that a query returned. The two loops of business hours
-- run on fuel: a week of days in the search for a working day, which is enough if one day of the week
-- is one, and one round more than there are minutes to add, since every round but the last consumes at
-- least one. Where that is too little, the loop of the program does not end; the DTO of the settings
-- (business-hours-settings.dto.ts) admits only the days 0 to 6.
--
-- Parameters, which stand for code that the repository does not contain: operations on text over
-- Unicode (`TextOps`), doubles (`Double`), the calendar of `Intl` and `Date` (`Calendar`), the
-- library that cleans HTML (`Html`), JavaScript's
-- conversions of values and the prototype of objects (`Conversions`), the conversion of a number to
-- text, the order of identifiers in SQL and of `localeCompare`, Redis (`Redis`, `Stream`), JSON
-- (`Json`, `Payloads`), the library for tokens (`JsonWebToken`), the cryptography of the runtime and of
-- the database (`Crypto`), characters (`Characters`) and the transports of notifications
-- (`Transport`), the parser of mails (its result is `ParsedMail`) and the text operations of the intake
-- (`MailText`). What Redis, JSON, the tokens and the characters are taken to do is stated by the
-- records of laws beside them. The commands that one call sends to Redis see one instant; a command
-- that fails is modelled in the limit of ingestion only, where the code catches it.
--
-- Identifiers are in the canonical spelling of the type uuid, in small letters: a request that spells one
-- otherwise is outside the model.
--
-- Not modelled: the HTTP layer, the wording of notes and notifications, the network calls that follow
-- a commit (they are values of a type of effects), and the user interfaces.
pub mod Base
pub mod Ticketing
pub mod Monitoring
pub mod Cost
pub mod Platform
pub mod Events
