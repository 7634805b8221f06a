-- ===== src/Lib.antt =====
-- The Manbaa backend (a NestJS service over PostgreSQL, NATS and Redis): its own logic, modelled.
--
-- Parts, and the files that model them:
--   - Base, Exec: shared helpers. `Exec S A` is a method that reads and writes a state and may throw;
--     the state comes back beside the exception too, so that what is written before a throw is
--     visible. Exceptions carry the fixed text or the code of the source; what a message interpolates
--     is left out.
--   - Repository: what the services use of a TypeORM repository, as a record of operations and laws
--     that every service takes as a parameter; Repository/Assoc shows that the laws can hold.
--   - Json: values as they come out of `JSON.parse`.
--   - Messaging/DomainEvent: `assertDomainEvent` of src/core/messaging/domain-event.ts.
--   - Session: src/modules/sessions. Session/Fsm is the table of session-fsm.ts with
--     `transitionSessionStatus` and `canTransitionTo`; Session/Service is sessions.service.ts, method by
--     method; Session/Service/Commands gathers the methods that change a session. Calls of other
--     services are effects, in the order in which they are made, the call of the AI gateway also where it fails.
--   - Source: src/modules/sources/source-lifecycle.service.ts. Source/Transition is `applyTransition`,
--     Source/Payload `assertPayload`, and Source/Lifecycle `handle` with its transaction (`commit`) and
--     the realtime messages after it. What other handlers do between the first read of a receipt and
--     the transaction is an argument of `handle`.
--   - Application: src/modules/applications/applications.service.ts, method by method, on the tables of
--     applications and versions and with the audit log as a list; Application/Service/Commands gathers
--     the methods that change an existing application.
--   - Schema: src/modules/applications/schema-validator.ts. Schema/Scan is `scanForDangerousValues`,
--     Schema/Nodes `validateComponentNode`, Schema/Validate `validateApplicationSchema`, which the
--     application service calls. The functions recur on the value itself, so no fuel is needed; the
--     limits are those of the source (200 pages, 5000 nodes, a depth of 20).
--   - Outbox: src/modules/outbox/outbox-publisher.service.ts, on the table in the order of `created_at`:
--     a claim of at most 20 events, a lease of 60 seconds, 8 attempts; and `create` of outbox.service.ts
--     in Outbox/Creation, up to the write of the row.
--   - Workspace: src/modules/workspaces/workspace-permission.service.ts.
--   - Canvas: src/modules/canvas/services/canvas.service.ts. Canvas/Service holds its helpers,
--     Canvas/Service/Objects the methods on objects, Canvas/Service/Operations `createOperation` with what
--     other calls do between its first read and its transaction, Canvas/Service/Commits snapshots and
--     commits. Canvas/Service/Log specifies what may happen to the log of operations.
--   - Rules: src/modules/rules/rules.service.ts. Rules/Conflict is the test for contradictions, Rules/Service
--     the methods on one rule, Rules/Service/Import `importRules` with the cache of active rules;
--     Rules/Service/Changes specifies what may happen to the rules and their versions. `trim` and
--     `JSON.stringify` are parameters, and so is the order in which a `jsonb` column gives back the properties
--     of a condition.
--   - Comments: src/modules/comments/services/comments.service.ts. Comments/Service holds the methods,
--     Comments/Service/Threads what may happen to the threads. The query for the latest version of a
--     workflow and the floating-point percentage are parameters.
--   - InternalAuth: src/core/internal-auth/internal-service-token.service.ts, with `markOnce` of
--     src/infra/redis/redis.service.ts. The package for JWT and Redis are records of operations and laws,
--     and InternalAuth/Samples shows that the laws can hold.
--   - Usage: src/modules/usage/usage.service.ts: reservations, their settling and the totals.
--   - Jobs: src/modules/jobs/ai-task-events.service.ts. Jobs/Rows holds the rows that a report makes, Jobs/Events
--     `handle` with the methods it calls; Jobs/Edges is the diagram of the statuses.
--   - Preview: the AI previews of a canvas. Preview/Coordinator is canvas-ai-preview-coordinator.service.ts
--     of src/modules/canvas/services with the timers of its clock, Preview/Suggestions
--     canvas-ai-suggestion.service.ts.
--
-- How they interact: the application service validates each schema before it is stored; the canvas asks
-- the workspace permissions whether its caller may change it; a report on a task validates its token,
-- settles the reservation of the task and makes a suggestion for its canvas; the session
-- service and the source lifecycle read and write rows through Repository; both sources of events
-- (NATS messages for the lifecycle, rows of the outbox for the publisher) may repeat an event, which
-- the lifecycle answers with its receipts and the publisher with its leases.
--
-- The calls of a service run one after the other, each to its end, except where what other calls do in between
-- is an argument, as in `handle` of the source lifecycle and `createOperation` of the canvas.
--
-- Numbers are natural numbers: versions, revisions, attempts and times never go below zero in the
-- code, and stay far below 2^53. Ids that `uuid` or the database makes, and the time, are arguments.
--
-- Not modelled: HTTP controllers and DTO decorators, NATS, Redis, Socket.IO and object storage, JWT
-- and password hashes, logging, migrations but for one foreign key, and a failure of the database, of
-- the audit log or of NATS, except that the AI gateway may refuse a task and that an operation of a
-- canvas may not refer to an object that is gone. Regular expressions, `uuid.validate` and
-- `Date.parse` are parameters, and so is the verification of a token in the source lifecycle. The
-- numbers in a worker's report are taken to be natural numbers; a property that is not of the type
-- that the service casts it to is read as missing, while the service would pass it on. The making of
-- an AI preview (canvas-ai-preview.service.ts) and the serializer of its snapshots, the tasks that a
-- user creates or cancels, the selection of rules for a session and their simulation, the injection of
-- comments into the AI, and the other modules (workflows, skills, the upload of sources and others)
-- are not modelled.
pub mod Application
pub mod Base
pub mod Canvas
pub mod Comments
pub mod Exec
pub mod InternalAuth
pub mod Jobs
pub mod Json
pub mod Messaging
pub mod Outbox
pub mod Preview
pub mod Repository
pub mod Rules
pub mod Schema
pub mod Session
pub mod Source
pub mod Usage
pub mod Workspace
