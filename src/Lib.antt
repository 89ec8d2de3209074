-- ===== src/Lib.antt =====
-- A model of CAP for Node.js: the transactional outbox and the inbox of a message broker client, the engine that
-- moves messages through them (libs/cap-core), and packages around it: the RabbitMQ subscriber, the messages of the
-- AWS transport, the outbox storages on Prisma, Knex, TypeORM and MikroORM, and the dashboard's service; and the tools
-- that order the workspace's packages. A message that is published is first saved in
-- the outbox; a dispatcher claims saved messages under a lease, gives them to the broker and marks them. A message
-- that arrives is first saved in the inbox, once for each group; then the subscription's handler is called, and what
-- failed is retried until it is a dead letter. The dashboard lists both storages, and retries, marks and flushes by
-- hand.
--
-- Files, with the code that each is about (paths under libs/cap-core/src, where none is given from libs on):
--   Model          models/*.ts and the option types of ports/*.ts
--   JsValue        JavaScript values as the code inspects them; utils/error.util.ts
--   JsMap          the `Map` of JavaScript (JsMap/Laws: what each write does to each key)
--   Outbox         testing/in-memory-publish-storage.ts, one function for each method; Outbox/Admin has the
--                  snapshot and the listing. Proofs: Valid (the invariant), Claims and Claimed (what a claim
--                  takes), Ownership (leases and fencing), Retry, Reports
--   Inbox          testing/in-memory-received-storage.ts; Inbox/Admin has the snapshot and the listing. Proofs:
--                  Dedupe, Due (the retry batch), Retry, Reports
--   Backoff        engine/backoff.ts (Bounds: the delays)
--   Envelope       utils/cap-message-envelope.util.ts; Envelope/Json has `isJsonValue`. Proofs: RoundTrip, Validity
--   Subscriptions  the subscription lifecycle of engine/cap-engine.ts (`registerSubscription`,
--                  `startSubscriptions`, `stopSubscriptions`, `subscribe`); Events has the steps. Proofs:
--                  Invariant, Startup, Shutdown, Keys, Races
--   Engine         the message paths of engine/cap-engine.ts. Engine/Outgoing: `publish`, `emitPersistedEvent`,
--                  `emitClaimedOutboxEvent`, `renewClaim`, `dispatchOutboxBatch`, with
--                  utils/active-lease-heartbeat.util.ts (Frame, Delivery, Batch and Publish have the proofs).
--                  Engine/Incoming: the consume callback, `persistReceived`, `tryHandle`, `retryReceived`,
--                  `retryInboxBatch`, with utils/dedupe-key.util.ts and utils/cap-message-id.util.ts (Handler,
--                  Delivery and Batch have the proofs). Engine/Administration: `requeueInbox`, `requeueOutbox`,
--                  `getMessagingSnapshot` and `resolveSchedulerOptions` (Requeues has the proofs)
--   Scheduler      engine/cap-scheduler.ts: timers and runs as a transition system (Invariant: what it keeps)
--   Effect         asynchronous code that ends with a value or with a thrown one
--   Text           the text operations that transports and dashboard use
--   Transactions   utils/operation-context.util.ts, the resolution of a publication's context in
--                  engine/cap-engine.ts, and utils/transaction.util.ts (PostCommit: what is delivered)
--   Rabbit         libs/cap-transport-rabbitmq/src: rabbitmq-config.ts. Rabbit/Topics, Delivery and Session have
--                  rabbitmq-subscriber.ts (topic patterns, deliveries, the connection), Rabbit/Retry has
--                  rabbitmq-retry.ts. Proofs: Settlement, Session/Called, Session/Restore,
--                  Session/Connect, Session/Consume
--   Sql            UPDATE statements as data, and what a database is taken to do with them; Sql/Operations has the
--                  calls of an outbox storage and their runs (Rows: an UPDATE by a key as a write to a map;
--                  Snapshots: those of the four storages)
--   Prisma         libs/cap-storage-prisma/src/prisma-publish-storage.ts. Proofs: Refines and Runs (against the
--                  in-memory storage), Claims. Prisma/Reports: its snapshot and listing. Prisma/Received: writes of
--                  prisma-received-storage.ts (LostUpdate: failures that overlap)
--   Knex           libs/cap-storage-knex/src/knex-publish-storage.ts; Knex/Reports has its snapshot and listing.
--                  Proofs: Runs (against Prisma and the in-memory storage)
--   TypeOrm        libs/cap-storage-typeorm/src/typeorm-publish-storage.ts. Proofs: Runs (against the in-memory
--                  storage), Snapshots
--   Mikro          libs/cap-storage-mikro-orm/src/storage/mikro-publish-storage.ts. Proofs: Runs (against the
--                  in-memory storage), Claims
--   Aws            libs/cap-transport-aws-sns-sqs/src: `encodeMessageAttributes` of aws-sns-publisher.ts, and
--                  `decodeMessage` of aws-sqs-subscriber.ts (RoundTrip, with Attributes: what is
--                  written, and Arrival: what is read of it); Aws/Polling: the messages of a batch of its
--                  `startPolling` (Prefix: what a batch settles)
--   Dashboard      libs/cap-dashboard-core/src/dashboard.service.ts. Dashboard/Redaction: what is shown of a
--                  message (Hidden and HeaderNames have the proofs). Dashboard/Flush: `flushOutbox`, with
--                  internal/active-lease-heartbeat.ts of that package (Counts). Proofs: ReadOnly
--   Tools          tools/workspace-packages.js: Graph (`buildWorkspaceGraph`, with its search for cycles in Search)
--                  and Order (`sortWorkspacePackages`), Identities (`validatePackageIdentities`) and Workspace
--                  (`validateLockfile`, `validateWorkspacePackages`); tools/affected-validation.js: Closure
--                  (`transitiveClosure`, `packageForPath`, `orderedNames`); Names has lists of names as sets. Proofs:
--                  Search/Explored, Finished and Acyclic, Graph/Linked, Ranks and Built, Order/Counts, Loop and Sorted,
--                  Identities/Accepted, Workspace/Validated, Closure/Reached
--   Tests          the theorems at concrete inputs
-- Function names are the source's, in snake case; a record's fields are those of the interface.
--
-- How the code is read:
--   - An instant is its milliseconds since the earliest date that JavaScript represents; an ISO text such as
--     `occurredAt` is the instant that it denotes. Counts and durations are natural numbers.
--   - A `Map` is an association list in insertion order. An absent, null or undefined field is `none`.
--   - The storages are pure state passing. The engine's methods are computations on a `World` (the two storages,
--     what was emitted, which handlers were called, the diagnostics) that end with a value or a thrown one.
--     What the engine does not decide is the `Environment`: the clock, new ids, random parts, the answers of the
--     broker and of the handlers, storage calls that reject, the number of heartbeats, and what other processes
--     write between two calls. It is asked at numbered moments, so that each answer may differ from the last.
--   - The subscription lifecycle is a transition system: a method runs to its first `await`, and each later step
--     is the event that a promise has settled, so that any interleaving is a list of events.
--   - `localeCompare` and `String(v)` of a value that is no text, number or truth value are parameters.
--   - A SQL database is a parameter that executes statements. The theorems take its documented behaviour as a
--     hypothesis: an UPDATE writes to the rows that match and reports how many they are; its expressions read the
--     row as it was, but with MySQL what the assignments to their left wrote; a SELECT returns rows that match.
--   - A RabbitMQ broker is a parameter that is asked at numbered moments whether a call rejects. Methods of the
--     subscriber run one after the other.
--   - `JSON.parse`, `Number` and `toISOString` are parameters of the AWS transport's messages, as are its queue, its
--     handler and the moment of a stop; a `Host` and `Paths` answer for paths, files and semantic
--     versions in the tools.
--   - A redaction path of the dashboard names own properties of objects and indices of arrays. A path with a name that
--     objects inherit, or that ends in the `length` of an array, is outside the model, and with it what it throws.
--   - MikroORM's `find` and `flush` are parameters; the theorems take as a hypothesis that a flush writes the changed
--     entities, and that GROUP BY gives one row for each status.
--   - Every loop is recursion on a list, on the number of heartbeats, or on the number of attempts left, which the
--     options give, but for three on fuel: the search for cycles, as deep as there are packages and one more, the
--     ordering, with a round for each package, and the closure, with a round for each seed and each name of the
--     edges. Each is proved to be enough.
--
-- Not modelled: log lines; the engine over storages other than the in-memory ones, and so `savePublishWithTx`;
-- transaction managers, the local bus and the test doubles of publisher and subscriber; the other methods of the
-- inbox storage on Prisma, the inbox storages on Knex, TypeORM and MikroORM; the RabbitMQ publisher, the setup and the close of AWS queues, and the other transports; the other
-- tools; the Nest and Express bindings, which adapt libraries that are not part of the repository.
pub mod Prelude
pub mod JsMap
pub mod JsValue
pub mod Model
pub mod Outbox
pub mod Inbox
pub mod Subscriptions
pub mod Backoff
pub mod Envelope
pub mod Effect
pub mod Text
pub mod Engine
pub mod Scheduler
pub mod Transactions
pub mod Rabbit
pub mod Sql
pub mod Prisma
pub mod Knex
pub mod TypeOrm
pub mod Mikro
pub mod Aws
pub mod Dashboard
pub mod Tools
pub mod Tests
