-- ===== src/Lib.antt =====
-- account-service: a gateway between an application and the Frequency chain. An API takes requests
-- for handles, keys and sign-ups and puts them on a queue; a worker submits them to the chain, follows
-- the chain for their outcome, and posts it to the webhook of the provider. This library models the
-- parts that carry that logic, and proves what makes each of them correct.
--
-- How the parts interact. The publisher takes a job off the queue, asks for capacity and for a nonce,
-- submits one extrinsic and writes its status to the watch list. The notifier is a scanner: it
-- follows the blocks, looks for the watched transactions, posts their outcomes, adds up the capacity
-- that they used, and ends their watch. The publisher reads that sum to keep to its limit. The nonce,
-- the watch list, the used capacity and the last seen block are kept in Redis.
--
--   Nonce       libs/common/src/services/nonce.service.ts (NonceService), lua/incrementNonce.lua
--   Publisher   apps/worker/src/transaction_publisher/publisher.service.ts
--               (TransactionPublisherService); Planning: the extrinsic of a request;
--               Decide: the decision on capacity; Checks: calls of checkCapacity that overlap,
--               from one await to the next
--   Scanner     libs/common/src/utils/blockchain-scanner.service.ts (BlockchainScannerService)
--   Notifier    apps/worker/src/transaction_notifier/notifier.service.ts (TxnNotifierService);
--               Report: the events of one transaction; Send: the posts to the webhook;
--               Interval: the timer of the scans; Interrupted: a
--               block with what jobs write while it awaits
--   Webhook     libs/common/src/services/provider-webhook.service.ts (ProviderWebhookService)
--   Enqueue     libs/common/src/services/enqueue-request.service.ts (EnqueueService)
--   Consumer    apps/worker/src/BaseConsumer.ts (BaseConsumer), libs/common/src/utils/processing.ts
--   Api         apps/api/src/services and apps/api/src/controllers/v1; Controllers: the statuses;
--               SiwfConfig: the configuration of the sign-in
--   Chain       libs/common/src/blockchain/blockchain.service.ts (BlockchainService): the handlers
--               of event results
--   Blockchain  the same file: the connection, the blocks, the epochs of capacity, the owner of a key;
--               Signing: create-keys.ts, extrinsic.ts and event-error.ts beside it, and the calls of
--               polkadot by name
--   Config      libs/common/src/config/env.config.ts and config.service.ts; Schema: the whole schema
--   Startup     apps/worker/src/main.ts and apps/api/src/main.ts: the timers that end a process when
--               Redis stays away, over the events of libs/common/src/utils/redis.ts
--   Worker      apps/worker/src/worker.module.ts: the publisher and the notifier over one Redis, a
--               step for each job, test of the capacity and block, in any order; Keys: who writes
--               which key; Nonces: the nonces along a run; Watch: the watch list as an abstract map;
--               Limit: jobs between two blocks
--   Lifecycle   the publish queue, as registered in apps/worker/src/worker.module.ts and
--               apps/api/src/api.module.ts, from the post of a request to the end of its job:
--               statuses, retries, and the events that the consumer counts by
--   Batch       lua/addToBatch.lua, lua/lockBatch.lua and lua/updateLastProcessed.lua, which the
--               services do not call
--   Journey     the way of one request from the API over the queue and the publisher to the webhook
--   Types       libs/common/src/types, libs/common/src/interfaces
--   Js          promises as outcomes, and `async` methods as functions of a state
--   Redis, Scheduler
--               interfaces of what stands outside the repository, with the documented behaviour as
--               laws, and a store in memory that meets them
--   Decimal     numbers as the texts that Redis holds
--   Common      lists and Boolean tests
--
-- A function of the model has the name of the method that it models. Its state is a record of what
-- the method reads and writes. What the chain, the webhook, the queue and the keyring answer is an
-- argument. An `await` that can be rejected is an `Outcome`, and what was written before it stays.
--
-- Bounds and fuel. The loop over the blocks has no bound in the code; it runs on fuel here, and the
-- theorem on its end says how much is enough. The wait at shutdown, once the worker has closed,
-- runs on fuel too: it makes 20 rounds at most, so 21 are enough. The loop of 50 keys and the
-- retries are structural. All numbers are natural numbers: block numbers, nonces and amounts are
-- below 2 ^ 53 or bigints in the code.
--
-- The nonce of the account is a codec of polkadot. What `Number` and what `+` make of it are two things
-- in Nonce: a number, and a primitive, which may be a text. Nonce/Repeats takes polkadot's integers,
-- whose primitive is their decimal text; the rest of the library takes either.
--
-- Not modelled: the wiring of the framework, generated metadata, and logging. That a rejected
-- `add` of bullmq leaves the queue alone is taken over. What Joi, BigInt, JSON.parse, bullmq,
-- SHA-1 and polkadot, which signs the extrinsics, answer are parameters. The commands of Redis
-- answer as of one moment; that a key expires, or that another client writes, is a step of its own
-- in Worker, `outside`, which may change any key. The webhook test server and the load tests are
-- not part of the services. A job and a block are one step of Worker each; the interleaving of
-- their awaits is modelled for the watch list (Notifier/Interrupted), for scans (Scanner/Overlap)
-- and for tests of the capacity (Publisher/Checks), and not for the rest. In Publisher/Checks the
-- five reads of capacityInfo are one await, and only this process pauses and resumes the queue.
-- Lifecycle has no retry by hand, which the board of the API offers, and no job that stalls.
pub mod Common
pub mod Js
pub mod Decimal
pub mod Redis
pub mod Nonce
pub mod Scheduler
pub mod Webhook
pub mod Scanner
pub mod Types
pub mod Enqueue
pub mod Api
pub mod Chain
pub mod Notifier
pub mod Publisher
pub mod Consumer
pub mod Batch
pub mod Blockchain
pub mod Config
pub mod Startup
pub mod Worker
pub mod Journey
pub mod Lifecycle
